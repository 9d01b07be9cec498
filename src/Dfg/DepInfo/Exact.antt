-- ===== src/Dfg/DepInfo/Exact.antt =====
-- What the descriptors of tasks say after the assignment loops.
use he_mai_a.Prelude.{
  ℕ, ◌≤◌, ◌≡◌, refl, sym, ap, ◌∙◌, Bool, true, false, List, [], ◌∷◌, arith, map, length, Bool-cases,
  inl, inr, subst, ok, ◌⊎◌, ◌↔◌, ◌&&◌,
}
use he_mai_a.Prelude.Members.{contains, IsDistinct}
use he_mai_a.Node.{BingoNode, is_dummy}
use he_mai_a.Graph.{or_none, or_false, DiGraph}
use he_mai_a.Dfg.{Config, Dfg}
use he_mai_a.Dfg.Moves.{IsBounded}
use he_mai_a.Dfg.DummySets.{bingo_transform_dfg_add_dummy_set_nodes}
use he_mai_a.Dfg.DummySets.Correct.{direct, dummy_sets-ok}
use he_mai_a.Dfg.DummyChecks.{unchecked, bingo_transform_dfg_add_dummy_check_nodes}
use he_mai_a.Dfg.DummyChecks.Moves.{InUse}
use he_mai_a.Dfg.DummyChecks.Loops.{contains-waited_for, contains-unchecked, unchecked-IsDistinct}
use he_mai_a.Dfg.DummyChecks.Correct.{dummy_checks-ok}
use he_mai_a.Dfg.DepInfo.{
  checks_of, bingo_assign_normal_node_dep_check_info, sets_of,
  bingo_assign_normal_node_dep_set_info,
}
use he_mai_a.Dfg.DepInfo.Assigned.{new_sets, new_checks, set_info_lem, check_info_lem}

abbrev pub has_items : List ℕ → Bool
has_items [] = false
has_items (x ∷ xs) = true

module _ (nx : DiGraph) (c : Config) where
  open nx use {Graph, nodes, predecessors, edge_data}

  -- The task signals the tasks of the list, and nobody else.
  abbrev pub Signals : Dfg Graph → BingoNode → List ℕ → Type 0
  Signals s node vs =
      (node.dep_set_enable ≡ has_items vs)
      × (node.dep_set_list ≡ map (λ v. (s.heap v).assigned_core_id) vs)
      × ((v : ℕ)
          → contains vs v ≡ true
          → (node.dep_set_chiplet_id ≡ (s.heap v).assigned_chiplet_id)
            × (node.dep_set_cluster_id ≡ (s.heap v).assigned_cluster_id))

  sets_of-Signals :
      (s : Dfg Graph) (r : ℕ) (vs : List ℕ) → length vs ≤ 1 → Signals s (sets_of nx c s r vs) vs
  unfolding sets_of
  sets_of-Signals s r [] h = (refl, refl, λ v m. absurd (ground arith))
  sets_of-Signals s r (v ∷ []) h = (
    refl,
    refl,
    λ w m.
        let same : v ≡ w = ground arith in
        subst
          (λ x.
            ((s.heap v).assigned_chiplet_id ≡ (s.heap x).assigned_chiplet_id)
            × ((s.heap v).assigned_cluster_id ≡ (s.heap x).assigned_cluster_id))
          same (refl, refl),
  )
  sets_of-Signals s r (v ∷ w ∷ vs) h = absurd (omega arith)

  -- When dummy sets have been added to a graph whose nodes are objects in use, the loop that assigns the
  -- set information gives each task, dummy nodes aside, the core, cluster and chiplet of the one task
  -- that it still signals itself, or no signal where there is none.
  pub set_info-exact :
      (s : Dfg Graph)
      → IsBounded nx s
      → (t : Dfg Graph) × (bingo_transform_dfg_add_dummy_set_nodes nx c s ≡ ok t)
        × ((w : ℕ)
            → contains (nodes s.graph) w ≡ true
            → is_dummy (t.heap w).node_type ≡ false
            → Signals t ((bingo_assign_normal_node_dep_set_info nx c t).heap w) (direct nx c t w))
  unfolding new_sets
  set_info-exact s b =
      let (t, eq, few) = dummy_sets-ok nx c s b in
      (
        t,
        eq,
        λ w m task.
            let signals = sets_of-Signals t w (direct nx c t w) (few w m).1 in
            let value : (bingo_assign_normal_node_dep_set_info nx c t).heap w
                ≡ sets_of nx c t w (direct nx c t w) =
              (set_info_lem nx c t).1 w (few w m).0 ∙ (rw task refl) in
            subst (λ n. Signals t n (direct nx c t w)) (sym value) signals,
      )

  checks_of-lem :
      (s : Dfg Graph) (r : ℕ) (ps : List ℕ)
      → ((checks_of nx c s r ps).dep_check_enable ≡ has_items ps)
        × ((checks_of nx c s r ps).dep_check_list ≡ map (λ p. (s.heap p).assigned_core_id) ps)
  unfolding checks_of
  checks_of-lem s r [] = (refl, refl)
  checks_of-lem s r (p ∷ ps) = (refl, refl)

  -- A task waits for a predecessor if their edge does more than order descriptors, and if the
  -- predecessor is not a dummy task that checks.
  abbrev pub WaitsFor : Dfg Graph → ℕ → ℕ → Type 0
  WaitsFor s w p =
      (contains (predecessors s.graph w) p ≡ true)
      × (or_false (or_none (edge_data s.graph p w)).descriptor_sequence ≡ false)
      × ((is_dummy (s.heap p).node_type && (s.heap p).dep_check_enable) ≡ false)

  contains-unchecked_iff :
      (s : Dfg Graph) (w p : ℕ) → (contains (unchecked nx s w) p ≡ true) ↔ WaitsFor s w p
  contains-unchecked_iff s w p =
      ground (arith, contains-unchecked nx s w p, contains-waited_for nx s w p)

  -- The task checks the cores of the predecessors that it waits for, each of them once, and its check
  -- is enabled if there are any.
  abbrev pub Checks : Dfg Graph → ℕ → BingoNode → Type 0
  Checks s w node =
      (ps : List ℕ) × IsDistinct ps
      × ((p : ℕ) → (contains ps p ≡ true) ↔ WaitsFor s w p)
      × (node.dep_check_enable ≡ has_items ps)
      × (node.dep_check_list ≡ map (λ p. (s.heap p).assigned_core_id) ps)

  checks_of-Checks : (s : Dfg Graph) (w : ℕ) → Checks s w (checks_of nx c s w (unchecked nx s w))
  checks_of-Checks s w =
      let says = checks_of-lem s w (unchecked nx s w) in
      (unchecked nx s w, unchecked-IsDistinct nx s w, contains-unchecked_iff s w, says.0, says.1)

  -- The loop that assigns the check information gives each task of the graph, dummy nodes aside, the
  -- cores of the predecessors that it waits for, one entry for each of them and no other: those with
  -- an edge that is not a mere descriptor sequence which are not dummy tasks that check. Its check is
  -- enabled exactly if there is such a predecessor. The graph, and dummy nodes, stay as they are.
  pub check_info-exact :
      (s : Dfg Graph)
      → let t = bingo_assign_normal_node_dep_check_info nx c s in
        (t.graph ≡ s.graph)
        × ((w : ℕ)
            → contains (nodes s.graph) w ≡ true
            → ((is_dummy (s.heap w).node_type ≡ true) × (t.heap w ≡ s.heap w))
              ⊎ ((is_dummy (s.heap w).node_type ≡ false) × Checks s w (t.heap w)))
  unfolding new_checks
  check_info-exact s =
      let (g, all, out) = check_info_lem nx c s in
      (
        g,
        λ w m. elim (Bool-cases (is_dummy (s.heap w).node_type)) [
          | inl e ↦ inl (e, all w m ∙ (rw e refl))
          | inr e ↦
              let value : (bingo_assign_normal_node_dep_check_info nx c s).heap w
                  ≡ checks_of nx c s w (unchecked nx s w) =
                all w m ∙ (rw e refl) in
              inr (e, subst (Checks s w) (sym value) (checks_of-Checks s w))
        ],
      )

  length-map : (f : ℕ → ℕ) (xs : List ℕ) → length (map f xs) ≡ length xs
  length-map f [] = refl
  length-map f (x ∷ xs) = omega (arith, length-map f xs)

  -- When dummy checks have been added to a graph whose nodes are objects in use, the loop that assigns the
  -- check information makes each task, dummy nodes aside, wait for one core at most: that of the one
  -- predecessor that it still waits for itself.
  pub check_info-single :
      (s : Dfg Graph)
      → InUse nx s
      → (t : Dfg Graph) × (bingo_transform_dfg_add_dummy_check_nodes nx s ≡ ok t)
        × ((w : ℕ)
            → contains (nodes s.graph) w ≡ true
            → is_dummy (t.heap w).node_type ≡ false
            → let node = (bingo_assign_normal_node_dep_check_info nx c t).heap w in
              (length node.dep_check_list ≤ 1)
              × (node.dep_check_enable ≡ has_items (unchecked nx t w))
              × (node.dep_check_list ≡ map (λ p. (t.heap p).assigned_core_id) (unchecked nx t w)))
  unfolding new_checks
  check_info-single s b =
      let (t, eq, few) = dummy_checks-ok nx s b in
      (
        t,
        eq,
        λ w m task.
            let value : (bingo_assign_normal_node_dep_check_info nx c t).heap w
                ≡ checks_of nx c t w (unchecked nx t w) =
              (check_info_lem nx c t).1 w (few w m).0 ∙ (rw task refl) in
            let says = checks_of-lem t w (unchecked nx t w) in
            let list = ap (λ n. n.dep_check_list) value ∙ says.1 in
            (
              omega (
                arith,
                ap length list,
                length-map (λ p. (t.heap p).assigned_core_id) (unchecked nx t w),
                (few w m).1,
              ),
              ap (λ n. n.dep_check_enable) value ∙ says.0,
              list,
            ),
      )
