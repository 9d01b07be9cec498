-- ===== src/Dfg/DepInfo/Assigned.antt =====
-- The two assignment loops, and the set loop behind the pass that adds dummy sets.
use he_mai_a.Prelude.{
  ℕ, ◌≡◌, refl, ap, Bool, true, false, not, List, [], ◌∷◌, arith, ◌==◌, ==_refl, if◌then◌else◌, map,
  keep_if, Bool-cases, inl, inr,
}
use he_mai_a.Prelude.Members.{contains}
use he_mai_a.Node.{BingoNode, is_dummy, is_dummy_set, is_dummy_check}
use he_mai_a.Graph.{DiGraph, or_none, or_false}
use he_mai_a.Dfg.{Config, Dfg}
use he_mai_a.Dfg.DummySets.{signalled, is_descriptor_edge}
use he_mai_a.Dfg.DummyChecks.{unchecked, waited_for}
use he_mai_a.Dfg.DepInfo.{
  checks_of, assign_check, bingo_assign_normal_node_dep_check_info, sets_of, task_successors,
  assign_set, bingo_assign_normal_node_dep_set_info,
}
use he_mai_a.Dfg.DepInfo.Parallel.{Alike, Alike-refl, loop_assigns}

keep_if-alike : (p q : ℕ → Bool) (xs : List ℕ) → ((x : ℕ) → p x ≡ q x) → keep_if p xs ≡ keep_if q xs
keep_if-alike p q [] same = refl
keep_if-alike p q (x ∷ xs) same = ground (arith, keep_if-alike p q xs same, same x)

map-alike : (f g : ℕ → ℕ) (xs : List ℕ) → ((x : ℕ) → f x ≡ g x) → map f xs ≡ map g xs
map-alike f g [] same = refl
map-alike f g (x ∷ xs) same = rw (same x) (ap (λ l. g x ∷ l) (map-alike f g xs same))

module _ (nx : DiGraph) (c : Config) where
  open nx use {Graph, nodes}

  unfoldable pub new_sets : Dfg Graph → ℕ → BingoNode
  new_sets s r =
      if is_dummy (s.heap r).node_type
      then s.heap r
      else sets_of nx c s r (task_successors nx c s r)

  sets-graph : (s : Dfg Graph) (r : ℕ) → (assign_set nx c s r).graph ≡ s.graph
  unfolding assign_set
  sets-graph s r = ground arith

  sets-own : (s : Dfg Graph) (r : ℕ) → (assign_set nx c s r).heap r ≡ new_sets s r
  unfolding assign_set new_sets
  sets-own s r = elim (Bool-cases (is_dummy (s.heap r).node_type)) [
    | inl e ↦ rw e refl
    | inr e ↦ rw (e, ==_refl r) refl
  ]

  sets-others :
      (s : Dfg Graph) (r x : ℕ) → (r == x) ≡ false → (assign_set nx c s r).heap x ≡ s.heap x
  unfolding assign_set
  sets-others s r x ne = elim (Bool-cases (is_dummy (s.heap r).node_type)) [
    | inl e ↦ rw e refl
    | inr e ↦ rw (e, ne) refl
  ]

  sets-Alike-task :
      (s : Dfg Graph) (r : ℕ) (vs : List ℕ)
      → is_dummy (s.heap r).node_type ≡ false
      → Alike (sets_of nx c s r vs) (s.heap r)
  unfolding sets_of
  sets-Alike-task s r [] e = record {
    same_chiplet = refl;
    same_cluster = refl;
    same_core = refl;
    same_type = refl;
    same_set = rw e refl;
    same_check = rw e refl;
  }
  sets-Alike-task s r (v ∷ []) e = record {
    same_chiplet = refl;
    same_cluster = refl;
    same_core = refl;
    same_type = refl;
    same_set = rw e refl;
    same_check = rw e refl;
  }
  sets-Alike-task s r (v ∷ w ∷ vs) e = Alike-refl (s.heap r)

  sets-Alike : (s : Dfg Graph) (r : ℕ) → Alike (new_sets s r) (s.heap r)
  unfolding new_sets
  sets-Alike s r = elim (Bool-cases (is_dummy (s.heap r).node_type)) [
    | inl e ↦ rw e (Alike-refl (s.heap r))
    | inr e ↦ rw e (sets-Alike-task s r (task_successors nx c s r) e)
  ]

  sets_of-stable :
      (s u : Dfg Graph) (r : ℕ) (vs : List ℕ)
      → ((x : ℕ) → Alike (u.heap x) (s.heap x))
      → u.heap r ≡ s.heap r
      → sets_of nx c u r vs ≡ sets_of nx c s r vs
  unfolding sets_of
  sets_of-stable s u r [] a e = rw e refl
  sets_of-stable s u r (v ∷ []) a e =
      rw (e, (a v).same_core, (a v).same_chiplet, (a v).same_cluster) refl
  sets_of-stable s u r (v ∷ w ∷ vs) a e = e

  signalled-graph :
      (s u : Dfg Graph) (r : ℕ) → u.graph ≡ s.graph → signalled nx c u r ≡ signalled nx c s r
  signalled-graph s u r g =
      ap (λ h. keep_if (λ v. not (is_descriptor_edge nx c h r v)) (nx.successors h r)) g

  sets-stable :
      (s u : Dfg Graph) (r : ℕ)
      → u.graph ≡ s.graph
      → ((x : ℕ) → Alike (u.heap x) (s.heap x))
      → u.heap r ≡ s.heap r
      → new_sets u r ≡ new_sets s r
  unfolding new_sets
  sets-stable s u r g a e =
      let same : task_successors nx c u r ≡ task_successors nx c s r =
        rw (signalled-graph s u r g) (
          keep_if-alike (λ v. not (is_dummy_set (u.heap v))) (λ v. not (is_dummy_set (s.heap v)))
            (signalled nx c s r) (λ v. ap not (a v).same_set)) in
      elim (Bool-cases (is_dummy (s.heap r).node_type)) [
        | inl d ↦ rw (e, d) refl
        | inr d ↦ rw (e, d) (rw same (sets_of-stable s u r (task_successors nx c s r) a e))
      ]

  -- The set loop gives every task of the graph the sets that it has for the state before the loop, and
  -- leaves the graph and all dummy nodes as they are.
  pub set_info_lem :
      (s : Dfg Graph)
      → let t = bingo_assign_normal_node_dep_set_info nx c s in
        (t.graph ≡ s.graph)
        × ((r : ℕ) → contains (nodes s.graph) r ≡ true → t.heap r ≡ new_sets s r)
        × ((r : ℕ) → contains (nodes s.graph) r ≡ false → t.heap r ≡ s.heap r)
  unfolding bingo_assign_normal_node_dep_set_info
  set_info_lem s =
      loop_assigns (assign_set nx c) new_sets sets-graph sets-own sets-others sets-Alike sets-stable
        (nodes s.graph) s s (nx.nodes-IsDistinct s.graph) refl (λ x. Alike-refl (s.heap x))
        (λ x m. refl)

  unfoldable pub new_checks : Dfg Graph → ℕ → BingoNode
  new_checks s r =
      if is_dummy (s.heap r).node_type then s.heap r else checks_of nx c s r (unchecked nx s r)

  checks-graph : (s : Dfg Graph) (r : ℕ) → (assign_check nx c s r).graph ≡ s.graph
  unfolding assign_check
  checks-graph s r = ground arith

  checks-own : (s : Dfg Graph) (r : ℕ) → (assign_check nx c s r).heap r ≡ new_checks s r
  unfolding assign_check new_checks
  checks-own s r = elim (Bool-cases (is_dummy (s.heap r).node_type)) [
    | inl e ↦ rw e refl
    | inr e ↦ rw (e, ==_refl r) refl
  ]

  checks-others :
      (s : Dfg Graph) (r x : ℕ) → (r == x) ≡ false → (assign_check nx c s r).heap x ≡ s.heap x
  unfolding assign_check
  checks-others s r x ne = elim (Bool-cases (is_dummy (s.heap r).node_type)) [
    | inl e ↦ rw e refl
    | inr e ↦ rw (e, ne) refl
  ]

  checks-Alike-task :
      (s : Dfg Graph) (r : ℕ) (ps : List ℕ)
      → is_dummy (s.heap r).node_type ≡ false
      → Alike (checks_of nx c s r ps) (s.heap r)
  unfolding checks_of
  checks-Alike-task s r [] e = record {
    same_chiplet = refl;
    same_cluster = refl;
    same_core = refl;
    same_type = refl;
    same_set = rw e refl;
    same_check = rw e refl;
  }
  checks-Alike-task s r (p ∷ ps) e = record {
    same_chiplet = refl;
    same_cluster = refl;
    same_core = refl;
    same_type = refl;
    same_set = rw e refl;
    same_check = rw e refl;
  }

  checks-Alike : (s : Dfg Graph) (r : ℕ) → Alike (new_checks s r) (s.heap r)
  unfolding new_checks
  checks-Alike s r = elim (Bool-cases (is_dummy (s.heap r).node_type)) [
    | inl e ↦ rw e (Alike-refl (s.heap r))
    | inr e ↦ rw e (checks-Alike-task s r (unchecked nx s r) e)
  ]

  checks_of-stable :
      (s u : Dfg Graph) (r : ℕ) (ps : List ℕ)
      → ((x : ℕ) → Alike (u.heap x) (s.heap x))
      → u.heap r ≡ s.heap r
      → checks_of nx c u r ps ≡ checks_of nx c s r ps
  unfolding checks_of
  checks_of-stable s u r [] a e = rw e refl
  checks_of-stable s u r (p ∷ ps) a e =
      rw (e, (a p).same_core)
        (rw
          (map-alike (λ x. (u.heap x).assigned_core_id) (λ x. (s.heap x).assigned_core_id) ps
            (λ x. (a x).same_core))
          refl)

  unchecked-stable :
      (s u : Dfg Graph) (r : ℕ)
      → u.graph ≡ s.graph
      → ((x : ℕ) → Alike (u.heap x) (s.heap x))
      → unchecked nx u r ≡ unchecked nx s r
  unchecked-stable s u r g a =
      let waits : waited_for nx u r ≡ waited_for nx s r =
        ap
          (λ h.
            keep_if (λ p. not (or_false (or_none (nx.edge_data h p r)).descriptor_sequence))
              (nx.predecessors h r))
          g in
      rw waits (
        keep_if-alike (λ v. not (is_dummy_check (u.heap v))) (λ v. not (is_dummy_check (s.heap v)))
          (waited_for nx s r) (λ v. ap not (a v).same_check))

  checks-stable :
      (s u : Dfg Graph) (r : ℕ)
      → u.graph ≡ s.graph
      → ((x : ℕ) → Alike (u.heap x) (s.heap x))
      → u.heap r ≡ s.heap r
      → new_checks u r ≡ new_checks s r
  unfolding new_checks
  checks-stable s u r g a e = elim (Bool-cases (is_dummy (s.heap r).node_type)) [
    | inl d ↦ rw (e, d) refl
    | inr d ↦
        rw (e, d) (rw (unchecked-stable s u r g a) (checks_of-stable s u r (unchecked nx s r) a e))
  ]

  pub check_info_lem :
      (s : Dfg Graph)
      → let t = bingo_assign_normal_node_dep_check_info nx c s in
        (t.graph ≡ s.graph)
        × ((r : ℕ) → contains (nodes s.graph) r ≡ true → t.heap r ≡ new_checks s r)
        × ((r : ℕ) → contains (nodes s.graph) r ≡ false → t.heap r ≡ s.heap r)
  unfolding bingo_assign_normal_node_dep_check_info
  check_info_lem s =
      loop_assigns (assign_check nx c) new_checks checks-graph checks-own checks-others checks-Alike
        checks-stable (nodes s.graph) s s (nx.nodes-IsDistinct s.graph) refl
        (λ x. Alike-refl (s.heap x)) (λ x m. refl)
