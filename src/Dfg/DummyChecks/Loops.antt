-- ===== src/Dfg/DummyChecks/Loops.antt =====
-- The two cases of `bingo_transform_dfg_add_dummy_check_nodes` for one node, as moves of predecessors.
use native.Mathlib.Decide.{dec_lt}
use he_mai_a.Prelude.{
  ℕ, ◌-◌, ◌<◌, ◌≡◌, refl, sym, ap, ◌∙◌, Bool, true, false, not, ◌&&◌, Option, List, [], ◌∷◌, arith,
  leb, ==_refl, length, take, Bool-cases, inl, inr, subst, Result, ok,
}
use he_mai_a.Prelude.Members.{
  contains, IsDistinct, contains-append, contains-keep_if, keep_if-IsDistinct,
}
use he_mai_a.Node.{is_dummy_check}
use he_mai_a.Graph.{EdgeData, or_none, or_false, DiGraph}
use he_mai_a.Dfg.{Dfg, for_each, for_each-step, create, bingo_insert_node_between}
use he_mai_a.Dfg.DummySets.{group_by}
use he_mai_a.Dfg.DummySets.Groups.{
  members, append_left-IsDistinct, append_right-IsDistinct, append_apart, contains-group_by,
  group_by-IsDistinct,
}
use he_mai_a.Dfg.DummyChecks.{dummy_check_node, check_one, check_group, waited_for, unchecked}
use he_mai_a.Dfg.DummyChecks.Moves.{InUse, Shifted, Shifted-refl, Shifted-trans, after-Shifted}
use he_mai_a.Dfg.DummyChecks.Split.{
  chosen, all_chosen, contains-chosen, chosen-IsDistinct, contains-all_chosen, is_member,
  left_is_last, in_own_group,
}

module _ (nx : DiGraph) where
  open nx use {Graph, nodes, successors, predecessors, edge_data}

  abbrev pub Shifts : Result (Dfg Graph) → Dfg Graph → ℕ → List ℕ → Type 0
  Shifts result s cur ps = (t : Dfg Graph) × (result ≡ ok t) × Shifted nx s t cur ps

  abbrev pub IsPredecessors : Dfg Graph → ℕ → List ℕ → Type 0
  IsPredecessors s cur ps =
      (p : ℕ) → contains ps p ≡ true → contains (predecessors s.graph cur) p ≡ true

  abbrev pub core_at : Dfg Graph → ℕ → ℕ
  core_at s p = (s.heap p).assigned_core_id

  pub check_one-Shifts :
      (s : Dfg Graph) (cur core p : ℕ)
      → InUse nx s
      → contains (predecessors s.graph cur) p ≡ true
      → core ≡ core_at s p
      → Shifts (check_one nx cur core p s) s cur (p ∷ [])
  unfolding check_one bingo_insert_node_between create dummy_check_node
  check_one-Shifts s cur core p b e same =
      let edge : contains (successors s.graph p) cur ≡ true =
        nx.successors-edge_data s.graph p cur ∙ sym (nx.predecessors-edge_data s.graph p cur) ∙ e in
      (
        _,
        rw edge refl,
        after-Shifted nx s cur p (dummy_check_node (s.heap cur) core) b e refl
            (ap (λ c. c ∷ []) same),
      )

  still-IsPredecessors :
      (s t : Dfg Graph) (cur : ℕ) (ps ws : List ℕ)
      → InUse nx s
      → Shifted nx s t cur ps
      → IsPredecessors s cur ws
      → ((a : ℕ) → contains ws a ≡ true → contains ps a ≡ false)
      → IsPredecessors t cur ws
  still-IsPredecessors s t cur ps ws b m e apart p h =
      m.own p (b.from_lt p cur (e p h)) ∙ rw (e p h, apart p h) refl

  abbrev check_own : ℕ → ℕ → Dfg Graph → Result (Dfg Graph)
  check_own cur p t = check_one nx cur (t.heap p).assigned_core_id p t

  for_each_own-Shifts :
      (ps : List ℕ) (s : Dfg Graph) (cur : ℕ)
      → InUse nx s
      → IsDistinct ps
      → IsPredecessors s cur ps
      → Shifts (for_each (check_own cur) ps s) s cur ps
  unfolding for_each
  for_each_own-Shifts [] s cur b d e = (s, refl, Shifted-refl nx s cur b)
  for_each_own-Shifts (p ∷ ps) s cur b d e =
      let ep : contains (predecessors s.graph cur) p ≡ true = e p (ground (arith, ==_refl p)) in
      let (t, eq, m) = check_one-Shifts s cur (core_at s p) p b ep refl in
      let (u, eq2, m2) = for_each_own-Shifts ps t cur m.in_use d.1 (
        still-IsPredecessors s t cur (p ∷ []) ps b m (λ w h. e w (ground arith))
          (λ a h. ground (arith, d.0))) in
      (
        u,
        for_each-step (check_own cur) p ps s t u eq eq2,
        Shifted-trans nx s t u cur (p ∷ []) ps (b.to_lt p cur ep)
            (λ w h. b.from_lt w cur (e w (ground arith)))
            (λ w h. b.from_lt w cur (e w (ground arith))) m m2,
      )

  check_group-Shifts :
      (s : Dfg Graph) (cur core : ℕ) (group : List ℕ)
      → InUse nx s
      → IsDistinct group
      → IsPredecessors s cur group
      → Shifts (check_group nx cur (core, group) s) s cur (chosen group)
  unfolding check_group
  check_group-Shifts s cur core group b d e = elim (Bool-cases (leb 2 (length group))) [
    | inl many ↦
        let (t, eq, m) =
          for_each_own-Shifts (chosen group) s cur b (chosen-IsDistinct group d)
            (λ p h. e p (contains-chosen group p h)) in
        let whole : chosen group ≡ take (length group - 1) group = rw many refl in
        (t, rw many (subst (λ l. for_each (check_own cur) l s ≡ ok t) whole eq), m)
    | inr few ↦
        let whole : chosen group ≡ [] = rw few refl in
        (s, rw few refl, subst (Shifted nx s s cur) (sym whole) (Shifted-refl nx s cur b))
  ]

  for_each_group-Shifts :
      (gs : List (ℕ × List ℕ)) (s : Dfg Graph) (cur : ℕ)
      → cur < s.next_ref
      → InUse nx s
      → IsDistinct (members gs)
      → IsPredecessors s cur (members gs)
      → Shifts (for_each (check_group nx cur) gs s) s cur (all_chosen gs)
  unfolding for_each
  for_each_group-Shifts [] s cur lt b d e = (s, refl, Shifted-refl nx s cur b)
  for_each_group-Shifts ((core, group) ∷ gs) s cur lt b d e =
      let both = λ (a : ℕ). contains-append group (members gs) a in
      let in_group : IsPredecessors s cur group = λ p h. e p (ground (arith, both p)) in
      let in_rest : IsPredecessors s cur (all_chosen gs) =
        λ p h. e p (ground (arith, both p, contains-all_chosen gs p h)) in
      let (t, eq, m) =
        check_group-Shifts s cur core group b (append_left-IsDistinct group (members gs) d)
          in_group in
      let (u, eq2, m2) =
        for_each_group-Shifts gs t cur (omega (arith, m.grows)) m.in_use
          (append_right-IsDistinct group (members gs) d)
          (still-IsPredecessors s t cur (chosen group) (members gs) b m
            (λ w h. e w (ground (arith, both w)))
            (λ a h.
              ground (arith, append_apart group (members gs) a d, contains-chosen group a))) in
      (
        u,
        for_each-step (check_group nx cur) (core, group) gs s t u eq eq2,
        Shifted-trans nx s t u cur (chosen group) (all_chosen gs) lt
            (λ w h. b.from_lt w cur (in_group w (contains-chosen group w h)))
            (λ w h. b.from_lt w cur (in_rest w h)) m m2,
      )

  abbrev pub is_ordering : Option EdgeData → Bool
  is_ordering d = or_false (or_none d).descriptor_sequence

  pub contains-waited_for :
      (s : Dfg Graph) (cur p : ℕ)
      → contains (waited_for nx s cur) p
        ≡ contains (predecessors s.graph cur) p && not (is_ordering (edge_data s.graph p cur))
  contains-waited_for s cur p =
      contains-keep_if (λ q. not (is_ordering (edge_data s.graph q cur))) (predecessors s.graph cur)
        p

  pub contains-unchecked :
      (s : Dfg Graph) (cur p : ℕ)
      → contains (unchecked nx s cur) p
        ≡ contains (waited_for nx s cur) p && not (is_dummy_check (s.heap p))
  contains-unchecked s cur p =
      contains-keep_if (λ q. not (is_dummy_check (s.heap q))) (waited_for nx s cur) p

  waited_for-IsDistinct : (s : Dfg Graph) (cur : ℕ) → IsDistinct (waited_for nx s cur)
  waited_for-IsDistinct s cur = keep_if-IsDistinct _ _ (nx.predecessors-IsDistinct s.graph cur)

  pub unchecked-IsDistinct : (s : Dfg Graph) (cur : ℕ) → IsDistinct (unchecked nx s cur)
  unchecked-IsDistinct s cur = keep_if-IsDistinct _ _ (waited_for-IsDistinct s cur)

  -- What is still unchecked was so before, and was not moved.
  pub still_unchecked :
      (s t : Dfg Graph) (cur : ℕ) (ps : List ℕ) (x : ℕ)
      → InUse nx s
      → Shifted nx s t cur ps
      → contains (unchecked nx t cur) x ≡ true
      → (x < s.next_ref)
        × (contains (unchecked nx s cur) x ≡ true)
        × (contains ps x ≡ false)
        × (t.heap x ≡ s.heap x)
  still_unchecked s t cur ps x b m h =
      let now : contains (waited_for nx t cur) x ≡ true =
        ground (arith, contains-unchecked t cur x) in
      let task : is_dummy_check (t.heap x) ≡ false = ground (arith, contains-unchecked t cur x) in
      let pred : contains (predecessors t.graph cur) x ≡ true =
        ground (arith, contains-waited_for t cur x) in
      elim (dec_lt x s.next_ref) [
        | yes old ↦
            let out : contains ps x ≡ false = ground (arith, m.own x old) in
            let same : t.heap x ≡ s.heap x = m.old_nodes x old in
            let task_s : is_dummy_check (s.heap x) ≡ false =
              sym (ap (λ n. is_dummy_check n) same) ∙ task in
            (
              old,
              ground (
                arith,
                contains-unchecked s cur x,
                contains-waited_for s cur x,
                contains-waited_for t cur x,
                m.own x old,
                ap is_ordering (m.own_data x old out),
                task_s,
              ),
              out,
              same,
            )
        | no fresh ↦ absurd (ground (arith, m.new_sources x (omega arith) pred))
      ]

  -- No two unchecked predecessors are on the same core.
  abbrev pub OnePerCore : Dfg Graph → ℕ → Type 0
  OnePerCore s cur =
      (a b : ℕ)
      → contains (unchecked nx s cur) a ≡ true
      → contains (unchecked nx s cur) b ≡ true
      → core_at s a ≡ core_at s b
      → a ≡ b

  pub still-OnePerCore :
      (s t : Dfg Graph) (cur : ℕ) (ps : List ℕ)
      → InUse nx s
      → Shifted nx s t cur ps
      → OnePerCore s cur
      → OnePerCore t cur
  still-OnePerCore s t cur ps b m one x y hx hy e =
      let (_, ux, _, sx) = still_unchecked s t cur ps x b m hx in
      let (_, uy, _, sy) = still_unchecked s t cur ps y b m hy in
      one x y ux uy (sym (ap (λ n. n.assigned_core_id) sx) ∙ e ∙ ap (λ n. n.assigned_core_id) sy)

  -- Case 1.
  module _ (s : Dfg Graph) (cur : ℕ) (lt : cur < s.next_ref) (b : InUse nx s) where
    abbrev pub groups : List (ℕ × List ℕ)
    groups = group_by (core_at s) [] (waited_for nx s cur)

    pub first_case : Shifts (for_each (check_group nx cur) groups s) s cur (all_chosen groups)
    first_case =
        for_each_group-Shifts groups s cur lt b
          (group_by-IsDistinct (core_at s) [] (waited_for nx s cur) tt (waited_for-IsDistinct s cur)
            (λ a m. refl))
          (λ p h. ground (
            arith,
            contains-group_by (core_at s) [] (waited_for nx s cur) p,
            contains-waited_for s cur p,
          ))

    pub first_case-one : (t : Dfg Graph) → Shifted nx s t cur (all_chosen groups) → OnePerCore t cur
    first_case-one t m x y hx hy e =
        let (_, ux, ox, sx) = still_unchecked s t cur (all_chosen groups) x b m hx in
        let (_, uy, oy, sy) = still_unchecked s t cur (all_chosen groups) y b m hy in
        let same : core_at s x ≡ core_at s y =
          sym (ap (λ n. n.assigned_core_id) sx) ∙ e ∙ ap (λ n. n.assigned_core_id) sy in
        left_is_last groups (core_at s y) x y
          (subst (λ k. is_member groups k x ≡ true) same
            (in_own_group (core_at s) (waited_for nx s cur) [] x
              (ground (arith, contains-unchecked s cur x))))
          (in_own_group (core_at s) (waited_for nx s cur) [] y
            (ground (arith, contains-unchecked s cur y)))
          ox oy
