-- ===== src/Dfg/DummySets/FanOut.antt =====
-- The loops of `bingo_transform_dfg_add_dummy_set_nodes` as moves of successors, and what they leave.
use he_mai_a.Prelude.{
  ℕ, ◌+◌, ◌-◌, ◌≤◌, ◌<◌, ◌≡◌, refl, sym, ap, ◌∙◌, Bool, true, false, not, List, [], ◌∷◌, ◌++◌,
  arith, ltb, ◌==◌, length, keep_if, take, Result, ok, Bool-cases, inl, inr, ◌⊎◌, ltb→lt, subst,
}
use he_mai_a.Prelude.Members.{
  contains, IsDistinct, contains-append, contains-keep_if, keep_if-IsDistinct,
}
use he_mai_a.Graph.{DiGraph}
use he_mai_a.Dfg.{Config, Dfg, for_each, for_each-step, create, bingo_insert_node_between}
use he_mai_a.Dfg.Moves.{IsBounded, Moved, Moved-refl, Moved-trans, after-Moved}
use he_mai_a.Dfg.GroupMoves.{group-Moved}
use he_mai_a.Dfg.DummySets.{
  dummy_set_node, set_one, set_broadcast, set_group, group_by, count_distinct, set_node, signalled,
  is_local, local_targets, is_descriptor_edge,
}
use he_mai_a.Dfg.DummySets.Groups.{
  members, append_left-IsDistinct, append_right-IsDistinct, append_apart, append-IsDistinct,
  partition, contains-group_by, group_by-IsDistinct, contains-all_but_one, all_but_one-IsDistinct,
  all_but_one-length,
}

module _ (nx : DiGraph) (c : Config) where
  open nx use {Graph, nodes, successors, edge_data}

  -- The run ends with the successors moved.
  abbrev pub Moves : Result (Dfg Graph) → Dfg Graph → ℕ → List ℕ → Type 0
  Moves result s cur vs = (t : Dfg Graph) × (result ≡ ok t) × Moved nx s t cur vs

  abbrev pub IsSuccessors : Dfg Graph → ℕ → List ℕ → Type 0
  IsSuccessors s cur vs =
      (v : ℕ) → contains vs v ≡ true → contains (successors s.graph cur) v ≡ true

  set_one-Moves :
      (s : Dfg Graph) (cur v : ℕ)
      → IsBounded nx s
      → contains (successors s.graph cur) v ≡ true
      → Moves (set_one nx c cur v s) s cur (v ∷ [])
  unfolding set_one bingo_insert_node_between create dummy_set_node
  set_one-Moves s cur v b e =
      let node = dummy_set_node (s.heap cur) (s.heap v) false in
      (_, rw e refl, after-Moved nx s cur v node b e refl)

  -- Successors that were not moved are successors still.
  still-IsSuccessors :
      (s t : Dfg Graph) (cur : ℕ) (vs ws : List ℕ)
      → IsBounded nx s
      → Moved nx s t cur vs
      → IsSuccessors s cur ws
      → ((a : ℕ) → contains ws a ≡ true → contains vs a ≡ false)
      → IsSuccessors t cur ws
  still-IsSuccessors s t cur vs ws b m e apart v h =
      m.own v (b.target_lt cur v (e v h)) ∙ rw (e v h, apart v h) refl

  for_each_one-Moves :
      (vs : List ℕ) (s : Dfg Graph) (cur : ℕ)
      → IsBounded nx s
      → IsDistinct vs
      → IsSuccessors s cur vs
      → Moves (for_each (set_one nx c cur) vs s) s cur vs
  unfolding for_each
  for_each_one-Moves [] s cur b d e = (s, refl, Moved-refl nx s cur b)
  for_each_one-Moves (v ∷ vs) s cur b d e =
      let ev : contains (successors s.graph cur) v ≡ true = e v (ground arith) in
      let (t, eq, m) = set_one-Moves s cur v b ev in
      let (u, eq2, m2) = for_each_one-Moves vs t cur m.bounded d.1 (
        still-IsSuccessors s t cur (v ∷ []) vs b m (λ w h. e w (ground arith))
          (λ a h. ground (arith, d.0))) in
      (
        u,
        for_each-step (set_one nx c cur) v vs s t u eq eq2,
        Moved-trans nx s t u cur (v ∷ []) vs (b.source_lt cur v ev)
            (λ w h. b.target_lt cur w (e w (ground arith))) m m2,
      )

  set_broadcast-Moved :
      (s : Dfg Graph) (cur first : ℕ) (group : List ℕ)
      → IsBounded nx s
      → contains (successors s.graph cur) first ≡ true
      → IsSuccessors s cur group
      → Moved nx s (set_broadcast nx c cur first group s) cur group
  unfolding set_broadcast create dummy_set_node
  set_broadcast-Moved s cur first group b e es =
      group-Moved nx s cur group (dummy_set_node (s.heap cur) (s.heap first) true) b
        (b.source_lt cur first e) es refl

  set_group-Moves :
      (s : Dfg Graph) (cur core : ℕ) (group : List ℕ)
      → IsBounded nx s
      → IsDistinct group
      → IsSuccessors s cur group
      → Moves (set_group nx c cur (core, group) s) s cur group
  unfolding set_group
  set_group-Moves s cur core [] b d e = (s, refl, Moved-refl nx s cur b)
  set_group-Moves s cur core (first ∷ group) b d e =
      elim (Bool-cases (
        count_distinct (λ r. (s.heap r).assigned_chiplet_id) [] (first ∷ group)
        == c.num_chiplets - 1)) [
          | inl all ↦ (
            _,
            rw all refl,
            set_broadcast-Moved s cur first (first ∷ group) b (e first (ground arith)) e,
          )
          | inr few ↦
              let (t, eq, m) = for_each_one-Moves (first ∷ group) s cur b d e in (t, rw few eq, m)
        ]

  for_each_group-Moves :
      (gs : List (ℕ × List ℕ)) (s : Dfg Graph) (cur : ℕ)
      → cur < s.next_ref
      → IsBounded nx s
      → IsDistinct (members gs)
      → IsSuccessors s cur (members gs)
      → Moves (for_each (set_group nx c cur) gs s) s cur (members gs)
  unfolding for_each
  for_each_group-Moves [] s cur lt b d e = (s, refl, Moved-refl nx s cur b)
  for_each_group-Moves ((core, group) ∷ gs) s cur lt b d e =
      let both = λ (a : ℕ). contains-append group (members gs) a in
      let (t, eq, m) =
        set_group-Moves s cur core group b (append_left-IsDistinct group (members gs) d)
          (λ v h. e v (ground (arith, both v))) in
      let (u, eq2, m2) =
        for_each_group-Moves gs t cur (omega (arith, m.grows)) m.bounded
          (append_right-IsDistinct group (members gs) d)
          (still-IsSuccessors s t cur group (members gs) b m (λ w h. e w (ground (arith, both w)))
            (λ a h. ground (arith, append_apart group (members gs) a d))) in
      (
        u,
        for_each-step (set_group nx c cur) (core, group) gs s t u eq eq2,
        Moved-trans nx s t u cur group (members gs) lt
            (λ w h. b.target_lt cur w (e w (ground (arith, both w)))) m m2,
      )

  module _ (s : Dfg Graph) (cur : ℕ) where
    abbrev pub remote_successors : List ℕ
    remote_successors = keep_if (λ v. not (is_local nx c s cur v)) (signalled nx c s cur)

    abbrev pub local_successors : List ℕ
    local_successors = keep_if (is_local nx c s cur) (signalled nx c s cur)

    abbrev pub remote_groups : List (ℕ × List ℕ)
    remote_groups = group_by (λ r. (s.heap r).assigned_core_id) [] remote_successors

    abbrev pub targets : List ℕ
    targets = local_targets nx c s cur local_successors

    -- All successors that get a dummy set.
    abbrev pub moved : List ℕ
    moved = members remote_groups ++ targets

    signalled-IsDistinct : IsDistinct (signalled nx c s cur)
    signalled-IsDistinct = keep_if-IsDistinct _ _ (nx.successors-IsDistinct s.graph cur)

    locals-IsDistinct : IsDistinct local_successors
    locals-IsDistinct = keep_if-IsDistinct _ _ signalled-IsDistinct

    contains-signalled :
        (v : ℕ)
        → contains (signalled nx c s cur) v ≡ true
        → contains (successors s.graph cur) v ≡ true
    contains-signalled v h = ground (
      arith,
      contains-keep_if (λ w. not (is_descriptor_edge nx c s.graph cur w)) (successors s.graph cur)
          v,
    )

    pub remote_is_grouped :
        (v : ℕ) → contains (members remote_groups) v ≡ contains remote_successors v
    remote_is_grouped v =
        contains-group_by (λ r. (s.heap r).assigned_core_id) [] remote_successors v

    abbrev on_core : ℕ → Bool
    on_core v = (s.heap v).assigned_core_id == (s.heap cur).assigned_core_id

    -- Either all but one of the local successors are targets, or there is at most one.
    targets_split :
        ((targets ≡ take (length local_successors - 1) (partition on_core local_successors))
          × (1 < length local_successors))
        ⊎ ((targets ≡ []) × (length local_successors ≤ 1))
    targets_split = elim (Bool-cases (ltb 1 (length local_successors))) [
      | inl e ↦ inl (rw e refl, ltb→lt 1 (length local_successors) e)
      | inr e ↦ inr (rw e refl, ground arith)
    ]

    pub targets_are_local : (v : ℕ) → contains targets v ≡ true → contains local_successors v ≡ true
    targets_are_local v h = elim targets_split [
      | inl many ↦
          contains-all_but_one on_core local_successors v
            (subst (λ l. contains l v ≡ true) many.0 h)
      | inr few ↦ absurd (ground (arith, subst (λ l. contains l v ≡ true) few.0 h))
    ]

    pub targets-IsDistinct : IsDistinct targets
    targets-IsDistinct = elim targets_split [
      | inl many ↦
          subst IsDistinct (sym many.0)
            (all_but_one-IsDistinct on_core local_successors locals-IsDistinct)
      | inr few ↦ subst IsDistinct (sym few.0) tt
    ]

    pub one_local_left : length local_successors ≤ length targets + 1
    one_local_left = elim targets_split [
      | inl many ↦
          omega (arith, all_but_one-length on_core local_successors, ap length many.0, many.1)
      | inr few ↦ omega (arith, few.1)
    ]

    moved_are_signalled :
        (v : ℕ) → contains moved v ≡ true → contains (signalled nx c s cur) v ≡ true
    moved_are_signalled v h = ground (
      arith,
      contains-append (members remote_groups) targets v,
      remote_is_grouped v,
      contains-keep_if (λ w. not (is_local nx c s cur w)) (signalled nx c s cur) v,
      targets_are_local v,
      contains-keep_if (is_local nx c s cur) (signalled nx c s cur) v,
    )

    remote_is_not_local :
        (v : ℕ) → contains targets v ≡ true → contains (members remote_groups) v ≡ false
    remote_is_not_local v h = ground (
      arith,
      remote_is_grouped v,
      contains-keep_if (λ w. not (is_local nx c s cur w)) (signalled nx c s cur) v,
      targets_are_local v h,
      contains-keep_if (is_local nx c s cur) (signalled nx c s cur) v,
    )

    pub moved-IsDistinct : IsDistinct moved
    moved-IsDistinct =
        append-IsDistinct (members remote_groups) targets
          (group_by-IsDistinct (λ r. (s.heap r).assigned_core_id) [] remote_successors tt
            (keep_if-IsDistinct (λ w. not (is_local nx c s cur w)) _ signalled-IsDistinct)
            (λ a m. refl))
          targets-IsDistinct (λ a m. ground (arith, remote_is_not_local a))

    pub set_node-Moves : cur < s.next_ref → IsBounded nx s → Moves (set_node nx c cur s) s cur moved
    unfolding set_node
    set_node-Moves lt b =
        let all : IsSuccessors s cur moved =
          λ v h. contains-signalled v (moved_are_signalled v h) in
        let both = λ (a : ℕ). contains-append (members remote_groups) targets a in
        let (t, eq, m) =
          for_each_group-Moves remote_groups s cur lt b
            (append_left-IsDistinct (members remote_groups) targets moved-IsDistinct)
            (λ v h. all v (ground (arith, both v))) in
        let (u, eq2, m2) = for_each_one-Moves targets t cur m.bounded targets-IsDistinct (
          still-IsSuccessors s t cur (members remote_groups) targets b m
            (λ v h. all v (ground (arith, both v))) remote_is_not_local) in
        (
          u,
          rw eq eq2,
          Moved-trans nx s t u cur (members remote_groups) targets lt
              (λ w h. b.target_lt cur w (all w (ground (arith, both w)))) m m2,
        )
