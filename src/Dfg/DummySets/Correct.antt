-- ===== src/Dfg/DummySets/Correct.antt =====
-- The whole of `bingo_transform_dfg_add_dummy_set_nodes`: the loop over the nodes of the graph.
use he_mai_a.Prelude.{
  ℕ, ◌≤◌, ◌<◌, ◌≡◌, refl, sym, ap, ◌∙◌, Bool, true, false, not, ◌&&◌, List, [], ◌∷◌, ◌++◌, arith,
  ◌==◌, length, length-append, keep_if, ok, Bool-cases, inl, inr, ◌⊎◌, subst, Option,
}
use native.Mathlib.Decide.{dec_lt}
use he_mai_a.Prelude.Members.{
  contains, IsDistinct, contains-append, contains-keep_if, keep_if-IsDistinct, length-le_of_subset,
}
use he_mai_a.Node.{is_dummy_set}
use he_mai_a.Graph.{EdgeData, DiGraph, or_none, or_false}
use he_mai_a.Dfg.{Config, Dfg, for_each, for_each-step}
use he_mai_a.Dfg.Moves.{IsBounded, Moved, IsCarried}
use he_mai_a.Dfg.DummySets.{
  set_node, signalled, is_local, is_descriptor_edge, bingo_transform_dfg_add_dummy_set_nodes,
}
use he_mai_a.Dfg.DummySets.Groups.{members, append-IsDistinct}
use he_mai_a.Dfg.DummySets.FanOut.{
  moved, local_successors, targets, remote_groups, remote_is_grouped, targets_are_local,
  one_local_left, targets-IsDistinct, set_node-Moves,
}

module _ (nx : DiGraph) (c : Config) where
  open nx use {Graph, nodes, successors, edge_data}

  -- The tasks that the node signals itself: neither edges that only order descriptors nor dummy sets.
  abbrev pub direct : Dfg Graph → ℕ → List ℕ
  direct s cur = keep_if (λ v. not (is_dummy_set (s.heap v))) (signalled nx c s cur)

  abbrev is_ordering : Option EdgeData → Bool
  is_ordering d = or_false (or_none d).descriptor_sequence

  contains-direct :
      (s : Dfg Graph) (cur v : ℕ)
      → contains (direct s cur) v
        ≡ (contains (successors s.graph cur) v && not (is_descriptor_edge nx c s.graph cur v))
          && not (is_dummy_set (s.heap v))
  contains-direct s cur v = ground (
    arith,
    contains-keep_if (λ w. not (is_dummy_set (s.heap w))) (signalled nx c s cur) v,
    contains-keep_if (λ w. not (is_descriptor_edge nx c s.graph cur w)) (successors s.graph cur) v,
  )

  direct-IsDistinct : (s : Dfg Graph) (cur : ℕ) → IsDistinct (direct s cur)
  direct-IsDistinct s cur =
      keep_if-IsDistinct _ _ (keep_if-IsDistinct _ _ (nx.successors-IsDistinct s.graph cur))

  -- The node signals the other one itself, or a dummy set behind it does.
  abbrev pub IsServed : ℕ → Dfg Graph → ℕ → ℕ → Type 0
  IsServed low t cur v = (contains (successors t.graph cur) v ≡ true) ⊎ IsCarried nx low t cur v

  module _ (s t : Dfg Graph) (cur : ℕ) (b : IsBounded nx s)
      (m : Moved nx s t cur (moved nx c s cur)) where
    direct_is_left :
        (v : ℕ)
        → contains (direct t cur) v ≡ true
        → (contains (moved nx c s cur) v ≡ false) × (contains (signalled nx c s cur) v ≡ true)
    direct_is_left v h = elim (dec_lt v s.next_ref) [
      | yes old ↦
          let out : contains (moved nx c s cur) v ≡ false =
            ground (arith, contains-direct t cur v, m.own v old) in
          (
            out,
            ground (
              arith,
              contains-direct t cur v,
              m.own v old,
              ap is_ordering (m.own_data v old out),
              contains-keep_if (λ w. not (is_descriptor_edge nx c s.graph cur w))
                  (successors s.graph cur) v,
            ),
          )
      | no fresh ↦ absurd (ground (arith, contains-direct t cur v, m.new_targets v (omega arith)))
    ]

    direct_is_local :
        (v : ℕ)
        → contains (direct t cur) v ≡ true
        → (contains (local_successors nx c s cur) v ≡ true)
          × (contains (targets nx c s cur) v ≡ false)
    direct_is_local v h =
        let (out, was) = direct_is_left v h in
        let both = contains-append (members (remote_groups nx c s cur)) (targets nx c s cur) v in
        (
          ground (
            arith,
            both,
            remote_is_grouped nx c s cur v,
            contains-keep_if (λ w. not (is_local nx c s cur w)) (signalled nx c s cur) v,
            contains-keep_if (is_local nx c s cur) (signalled nx c s cur) v,
          ),
          ground (arith, both),
        )

    at_most_one : length (direct t cur) ≤ 1
    at_most_one =
        let ts = targets nx c s cur in
        let fits =
          length-le_of_subset (ts ++ direct t cur) (local_successors nx c s cur)
            (append-IsDistinct ts (direct t cur) (targets-IsDistinct nx c s cur)
              (direct-IsDistinct t cur)
              (λ a h. elim (Bool-cases (contains (direct t cur) a)) [
                | inl e ↦ absurd (ground (arith, direct_is_local a e))
                | inr e ↦ e
              ]))
            (λ a h. ground (
              arith,
              contains-append ts (direct t cur) a,
              targets_are_local nx c s cur a,
              direct_is_local a,
            )) in
        omega (arith, fits, length-append ts (direct t cur), one_local_left nx c s cur)

    IsServed-here : (v : ℕ) → contains (signalled nx c s cur) v ≡ true → IsServed s.next_ref t cur v
    IsServed-here v h =
        let is_succ : contains (successors s.graph cur) v ≡ true = ground (
          arith,
          contains-keep_if (λ w. not (is_descriptor_edge nx c s.graph cur w))
              (successors s.graph cur) v,
        ) in
        elim (Bool-cases (contains (moved nx c s cur) v)) [
          | inl e ↦ inr (m.carried v e)
          | inr e ↦ inl (m.own v (b.target_lt cur v is_succ) ∙ rw (is_succ, e) refl)
        ]

  -- From `s` to `t` the nodes `rs` were treated, and the other nodes of `s` were left alone.
  pub record Treated (s t : Dfg Graph) (rs : List ℕ) : Type 0 where
    pub bounded : IsBounded nx t
    pub grows : s.next_ref ≤ t.next_ref
    pub keeps_nodes :
        (r : ℕ) → contains (nodes s.graph) r ≡ true → contains (nodes t.graph) r ≡ true
    pub old_nodes : (r : ℕ) → r < s.next_ref → t.heap r ≡ s.heap r
    pub untouched :
        (w : ℕ)
        → w < s.next_ref
        → contains rs w ≡ false
        → successors t.graph w ≡ successors s.graph w
    pub untouched_data :
        (w x : ℕ)
        → w < s.next_ref
        → contains rs w ≡ false
        → edge_data t.graph w x ≡ edge_data s.graph w x
    pub few : (w : ℕ) → contains rs w ≡ true → length (direct t w) ≤ 1
    pub served :
        (w v : ℕ)
        → contains rs w ≡ true
        → contains (signalled nx c s w) v ≡ true
        → IsServed s.next_ref t w v

  keep_if-cong :
      (p q : ℕ → Bool) (xs : List ℕ)
      → ((x : ℕ) → contains xs x ≡ true → p x ≡ q x)
      → keep_if p xs ≡ keep_if q xs
  keep_if-cong p q [] same = refl
  keep_if-cong p q (x ∷ xs) same =
      let rest : keep_if p xs ≡ keep_if q xs = keep_if-cong p q xs (λ y m. same y (ground arith)) in
      ground (arith, rest, same x (ground arith))

  -- A node that the rest of the loop leaves alone stays as it is.
  module _ (t u : Dfg Graph) (rs : List ℕ) (b : IsBounded nx t) (k : Treated t u rs) (w : ℕ)
      (early : w < t.next_ref) (out : contains rs w ≡ false) where
    signalled_stays : signalled nx c u w ≡ signalled nx c t w
    signalled_stays = rw (k.untouched w early out) (
        keep_if-cong (λ v. not (is_descriptor_edge nx c u.graph w v))
          (λ v. not (is_descriptor_edge nx c t.graph w v)) (successors t.graph w)
          (λ v m. ap (λ d. not (is_ordering d)) (k.untouched_data w v early out)))

    direct_stays : direct u w ≡ direct t w
    direct_stays = rw signalled_stays (
        keep_if-cong (λ v. not (is_dummy_set (u.heap v))) (λ v. not (is_dummy_set (t.heap v)))
          (signalled nx c t w)
          (λ v m.
            ap (λ n. not (is_dummy_set n))
              (k.old_nodes v (
                b.target_lt w v (
                  ground (
                    arith,
                    contains-keep_if (λ a. not (is_descriptor_edge nx c t.graph w a))
                        (successors t.graph w) v,
                  ))))))

    IsServed-stays :
        (low v : ℕ)
        → ((a : ℕ) → contains rs a ≡ true → a < low)
        → IsServed low t w v
        → IsServed low u w v
    IsServed-stays low v old (inl e) = inl (rw (k.untouched w early out) e)
    IsServed-stays low v old (inr d) =
        let via_early : d.via < t.next_ref = b.target_lt w d.via d.to_via in
        let via_out : contains rs d.via ≡ false = elim (Bool-cases (contains rs d.via)) [
          | inl e ↦ absurd (omega (arith, old d.via e, d.is_new))
          | inr e ↦ e
        ] in
        inr record {
          via = d.via;
          is_new = d.is_new;
          is_set = rw (k.old_nodes d.via via_early) d.is_set;
          to_via = rw (k.untouched w early out) d.to_via;
          from_via = rw (k.untouched d.via via_early via_out) d.from_via;
        }

  lower :
      (low high : ℕ) (t : Dfg Graph) (w v : ℕ)
      → low ≤ high
      → IsServed high t w v
      → IsServed low t w v
  lower low high t w v h (inl e) = inl e
  lower low high t w v h (inr d) = inr record {
    via = d.via;
    is_new = omega (arith, d.is_new);
    is_set = d.is_set;
    to_via = d.to_via;
    from_via = d.from_via;
  }

  Treated-nothing : (s : Dfg Graph) → IsBounded nx s → Treated s s []
  Treated-nothing s b = record {
    bounded = b;
    grows = omega arith;
    keeps_nodes = λ r m. m;
    old_nodes = λ r h. refl;
    untouched = λ w h out. refl;
    untouched_data = λ w x h out. refl;
    few = λ w m. absurd (ground arith);
    served = λ w v m h. absurd (ground arith);
  }

  signalled_elsewhere :
      (s t : Dfg Graph) (cur : ℕ) (vs : List ℕ) (w : ℕ)
      → Moved nx s t cur vs
      → w < s.next_ref
      → (w == cur) ≡ false
      → signalled nx c t w ≡ signalled nx c s w
  signalled_elsewhere s t cur vs w m h ne = rw (m.others w h ne) (
      keep_if-cong (λ v. not (is_descriptor_edge nx c t.graph w v))
        (λ v. not (is_descriptor_edge nx c s.graph w v)) (successors s.graph w)
        (λ v a. ap (λ d. not (is_ordering d)) (m.other_data w v h ne)))

  Treated-step :
      (s t u : Dfg Graph) (r : ℕ) (rs : List ℕ)
      → IsBounded nx s
      → r < s.next_ref
      → ((a : ℕ) → contains rs a ≡ true → a < s.next_ref)
      → contains rs r ≡ false
      → Moved nx s t r (moved nx c s r)
      → Treated t u rs
      → Treated s u (r ∷ rs)
  Treated-step s t u r rs b lt old fresh m k =
      let early : r < t.next_ref = omega (arith, m.grows) in
      record {
        bounded = k.bounded;
        grows = omega (arith, m.grows, k.grows);
        keeps_nodes = λ a h. k.keeps_nodes a (m.keeps_nodes a h);
        old_nodes = λ a h. k.old_nodes a (omega (arith, m.grows)) ∙ m.old_nodes a h;
        untouched = λ w h out.
            k.untouched w (omega (arith, m.grows)) (ground arith) ∙ m.others w h (ground arith);
        untouched_data = λ w x h out.
            k.untouched_data w x (omega (arith, m.grows)) (ground arith)
            ∙ m.other_data w x h (ground arith);
        few = λ w a. elim (Bool-cases (r == w)) [
          | inl e ↦
              let same : w ≡ r = ground arith in
              subst (λ x. length (direct u x) ≤ 1) (sym same)
                (rw (direct_stays t u rs m.bounded k r early fresh) (at_most_one s t r b m))
          | inr e ↦ k.few w (ground arith)
        ];
        served = λ w v a h. elim (Bool-cases (r == w)) [
          | inl e ↦
              let same : w ≡ r = ground arith in
              let here = subst (λ x. contains (signalled nx c s x) v ≡ true) same h in
              subst (λ x. IsServed s.next_ref u x v) (sym same)
                (IsServed-stays t u rs m.bounded k r early fresh s.next_ref v old
                  (IsServed-here s t r b m v here))
          | inr e ↦
              let w_old : w < s.next_ref = old w (ground arith) in
              lower s.next_ref t.next_ref u w v m.grows (
                k.served w v (ground arith)
                  (rw (signalled_elsewhere s t r (moved nx c s r) w m w_old (ground arith)) h))
        ];
      }

  for_each_node :
      (rs : List ℕ) (s : Dfg Graph)
      → IsBounded nx s
      → IsDistinct rs
      → ((a : ℕ) → contains rs a ≡ true → a < s.next_ref)
      → (t : Dfg Graph) × (for_each (set_node nx c) rs s ≡ ok t) × Treated s t rs
  unfolding for_each
  for_each_node [] s b d old = (s, refl, Treated-nothing s b)
  for_each_node (r ∷ rs) s b d old =
      let (t, eq, m) = set_node-Moves nx c s r (old r (ground arith)) b in
      let (u, eq2, k) =
        for_each_node rs t m.bounded d.1 (λ a h. omega (arith, old a (ground arith), m.grows)) in
      (
        u,
        for_each-step (set_node nx c) r rs s t u eq eq2,
        Treated-step s t u r rs b (old r (ground arith)) (λ a h. old a (ground arith)) d.0 m k,
      )

  -- On a graph whose nodes are objects in use, the pass raises nothing, and afterwards every task of
  -- the graph is still there and signals at most one task that is not a dummy set; each task that it signalled before is
  -- still a successor, or is a successor of a new dummy set that is its own successor.
  pub dummy_sets-ok :
      (s : Dfg Graph)
      → IsBounded nx s
      → (t : Dfg Graph) × (bingo_transform_dfg_add_dummy_set_nodes nx c s ≡ ok t)
        × ((w : ℕ)
            → contains (nodes s.graph) w ≡ true
            → (contains (nodes t.graph) w ≡ true)
              × (length (direct t w) ≤ 1)
              × ((v : ℕ) → contains (signalled nx c s w) v ≡ true → IsServed s.next_ref t w v))
  unfolding bingo_transform_dfg_add_dummy_set_nodes
  dummy_sets-ok s b =
      let (t, eq, k) = for_each_node (nodes s.graph) s b (nx.nodes-IsDistinct s.graph) b.nodes_lt in
      (t, eq, λ w h. (k.keeps_nodes w h, k.few w h, λ v m. k.served w v h m))
