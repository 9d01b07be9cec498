-- ===== src/Dfg/DummyChecks/Correct.antt =====
-- The whole of `bingo_transform_dfg_add_dummy_check_nodes`: the loop over the nodes of the graph.
use he_mai_a.Prelude.{
  ℕ, ◌-◌, ◌≤◌, ◌<◌, ◌≡◌, refl, sym, ap, ◌∙◌, Bool, true, false, not, List, [], ◌∷◌, ◌++◌, arith,
  leb, ◌==◌, ==_refl, length, take, map, keep_if, Bool-cases, inl, inr, ◌⊎◌, subst, ok,
}
use he_mai_a.Prelude.Members.{contains, IsDistinct}
use he_mai_a.Node.{is_dummy_check}
use he_mai_a.Graph.{distinct, contains-distinct, DiGraph}
use he_mai_a.Schedule.Sorting.{sort_by, contains-sort_by}
use he_mai_a.Dfg.{Dfg, for_each, for_each-step}
use he_mai_a.Dfg.DummySets.Groups.{contains-group_by}
use he_mai_a.Dfg.DummyChecks.{check_node, cores_to_split, waited_for, unchecked}
use he_mai_a.Dfg.DummyChecks.Moves.{InUse, IsGuarded, Shifted, Shifted-trans}
use he_mai_a.Dfg.DummyChecks.Split.{
  only_last, only_one, length-le_one, contains-map, chosen, all_chosen, contains-all_chosen,
}
use he_mai_a.Dfg.DummyChecks.{bingo_transform_dfg_add_dummy_check_nodes}
use he_mai_a.Dfg.DummyChecks.Loops.{
  core_at, is_ordering, still_unchecked, OnePerCore, contains-waited_for, unchecked-IsDistinct,
  groups, first_case, first_case-one,
}
use he_mai_a.Dfg.DummyChecks.Cores.{NoneOn, for_each_core-SplitsOff}

module _ (nx : DiGraph) where
  open nx use {Graph, nodes, successors, predecessors, edge_data}

  cores_of : Dfg Graph → ℕ → List ℕ
  cores_of t cur = sort_by (λ core. core) (distinct (map (core_at nx t) (unchecked nx t cur)))

  contains-cores_of :
      (t : Dfg Graph) (cur x : ℕ)
      → contains (unchecked nx t cur) x ≡ true
      → contains (cores_of t cur) (core_at nx t x) ≡ true
  unfolding cores_of
  contains-cores_of t cur x h =
      contains-sort_by (λ core. core) (distinct (map (core_at nx t) (unchecked nx t cur)))
        (core_at nx t x)
      ∙ contains-distinct (map (core_at nx t) (unchecked nx t cur)) (core_at nx t x)
      ∙ contains-map (core_at nx t) (unchecked nx t cur) x h

  cores_to_split-chosen :
      (t : Dfg Graph) (cur : ℕ) → cores_to_split nx t cur ≡ chosen (cores_of t cur)
  unfolding cores_of
  cores_to_split-chosen t cur = refl

  -- Two cores that are not split off are the same.
  last_core :
      (cores : List ℕ) (a b : ℕ)
      → contains cores a ≡ true
      → contains cores b ≡ true
      → contains (chosen cores) a ≡ false
      → contains (chosen cores) b ≡ false
      → a ≡ b
  last_core cores a b ma mb na nb = elim (Bool-cases (leb 2 (length cores))) [
    | inl many ↦
        let whole : chosen cores ≡ take (length cores - 1) cores = rw many refl in
        only_last cores a b ma mb (subst (λ l. contains l a ≡ false) whole na)
          (subst (λ l. contains l b ≡ false) whole nb)
    | inr few ↦ only_one cores a b (ground arith) ma mb
  ]

  -- Where no core that was split off is left, one predecessor is.
  one_left :
      (t u : Dfg Graph) (cur : ℕ) (ws : List ℕ)
      → InUse nx t
      → OnePerCore nx t cur
      → Shifted nx t u cur ws
      → ((core : ℕ) → contains (cores_to_split nx t cur) core ≡ true → NoneOn nx u cur core)
      → length (unchecked nx u cur) ≤ 1
  one_left t u cur ws b one m done =
      length-le_one (unchecked nx u cur) (unchecked-IsDistinct nx u cur) λ x y hx hy.
        let (_, ux, _, sx) = still_unchecked nx t u cur ws x b m hx in
        let (_, uy, _, sy) = still_unchecked nx t u cur ws y b m hy in
        one x y ux uy (
          last_core (cores_of t cur) (core_at nx t x) (core_at nx t y)
            (contains-cores_of t cur x ux) (contains-cores_of t cur y uy) (not_split x hx sx)
            (not_split y hy sy))
    where
      not_split :
          (x : ℕ)
          → contains (unchecked nx u cur) x ≡ true
          → u.heap x ≡ t.heap x
          → contains (chosen (cores_of t cur)) (core_at nx t x) ≡ false
      not_split x h same = elim (Bool-cases (contains (chosen (cores_of t cur)) (core_at nx t x))) [
        | inl e ↦
            let split : contains (cores_to_split nx t cur) (core_at nx t x) ≡ true =
              ap (λ l. contains l (core_at nx t x)) (cores_to_split-chosen t cur) ∙ e in
            let at_u : core_at nx u x ≡ core_at nx t x = ap (λ n. n.assigned_core_id) same in
            absurd (ground (arith, done (core_at nx t x) split x h, at_u))
        | inr e ↦ e
      ]

  -- The node waits for the other one itself, or a dummy check in front of it does.
  abbrev pub IsAwaited : ℕ → Dfg Graph → ℕ → ℕ → Type 0
  IsAwaited low t cur p = (contains (predecessors t.graph cur) p ≡ true) ⊎ IsGuarded nx low t cur p

  check_node-splits :
      (s : Dfg Graph) (cur : ℕ)
      → cur < s.next_ref
      → InUse nx s
      → (u : Dfg Graph) × (ps : List ℕ) × (check_node nx cur s ≡ ok u)
        × Shifted nx s u cur ps
        × (length (unchecked nx u cur) ≤ 1)
  unfolding check_node
  check_node-splits s cur lt b =
      let (t, eq, m) = first_case nx s cur lt b in
      let one = first_case-one nx s cur lt b t m in
      let (u, ws, eq2, m2, un, done) =
        for_each_core-SplitsOff nx (cores_to_split nx t cur) t cur (omega (arith, m.grows)) m.in_use
          one in
      (
        u,
        all_chosen (groups nx s cur lt b) ++ ws,
        rw eq eq2,
        Shifted-trans nx s t u cur (all_chosen (groups nx s cur lt b)) ws lt
            (λ w h. b.from_lt w cur (
              ground (
                arith,
                contains-all_chosen (groups nx s cur lt b) w h,
                contains-group_by (core_at nx s) [] (waited_for nx s cur) w,
                contains-waited_for nx s cur w,
              )))
            (λ w h.
              (still_unchecked nx s t cur (all_chosen (groups nx s cur lt b)) w b m (un w h)).0)
            m m2,
        one_left t u cur ws m.in_use one m2 done,
      )

  IsAwaited-here :
      (s t : Dfg Graph) (cur : ℕ) (ps : List ℕ) (p : ℕ)
      → InUse nx s
      → Shifted nx s t cur ps
      → contains (predecessors s.graph cur) p ≡ true
      → IsAwaited s.next_ref t cur p
  IsAwaited-here s t cur ps p b m h = elim (Bool-cases (contains ps p)) [
    | inl e ↦ inr (m.guarded p e)
    | inr e ↦ inl (m.own p (b.from_lt p cur h) ∙ rw (h, e) refl)
  ]

  -- From `s` to `t` the nodes `rs` were treated, and the other nodes of `s` were left alone.
  pub record Checked (s t : Dfg Graph) (rs : List ℕ) : Type 0 where
    pub in_use : InUse nx t
    pub grows : s.next_ref ≤ t.next_ref
    pub keeps_nodes :
        (r : ℕ) → contains (nodes s.graph) r ≡ true → contains (nodes t.graph) r ≡ true
    pub old_nodes : (r : ℕ) → r < s.next_ref → t.heap r ≡ s.heap r
    pub untouched :
        (w : ℕ)
        → w < s.next_ref
        → contains rs w ≡ false
        → predecessors t.graph w ≡ predecessors s.graph w
    pub untouched_data :
        (u w : ℕ)
        → w < s.next_ref
        → contains rs w ≡ false
        → edge_data t.graph u w ≡ edge_data s.graph u w
    pub few : (w : ℕ) → contains rs w ≡ true → length (unchecked nx t w) ≤ 1
    pub awaited :
        (w p : ℕ)
        → contains rs w ≡ true
        → contains (predecessors s.graph w) p ≡ true
        → IsAwaited s.next_ref t w p

  keep_if-same :
      (p q : ℕ → Bool) (xs : List ℕ)
      → ((x : ℕ) → contains xs x ≡ true → p x ≡ q x)
      → keep_if p xs ≡ keep_if q xs
  keep_if-same p q [] same = refl
  keep_if-same p q (x ∷ xs) same =
      let rest : keep_if p xs ≡ keep_if q xs = keep_if-same p q xs (λ y m. same y (ground arith)) in
      ground (arith, rest, same x (ground (arith, ==_refl x)))

  -- A node that the rest of the loop leaves alone stays as it is.
  module _ (t u : Dfg Graph) (rs : List ℕ) (b : InUse nx t) (k : Checked t u rs) (w : ℕ)
      (early : w < t.next_ref) (out : contains rs w ≡ false) where
    waited_stays : waited_for nx u w ≡ waited_for nx t w
    waited_stays = rw (k.untouched w early out) (
        keep_if-same (λ p. not (is_ordering nx (edge_data u.graph p w)))
          (λ p. not (is_ordering nx (edge_data t.graph p w))) (predecessors t.graph w)
          (λ p m. ap (λ d. not (is_ordering nx d)) (k.untouched_data p w early out)))

    unchecked_stays : unchecked nx u w ≡ unchecked nx t w
    unchecked_stays = rw waited_stays (
        keep_if-same (λ p. not (is_dummy_check (u.heap p))) (λ p. not (is_dummy_check (t.heap p)))
          (waited_for nx t w)
          (λ p m.
            ap (λ n. not (is_dummy_check n))
              (k.old_nodes p (b.from_lt p w (ground (arith, contains-waited_for nx t w p))))))

    IsAwaited-stays :
        (low p : ℕ)
        → p < t.next_ref
        → ((a : ℕ) → contains rs a ≡ true → a < low)
        → IsAwaited low t w p
        → IsAwaited low u w p
    IsAwaited-stays low p hp old (inl e) = inl (rw (k.untouched w early out) e)
    IsAwaited-stays low p hp old (inr d) =
        let via_early : d.via < t.next_ref = b.from_lt d.via w d.to_cur in
        let via_out : contains rs d.via ≡ false = elim (Bool-cases (contains rs d.via)) [
          | inl e ↦ absurd (omega (arith, old d.via e, d.is_new))
          | inr e ↦ e
        ] in
        inr record {
          via = d.via;
          is_new = d.is_new;
          is_check = rw (k.old_nodes d.via via_early) d.is_check;
          waits = rw (k.old_nodes d.via via_early, k.old_nodes p hp) d.waits;
          to_cur = rw (k.untouched w early out) d.to_cur;
          from_p = rw (k.untouched d.via via_early via_out) d.from_p;
        }

  lower :
      (low high : ℕ) (t : Dfg Graph) (w p : ℕ)
      → low ≤ high
      → IsAwaited high t w p
      → IsAwaited low t w p
  lower low high t w p h (inl e) = inl e
  lower low high t w p h (inr d) = inr record {
    via = d.via;
    is_new = omega (arith, d.is_new);
    is_check = d.is_check;
    waits = d.waits;
    to_cur = d.to_cur;
    from_p = d.from_p;
  }

  Checked-nothing : (s : Dfg Graph) → InUse nx s → Checked s s []
  Checked-nothing s b = record {
    in_use = b;
    grows = omega arith;
    keeps_nodes = λ r m. m;
    old_nodes = λ r h. refl;
    untouched = λ w h out. refl;
    untouched_data = λ u w h out. refl;
    few = λ w m. absurd (ground arith);
    awaited = λ w p m h. absurd (ground arith);
  }

  Checked-step :
      (s t u : Dfg Graph) (r : ℕ) (ps rs : List ℕ)
      → InUse nx s
      → r < s.next_ref
      → ((a : ℕ) → contains rs a ≡ true → a < s.next_ref)
      → contains rs r ≡ false
      → Shifted nx s t r ps
      → length (unchecked nx t r) ≤ 1
      → Checked t u rs
      → Checked s u (r ∷ rs)
  Checked-step s t u r ps rs b lt old fresh m one k =
      let early : r < t.next_ref = omega (arith, m.grows) in
      record {
        in_use = k.in_use;
        grows = omega (arith, m.grows, k.grows);
        keeps_nodes = λ a h. k.keeps_nodes a (m.keeps_nodes a h);
        old_nodes = λ a h. k.old_nodes a (omega (arith, m.grows)) ∙ m.old_nodes a h;
        untouched = λ w h out.
            k.untouched w (omega (arith, m.grows)) (ground arith) ∙ m.others w h (ground arith);
        untouched_data = λ a w h out.
            k.untouched_data a w (omega (arith, m.grows)) (ground arith)
            ∙ m.other_data a w h (ground arith);
        few = λ w a. elim (Bool-cases (r == w)) [
          | inl e ↦
              let same : w ≡ r = ground arith in
              subst (λ x. length (unchecked nx u x) ≤ 1) (sym same)
                (rw (unchecked_stays t u rs m.in_use k r early fresh) one)
          | inr e ↦ k.few w (ground arith)
        ];
        awaited = λ w p a h. elim (Bool-cases (r == w)) [
          | inl e ↦
              let same : w ≡ r = ground arith in
              let here = subst (λ x. contains (predecessors s.graph x) p ≡ true) same h in
              subst (λ x. IsAwaited s.next_ref u x p) (sym same)
                (IsAwaited-stays t u rs m.in_use k r early fresh s.next_ref p
                  (omega (arith, b.from_lt p r here, m.grows)) old
                  (IsAwaited-here s t r ps p b m here))
          | inr e ↦
              let w_old : w < s.next_ref = old w (ground arith) in
              lower s.next_ref t.next_ref u w p m.grows
                (k.awaited w p (ground arith) (rw (m.others w w_old (ground arith)) h))
        ];
      }

  for_each_node :
      (rs : List ℕ) (s : Dfg Graph)
      → InUse nx s
      → IsDistinct rs
      → ((a : ℕ) → contains rs a ≡ true → a < s.next_ref)
      → (t : Dfg Graph) × (for_each (check_node nx) rs s ≡ ok t) × Checked s t rs
  unfolding for_each
  for_each_node [] s b d old = (s, refl, Checked-nothing s b)
  for_each_node (r ∷ rs) s b d old =
      let lt : r < s.next_ref = old r (ground (arith, ==_refl r)) in
      let (t, ps, eq, m, one) = check_node-splits s r lt b in
      let (u, eq2, k) =
        for_each_node rs t m.in_use d.1 (λ a h. omega (arith, old a (ground arith), m.grows)) in
      (
        u,
        for_each-step (check_node nx) r rs s t u eq eq2,
        Checked-step s t u r ps rs b lt (λ a h. old a (ground arith)) d.0 m one k,
      )

  -- On a graph whose nodes are objects in use, the pass raises nothing, and afterwards every task of the
  -- graph is still there and has at most one predecessor that it waits for and that is not a dummy check;
  -- each predecessor that it had is still one, or is the predecessor of a new dummy check that is its own
  -- predecessor and waits for the core of the old one.
  pub dummy_checks-ok :
      (s : Dfg Graph)
      → InUse nx s
      → (t : Dfg Graph) × (bingo_transform_dfg_add_dummy_check_nodes nx s ≡ ok t)
        × ((w : ℕ)
            → contains (nodes s.graph) w ≡ true
            → (contains (nodes t.graph) w ≡ true)
              × (length (unchecked nx t w) ≤ 1)
              × ((p : ℕ) → contains (predecessors s.graph w) p ≡ true → IsAwaited s.next_ref t w p))
  unfolding bingo_transform_dfg_add_dummy_check_nodes
  dummy_checks-ok s b =
      let (t, eq, k) = for_each_node (nodes s.graph) s b (nx.nodes-IsDistinct s.graph) b.nodes_lt in
      (t, eq, λ w h. (k.keeps_nodes w h, k.few w h, λ p m. k.awaited w p h m))
