-- ===== src/Dfg/Cerf/Alloc.antt =====
-- Which groups `bingo_define_conditional_region` hands out, and when it runs out of them.
use he_mai_a.Prelude.{
  ℕ, suc, zero, ◌+◌, ◌≤◌, ◌<◌, ◌≡◌, refl, sym, ap, ◌∙◌, Bool, true, false, ◌||◌, List, [], ◌∷◌,
  ◌++◌, leb, ltb, ◌==◌, ok, err, Error, arith, length, Bool-cases, inl, inr, ==_refl, subst,
}
use he_mai_a.Prelude.Members.{contains, IsDistinct, contains-append}
use he_mai_a.Graph.{distinct, contains-distinct}
use he_mai_a.Schedule.Sorting.{contains-sort_by}
use he_mai_a.Dfg.{Dfg}
use he_mai_a.Dfg.Cerf.{
  alloc_cerf_group, guard, guard_each, write_groups, set_gating, bingo_define_conditional_region,
}

-- `count` numbers from `first` on.
abbrev pub ascending : ℕ → ℕ → List ℕ
ascending first zero = []
ascending first (suc count) = first ∷ ascending (first + 1) count

contains-ascending :
    (first count a : ℕ) → first ≤ a → a < first + count → contains (ascending first count) a ≡ true
contains-ascending first zero a h k = absurd (omega arith)
contains-ascending first (suc count) a h k = elim (Bool-cases (first == a)) [
  | inl e ↦ ground arith
  | inr e ↦ ground (arith, contains-ascending (first + 1) count a (ground arith) (omega arith))
]

on_all :
    (P : ℕ → Type 0) (x : ℕ) (rs : List ℕ)
    → P x
    → ((r : ℕ) → contains rs r ≡ true → P r)
    → (r : ℕ) → contains (x ∷ rs) r ≡ true
    → P r
on_all P x rs here there r m = elim (Bool-cases (x == r)) [
  | inl e ↦ let same : x ≡ r = ground arith in subst P same here
  | inr e ↦ there r (ground arith)
]

module _ {G : Type 0} where
  -- What guarding the nodes `rs`, one group for each, has done.
  record Guarded (s t : Dfg G) (invert : Bool) (rs : List ℕ) : Type 0 where
    pub next : t.next_cerf_group ≡ s.next_cerf_group + length rs
    pub enabled : (r : ℕ) → contains rs r ≡ true → (t.heap r).cond_exec_en ≡ true
    pub inverted : (r : ℕ) → contains rs r ≡ true → (t.heap r).cond_exec_invert ≡ invert
    pub low : (r : ℕ) → contains rs r ≡ true → s.next_cerf_group ≤ (t.heap r).cond_exec_group_id
    pub high : (r : ℕ) → contains rs r ≡ true → (t.heap r).cond_exec_group_id < t.next_cerf_group
    pub apart :
        (a b : ℕ)
        → contains rs a ≡ true
        → contains rs b ≡ true
        → (t.heap a).cond_exec_group_id ≡ (t.heap b).cond_exec_group_id
        → (a == b) ≡ true
    pub others : (r : ℕ) → contains rs r ≡ false → t.heap r ≡ s.heap r
    pub groups : (r : ℕ) → (t.heap r).cerf_write_groups ≡ (s.heap r).cerf_write_groups

  alloc_ok :
      (s : Dfg G)
      → s.next_cerf_group < 32
      → alloc_cerf_group s
        ≡ ok (s.next_cerf_group, record s { next_cerf_group = s.next_cerf_group + 1 })
  unfolding alloc_cerf_group
  alloc_ok s h = let fits : leb 32 s.next_cerf_group ≡ false = ground arith in rw fits refl

  alloc_err : (s : Dfg G) → 32 ≤ s.next_cerf_group → alloc_cerf_group s ≡ err Error.cerf_overflow
  unfolding alloc_cerf_group
  alloc_err s h = let full : leb 32 s.next_cerf_group ≡ true = ground arith in rw full refl

  -- The state behind the first node of the loop.
  abbrev first : Bool → ℕ → Dfg G → Dfg G
  first invert x s =
      guard x s.next_cerf_group invert (record s { next_cerf_group = s.next_cerf_group + 1 })

  Guarded-step :
      (s u : Dfg G) (invert : Bool) (x : ℕ) (rs : List ℕ)
      → contains rs x ≡ false
      → Guarded (first invert x s) u invert rs
      → Guarded s u invert (x ∷ rs)
  Guarded-step s u invert x rs out k =
      let gid = s.next_cerf_group in
      let t = first invert x s in
      let at_x : u.heap x ≡ t.heap x = k.others x out in
      let own : (u.heap x).cond_exec_group_id ≡ gid =
        ap (λ n. n.cond_exec_group_id) at_x ∙ rw (==_refl x) refl in
      record {
        next = omega (arith, k.next);
        enabled =
            on_all (λ r. (u.heap r).cond_exec_en ≡ true) x rs
              (ap (λ n. n.cond_exec_en) at_x ∙ rw (==_refl x) refl) k.enabled;
        inverted =
            on_all (λ r. (u.heap r).cond_exec_invert ≡ invert) x rs
              (ap (λ n. n.cond_exec_invert) at_x ∙ rw (==_refl x) refl) k.inverted;
        low =
            on_all (λ r. gid ≤ (u.heap r).cond_exec_group_id) x rs (omega (arith, own))
              (λ r m. omega (arith, k.low r m));
        high =
            on_all (λ r. (u.heap r).cond_exec_group_id < u.next_cerf_group) x rs
              (omega (arith, own, k.next)) k.high;
        apart = λ a b m n.
            on_all
              (λ r. (u.heap r).cond_exec_group_id ≡ (u.heap b).cond_exec_group_id → (r == b) ≡ true)
              x rs
              (on_all
                (λ r.
                  (u.heap x).cond_exec_group_id ≡ (u.heap r).cond_exec_group_id → (x == r) ≡ true)
                x rs (λ e. ==_refl x) (λ r mr e. absurd (omega (arith, own, k.low r mr))) b n)
              (λ r mr.
                on_all
                  (λ q.
                    (u.heap r).cond_exec_group_id ≡ (u.heap q).cond_exec_group_id → (r == q) ≡ true)
                  x rs (λ e. absurd (omega (arith, own, k.low r mr))) (λ q mq. k.apart r q mr mq) b
                  n)
              a m;
        others = λ r m.
            let other : (x == r) ≡ false = ground arith in
            k.others r (ground arith) ∙ rw other refl;
        groups = λ r. k.groups r ∙ same_groups r;
      }
    where
      same_groups :
          (r : ℕ) → ((first invert x s).heap r).cerf_write_groups ≡ (s.heap r).cerf_write_groups
      same_groups r = elim (Bool-cases (x == r)) [
        | inl e ↦
            let same : x ≡ r = ground arith in
            subst
              (λ q. ((first invert x s).heap q).cerf_write_groups ≡ (s.heap q).cerf_write_groups)
              same (rw (==_refl x) refl)
        | inr e ↦ rw e refl
      ]

  guard_each_ok :
      (invert : Bool) (rs : List ℕ) (s : Dfg G)
      → IsDistinct rs
      → s.next_cerf_group + length rs ≤ 32
      → (t : Dfg G) × (guard_each invert rs s ≡ ok (ascending s.next_cerf_group (length rs), t))
        × Guarded s t invert rs
  unfolding guard_each
  guard_each_ok invert [] s d h = (
    s,
    refl,
    record {
      next = omega arith;
      enabled = λ r m. absurd (ground arith);
      inverted = λ r m. absurd (ground arith);
      low = λ r m. absurd (ground arith);
      high = λ r m. absurd (ground arith);
      apart = λ a b m n e. absurd (ground arith);
      others = λ r m. refl;
      groups = λ r. refl;
    },
  )
  guard_each_ok invert (x ∷ rs) s d h =
      let gid = s.next_cerf_group in
      let t = guard x gid invert (record s { next_cerf_group = gid + 1 }) in
      let (u, eq, k) = guard_each_ok invert rs t d.1 (omega arith) in
      (u, rw (alloc_ok s (omega arith)) (rw eq refl), Guarded-step s u invert x rs d.0 k)

  guard_each_err :
      (invert : Bool) (rs : List ℕ) (s : Dfg G)
      → s.next_cerf_group ≤ 32
      → 32 < s.next_cerf_group + length rs
      → guard_each invert rs s ≡ err Error.cerf_overflow
  unfolding guard_each
  guard_each_err invert [] s low h = absurd (omega arith)
  guard_each_err invert (x ∷ rs) s low h = elim (Bool-cases (ltb s.next_cerf_group 32)) [
    | inl e ↦
        rw (alloc_ok s (ground arith))
          (rw (guard_each_err invert rs (first invert x s) (ground arith) (omega arith)) refl)
    | inr e ↦ rw (alloc_err s (ground arith)) refl
  ]

  -- Writing the groups of a gating node changes nothing else that the region is about.
  same_guard :
      (gate : ℕ) (gids : List ℕ) (u : Dfg G) (r : ℕ)
      → (((write_groups gate gids u).heap r).cond_exec_en ≡ (u.heap r).cond_exec_en)
        × (((write_groups gate gids u).heap r).cond_exec_invert ≡ (u.heap r).cond_exec_invert)
        × (((write_groups gate gids u).heap r).cond_exec_group_id ≡ (u.heap r).cond_exec_group_id)
  unfolding write_groups
  same_guard gate gids u r = elim (Bool-cases (gate == r)) [
    | inl e ↦
        let same : gate ≡ r = ground arith in
        subst
          (λ q.
            (((write_groups gate gids u).heap q).cond_exec_en ≡ (u.heap q).cond_exec_en)
            × (((write_groups gate gids u).heap q).cond_exec_invert ≡ (u.heap q).cond_exec_invert)
            × (((write_groups gate gids u).heap q).cond_exec_group_id
                ≡ (u.heap q).cond_exec_group_id))
          same (rw (==_refl gate) (refl, refl, refl))
    | inr e ↦ rw e (refl, refl, refl)
  ]

  contains-write_groups :
      (gate : ℕ) (gids : List ℕ) (u : Dfg G) (g : ℕ)
      → contains ((write_groups gate gids u).heap gate).cerf_write_groups g
        ≡ contains (u.heap gate).cerf_write_groups g || contains gids g
  unfolding write_groups
  contains-write_groups gate gids u g =
      let old = (u.heap gate).cerf_write_groups in
      rw (==_refl gate) (
        contains-sort_by (λ x. x) (distinct (old ++ gids)) g
        ∙ contains-distinct (old ++ gids) g
        ∙ contains-append old gids g)

  -- Where the groups of the register file suffice, a region of distinct nodes with a group for each
  -- node is defined: the groups returned are the next ones in turn, every guarded node is conditional
  -- with the polarity asked for, no two of them share a group, and the gating node writes the group of
  -- each.
  pub conditional_region-ok :
      (gate : ℕ) (guarded : List ℕ) (invert : Bool) (s : Dfg G)
      → IsDistinct guarded
      → s.next_cerf_group + length guarded ≤ 32
      → (t : Dfg G) × (bingo_define_conditional_region gate guarded true invert s
          ≡ ok (ascending s.next_cerf_group (length guarded), t))
        × ((r : ℕ)
            → contains guarded r ≡ true
            → ((t.heap r).cond_exec_en ≡ true)
              × ((t.heap r).cond_exec_invert ≡ invert)
              × (contains (t.heap gate).cerf_write_groups (t.heap r).cond_exec_group_id ≡ true)
              × ((q : ℕ)
                  → contains guarded q ≡ true
                  → (t.heap r).cond_exec_group_id ≡ (t.heap q).cond_exec_group_id
                  → r ≡ q))
  unfolding bingo_define_conditional_region set_gating
  conditional_region-ok gate guarded invert s d h =
      let (u, eq, k) = guard_each_ok invert guarded (set_gating gate s) d h in
      let gids = ascending s.next_cerf_group (length guarded) in
      let same = same_guard gate gids u in
      (
        write_groups gate gids u,
        rw eq refl,
        λ r m. (
          (same r).0 ∙ k.enabled r m,
          (same r).1 ∙ k.inverted r m,
          (let given : contains gids (u.heap r).cond_exec_group_id ≡ true =
                contains-ascending s.next_cerf_group (length guarded) _ (k.low r m)
                  (omega (arith, k.high r m, k.next)) in
              rw (same r).2
                (ground (arith, contains-write_groups gate gids u (u.heap r).cond_exec_group_id))),
          λ q n e.
              let e' : (u.heap r).cond_exec_group_id ≡ (u.heap q).cond_exec_group_id =
                sym (same r).2 ∙ e ∙ (same q).2 in
              ground (arith, k.apart r q m n e'),
        ),
      )

  -- A region with a group for each node is refused exactly by the overflow error where the groups of the
  -- register file do not suffice.
  pub conditional_region-overflow :
      (gate : ℕ) (guarded : List ℕ) (invert : Bool) (s : Dfg G)
      → s.next_cerf_group ≤ 32
      → 32 < s.next_cerf_group + length guarded
      → bingo_define_conditional_region gate guarded true invert s ≡ err Error.cerf_overflow
  unfolding bingo_define_conditional_region set_gating
  conditional_region-overflow gate guarded invert s low h =
      rw (guard_each_err invert guarded (set_gating gate s) low h) refl
