-- ===== src/Dfg/DummyChecks/Cores.antt =====
-- Case 2 of `bingo_transform_dfg_add_dummy_check_nodes`: one core after the other is split off.
use he_mai_a.Prelude.{
  ℕ, ◌<◌, ◌≡◌, refl, sym, ap, ◌∙◌, true, false, ◌&&◌, List, [], ◌∷◌, ◌++◌, arith, ◌==◌, ==_refl,
  keep_if, Bool-cases, inl, inr, ◌⊎◌, subst, Result, ok,
}
use he_mai_a.Prelude.Members.{contains, contains-append, contains-keep_if}
use he_mai_a.Graph.{DiGraph}
use he_mai_a.Dfg.{Dfg, for_each, for_each-step}
use he_mai_a.Dfg.DummyChecks.{check_one, check_core, unchecked}
use he_mai_a.Dfg.DummyChecks.Moves.{InUse, Shifted, Shifted-refl, Shifted-trans}
use he_mai_a.Dfg.DummyChecks.Loops.{
  core_at, check_one-Shifts, still_unchecked, still-OnePerCore, OnePerCore, contains-unchecked,
  contains-waited_for,
}

module _ (nx : DiGraph) where
  open nx use {Graph, nodes, successors, predecessors, edge_data}

  -- Case 2 for one core: nothing on it is left unchecked.
  abbrev pub NoneOn : Dfg Graph → ℕ → ℕ → Type 0
  NoneOn u cur core =
      (x : ℕ) → contains (unchecked nx u cur) x ≡ true → (core_at nx u x == core) ≡ false

  abbrev pub AreUnchecked : Dfg Graph → ℕ → List ℕ → Type 0
  AreUnchecked t cur ws = (p : ℕ) → contains ws p ≡ true → contains (unchecked nx t cur) p ≡ true

  abbrev pub SplitsOff : Result (Dfg Graph) → Dfg Graph → ℕ → (ℕ → Type 0) → Type 0
  SplitsOff result t cur Done =
      (u : Dfg Graph) × (ws : List ℕ) × (result ≡ ok u)
      × Shifted nx t u cur ws
      × AreUnchecked t cur ws
      × ((core : ℕ) → Done core → NoneOn u cur core)

  on_core : Dfg Graph → ℕ → ℕ → List ℕ
  on_core t cur core = keep_if (λ p. core_at nx t p == core) (unchecked nx t cur)

  contains-on_core :
      (t : Dfg Graph) (cur core p : ℕ)
      → contains (on_core t cur core) p ≡ contains (unchecked nx t cur) p && core_at nx t p == core
  unfolding on_core
  contains-on_core t cur core p =
      contains-keep_if (λ q. core_at nx t q == core) (unchecked nx t cur) p

  check_core-cases :
      (t : Dfg Graph) (cur core : ℕ)
      → ((on_core t cur core ≡ []) × (check_core nx cur core t ≡ ok t))
        ⊎ ((p : ℕ) × (contains (on_core t cur core) p ≡ true)
            × (check_core nx cur core t ≡ check_one nx cur core p t))
  unfolding check_core on_core
  check_core-cases t cur core = go (on_core t cur core) refl
    where
      go :
          (l : List ℕ)
          → on_core t cur core ≡ l
          → ((on_core t cur core ≡ []) × (check_core nx cur core t ≡ ok t))
            ⊎ ((p : ℕ) × (contains (on_core t cur core) p ≡ true)
                × (check_core nx cur core t ≡ check_one nx cur core p t))
      go [] e = inl (e, rw (check_core, e) refl)
      go (p ∷ ps) e = inr (
        p,
        subst (λ l. contains l p ≡ true) (sym e) (ground (arith, ==_refl p)),
        rw (check_core, e) refl,
      )

  check_core-SplitsOff :
      (t : Dfg Graph) (cur core : ℕ)
      → InUse nx t
      → OnePerCore nx t cur
      → SplitsOff (check_core nx cur core t) t cur (λ k. core ≡ k)
  check_core-SplitsOff t cur core b one = elim (check_core-cases t cur core) [
    | inl (none_there, eq) ↦ (
      t,
      [],
      eq,
      Shifted-refl nx t cur b,
      (λ p h. absurd (ground arith)),
      λ k same x h. elim (Bool-cases (core_at nx t x == k)) [
        | inl e ↦
            absurd
              (ground (arith, contains-on_core t cur core x, ap (λ l. contains l x) none_there))
        | inr e ↦ e
      ],
    )
    | inr (p, m, eq) ↦
        let un : contains (unchecked nx t cur) p ≡ true =
          ground (arith, contains-on_core t cur core p) in
        let here : core_at nx t p ≡ core = ground (arith, contains-on_core t cur core p) in
        let pred : contains (predecessors t.graph cur) p ≡ true =
          ground (arith, contains-unchecked nx t cur p, contains-waited_for nx t cur p) in
        let (u, eq2, k) = check_one-Shifts nx t cur core p b pred (sym here) in
        (
          u,
          p ∷ [],
          eq ∙ eq2,
          k,
          (λ q h.
              let same : p ≡ q = ground arith in
              subst (λ y. contains (unchecked nx t cur) y ≡ true) same un),
          λ c same x h. elim (Bool-cases (core_at nx u x == c)) [
            | inl e ↦
                let (_, ux, out, sx) = still_unchecked nx t u cur (p ∷ []) x b k h in
                let at_x : core_at nx t x ≡ core =
                  sym (ap (λ n. n.assigned_core_id) sx) ∙ (ground arith) in
                let equal : p ≡ x = one p x un ux (here ∙ sym at_x) in
                absurd (ground (arith, ap (λ y. p == y) equal, ==_refl p))
            | inr e ↦ e
          ],
        )
  ]

  pub for_each_core-SplitsOff :
      (cores : List ℕ) (t : Dfg Graph) (cur : ℕ)
      → cur < t.next_ref
      → InUse nx t
      → OnePerCore nx t cur
      → SplitsOff (for_each (check_core nx cur) cores t) t cur (λ k. contains cores k ≡ true)
  unfolding for_each
  for_each_core-SplitsOff [] t cur lt b one = (
    t,
    [],
    refl,
    Shifted-refl nx t cur b,
    (λ p h. absurd (ground arith)),
    λ k m. absurd (ground arith),
  )
  for_each_core-SplitsOff (core ∷ cores) t cur lt b one =
      let (u, ws, eq, m, old, done) = check_core-SplitsOff t cur core b one in
      let (v, ws2, eq2, m2, old2, done2) =
        for_each_core-SplitsOff cores u cur (omega (arith, m.grows)) m.in_use
          (still-OnePerCore nx t u cur ws b m one) in
      let earlier = λ (p : ℕ) (h : contains (unchecked nx u cur) p ≡ true).
        still_unchecked nx t u cur ws p b m h in
      (
        v,
        ws ++ ws2,
        for_each-step (check_core nx cur) core cores t u v eq eq2,
        Shifted-trans nx t u v cur ws ws2 lt
            (λ w h. b.from_lt w cur (
              ground
                (arith, old w h, contains-unchecked nx t cur w, contains-waited_for nx t cur w)))
            (λ w h. (earlier w (old2 w h)).0) m m2,
        (λ p h. elim (Bool-cases (contains ws p)) [
          | inl e ↦ old p e
          | inr e ↦ (earlier p (old2 p (ground (arith, contains-append ws ws2 p)))).1
        ]),
        λ k h. elim (Bool-cases (core == k)) [
          | inl e ↦ λ x hx.
              let (_, ux, _, sx) = still_unchecked nx u v cur ws2 x m.in_use m2 hx in
              ap (λ n. n.assigned_core_id == k) sx ∙ done k (ground arith) x ux
          | inr e ↦ done2 k (ground arith)
        ],
      )
