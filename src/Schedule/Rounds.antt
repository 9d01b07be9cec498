-- ===== src/Schedule/Rounds.antt =====
-- The scan for the next resource with a ready node.
use native.Mathlib.Decide.{dec_lt}
use he_mai_a.Prelude.{
  ℕ, zero, suc, ◌+◌, ◌%◌, ◌≤◌, ◌<◌, ◌≡◌, refl, ap, ◌∙◌, none, some, List, [], ◌∷◌, arith, length,
  ◌==◌, Bool-cases, ◌⊎◌, inl, inr, ◌↔◌, sym, subst,
}
use he_mai_a.Node.{BingoNode}
use he_mai_a.Schedule.{Progress, ready_at, resources, choose}

module _ (successors : ℕ → List ℕ) (node : ℕ → BingoNode) (local : List ℕ) where
  -- The choice `c` is the head of the list of a resource of the scan, which starts at the `k`-th
  -- behind the last one used and is `left` long, and the resources before it have no ready node.
  pub record IsNext (p : Progress) (left k : ℕ) (c : ℕ × ℕ × List ℕ) : Type 0 where
    pub steps : ℕ
    pub from : k ≤ steps
    pub within : steps < k + left
    pub index : c.0 ≡ (p.start + steps) % length (resources successors node local)
    pub head : ready_at successors node local p c.0 ≡ c.1 ∷ c.2
    pub passed :
        (j : ℕ)
        → k ≤ j
        → j < steps
        → ready_at successors node local p
            ((p.start + j) % length (resources successors node local))
          ≡ []

  -- No resource of the scan has a ready node.
  abbrev pub Blank : Progress → ℕ → ℕ → Type 0
  Blank p k left =
      (j : ℕ)
      → k ≤ j
      → j < k + left
      → ready_at successors node local p ((p.start + j) % length (resources successors node local))
        ≡ []

  here_or_later :
      (p : Progress) (k j : ℕ)
      → ready_at successors node local p ((p.start + k) % length (resources successors node local))
        ≡ []
      → k ≤ j
      → (k + 1 ≤ j
          → ready_at successors node local p
              ((p.start + j) % length (resources successors node local))
            ≡ [])
      → ready_at successors node local p ((p.start + j) % length (resources successors node local))
        ≡ []
  here_or_later p k j here le later = elim (Bool-cases (k == j)) [
    | inl same ↦ let e : j ≡ k = ground arith in rw e here
    | inr other ↦ later (ground arith)
  ]

  abbrev scanned : Progress → ℕ → ℕ
  scanned p k = (p.start + k) % length (resources successors node local)

  module _ (p : Progress) (left k : ℕ) where
    choose_blank :
        ready_at successors node local p (scanned p k) ≡ []
        → choose successors node local p (suc left) k ≡ choose successors node local p left (k + 1)
    unfolding choose
    choose_blank e = rw (e, choose)

    choose_head :
        (x : ℕ) (xs : List ℕ)
        → ready_at successors node local p (scanned p k) ≡ x ∷ xs
        → choose successors node local p (suc left) k ≡ some (scanned p k, x, xs)
    unfolding choose
    choose_head x xs e = rw (e, choose)

  -- What the scan may return.
  abbrev Found : Progress → ℕ → ℕ → Type 0
  Found p left k =
      (choose successors node local p left k ≡ none) × Blank p k left
      ⊎ ((c : ℕ × ℕ × List ℕ) × (choose successors node local p left k ≡ some c)
          × IsNext p left k c)

  later-Found :
      (p : Progress) (left k : ℕ)
      → ready_at successors node local p (scanned p k) ≡ []
      → Found p left (k + 1)
      → Found p (suc left) k
  later-Found p left k e (inl (nothing, blank)) = inl (
    choose_blank p left k e ∙ nothing,
    λ j a b. here_or_later p k j e a (λ a'. blank j a' (omega arith)),
  )
  later-Found p left k e (inr (c, chosen, next)) = inr (
    c,
    choose_blank p left k e ∙ chosen,
    record {
      steps = next.steps;
      from = omega (arith, next.from);
      within = omega (arith, next.within);
      index = next.index;
      head = next.head;
      passed = λ j a b. here_or_later p k j e a (λ a'. next.passed j a' b);
    },
  )

  here-Found :
      (p : Progress) (left k : ℕ) (xs : List ℕ)
      → ready_at successors node local p (scanned p k) ≡ xs
      → Found p left (k + 1)
      → Found p (suc left) k
  here-Found p left k [] e later = later-Found p left k e later
  here-Found p left k (x ∷ xs) e later = inr (
    (scanned p k, x, xs),
    choose_head p left k x xs e,
    record {
      steps = k;
      from = omega arith;
      within = omega arith;
      index = refl;
      head = e;
      passed = λ j a b. absurd (omega arith);
    },
  )

  pub choose-Found : (p : Progress) (left k : ℕ) → Found p left k
  choose-Found p zero k = inl (unfold choose in refl, λ j a b. absurd (omega arith))
  choose-Found p (suc left) k =
      here-Found p left k (ready_at successors node local p (scanned p k)) refl
        (choose-Found p left (k + 1))

  head_at :
      (p : Progress) (left k : ℕ) (c : ℕ × ℕ × List ℕ) (next : IsNext p left k c)
      → ready_at successors node local p (scanned p next.steps) ≡ c.1 ∷ c.2
  head_at p left k c next = ap (ready_at successors node local p) (sym next.index) ∙ next.head

  not-Blank :
      (p : Progress) (left k : ℕ) (c : ℕ × ℕ × List ℕ) → Blank p k left → IsNext p left k c → ⊥
  not-Blank p left k c blank next =
      let e : [] ≡ c.1 ∷ c.2 =
        sym (blank next.steps next.from next.within) ∙ head_at p left k c next in
      cc

  not_earlier :
      (p : Progress) (left k : ℕ) (c d : ℕ × ℕ × List ℕ) (next : IsNext p left k c)
      → (other : IsNext p left k d) → next.steps < other.steps
      → ⊥
  not_earlier p left k c d next other lt =
      let e : [] ≡ c.1 ∷ c.2 =
        sym (other.passed next.steps next.from lt) ∙ head_at p left k c next in
      cc

  same_choice :
      (p : Progress) (left k : ℕ) (c d : ℕ × ℕ × List ℕ) (next : IsNext p left k c)
      → (other : IsNext p left k d) → next.steps ≡ other.steps
      → c ≡ d
  same_choice p left k (i, x, xs) (j, y, ys) next other e =
      let same : i ≡ j = next.index ∙ ap (scanned p) e ∙ sym other.index in
      let heads : x ∷ xs ≡ y ∷ ys =
        sym next.head ∙ ap (ready_at successors node local p) same ∙ other.head in
      cc

  IsNext-unique :
      (p : Progress) (left k : ℕ) (c d : ℕ × ℕ × List ℕ)
      → IsNext p left k c
      → IsNext p left k d
      → c ≡ d
  IsNext-unique p left k c d next other = elim (dec_lt next.steps other.steps) [
    | yes before ↦ absurd (not_earlier p left k c d next other before)
    | no notbefore ↦ elim (dec_lt other.steps next.steps) [
      | yes after ↦ absurd (not_earlier p left k d c other next after)
      | no notafter ↦ same_choice p left k c d next other (omega arith)
    ]
  ]

  -- The scan over `left` resources, from the `k`-th behind the last resource used, returns nothing
  -- exactly when none of them has a ready node; and what it returns otherwise is the head of the list
  -- of the first of these `left` resources that has one.
  pub choose_lem :
      (p : Progress) (left k : ℕ)
      → ((choose successors node local p left k ≡ none) ↔ Blank p k left)
        × ((c : ℕ × ℕ × List ℕ)
            → (choose successors node local p left k ≡ some c) ↔ IsNext p left k c)
  choose_lem p left k = elim (choose-Found p left k) [
    | inl (nothing, blank) ↦ (
      (λ h. blank, λ h. nothing),
      λ c. (
        λ h. absurd (ground (arith, h, nothing)),
        λ next. absurd (not-Blank p left k c blank next),
      ),
    )
    | inr (d, chosen, next) ↦ (
      (λ h. absurd (ground (arith, h, chosen)), λ blank. absurd (not-Blank p left k d blank next)),
      λ c. (
        λ h. let same : d ≡ c = cc in subst (IsNext p left k) same next,
        λ other. chosen ∙ ap some (IsNext-unique p left k d c next other),
      ),
    )
  ]
