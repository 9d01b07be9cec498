-- ===== src/Moe/Routing/Experts.antt =====
-- The heap that the loop starts with, and the counts for which there is one.
use he_mai_a.Prelude.{
  ℕ, zero, suc, ◌+◌, ◌≤◌, ◌<◌, ◌≡◌, refl, false, List, [], ◌∷◌, arith, ok, All, All-imp, Bool-cases,
  inl, inr, ◌==◌, if◌then◌else◌, ◌⊎◌, get_or, ◌∙◌, ltb, leb, lt→ltb, ◌&&◌, err, Error,
}
use native.Mathlib.Decide.{dec_lt}
use he_mai_a.Prelude.Members.{contains}
use he_mai_a.Moe.Routing.{Item, push, range, expert_order, position, heapify, rank, sum, largest}
use he_mai_a.Moe.Routing.Heap.{
  IsSorted, IsLive, IsUnique, Differs, total, weight, push-All, push-IsSorted, push-IsUnique,
  total-push, weight-push,
}

-- The heap of the experts from `eid` on, where each of them has a rank.
pub heap_of : ℕ → List ℕ → List Item
heap_of eid [] = []
heap_of eid (count ∷ counts) =
    let rest = heap_of (eid + 1) counts in
    if count == 0
    then rest
    else push (record { count = count; order = position eid; eid = eid }) rest

contains-range : (n first e : ℕ) → contains (range n first) e ≡ leb first e && ltb e (first + n)
contains-range zero first e = ground arith
contains-range (suc n) first e = ground (arith, contains-range n (first + 1) e)

contains-order : (n e : ℕ) → contains (0 ∷ suc n ∷ range n 1) e ≡ ltb e (n + 2)
contains-order n e = ground (arith, contains-range n 1 e)

is_expert : (e : ℕ) → contains expert_order e ≡ ltb e 64
is_expert e = contains-order 62 e

rank-expert : (e : ℕ) → e < 64 → rank e ≡ ok (position e)
unfolding rank
rank-expert e h = rw (is_expert e ∙ lt→ltb e 64 h) refl

rank-other : (e : ℕ) → 64 ≤ e → rank e ≡ err Error.no_rank
unfolding rank
rank-other e h = let none : ltb e 64 ≡ false = ground arith in rw (is_expert e ∙ none) refl

-- A count that is not of one of the 64 experts.
abbrev pub HasOther : ℕ → List ℕ → Type 0
HasOther eid counts = (k : ℕ) × (64 ≤ eid + k) × (0 < get_or counts k 0)

-- All counts are of the 64 experts.
abbrev pub AllExperts : ℕ → List ℕ → Type 0
AllExperts eid counts = (k : ℕ) → 64 ≤ eid + k → get_or counts k 0 ≡ 0

pub heapify_lem :
    (eid : ℕ) (counts : List ℕ)
    → (heapify eid counts ≡ ok (heap_of eid counts)) × AllExperts eid counts
      ⊎ (heapify eid counts ≡ err Error.no_rank) × HasOther eid counts
unfolding heapify heap_of
heapify_lem eid [] = inl (refl, λ k h. refl)
heapify_lem eid (count ∷ counts) = elim (Bool-cases (count == 0)) [
  | inl none ↦ elim (heapify_lem (eid + 1) counts) [
    | inl (e, experts) ↦ rw none (inl (e, all_below eid count counts (ground arith) experts))
    | inr (e, (k, high, some)) ↦ rw none (inr (e, (suc k, omega arith, some)))
  ]
  | inr some ↦ elim (dec_lt eid 64) [
    | yes low ↦ elim (heapify_lem (eid + 1) counts) [
      | inl (e, experts) ↦
          rw (some, rank-expert eid low, e)
            (inl (refl, all_below eid count counts (inl low) experts))
      | inr (e, (k, high, more)) ↦
          rw (some, rank-expert eid low, e) (inr (refl, (suc k, omega arith, more)))
    ]
    | no high ↦ rw (some, rank-other eid (omega arith)) (inr (refl, (0, omega arith, ground arith)))
  ]
]
  where
    all_below :
        (eid count : ℕ) (counts : List ℕ)
        → (eid < 64) ⊎ (count ≡ 0)
        → AllExperts (eid + 1) counts
        → AllExperts eid (count ∷ counts)
    all_below eid count counts h rest zero high = ground arith
    all_below eid count counts h rest (suc k) high = rest k (omega arith)

heap_of-lower :
    (eid : ℕ) (counts : List ℕ) (lower : ℕ)
    → lower ≤ eid
    → All (λ z. lower ≤ z.eid) (heap_of eid counts)
unfolding heap_of
heap_of-lower eid [] lower h = tt
heap_of-lower eid (count ∷ counts) lower h = elim (Bool-cases (count == 0)) [
  | inl none ↦ rw none (heap_of-lower (eid + 1) counts lower (omega arith))
  | inr some ↦ rw some (
      push-All (λ z. lower ≤ z.eid) (record { count = count; order = position eid; eid = eid })
        (heap_of (eid + 1) counts) h (heap_of-lower (eid + 1) counts lower (omega arith)))
]

pub heapify-cases :
    (counts : List ℕ)
    → (heapify 0 counts ≡ ok (heap_of 0 counts)) × ((e : ℕ) → 64 ≤ e → get_or counts e 0 ≡ 0)
      ⊎ (heapify 0 counts ≡ err Error.no_rank) × ((e : ℕ) × (64 ≤ e) × (0 < get_or counts e 0))
heapify-cases counts = elim (heapify_lem 0 counts) [
  | inl (made, experts) ↦ inl (made, λ e high. experts e (omega arith))
  | inr (raised, (e, high, some)) ↦ inr (raised, (e, omega arith, some))
]

pub heapify-experts :
    (counts : List ℕ)
    → ((e : ℕ) → 64 ≤ e → get_or counts e 0 ≡ 0)
    → heapify 0 counts ≡ ok (heap_of 0 counts)
heapify-experts counts experts = elim (heapify-cases counts) [
  | inl (made, all) ↦ made
  | inr (raised, (e, high, some)) ↦ absurd (omega (arith, experts e high))
]

add-suc_left : (eid k : ℕ) → eid + suc k ≡ (eid + 1) + k
add-suc_left eid k = omega arith

abbrev pub Started : ℕ → ℕ → List ℕ → List Item → Type 0
Started bound eid counts heap =
    IsSorted heap
    × All IsLive heap
    × IsUnique heap
    × (total heap ≡ sum counts)
    × All (λ z. z.count ≤ bound) heap

pub heap_of-Started :
    (bound eid : ℕ) (counts : List ℕ)
    → largest counts ≤ bound
    → Started bound eid counts (heap_of eid counts)
unfolding heap_of
heap_of-Started bound eid [] h = (tt, tt, tt, refl, tt)
heap_of-Started bound eid (count ∷ counts) h =
    let heap = heap_of (eid + 1) counts in
    let item : Item = record { count = count; order = position eid; eid = eid } in
    let (sorted, live, unique, same, low) = heap_of-Started bound (eid + 1) counts (omega arith) in
    elim (Bool-cases (count == 0)) [
      | inl none ↦ rw none (sorted, live, unique, ground arith, low)
      | inr some ↦
          let positive : IsLive item = ground arith in
          let fits : count ≤ bound = omega arith in
          rw some (
            push-IsSorted item heap sorted,
            push-All IsLive item heap positive live,
            push-IsUnique item heap
                (All-imp (λ z. eid + 1 ≤ z.eid) (Differs item) heap (λ z k. ground arith)
                  (heap_of-lower (eid + 1) counts (eid + 1) (omega arith)))
                unique,
            omega (arith, total-push item heap, same),
            push-All (λ z. z.count ≤ bound) item heap fits low,
          )
    ]

weight-lower :
    (e lower : ℕ) (heap : List Item) → e < lower → All (λ z. lower ≤ z.eid) heap → weight e heap ≡ 0
weight-lower e lower [] h low = refl
weight-lower e lower (x ∷ heap) h low = ground (arith, weight-lower e lower heap h low.1, low.0)

pub weight-heap_of :
    (k eid : ℕ) (counts : List ℕ) → weight (eid + k) (heap_of eid counts) ≡ get_or counts k 0
unfolding heap_of
weight-heap_of k eid [] = refl
weight-heap_of zero eid (count ∷ counts) =
    let heap = heap_of (eid + 1) counts in
    let none_later =
      weight-lower (eid + 0) (eid + 1) heap (omega arith)
        (heap_of-lower (eid + 1) counts (eid + 1) (omega arith)) in
    ground (
      arith,
      none_later,
      weight-push (eid + 0) (record { count = count; order = position eid; eid = eid }) heap,
    )
weight-heap_of (suc k) eid (count ∷ counts) =
    let heap = heap_of (eid + 1) counts in
    let later : weight (eid + suc k) heap ≡ get_or counts k 0 =
      rw (add-suc_left eid k) (weight-heap_of k (eid + 1) counts) in
    ground (
      arith,
      later,
      weight-push (eid + suc k) (record { count = count; order = position eid; eid = eid }) heap,
    )
