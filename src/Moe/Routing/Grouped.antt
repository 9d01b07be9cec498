-- ===== src/Moe/Routing/Grouped.antt =====
-- Grouping equal pairs changes their order only; the routing of every case that can be realized.
use he_mai_a.Prelude.{
  ℕ, suc, ◌+◌, ◌/◌, ◌%◌, ◌≤◌, ◌<◌, ◌≡◌, refl, true, false, List, [], ◌∷◌, ◌++◌, arith, ok, err,
  Error, length, All, All-append, Bool-cases, inl, inr, ◌==◌, get_or, length-append, ltb, ◌∙◌, ap,
  ◌↔◌, ◌⊎◌,
}
use native.Mathlib.Decide.{dec_lt}
use he_mai_a.Moe.Routing.{
  Pair, Item, take_pairs, heapify, sum, largest, same_pair, pair_before, add_pair, histogram,
  expand, replicate, pair_degrees,
}
use he_mai_a.Moe.Routing.Heap.{weight}
use he_mai_a.Moe.Routing.Realized.{degree, IsProper, IsHeap, take_pairs-total}
use he_mai_a.Moe.Routing.Experts.{
  heap_of, heapify-cases, heapify-experts, heap_of-Started, weight-heap_of,
}

degree-append : (e : ℕ) (ps qs : List Pair) → degree e (ps ++ qs) ≡ degree e ps + degree e qs
degree-append e [] qs = omega arith
degree-append e ((a, b) ∷ ps) qs = omega (arith, degree-append e ps qs)

-- What a list of pairs says of degrees, counts and properness is the same when a pair joins its
-- group.
degree-add_pair :
    (e : ℕ) (p : Pair) (h : List (Pair × ℕ))
    → degree e (expand (add_pair p h)) ≡ degree e (p ∷ []) + degree e (expand h)
unfolding add_pair expand
degree-add_pair e (a, b) [] = omega arith
degree-add_pair e (a, b) (((c, d), n) ∷ rest) = elim (Bool-cases (same_pair (a, b) (c, d))) [
  | inl same ↦
      let ac : a ≡ c = ground arith in
      let bd : b ≡ d = ground arith in rw same (rw (ac, bd) (omega arith))
  | inr other ↦ elim (Bool-cases (pair_before (a, b) (c, d))) [
    | inl before ↦ rw (other, before) (omega arith)
    | inr after ↦
        rw (other, after)
          (omega (
            arith,
            degree-add_pair e (a, b) rest,
            degree-append e (replicate n (c, d)) (expand rest),
            degree-append e (replicate n (c, d)) (expand (add_pair (a, b) rest)),
          ))
  ]
]

length-add_pair :
    (p : Pair) (h : List (Pair × ℕ)) → length (expand (add_pair p h)) ≡ suc (length (expand h))
unfolding add_pair expand
length-add_pair (a, b) [] = refl
length-add_pair (a, b) (((c, d), n) ∷ rest) = ground (
  arith,
  length-add_pair (a, b) rest,
  length-append (replicate n (c, d)) (expand rest),
  length-append (replicate n (c, d)) (expand (add_pair (a, b) rest)),
)

append-IsProper : (ps qs : List Pair) → All IsProper (ps ++ qs) → All IsProper ps × All IsProper qs
append-IsProper [] qs h = (tt, h)
append-IsProper (p ∷ ps) qs h =
    let (first, second) = append-IsProper ps qs h.1 in ((h.0, first), second)

add_pair-IsProper :
    (p : Pair) (h : List (Pair × ℕ))
    → IsProper p
    → All IsProper (expand h)
    → All IsProper (expand (add_pair p h))
unfolding add_pair expand
add_pair-IsProper (a, b) [] p h = (p, tt)
add_pair-IsProper (a, b) (((c, d), n) ∷ rest) p h =
    let (own, later) = append-IsProper (replicate n (c, d)) (expand rest) h in
    elim (Bool-cases (same_pair (a, b) (c, d))) [
      | inl same ↦ rw same (ground arith, h)
      | inr other ↦ elim (Bool-cases (pair_before (a, b) (c, d))) [
        | inl before ↦ rw (other, before) (p, h)
        | inr after ↦
            rw (other, after)
              (All-append IsProper (replicate n (c, d)) (expand (add_pair (a, b) rest)) own
                (add_pair-IsProper (a, b) rest p later))
      ]
    ]

histogram_lem :
    (ps : List Pair)
    → All IsProper ps
    → (length (expand (histogram ps)) ≡ length ps)
      × All IsProper (expand (histogram ps))
      × ((e : ℕ) → degree e (expand (histogram ps)) ≡ degree e ps)
unfolding histogram expand
histogram_lem [] h = (refl, tt, λ e. refl)
histogram_lem ((a, b) ∷ ps) h =
    let (count, proper, same) = histogram_lem ps h.1 in
    (
      length-add_pair (a, b) (histogram ps) ∙ ap suc count,
      add_pair-IsProper (a, b) (histogram ps) h.0 proper,
      λ e. omega (arith, degree-add_pair e (a, b) (histogram ps), same e),
    )

module _ (counts : List ℕ) where
  pair_degrees-odd : sum counts % 2 ≡ 1 → pair_degrees counts ≡ err Error.odd_routes
  unfolding pair_degrees
  pair_degrees-odd odd = let e : (sum counts % 2 == 0) ≡ false = ground arith in rw e refl

  module _ (even : sum counts % 2 ≡ 0) where
    even_test : (sum counts % 2 == 0) ≡ true
    even_test = ground arith

    pair_degrees-many :
        sum counts / 2 < largest counts → pair_degrees counts ≡ err Error.too_many_routes
    unfolding pair_degrees
    pair_degrees-many large =
        let e : ltb (sum counts / 2) (largest counts) ≡ true = ground arith in
        rw (even_test, e) refl

    pub pair_degrees-fits :
        (pairs : List Pair) → pair_degrees counts ≡ ok pairs → largest counts ≤ sum counts / 2
    pair_degrees-fits pairs found = elim (dec_lt (sum counts / 2) (largest counts)) [
      | yes large ↦ absurd (ground (arith, found, pair_degrees-many large))
      | no fits ↦ omega arith
    ]

    module _ (fits : largest counts ≤ sum counts / 2) where
      fits_test : ltb (sum counts / 2) (largest counts) ≡ false
      fits_test = ground arith

      pair_degrees-no_rank :
          heapify 0 counts ≡ err Error.no_rank → pair_degrees counts ≡ err Error.no_rank
      unfolding pair_degrees
      pair_degrees-no_rank e = rw (even_test, fits_test, e) refl

      pair_degrees-ok :
          (heap : List Item) (pairs : List Pair)
          → heapify 0 counts ≡ ok heap
          → take_pairs (sum counts / 2) heap ≡ ok pairs
          → pair_degrees counts ≡ ok (expand (histogram pairs))
      unfolding pair_degrees
      pair_degrees-ok heap pairs e found = rw (even_test, fits_test, e) (rw found refl)

      heap_of-IsHeap : IsHeap (sum counts / 2) (heap_of 0 counts)
      heap_of-IsHeap =
          let (sorted, live, unique, same, low) = heap_of-Started (sum counts / 2) 0 counts fits in
          record {
            sorted = sorted;
            live = live;
            unique = unique;
            sum = omega (arith, same);
            bound = low;
          }

-- Where the counts have an even sum, none exceeds its half and none but those of the 64 experts is
-- above zero, the pairs are found: half as many as there are routes, each of two experts, and every
-- expert is in as many of them as it has routes.
pub pair_degrees-total :
    (counts : List ℕ)
    → sum counts % 2 ≡ 0
    → largest counts ≤ sum counts / 2
    → ((e : ℕ) → 64 ≤ e → get_or counts e 0 ≡ 0)
    → (pairs : List Pair) × (pair_degrees counts ≡ ok pairs)
      × (length pairs ≡ sum counts / 2)
      × All IsProper pairs
      × ((e : ℕ) → degree e pairs ≡ get_or counts e 0)
pair_degrees-total counts even fits experts =
    let (pairs, found, (count, proper, degrees)) =
      take_pairs-total (sum counts / 2) (heap_of 0 counts) (heap_of-IsHeap counts even fits) in
    let (count', proper', degrees') = histogram_lem pairs proper in
    (
      expand (histogram pairs),
      pair_degrees-ok counts even fits (heap_of 0 counts) pairs (heapify-experts counts experts)
          found,
      count' ∙ count,
      proper',
      λ e.
          degrees' e
          ∙ degrees e
          ∙ ap (λ (t : ℕ). weight t (heap_of 0 counts)) (omega arith)
          ∙ weight-heap_of e 0 counts,
    )

-- Counts are refused for three reasons only: an odd sum; with an even sum, a count above half of it;
-- and otherwise a count above zero that belongs to none of the 64 experts. Each gives its own error.
pair_degrees-refused :
    (counts : List ℕ) (e : Error)
    → (pair_degrees counts ≡ err e) ↔ (
        (e ≡ Error.odd_routes) × (sum counts % 2 ≡ 1)
        ⊎ (e ≡ Error.too_many_routes) × (sum counts % 2 ≡ 0) × (sum counts / 2 < largest counts)
        ⊎ (e ≡ Error.no_rank)
          × (sum counts % 2 ≡ 0)
          × (largest counts ≤ sum counts / 2)
          × ((k : ℕ) × (64 ≤ k) × (0 < get_or counts k 0)))
pair_degrees-refused counts e = elim (Bool-cases (sum counts % 2 == 0)) [
  | inr odd ↦ ground (arith, pair_degrees-odd counts)
  | inl even ↦ elim (Bool-cases (ltb (sum counts / 2) (largest counts))) [
    | inl large ↦ ground (arith, pair_degrees-many counts)
    | inr fits ↦ elim (heapify-cases counts) [
      | inl (made, experts) ↦
          let (pairs, found, _, _, _) =
            pair_degrees-total counts (ground arith) (ground arith) experts in
          (
            λ h. absurd (ground (arith, found, h)),
            λ h. elim h [
              | inl (a, odd) ↦ absurd (ground arith)
              | inr (inl (a, b, large)) ↦ absurd (ground arith)
              | inr (inr (a, b, c, (k, high, some))) ↦ absurd (omega (arith, experts k high))
            ],
          )
      | inr (raised, other) ↦
          let refused = pair_degrees-no_rank counts (ground arith) (ground arith) raised in
          (
            λ h. inr (inr (ground (arith, refused, h), ground arith, ground arith, other)),
            λ h. elim h [
              | inl (a, odd) ↦ absurd (ground arith)
              | inr (inl (a, b, large)) ↦ absurd (ground arith)
              | inr (inr (a, b, c, d)) ↦ rw a refused
            ],
          )
    ]
  ]
]
