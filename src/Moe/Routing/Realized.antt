-- ===== src/Moe/Routing/Realized.antt =====
-- The pairs realize the counts.
use he_mai_a.Prelude.{
  ℕ, zero, suc, ◌+◌, ◌-◌, ◌*◌, ◌≤◌, ◌≡◌, refl, false, List, [], ◌∷◌, arith, ok, length, All,
  All-imp, inl, ◌==◌, if◌then◌else◌, ◌⊎◌,
}
use he_mai_a.Moe.Routing.{Item, push_rest, take_pairs, Pair}
use he_mai_a.Moe.Routing.Heap.{
  IsSorted, IsLive, IsUnique, Differs, Differs-sym, total, weight, total-push_rest,
  weight-push_rest, push_rest-All, push_rest-IsSorted, push_rest-IsUnique,
}

-- In how many pairs the expert is, counted twice where it is both.
abbrev pub degree : ℕ → List Pair → ℕ
degree e [] = 0
degree e ((a, b) ∷ ps) = (if a == e then 1 else 0) + (if b == e then 1 else 0) + degree e ps

abbrev pub IsProper : Pair → Type 0
IsProper (a, b) = (a == b) ≡ false

-- A heap from which pairs can be taken for `rounds` rounds: no expert has more routes than there are
-- pairs.
pub record IsHeap (rounds : ℕ) (heap : List Item) : Type 0 where
  pub sorted : IsSorted heap
  pub live : All IsLive heap
  pub unique : IsUnique heap
  pub sum : total heap ≡ 2 * rounds
  pub bound : All (λ z. z.count ≤ rounds) heap

count-le-total : (xs : List Item) → All (λ z. z.count ≤ total xs) xs
count-le-total [] = tt
count-le-total (x ∷ xs) = (
  omega arith,
  All-imp (λ z. z.count ≤ total xs) (λ z. z.count ≤ x.count + total xs) xs (λ z h. omega (arith, h))
      (count-le-total xs),
)

both : (P Q : Item → Type 0) (xs : List Item) → All P xs → All Q xs → All (λ z. P z × Q z) xs
both P Q [] h k = tt
both P Q (x ∷ xs) h k = ((h.0, k.0), both P Q xs h.1 k.1)

tail-IsLive : (x : Item) → IsLive x → IsLive (record x { count = x.count - 1 }) ⊎ (x.count ≡ 1)
tail-IsLive x h = ground arith

round-IsHeap :
    (rounds : ℕ) (x y : Item) (heap : List Item)
    → IsHeap (suc rounds) (x ∷ y ∷ heap)
    → IsHeap rounds (push_rest y (push_rest x heap))
round-IsHeap rounds x y heap h =
    let lx : IsLive x = h.live.0 in
    let ly : IsLive y = h.live.1.0 in
    let one = push_rest x heap in
    let small : All (λ z. z.count ≤ rounds) heap =
      All-imp (λ z. (z.count ≤ y.count) × (z.count ≤ total heap)) (λ z. z.count ≤ rounds) heap
        (λ z k. omega (arith, k, h.sorted.0.0, h.sum))
        (both (λ z. z.count ≤ y.count) (λ z. z.count ≤ total heap) heap h.sorted.1.0
          (count-le-total heap)) in
    let middle : All (Differs y) one =
      push_rest-All x heap lx (Differs y) (inl (Differs-sym x y h.unique.0.0)) h.unique.1.0 in
    record {
      sorted = push_rest-IsSorted y one ly (push_rest-IsSorted x heap lx h.sorted.1.1);
      live =
          push_rest-All y one ly IsLive (tail-IsLive y ly)
            (push_rest-All x heap lx IsLive (tail-IsLive x lx) h.live.1.1);
      unique =
          push_rest-IsUnique y one ly middle
            (push_rest-IsUnique x heap lx h.unique.0.1 h.unique.1.1);
      sum = omega (arith, total-push_rest y one ly, total-push_rest x heap lx, h.sum);
      bound =
          push_rest-All y one ly (λ z. z.count ≤ rounds) (inl (omega (arith, h.bound)))
            (push_rest-All x heap lx (λ z. z.count ≤ rounds) (inl (omega (arith, h.bound))) small);
    }

-- What the loop gives: pairs of two experts each, as many as rounds, with each expert in as many of
-- them as it has routes.
abbrev pub Realizes : ℕ → List Item → List Pair → Type 0
Realizes rounds heap pairs =
    (length pairs ≡ rounds) × All IsProper pairs × ((e : ℕ) → degree e pairs ≡ weight e heap)

empty_heap : (heap : List Item) → IsHeap 0 heap → (e : ℕ) → 0 ≡ weight e heap
empty_heap [] h e = refl
empty_heap (x ∷ heap) h e = absurd (omega (arith, h.live.0, h.bound.0))

pub take_pairs-total :
    (rounds : ℕ) (heap : List Item)
    → IsHeap rounds heap
    → (pairs : List Pair) × (take_pairs rounds heap ≡ ok pairs) × Realizes rounds heap pairs
unfolding take_pairs
take_pairs-total zero heap h = ([], refl, (refl, tt, λ e. empty_heap heap h e))
take_pairs-total (suc rounds) [] h = absurd (omega (arith, h.sum))
take_pairs-total (suc rounds) (x ∷ []) h = absurd (omega (arith, h.sum, h.bound, h.live))
take_pairs-total (suc rounds) (x ∷ (y ∷ heap)) h =
    let one = push_rest x heap in
    let (pairs, e, (count, proper, same)) =
      take_pairs-total rounds (push_rest y one) (round-IsHeap rounds x y heap h) in
    (
      (x.eid, y.eid) ∷ pairs,
      rw (e, take_pairs) refl,
      (
        omega (arith, count),
        (h.unique.0.0, proper),
        λ e. omega (
          arith,
          same e,
          weight-push_rest y one h.live.1.0 e,
          weight-push_rest x heap h.live.0 e,
        ),
      ),
    )
