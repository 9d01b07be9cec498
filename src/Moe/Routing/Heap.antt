-- ===== src/Moe/Routing/Heap.antt =====
-- The heap keeps the largest counts in front.
use he_mai_a.Prelude.{
  ℕ, ◌+◌, ◌-◌, ◌≤◌, ◌<◌, ◌≡◌, refl, false, List, [], ◌∷◌, arith, All, All-imp, Bool-cases, inl, inr,
  ◌==◌, if◌then◌else◌, ◌⊎◌,
}
use he_mai_a.Moe.Routing.{Item, item_before, push, push_rest}

-- An item's count is at most that of the items before it.
abbrev pub IsSorted : List Item → Type 0
IsSorted [] = Unit
IsSorted (x ∷ xs) = All (λ y. y.count ≤ x.count) xs × IsSorted xs

abbrev pub IsLive : Item → Type 0
IsLive x = 0 < x.count

abbrev pub Differs : Item → Item → Type 0
Differs x y = (x.eid == y.eid) ≡ false

-- One item for each expert.
abbrev pub IsUnique : List Item → Type 0
IsUnique [] = Unit
IsUnique (x ∷ xs) = All (Differs x) xs × IsUnique xs

abbrev pub total : List Item → ℕ
total [] = 0
total (x ∷ xs) = x.count + total xs

-- The count of one expert.
abbrev pub weight : ℕ → List Item → ℕ
weight e [] = 0
weight e (x ∷ xs) = (if x.eid == e then x.count else 0) + weight e xs

module _ (P : Item → Type 0) where
  pub push-All : (x : Item) (xs : List Item) → P x → All P xs → All P (push x xs)
  unfolding push
  push-All x [] p h = (p, tt)
  push-All x (y ∷ ys) p h = elim (Bool-cases (item_before y x)) [
    | inl e ↦ rw e (h.0, push-All x ys p h.1)
    | inr e ↦ rw e (p, h)
  ]

pub push-IsSorted : (x : Item) (xs : List Item) → IsSorted xs → IsSorted (push x xs)
unfolding push
push-IsSorted x [] h = (tt, tt)
push-IsSorted x (y ∷ ys) h = elim (Bool-cases (item_before y x)) [
  | inl e ↦
      let le : x.count ≤ y.count = ground arith in
      rw e (push-All (λ z. z.count ≤ y.count) x ys le h.0, push-IsSorted x ys h.1)
  | inr e ↦
      let le : y.count ≤ x.count = ground arith in
      rw e (
        (
          le,
          All-imp (λ z. z.count ≤ y.count) (λ z. z.count ≤ x.count) ys
              (λ z low. omega (arith, le, low)) h.0,
        ),
        h,
      )
]

pub Differs-sym : (x y : Item) → Differs x y → Differs y x
Differs-sym x y h = ground arith

pub push-IsUnique :
    (x : Item) (xs : List Item) → All (Differs x) xs → IsUnique xs → IsUnique (push x xs)
unfolding push
push-IsUnique x [] d h = (tt, tt)
push-IsUnique x (y ∷ ys) d h = elim (Bool-cases (item_before y x)) [
  | inl e ↦ rw e (push-All (Differs y) x ys (Differs-sym x y d.0) h.0, push-IsUnique x ys d.1 h.1)
  | inr e ↦ rw e (d, h)
]

pub total-push : (x : Item) (xs : List Item) → total (push x xs) ≡ x.count + total xs
unfolding push
total-push x [] = refl
total-push x (y ∷ ys) = ground (arith, total-push x ys)

pub weight-push :
    (e : ℕ) (x : Item) (xs : List Item)
    → weight e (push x xs) ≡ (if x.eid == e then x.count else 0) + weight e xs
unfolding push
weight-push e x [] = refl
weight-push e x (y ∷ ys) = ground (arith, weight-push e x ys)

module _ (x : Item) (xs : List Item) (live : IsLive x) where
  pub total-push_rest : total (push_rest x xs) + 1 ≡ x.count + total xs
  unfolding push_rest
  total-push_rest = ground (arith, total-push (record x { count = x.count - 1 }) xs)

  pub weight-push_rest :
      (e : ℕ)
      → weight e (push_rest x xs) + (if x.eid == e then 1 else 0)
        ≡ (if x.eid == e then x.count else 0) + weight e xs
  unfolding push_rest
  weight-push_rest e = ground (arith, weight-push e (record x { count = x.count - 1 }) xs)

  pub push_rest-All :
      (P : Item → Type 0)
      → P (record x { count = x.count - 1 }) ⊎ (x.count ≡ 1)
      → All P xs
      → All P (push_rest x xs)
  unfolding push_rest
  push_rest-All P p h = elim (Bool-cases (x.count == 1)) [
    | inl e ↦ rw e h
    | inr e ↦ rw e (elim p [
      | inl q ↦ push-All P (record x { count = x.count - 1 }) xs q h
      | inr one ↦ absurd (ground arith)
    ])
  ]

  pub push_rest-IsSorted : IsSorted xs → IsSorted (push_rest x xs)
  unfolding push_rest
  push_rest-IsSorted h = elim (Bool-cases (x.count == 1)) [
    | inl e ↦ rw e h
    | inr e ↦ rw e (push-IsSorted (record x { count = x.count - 1 }) xs h)
  ]

  pub push_rest-IsUnique : All (Differs x) xs → IsUnique xs → IsUnique (push_rest x xs)
  unfolding push_rest
  push_rest-IsUnique d h = elim (Bool-cases (x.count == 1)) [
    | inl e ↦ rw e h
    | inr e ↦ rw e (push-IsUnique (record x { count = x.count - 1 }) xs d h)
  ]
