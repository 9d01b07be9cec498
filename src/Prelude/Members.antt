-- ===== src/Prelude/Members.antt =====
-- Lists of numbers as Python sets and as sequences of distinct items.
use Prim.Native.Nat.{ℕ, suc, ◌≤◌}
use mathlib.Core.Path.{◌≡◌, refl}
use mathlib.Core.Bool.{Bool, true, false, ◌&&◌, ◌||◌}
use mathlib.Core.List.{List, [], ◌∷◌, ◌++◌}
use native.Mathlib.Omega.{arith}
use mathlib.Core.Logic.{inl, inr}
use he_mai_a.Prelude.Tests.{◌==◌, if◌then◌else◌, Bool-cases}
use he_mai_a.Prelude.Lists.{length, keep_if}

-- a in xs
abbrev pub contains : List ℕ → ℕ → Bool
contains [] a = false
contains (x ∷ xs) a = x == a || contains xs a

abbrev pub IsDistinct : List ℕ → Type 0
IsDistinct [] = Unit
IsDistinct (x ∷ xs) = (contains xs x ≡ false) × IsDistinct xs

pub contains-append :
    (xs ys : List ℕ) (a : ℕ) → contains (xs ++ ys) a ≡ contains xs a || contains ys a
contains-append [] ys a = refl
contains-append (x ∷ xs) ys a = ground (arith, contains-append xs ys a)

pub contains-keep_if :
    (p : ℕ → Bool) (xs : List ℕ) (a : ℕ) → contains (keep_if p xs) a ≡ contains xs a && p a
contains-keep_if p [] a = refl
contains-keep_if p (x ∷ xs) a = ground (arith, contains-keep_if p xs a)

pub keep_if-IsDistinct : (p : ℕ → Bool) (xs : List ℕ) → IsDistinct xs → IsDistinct (keep_if p xs)
keep_if-IsDistinct p [] h = tt
keep_if-IsDistinct p (x ∷ xs) h =
    ground (arith, keep_if-IsDistinct p xs h.1, contains-keep_if p xs x)

pub append_one-IsDistinct :
    (xs : List ℕ) (a : ℕ) → IsDistinct xs → contains xs a ≡ false → IsDistinct (xs ++ a ∷ [])
append_one-IsDistinct [] a h new = (refl, tt)
append_one-IsDistinct (x ∷ xs) a h new =
    ground (arith, append_one-IsDistinct xs a, contains-append xs (a ∷ []) x)

-- The list without the first occurrence of `a`.
abbrev remove : ℕ → List ℕ → List ℕ
remove a [] = []
remove a (x ∷ xs) = if x == a then xs else x ∷ remove a xs

length-remove :
    (a : ℕ) (xs : List ℕ) → contains xs a ≡ true → length xs ≡ suc (length (remove a xs))
length-remove a [] h = cc
length-remove a (x ∷ xs) h = ground (arith, length-remove a xs)

contains-remove :
    (a : ℕ) (xs : List ℕ) (b : ℕ)
    → contains xs b ≡ true
    → (a == b) ≡ false
    → contains (remove a xs) b ≡ true
contains-remove a [] b h ne = cc
contains-remove a (x ∷ xs) b h ne = ground (arith, contains-remove a xs b)

-- Distinct items of a list are no more than its length.
pub length-le_of_subset :
    (xs ys : List ℕ)
    → IsDistinct xs
    → ((a : ℕ) → contains xs a ≡ true → contains ys a ≡ true)
    → length xs ≤ length ys
length-le_of_subset [] ys d sub = omega arith
length-le_of_subset (x ∷ xs) ys d sub = omega (
  arith,
  length-remove x ys (sub x (ground arith)),
  length-le_of_subset xs (remove x ys) d.1
      (λ a m. contains-remove x ys a (sub a (ground arith)) (ground (arith, d.0))),
)

-- As many distinct items as a list has are all of its items.
pub subset_of_length-le :
    (xs ys : List ℕ)
    → IsDistinct xs
    → ((a : ℕ) → contains xs a ≡ true → contains ys a ≡ true)
    → length ys ≤ length xs
    → (a : ℕ) → contains ys a ≡ true
    → contains xs a ≡ true
subset_of_length-le [] [] d sub h a m = cc
subset_of_length-le [] (y ∷ ys) d sub h a m = absurd (omega arith)
subset_of_length-le (x ∷ xs) ys d sub h a m = elim (Bool-cases (x == a)) [
  | inl same ↦ ground arith
  | inr other ↦
      let rest =
        subset_of_length-le xs (remove x ys) d.1
          (λ b mb. contains-remove x ys b (sub b (ground arith)) (ground (arith, d.0)))
          (omega (arith, length-remove x ys (sub x (ground arith)))) a
          (contains-remove x ys a m other) in
      ground (arith, rest)
]
