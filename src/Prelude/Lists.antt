-- ===== src/Prelude/Lists.antt =====
-- Lists measured by native numbers, and the tests on lists that the compiler uses.
use Prim.Native.Nat.{ℕ, zero, suc, ◌+◌, ◌≤◌}
use mathlib.Core.Path.{◌≡◌, refl}
use mathlib.Core.Bool.{Bool, true, false, ◌&&◌, ◌||◌}
use mathlib.Core.Logic.{◌⊎◌, inl, inr}
use mathlib.Core.List.{List, [], ◌∷◌, ◌++◌}
use native.Mathlib.Omega.{arith}
use he_mai_a.Prelude.Tests.{if◌then◌else◌}

module _ {ℓ} {A : Type ℓ} where
  abbrev pub length : List A → ℕ
  length [] = 0
  length (x ∷ xs) = suc (length xs)

  pub length-append : (xs ys : List A) → length (xs ++ ys) ≡ length xs + length ys
  length-append [] ys = omega arith
  length-append (x ∷ xs) ys = omega (arith, length-append xs ys)

  abbrev pub get_or : List A → ℕ → A → A
  get_or [] i d = d
  get_or (x ∷ xs) zero d = x
  get_or (x ∷ xs) (suc i) d = get_or xs i d

  abbrev pub take : ℕ → List A → List A
  take zero xs = []
  take (suc n) [] = []
  take (suc n) (x ∷ xs) = x ∷ take n xs

  -- `[x for x in xs if p(x)]`, with a test into Bool.
  abbrev pub keep_if : (A → Bool) → List A → List A
  keep_if p [] = []
  keep_if p (x ∷ xs) = if p x then x ∷ keep_if p xs else keep_if p xs

  abbrev pub all : (A → Bool) → List A → Bool
  all p [] = true
  all p (x ∷ xs) = p x && all p xs

  abbrev pub any : (A → Bool) → List A → Bool
  any p [] = false
  any p (x ∷ xs) = p x || any p xs

  -- A predicate on every item, which computes to a tuple.
  abbrev pub All {κ} : (A → Type κ) → List A → Type κ
  All P (item ∷ rest) = P item × All P rest
  All P [] = Unit

  pub length-keep_if-le : (p : A → Bool) (xs : List A) → length (keep_if p xs) ≤ length xs
  length-keep_if-le p [] = omega arith
  length-keep_if-le p (x ∷ xs) = ground (arith, length-keep_if-le p xs)

  -- Some item has the property, which computes to a sum.
  abbrev pub Has : (A → Type 0) → List A → Type 0
  Has P (item ∷ rest) = P item ⊎ Has P rest
  Has P [] = ⊥

  pub All-imp : (P Q : A → Type 0) (xs : List A) → ((x : A) → P x → Q x) → All P xs → All Q xs
  All-imp P Q [] f h = tt
  All-imp P Q (x ∷ xs) f h = (f x h.0, All-imp P Q xs f h.1)

  pub All-both : (P Q : A → Type 0) (xs : List A) → All P xs → All Q xs → All (λ x. P x × Q x) xs
  All-both P Q [] h k = tt
  All-both P Q (x ∷ xs) h k = ((h.0, k.0), All-both P Q xs h.1 k.1)

  pub Has-imp : (P Q : A → Type 0) (xs : List A) → ((x : A) → P x → Q x) → Has P xs → Has Q xs
  Has-imp P Q [] f h = absurd h
  Has-imp P Q (x ∷ xs) f (inl h) = inl (f x h)
  Has-imp P Q (x ∷ xs) f (inr h) = inr (Has-imp P Q xs f h)

  -- What holds for every item holds for one that is there.
  pub Has-All : (P Q : A → Type 0) (xs : List A) → All P xs → Has Q xs → Has (λ x. P x × Q x) xs
  Has-All P Q [] h q = absurd q
  Has-All P Q (x ∷ xs) h (inl q) = inl (h.0, q)
  Has-All P Q (x ∷ xs) h (inr q) = inr (Has-All P Q xs h.1 q)

  pub Has-elim {κ} :
      {C : Type κ} (P : A → Type 0) (xs : List A) → ((x : A) → P x → C) → Has P xs → C
  Has-elim P [] f h = absurd h
  Has-elim P (x ∷ xs) f (inl h) = f x h
  Has-elim P (x ∷ xs) f (inr h) = Has-elim P xs f h

  pub All-append : (P : A → Type 0) (xs ys : List A) → All P xs → All P ys → All P (xs ++ ys)
  All-append P [] ys h k = k
  All-append P (x ∷ xs) ys h k = (h.0, All-append P xs ys h.1 k)

-- Every item of a list is one of its items.
pub All-self : {A : Type 0} (xs : List A) → All (λ x. Has (λ y. y ≡ x) xs) xs
All-self [] = tt
All-self (x ∷ xs) = (
  inl refl,
  All-imp (λ z. Has (λ y. y ≡ z) xs) (λ z. Has (λ y. y ≡ z) (x ∷ xs)) xs (λ z. inr) (All-self xs),
)
