-- ===== src/Descriptor/Codes.antt =====
-- The one-hot codes and the index widths of a descriptor.
use native.Mathlib.Nat.{pow-suc, one-le-pow, pow-le-pow_right}
use he_mai_a.Prelude.{ℕ, suc, ◌^◌, ◌<◌, ◌≡◌, refl, ◌||◌, List, [], ◌∷◌, All, arith, foldl}
use he_mai_a.Prelude.Bits.{
  bit_or, ◌<<◌, test_bit, test_bit-or, test_bit-one_hot, test_bit-zero, bit_or-lt,
}
use he_mai_a.Prelude.Members.{contains}
use he_mai_a.Descriptor.{core_code}

code_from : ℕ → List ℕ → ℕ
code_from = foldl (λ code core_id. bit_or code (1 << core_id))

test_bit-code_from :
    (cores : List ℕ) (code i : ℕ)
    → test_bit (code_from code cores) i ≡ test_bit code i || contains cores i
unfolding code_from
test_bit-code_from [] code i = ground arith
test_bit-code_from (c ∷ cores) code i = ground (
  arith,
  test_bit-code_from cores (bit_or code (1 << c)) i,
  test_bit-or i code (1 << c),
  test_bit-one_hot c i,
)

-- Bit `i` of a dependency code is set exactly for the cores of the list, however often and in
-- whatever order the list names them.
pub test_bit-core_code : (cores : List ℕ) (i : ℕ) → test_bit (core_code cores) i ≡ contains cores i
unfolding core_code code_from
test_bit-core_code cores i = rw (test_bit-code_from cores 0 i) (rw (test_bit-zero i) refl)

one_hot-lt : (n c : ℕ) → c < n → 1 << c < 2 ^ n
one_hot-lt n c h = omega (
  arith,
  pow-suc 2 c,
  one-le-pow c 2,
  pow-le-pow_right {n = 2} (omega arith) {i = suc c} {j = n} h,
)

code_from-lt :
    (n : ℕ) (cores : List ℕ) (code : ℕ)
    → code < 2 ^ n
    → All (λ c. c < n) cores
    → code_from code cores < 2 ^ n
unfolding code_from
code_from-lt n [] code h hs = h
code_from-lt n (c ∷ cores) code h hs =
    code_from-lt n cores (bit_or code (1 << c)) (bit_or-lt n code (1 << c) h (one_hot-lt n c hs.0))
      hs.1

-- The code of cores below `n` takes `n` bits.
pub core_code-lt : (n : ℕ) (cores : List ℕ) → All (λ c. c < n) cores → core_code cores < 2 ^ n
unfolding core_code code_from
core_code-lt n cores h = code_from-lt n cores 0 (one-le-pow n 2 (omega arith)) h
