-- ===== src/Prelude/Bits.antt =====
-- `|`, `&`, `<<` and `>>` of non-negative integers as arithmetic, at every width.
pub use Prim.Native.Nat.{bit_or, bit_and}
use Prim.Native.Nat.{
  ℕ, zero, suc, ◌+◌, ◌-◌, ◌*◌, ◌/◌, ◌%◌, ◌^◌, ◌≤◌, ◌<◌, min, max, digits, bit_or-bitwise,
  bit_and-bitwise,
}
use mathlib.Core.Path.{◌≡◌, refl, ap, sym, ◌∙◌}
use mathlib.Core.Bool.{Bool, false, ◌||◌}
use native.Mathlib.Omega.{arith}
use mathlib.Core.Logic.{inl, inr}
use mathlib.Core.WellFounded as WF
use mathlib.Core.WellFounded.{Acc, WellFounded}
use native.Mathlib.Nat.{
  pow-suc, pow-succ', one-le-pow, mod-one, mod-lt, mod-eq_of_lt, add-mul-mod_self_right,
  div-add-mod', div-div-eq-div-mul, div-one, zero-div,
}
use he_mai_a.Prelude.Tests.{◌==◌, ==_iff, Bool-cases}

infixl 75 ◌<<◌ ◌>>>◌
-- v << k
abbrev pub ◌<<◌ : ℕ → ℕ → ℕ
v << k = v * 2 ^ k

-- v >> k
abbrev pub ◌>>>◌ : ℕ → ℕ → ℕ
v >>> k = v / 2 ^ k

-- (1 << k) - 1
abbrev pub mask : ℕ → ℕ
mask k = 2 ^ k - 1

Acc-below : (k n : ℕ) → n < k → Acc ◌<◌ n
Acc-below zero n h = elim h [ ]
Acc-below (suc k) n h = Acc.intro n (λ m hm. Acc-below k m (omega arith))

pub lt_wf : WellFounded ◌<◌
lt_wf = record { apply = λ n. Acc-below (suc n) n (omega arith) }

-- The library defines both operations by `digits`, a recursion on a bound for the left operand.
module _ (z : ℕ → ℕ) (f : ℕ → ℕ → ℕ) where
  any_bound : (n m a b : ℕ) → a ≤ n → n ≤ m → digits z f m a b ≡ digits z f n a b
  any_bound zero zero a b low high = refl
  any_bound zero (suc m) zero b low high = refl
  any_bound zero (suc m) (suc a) b low high = absurd (omega arith)
  any_bound (suc n) zero a b low high = absurd (omega arith)
  any_bound (suc n) (suc m) zero b low high = refl
  any_bound (suc n) (suc m) (suc a) b low high =
      rw (any_bound n m (suc a / 2) (b / 2) (omega arith) (omega arith))

  lowest :
      (a b : ℕ)
      → digits z f (suc a) (suc a) b
        ≡ digits z f (suc a / 2) (suc a / 2) (b / 2) * 2 + f (suc a % 2) (b % 2)
  lowest a b = rw (any_bound (suc a / 2) a (suc a / 2) (b / 2) (omega arith) (omega arith))

or_lowest : (a b : ℕ) → max (a % 2) (b % 2) + 2 * bit_or (a / 2) (b / 2) ≡ bit_or a b
or_lowest zero b = omega (arith, bit_or-bitwise 0 b, bit_or-bitwise 0 (b / 2))
or_lowest (suc a) b =
    omega
      (arith, lowest (λ y. y) max a b, bit_or-bitwise (suc a) b, bit_or-bitwise (suc a / 2) (b / 2))

pub and_lowest : (a b : ℕ) → min (a % 2) (b % 2) + 2 * bit_and (a / 2) (b / 2) ≡ bit_and a b
and_lowest zero b = omega (arith, bit_and-bitwise 0 b, bit_and-bitwise 0 (b / 2))
and_lowest (suc a) b =
    omega (
      arith,
      lowest (λ y. 0) min a b,
      bit_and-bitwise (suc a) b,
      bit_and-bitwise (suc a / 2) (b / 2),
    )

pub zero-bit_or : (b : ℕ) → bit_or 0 b ≡ b
zero-bit_or b = bit_or-bitwise 0 b

bit_or-zero : (a : ℕ) → bit_or a 0 ≡ a
bit_or-zero a = WF.induction lt_wf {C = λ n. bit_or n 0 ≡ n} a λ n below.
    elim (Bool-cases (n == 0)) [
      | inl e ↦ rw ((==_iff n 0).0 e) (zero-bit_or 0)
      | inr e ↦ omega (arith, or_lowest n 0, below (n / 2) (ground arith))
    ]

two_pow : (k : ℕ) → 2 ^ suc k ≡ 2 ^ k + 2 ^ k
two_pow k = omega (arith, pow-suc 2 k)

double_shift : (v k : ℕ) → v * 2 ^ suc k ≡ v * 2 ^ k + v * 2 ^ k
double_shift v k = omega (arith, ap (λ (t : ℕ). v * t) (two_pow k))

half_shift : (v k : ℕ) → v << suc k / 2 ≡ v << k
half_shift v k = omega (arith, double_shift v k)

-- A field written above the bits in use is added.
pub bit_or-shift : (k x v : ℕ) → x < 2 ^ k → bit_or x (v << k) ≡ x + v << k
bit_or-shift zero x v h = let e : x ≡ 0 = omega arith in rw e (omega (arith, zero-bit_or (v * 1)))
bit_or-shift (suc k) x v h = omega (
  arith,
  or_lowest x (v << suc k),
  double_shift v k,
  half_shift v k,
  ap (bit_or (x / 2)) (half_shift v k),
  bit_or-shift k (x / 2) v (omega (arith, two_pow k)),
)

pub bit_and-zero : (a : ℕ) → bit_and a 0 ≡ 0
bit_and-zero a = WF.induction lt_wf {C = λ n. bit_and n 0 ≡ 0} a λ n below.
    elim (Bool-cases (n == 0)) [
      | inl e ↦ rw ((==_iff n 0).0 e) (bit_and-bitwise 0 0)
      | inr e ↦ omega (arith, and_lowest n 0, below (n / 2) (ground arith))
    ]

half_mask : (k : ℕ) → mask (suc k) / 2 ≡ mask k
half_mask k = omega (arith, two_pow k, one-le-pow k 2)

mod_lowest : (k x : ℕ) → x % 2 ^ suc k ≡ x / 2 % 2 ^ k * 2 + x % 2
mod_lowest k x =
    let small = x / 2 % 2 ^ k * 2 + x % 2 in
    let whole : x ≡ small + x / 2 / 2 ^ k * 2 ^ suc k =
      omega (arith, div-add-mod' (x / 2) (2 ^ k), double_shift (x / 2 / 2 ^ k) k) in
    let fits : small < 2 ^ suc k =
      omega (arith, mod-lt (x / 2) (one-le-pow k 2 (omega arith)), two_pow k) in
    ap (λ (t : ℕ). t % 2 ^ suc k) whole
    ∙ add-mul-mod_self_right small (x / 2 / 2 ^ k) (2 ^ suc k)
    ∙ mod-eq_of_lt fits

-- A mask of `k` ones takes the `k` lowest bits.
pub bit_and-mask : (k x : ℕ) → bit_and x (mask k) ≡ x % 2 ^ k
bit_and-mask zero x = simp (bit_and-zero, mod-one)
bit_and-mask (suc k) x = omega (
  arith,
  and_lowest x (mask (suc k)),
  half_mask k,
  ap (bit_and (x / 2)) (half_mask k),
  one-le-pow k 2,
  two_pow k,
  bit_and-mask k (x / 2),
  mod_lowest k x,
)

-- The bit at position `i`.
abbrev pub test_bit : ℕ → ℕ → Bool
test_bit x i = (x >>> i) % 2 == 1

shift_step : (x i : ℕ) → x >>> suc i ≡ (x / 2) >>> i
shift_step x i = rw (pow-succ' 2 i) (sym (div-div-eq-div-mul x 2 (2 ^ i)))

half_or : (a b : ℕ) → bit_or a b / 2 ≡ bit_or (a / 2) (b / 2)
half_or a b = omega (arith, or_lowest a b)

pub test_bit-or : (i a b : ℕ) → test_bit (bit_or a b) i ≡ test_bit a i || test_bit b i
test_bit-or zero a b = rw (div-one, div-one, div-one) (ground (arith, or_lowest a b))
test_bit-or (suc i) a b =
    rw (shift_step, shift_step, shift_step) (rw (half_or a b) (test_bit-or i (a / 2) (b / 2)))

pub test_bit-zero : (i : ℕ) → test_bit 0 i ≡ false
test_bit-zero i = rw (zero-div (2 ^ i)) refl

pub test_bit-one_hot : (c i : ℕ) → test_bit (1 << c) i ≡ (c == i)
test_bit-one_hot zero zero = refl
test_bit-one_hot (suc c) zero = ground (arith, div-one (1 << suc c), double_shift 1 c)
test_bit-one_hot zero (suc i) = rw (shift_step 1 i) (rw (zero-div (2 ^ i)) (ground arith))
test_bit-one_hot (suc c) (suc i) =
    rw (shift_step (1 << suc c) i) (rw (half_shift 1 c) (test_bit-one_hot c i ∙ ground arith))

pub bit_or-lt : (k a b : ℕ) → a < 2 ^ k → b < 2 ^ k → bit_or a b < 2 ^ k
bit_or-lt zero a b ha hb = let e : a ≡ 0 = omega arith in rw e (omega (arith, zero-bit_or b))
bit_or-lt (suc k) a b ha hb = omega (
  arith,
  or_lowest a b,
  two_pow k,
  bit_or-lt k (a / 2) (b / 2) (omega (arith, two_pow k)) (omega (arith, two_pow k)),
)

pub bit_or_comm : (a b : ℕ) → bit_or a b ≡ bit_or b a
bit_or_comm a b =
    WF.induction lt_wf {C = λ n. (b : ℕ) → bit_or n b ≡ bit_or b n} a
      (λ n below b. elim (Bool-cases (n == 0)) [
        | inl e ↦ let empty : n ≡ 0 = ground arith in rw empty (zero-bit_or b ∙ sym (bit_or-zero b))
        | inr e ↦ omega (arith, or_lowest n b, or_lowest b n, below (n / 2) (ground arith) (b / 2))
      ])
      b
