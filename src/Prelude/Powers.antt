-- ===== src/Prelude/Powers.antt =====
-- The test `n & (n - 1)` for powers of two.
use Prim.Native.Nat.{ℕ, suc, ◌-◌, ◌/◌, ◌%◌, ◌^◌, ◌<◌}
use mathlib.Core.Path.{◌≡◌, ap, ◌∙◌}
use mathlib.Core.Logic.{◌↔◌, inl, inr}
use mathlib.Core.WellFounded as WF
use native.Mathlib.Omega.{arith}
use native.Mathlib.Nat.{pow-suc, one-le-pow, mod_self}
use he_mai_a.Prelude.Tests.{◌==◌, Bool-cases}
use he_mai_a.Prelude.Bits.{bit_and, and_lowest, lt_wf, bit_and-zero, bit_and-mask}

abbrev pub IsPowerOfTwo : ℕ → Type 0
IsPowerOfTwo n = (k : ℕ) × (n ≡ 2 ^ k)

bit_and_self : (n : ℕ) → bit_and n n ≡ n
bit_and_self n = WF.induction lt_wf {C = λ n. bit_and n n ≡ n} n λ n below.
    elim (Bool-cases (n == 0)) [
      | inl e ↦ let empty : n ≡ 0 = ground arith in rw empty (bit_and-zero 0)
      | inr e ↦ omega (arith, and_lowest n n, below (n / 2) (ground arith))
    ]

clear-IsPowerOfTwo : (n : ℕ) → 0 < n → bit_and n (n - 1) ≡ 0 → IsPowerOfTwo n
clear-IsPowerOfTwo n positive h =
    WF.induction lt_wf {C = λ n. 0 < n → bit_and n (n - 1) ≡ 0 → IsPowerOfTwo n} n
      (λ n below pos clear. elim (Bool-cases (n % 2 == 0)) [
        | inl even ↦
            let step : (n - 1) / 2 ≡ n / 2 - 1 = ground arith in
            let half : bit_and (n / 2) (n / 2 - 1) ≡ 0 =
              omega (arith, and_lowest n (n - 1), ap (bit_and (n / 2)) step) in
            let (k, e) = below (n / 2) (omega arith) (ground arith) half in
            (suc k, ground (arith, e, pow-suc 2 k))
        | inr odd ↦
            let step : (n - 1) / 2 ≡ n / 2 = ground arith in
            let small : n / 2 ≡ 0 =
              omega
                (arith, and_lowest n (n - 1), ap (bit_and (n / 2)) step, bit_and_self (n / 2)) in
            (0, ground arith)
      ])
      positive h

pub bit_and-IsPowerOfTwo : (n : ℕ) → ((0 < n) × (bit_and n (n - 1) ≡ 0)) ↔ IsPowerOfTwo n
bit_and-IsPowerOfTwo n = (
  λ (pos, clear). clear-IsPowerOfTwo n pos clear,
  λ (k, e). (omega (arith, e, one-le-pow k 2), rw e (bit_and-mask k (2 ^ k) ∙ mod_self (2 ^ k))),
)
