-- ===== src/Descriptor/Width.antt =====
-- `get_idx_width` of bingo_dfg.py: where the float logarithm gives the least width.
use native.Mathlib.Nat.{
  pow-suc, one-le-pow, pow-le-pow_right, add-zero, zero-add, le_of_lt, div-eq_of_lt, div-add-mod',
  mod-lt,
}
use native.Mathlib.Decide.{ℕ_discrete, dec_lt}
use he_mai_a.Prelude.{
  ℕ, zero, suc, ◌+◌, ◌-◌, ◌*◌, ◌/◌, ◌^◌, ◌≤◌, ◌<◌, ◌≡◌, refl, arith, leb, lt→ltb, inl, inr,
  Bool-cases, ap, ◌∙◌,
}
use he_mai_a.Descriptor.Words.{pow-add}
use he_mai_a.Descriptor.{least_width, bit_length, to_double, log2_slack, ceil_log2, idx_width}

lt-two_pow : (n : ℕ) → n < 2 ^ n
lt-two_pow zero = omega arith
lt-two_pow (suc n) = omega (arith, lt-two_pow n, pow-suc 2 n)

-- The search ends at the least width.
abbrev IsLeastWidth : ℕ → ℕ → Type 0
IsLeastWidth n w = (n ≤ 2 ^ w) × ((v : ℕ) → v < w → 2 ^ v < n)

one_more : (w rounds : ℕ) → w + 1 + rounds ≡ w + suc rounds
one_more w rounds = omega arith

up_to : (w n : ℕ) → 2 ^ w < n → ((v : ℕ) → v < w → 2 ^ v < n) → (v : ℕ) → v ≤ w → 2 ^ v < n
up_to w n here below v h = elim (ℕ_discrete v w) [
  | yes same ↦ rw same here
  | no other ↦ below v (omega arith)
]

least_width-IsLeastWidth :
    (rounds w n : ℕ)
    → n ≤ 2 ^ (w + rounds)
    → ((v : ℕ) → v < w → 2 ^ v < n)
    → IsLeastWidth n (least_width rounds w n)
unfolding least_width
least_width-IsLeastWidth zero w n h below = (rw add-zero at h, below)
least_width-IsLeastWidth (suc rounds) w n h below = elim (Bool-cases (leb n (2 ^ w))) [
  | inl fits ↦ rw fits (ground arith, below)
  | inr wide ↦ rw wide (
      least_width-IsLeastWidth rounds (w + 1) n (rw (one_more w rounds) h)
        (λ v hv. up_to w n (ground arith) below v (omega arith)))
]

least : (n : ℕ) → IsLeastWidth n (least_width n 0 n)
least n =
    least_width-IsLeastWidth n 0 n (rw zero-add (le_of_lt (lt-two_pow n))) (λ v none. elim none [ ])

two_pow-le : (a b : ℕ) → a ≤ b → 2 ^ a ≤ 2 ^ b
two_pow-le a b h = pow-le-pow_right {n = 2} (omega arith) {i = a} {j = b} h

-- Below 2 ^ w a number has at most w bits.
bit_length-le : (n w : ℕ) → n < 2 ^ w → bit_length n ≤ w
bit_length-le n w h = elim (dec_lt w (bit_length n)) [
  | yes more ↦ absurd (omega (arith, (least (n + 1)).1 w more))
  | no few ↦ omega arith
]

-- Up to 48 the floats are close enough that only a power of two has a whole logarithm.
log2_slack-zero : (k : ℕ) → k ≤ 48 → log2_slack k ≡ 0
unfolding log2_slack
log2_slack-zero k h =
    let bits : bit_length k ≤ 6 = bit_length-le k 6 (omega arith) in
    div-eq_of_lt (omega (arith, two_pow-le (k + bit_length k) 54 (omega arith)))

-- A width below 49 is wide enough.
le-ceil_log2 : (x : ℕ) → ceil_log2 x < 49 → x ≤ 2 ^ ceil_log2 x
unfolding ceil_log2
le-ceil_log2 x h =
    let k = least_width x 0 x - 1 in
    elim (Bool-cases (leb x (2 ^ k + log2_slack k))) [
      | inl down ↦
          let low : k < 49 = rw down at h in
          rw down (ground (arith, log2_slack-zero k (omega arith)))
      | inr up ↦ rw up ((least x).0)
    ]

to_double-small : (n : ℕ) → n < 2 ^ 53 → to_double n ≡ n
unfolding to_double
to_double-small n h =
    let bits : bit_length n - 53 ≡ 0 = omega (arith, bit_length-le n 53 h) in rw bits (ground arith)

two_pow_pos : (k : ℕ) → 0 < 2 ^ k
two_pow_pos k = one-le-pow k 2 (omega arith)

rounded-large : (n unit : ℕ) → 0 < unit → 2 ^ 52 * unit ≤ n → 2 ^ 49 < n / unit * unit
rounded-large n unit positive h = omega (arith, div-add-mod' n unit, mod-lt n {m = unit} positive)

-- A number of more than 53 bits has a unit whose multiples by 2 ^ 52 it reaches.
unit-le : (n : ℕ) → 2 ^ 53 ≤ n → 2 ^ 52 * 2 ^ (bit_length n - 53) ≤ n
unit-le n h =
    let wide : 53 < bit_length n = elim (dec_lt 53 (bit_length n)) [
      | yes more ↦ more
      | no few ↦
          absurd (omega (arith, (least (n + 1)).0, two_pow-le (bit_length n) 53 (omega arith)))
    ] in
    omega (
      arith,
      (least (n + 1)).1 (52 + (bit_length n - 53)) (omega arith),
      pow-add 52 (bit_length n - 53),
    )

to_double-large : (n : ℕ) → 2 ^ 53 ≤ n → 2 ^ 49 < to_double n
unfolding to_double
to_double-large n h =
    let unit = 2 ^ (bit_length n - 53) in
    let large = rounded-large n unit (two_pow_pos (bit_length n - 53)) (unit-le n h) in
    ground (arith, large)

-- A width below 49 numbers the items.
le-idx_width : (n : ℕ) → 1 < n → idx_width n < 49 → n ≤ 2 ^ idx_width n
unfolding idx_width
le-idx_width n many h =
    let low : ceil_log2 (to_double n) < 49 = rw (lt→ltb 1 n many) at h in
    rw (lt→ltb 1 n many) (elim (dec_lt n (2 ^ 53)) [
      | yes exact ↦ omega (arith, le-ceil_log2 (to_double n) low, to_double-small n exact)
      | no large ↦ absurd (
          omega (
            arith,
            le-ceil_log2 (to_double n) low,
            to_double-large n (omega arith),
            two_pow-le (ceil_log2 (to_double n)) 48 (omega arith),
          ))
    ])

-- An index below `n` fits, if the width is one that a descriptor has room for.
pub lt-idx_width : (n i : ℕ) → i < n → idx_width n < 49 → i < 2 ^ idx_width n
lt-idx_width n i h low = elim (dec_lt 1 n) [
  | yes many ↦ omega (arith, le-idx_width n many low)
  | no one ↦ let e : i ≡ 0 = omega arith in rw e (one-le-pow (idx_width n) 2 (omega arith))
]

ceil_log2-exact : (x : ℕ) → 1 < x → x ≤ 2 ^ 49 → ceil_log2 x ≡ least_width x 0 x
unfolding ceil_log2
ceil_log2-exact x many h =
    let w = least_width x 0 x in
    let some_bits : 0 < w = elim (dec_lt 0 w) [
      | yes positive ↦ positive
      | no none ↦ absurd (omega (arith, (least x).0, two_pow-le w 0 (omega arith)))
    ] in
    let low : w ≤ 49 = elim (dec_lt 49 w) [
      | yes more ↦ absurd (omega (arith, (least x).1 49 more))
      | no few ↦ omega arith
    ] in
    ground (arith, log2_slack-zero (w - 1) (omega arith), (least x).1 (w - 1) (omega arith))

-- From 2 up to 2 ^ 49 items the index width, which is computed with a float logarithm, is the least
-- number of bits that numbers the items.
pub idx_width-IsLeastWidth :
    (n : ℕ) → 1 < n → n ≤ 2 ^ 49 → (n ≤ 2 ^ idx_width n) × ((v : ℕ) → v < idx_width n → 2 ^ v < n)
unfolding idx_width
idx_width-IsLeastWidth n many h =
    let same : ceil_log2 (to_double n) ≡ least_width n 0 n =
      ap ceil_log2 (to_double-small n (omega arith)) ∙ ceil_log2-exact n many h in
    rw (lt→ltb 1 n many) (rw same (least n))

least-of_next : (n : ℕ) → n ≡ 2 ^ 49 + 1 → least_width n 0 n ≡ 50
least-of_next n h = elim (dec_lt (least_width n 0 n) 50) [
  | yes few ↦ absurd (omega (arith, (least n).0, two_pow-le (least_width n 0 n) 49 (omega arith)))
  | no enough ↦ elim (dec_lt 50 (least_width n 0 n)) [
    | yes more ↦ absurd (omega (arith, (least n).1 50 more))
    | no few ↦ omega arith
  ]
]

slack-49 : log2_slack 49 ≡ 1
unfolding log2_slack
slack-49 = refl

ceil_log2-of_next : (n : ℕ) → n ≡ 2 ^ 49 + 1 → ceil_log2 n ≡ 49
unfolding ceil_log2
ceil_log2-of_next n h = rw (least-of_next n h) (ground (arith, slack-49))

-- One item more gets a bit less than it needs.
next_width : (n : ℕ) → n ≡ 2 ^ 49 + 1 → idx_width n ≡ 49
unfolding idx_width
next_width n h =
    rw (lt→ltb 1 n (omega arith))
      (ap ceil_log2 (to_double-small n (omega arith)) ∙ ceil_log2-of_next n h)
