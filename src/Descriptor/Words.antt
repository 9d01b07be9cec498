-- ===== src/Descriptor/Words.antt =====
-- Writing fields one above the other, and reading them back: facts about any list of fields.
use native.Mathlib.Nat.{
  one-le-pow, pow-zero, pow-suc, mul_assoc, add-zero, add-suc, mul-one, add-mul-div_right,
  add-mul-mod_self_right, div-eq_of_lt, mod-eq_of_lt,
}
use he_mai_a.Prelude.{
  ℕ, zero, suc, ◌+◌, ◌*◌, ◌/◌, ◌^◌, ◌<◌, ◌≡◌, refl, sym, ap, ◌∙◌, String, List, [], ◌∷◌, All, arith,
}
use he_mai_a.Prelude.Bits.{bit_and, ◌>>>◌, mask, bit_or-shift, bit_and-mask}
use he_mai_a.Descriptor.{write_field, write_fields, read_fields}

abbrev pub Fits : ℕ × ℕ → Type 0
Fits (value, width) = value < 2 ^ width

abbrev pub total_width : List (ℕ × ℕ) → ℕ
total_width [] = 0
total_width ((value, width) ∷ rest) = width + total_width rest

-- The number whose digits, of the given widths, are the values.
abbrev pub concat : List (ℕ × ℕ) → ℕ
concat [] = 0
concat ((value, width) ∷ rest) = value + concat rest * 2 ^ width

pub pow-add : (m n : ℕ) → 2 ^ (m + n) ≡ 2 ^ m * 2 ^ n
pow-add m zero = rw (add-zero, pow-zero, mul-one) refl
pow-add m (suc n) = rw (add-suc, pow-suc, pow-suc, pow-add m n) (mul_assoc (2 ^ m) (2 ^ n) 2)

two_pow_pos : (k : ℕ) → 0 < 2 ^ k
two_pow_pos k = one-le-pow k 2 (omega arith)

-- A digit below a larger number.
digit_below : (v w rest n : ℕ) → v < 2 ^ w → rest < 2 ^ n → v + rest * 2 ^ w < 2 ^ (w + n)
digit_below v w rest n hv hr = rw (pow-add w n) (grind arith)

pub concat-lt : (fs : List (ℕ × ℕ)) → All Fits fs → concat fs < 2 ^ total_width fs
concat-lt [] h = omega arith
concat-lt ((v, w) ∷ fs) h = digit_below v w (concat fs) (total_width fs) h.0 (concat-lt fs h.1)

next_digit : (p s v w r : ℕ) → p + v * 2 ^ s + r * 2 ^ (s + w) ≡ p + (v + r * 2 ^ w) * 2 ^ s
next_digit p s v w r = rw (pow-add s w) (grind arith)

pub pair_path : {a b c d : ℕ} → a ≡ b → c ≡ d → ◌≡◌ {A = ℕ × ℕ} (a, c) (b, d)
pair_path p q = λ i. (p i, q i)

-- Values that fit their fields are put side by side above the bits in use.
pub write_fields-concat :
    (fs : List (ℕ × ℕ)) (p s : ℕ)
    → p < 2 ^ s
    → All Fits fs
    → write_fields (p, s) fs ≡ (p + concat fs * 2 ^ s, s + total_width fs)
unfolding write_fields write_field
write_fields-concat [] p s hp h = pair_path (omega arith) (omega arith)
write_fields-concat ((v, w) ∷ fs) p s hp h = rw (bit_or-shift s p v hp) (
    write_fields-concat fs (p + v * 2 ^ s) (s + w) (digit_below p s v w hp h.0) h.1
    ∙ pair_path (next_digit p s v w (concat fs)) (omega arith))

-- The dictionary rows of a list of fields: its widths, and its values.
abbrev pub widths : List String → List (ℕ × ℕ) → List (String × ℕ)
widths [] fs = []
widths (k ∷ ks) [] = []
widths (k ∷ ks) ((v, w) ∷ fs) = (k, w) ∷ widths ks fs

abbrev pub values : List String → List (ℕ × ℕ) → List (String × ℕ)
values [] fs = []
values (k ∷ ks) [] = []
values (k ∷ ks) ((v, w) ∷ fs) = (k, v) ∷ values ks fs

above : (p s r : ℕ) → p < 2 ^ s → (p + r * 2 ^ s) / 2 ^ s ≡ r
above p s r h = add-mul-div_right p r (two_pow_pos s) ∙ omega (arith, div-eq_of_lt h)

read_digit :
    (p s v w r : ℕ)
    → p < 2 ^ s
    → v < 2 ^ w
    → bit_and ((p + (v + r * 2 ^ w) * 2 ^ s) >>> s) (mask w) ≡ v
read_digit p s v w r hp hv =
    rw (above p s (v + r * 2 ^ w) hp)
      (bit_and-mask w (v + r * 2 ^ w) ∙ add-mul-mod_self_right v r (2 ^ w) ∙ mod-eq_of_lt hv)

-- Reading at the offset and width of each field gives its value back.
pub read_fields-concat :
    (ks : List String) (fs : List (ℕ × ℕ)) (p s : ℕ)
    → p < 2 ^ s
    → All Fits fs
    → read_fields (p + concat fs * 2 ^ s) s (widths ks fs) ≡ values ks fs
unfolding read_fields
read_fields-concat [] fs p s hp h = refl
read_fields-concat (k ∷ ks) [] p s hp h = refl
read_fields-concat (k ∷ ks) ((v, w) ∷ fs) p s hp h = rw (read_digit p s v w (concat fs) hp h.0) (
    ap (λ rest. (k, v) ∷ rest)
      (ap (λ x. read_fields x (s + w) (widths ks fs)) (sym (next_digit p s v w (concat fs)))
        ∙ read_fields-concat ks fs (p + v * 2 ^ s) (s + w) (digit_below p s v w hp h.0) h.1))
