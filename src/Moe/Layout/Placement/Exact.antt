-- ===== src/Moe/Layout/Placement/Exact.antt =====
-- The configurations that the legacy layout accepts.
use he_mai_a.Prelude.{
  ℕ, ◌+◌, ◌*◌, ◌/◌, ◌%◌, ◌≡◌, refl, true, false, not, ◌&&◌, ◌==◌, ok, Error, arith, >>=-eq-ok,
  subst, ◌↔◌, All, ap, sym, ◌∙◌, ==_iff, both_iff, Bool-cases, inl, inr, require, require_only_iff,
}
use he_mai_a.Moe.Layout.{LayoutConfig, s1_blocks, s3_blocks, pass_all, products}
use he_mai_a.Moe.Layout.Derived.{Params, sizes, derive_common_workload_params}
use he_mai_a.Moe.Layout.Checks.{pass_all-All, s0_mesh}
use he_mai_a.Moe.Layout.Supported.{
  IsSupported, blocks_cover, derive_common-IsSupported, derive_common-eq,
}
use he_mai_a.Moe.Layout.Placement.{
  token_row_stride, validate_bank_rotation, LegacyParams, legacy_checks, legacy, place,
  derive_l15_workload_params,
}

token_row_stride-ok : (n stride : ℕ) → token_row_stride n ≡ ok stride → n + 32 ≡ stride
unfolding token_row_stride
token_row_stride-ok n stride e = elim (Bool-cases ((n + 32) % 8 == 0)) [
  | inl whole ↦ ground arith
  | inr part ↦ absurd (ground arith)
]

rotation-ok :
    (hidden : ℕ) → hidden % 8 ≡ 0 → validate_bank_rotation (hidden * 2) ≡ ok tt → hidden % 256 ≡ 0
unfolding validate_bank_rotation
rotation-ok hidden tile e =
    let (stride, strided, rest) =
      >>=-eq-ok (token_row_stride (hidden * 2))
        (λ stride.
          require ((hidden * 2 / 8) % 64 == 0 && not ((stride / 8) % 64 == 0)) Error.bank_rotation)
        {b = tt} e in
    let both = (both_iff _ _).0 ((require_only_iff _ Error.bank_rotation).0 rest) in
    omega (arith, tile, (==_iff (hidden * 2 / 8 % 64) 0).0 both.0)

stride-whole :
    (hidden : ℕ) → hidden % 256 ≡ 0 → token_row_stride (hidden * 2) ≡ ok (hidden * 2 + 32)
unfolding token_row_stride
stride-whole hidden h =
    let whole : ((hidden * 2 + 32) % 8 == 0) ≡ true = ground arith in rw whole refl

rotation-whole : (hidden : ℕ) → hidden % 256 ≡ 0 → validate_bank_rotation (hidden * 2) ≡ ok tt
unfolding validate_bank_rotation
rotation-whole hidden h =
    let payload : ((hidden * 2 / 8) % 64 == 0) ≡ true = ground arith in
    let rotated : (((hidden * 2 + 32) / 8) % 64 == 0) ≡ false = ground arith in
    rw (stride-whole hidden h, payload, rotated) refl

gate_same : (k q blocks : ℕ) → blocks * 1 * k * q * 8 * 4 / 2 ≡ k * (blocks * q * 4 / 4) * 16
gate_same k q blocks =
    let quarter : blocks * q * 4 / 4 ≡ blocks * q = omega arith in rw quarter (omega arith)

down_same :
    (j r blocks : ℕ) → 2 * blocks * 1 * j * r * 8 * 4 / 2 ≡ 2 * (j * (blocks * r * 8 / 2 / 4) * 16)
down_same j r blocks =
    let quarter : blocks * r * 8 / 2 / 4 ≡ blocks * r = omega arith in rw quarter (omega arith)

even_width : (r blocks : ℕ) → (blocks * r * 8) % 2 ≡ 0
even_width r blocks = omega arith

legacy_checks-All :
    (c : LayoutConfig)
    → IsSupported c
    → c.total_tokens % 8 ≡ 0
    → All
        (λ x. x.0 ≡ true)
        (legacy_checks c (sizes c (products c s0_mesh (s1_blocks c) (s3_blocks c))))
legacy_checks-All c h rows_whole =
    let q = c.intermediate_size / (s1_blocks c * 4) in
    let r = c.hidden_size / (s3_blocks c * 8) in
    let rows = blocks_cover c.intermediate_size (s1_blocks c) 4 h.intermediate.1 in
    (
      (==_iff _ 0).1 (even_width r (s3_blocks c)),
      (
        (==_iff _ _).1 (gate_same (c.hidden_size / 8) q (s1_blocks c)),
        (
          (==_iff _ _).1 (
              down_same (c.intermediate_size / 8) r (s3_blocks c)
              ∙ ap (λ (t : ℕ). 2 * (t / 8 * (s3_blocks c * r * 8 / 2 / 4) * 16)) (sym rows)),
          ((==_iff _ c.total_tokens).1 (omega (arith, rows_whole)), tt),
        ),
      ),
    )

-- The legacy layout accepts a configuration exactly when the common layout supports it, the tokens fill
-- whole rows of the hardware, and the hidden size is a multiple of 256, which makes the rows of tokens
-- rotate across the banks.
pub derive_l15-exact :
    (c : LayoutConfig)
    → ((p : LegacyParams) × (derive_l15_workload_params c ≡ ok p))
      ↔ (IsSupported c × (c.total_tokens % 8 ≡ 0) × (c.hidden_size % 256 ≡ 0))
unfolding derive_l15_workload_params place
derive_l15-exact c = (
  λ (p, e).
      let (common, first, rest) = >>=-eq-ok (derive_common_workload_params c) (place c) {b = p} e in
      let h = (derive_common-IsSupported c).0 (common, first) in
      let own = derive_common-eq c common first in
      let (stride, strided, rest') =
        >>=-eq-ok (token_row_stride common.a_token_bytes) _ {b = p} rest in
      let (u, rotated, rest'') =
        >>=-eq-ok (validate_bank_rotation common.a_token_bytes) _ {b = p} rest' in
      let (v, passed, made) = >>=-eq-ok (pass_all (legacy_checks c common)) _ {b = p} rest'' in
      let params = sizes c (products c s0_mesh (s1_blocks c) (s3_blocks c)) in
      let (k0, (k1, (k2, (k3, k4)))) =
        (pass_all-All (legacy_checks c params)).0
          (subst (λ p. pass_all (legacy_checks c p) ≡ ok tt) (sym own) passed) in
      (
        h,
        omega (arith, (==_iff _ c.total_tokens).0 k3),
        rotation-ok c.hidden_size h.hidden_tile (
            subst (λ (p : Params). validate_bank_rotation p.a_token_bytes ≡ ok tt) (sym own)
              rotated),
      ),
  λ (h, tokens, rotates).
      let (common, first) = (derive_common-IsSupported c).1 h in
      let own = derive_common-eq c common first in
      let params = sizes c (products c s0_mesh (s1_blocks c) (s3_blocks c)) in
      let passed = (pass_all-All (legacy_checks c params)).1 (legacy_checks-All c h tokens) in
      (
        legacy c params (c.hidden_size * 2 + 32),
        rw first (
            subst (λ p. place c p ≡ ok (legacy c params (c.hidden_size * 2 + 32))) own
              (rw (stride-whole c.hidden_size rotates, rotation-whole c.hidden_size rotates, passed)
                refl)),
      ),
)
