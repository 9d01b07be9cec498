-- ===== src/Moe/Layout/Placement/Disjoint.antt =====
-- The tensors that are placed do not overlap.
use he_mai_a.Prelude.{ℕ, ◌+◌, ◌%◌, ◌≤◌, ◌<◌, ◌≡◌, refl, ok, arith, >>=-eq-ok, subst}
use he_mai_a.Moe.Layout.{LayoutConfig, pass_all}
use he_mai_a.Moe.Layout.Derived.{derive_common_workload_params}
use he_mai_a.Moe.Layout.Placement.{
  align_up, Placement, build_l15_placement, token_row_stride, validate_bank_rotation, LegacyParams,
  legacy_checks, legacy, place, derive_l15_workload_params,
}

-- Each region ends before the next one begins, and begins at its color behind a multiple of 1024.
pub record IsPlaced (p : Placement) (gate up down_half tokens mode0_output mode1_output : ℕ)
    : Type 0 where
  pub a : p.a + tokens ≤ p.b0
  pub b0 : (p.b0 + gate ≤ p.b1) × (p.b0 % 1024 ≡ 0)
  pub b1 : (p.b1 + up ≤ p.d0) × (p.b1 % 1024 ≡ 272)
  pub d0 : (p.d0 + mode0_output ≤ p.w2l) × (p.d0 % 1024 ≡ 0)
  pub w2l : (p.w2l + down_half ≤ p.w2r) × (p.w2l % 1024 ≡ 128)
  pub w2r : (p.w2r + down_half ≤ p.mode1_d0) × (p.w2r % 1024 ≡ 0)
  pub mode1_d0 : (p.mode1_d0 + mode1_output ≡ p.tcdm_end) × (p.mode1_d0 % 1024 ≡ 256)

colored :
    (value color : ℕ)
    → color < 1024
    → (value ≤ align_up value + color) × ((align_up value + color) % 1024 ≡ color)
colored value color h = (omega arith, omega (arith, h))

build_l15_placement-IsPlaced :
    (gate up down_half tokens mode0_output mode1_output : ℕ)
    → IsPlaced
        (build_l15_placement gate up down_half tokens mode0_output mode1_output)
        gate
        up
        down_half
        tokens
        mode0_output
        mode1_output
build_l15_placement-IsPlaced gate up down_half tokens mode0_output mode1_output =
    let p = build_l15_placement gate up down_half tokens mode0_output mode1_output in
    let b0 = colored (0 + tokens) 0 (omega arith) in
    let b1 = colored (p.b0 + gate) 272 (omega arith) in
    let d0 = colored (p.b1 + up) 0 (omega arith) in
    let w2l = colored (p.d0 + mode0_output) 128 (omega arith) in
    let w2r = colored (p.w2l + down_half) 0 (omega arith) in
    let mode1_d0 = colored (p.w2r + down_half) 256 (omega arith) in
    record {
      a = b0.0;
      b0 = (b1.0, b0.1);
      b1 = (d0.0, b1.1);
      d0 = (w2l.0, d0.1);
      w2l = (w2r.0, w2l.1);
      w2r = (mode1_d0.0, w2r.1);
      mode1_d0 = (refl, mode1_d0.1);
    }

-- In an accepted configuration the tokens, the two gate matrices, the hidden values, the two halves of
-- the down matrix and the output are placed in this order without overlap, each base has its color, and
-- the 91 words of the configuration follow at the end.
pub derive_l15-IsPlaced :
    (c : LayoutConfig) (p : LegacyParams)
    → derive_l15_workload_params c ≡ ok p
    → IsPlaced p.placement p.b_data_length p.b_data_length p.w2_data_length p.a_span_bytes
        p.mode0_output_bytes p.mode1_output_span_bytes
      × (p.tcdm_size ≡ p.placement.tcdm_end + 364)
unfolding derive_l15_workload_params place
derive_l15-IsPlaced c p e =
    let (common, first, rest) = >>=-eq-ok (derive_common_workload_params c) (place c) {b = p} e in
    let (stride, strided, rest') =
      >>=-eq-ok (token_row_stride common.a_token_bytes) _ {b = p} rest in
    let (u, rotated, rest'') =
      >>=-eq-ok (validate_bank_rotation common.a_token_bytes) _ {b = p} rest' in
    let (v, passed, made) = >>=-eq-ok (pass_all (legacy_checks c common)) _ {b = p} rest'' in
    let same : legacy c common stride ≡ p = ground arith in
    let q = legacy c common stride in
    subst
      (λ (p : LegacyParams).
        IsPlaced p.placement p.b_data_length p.b_data_length p.w2_data_length p.a_span_bytes
          p.mode0_output_bytes p.mode1_output_span_bytes
        × (p.tcdm_size ≡ p.placement.tcdm_end + 364))
      same
      (
        build_l15_placement-IsPlaced q.b_data_length q.b_data_length q.w2_data_length q.a_span_bytes
            q.mode0_output_bytes q.mode1_output_span_bytes,
        refl,
      )
