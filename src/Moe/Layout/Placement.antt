-- ===== src/Moe/Layout/Placement.antt =====
-- `derive_l15_workload_params` of multi_cluster_MoE/moe_layout.py: the placement of the tensors in bases
-- with a color.
pub mod Disjoint
pub mod Exact
mod Samples
use he_mai_a.Prelude.{
  ℕ, ◌+◌, ◌-◌, ◌*◌, ◌/◌, ◌%◌, not, ◌&&◌, List, [], ◌∷◌, ◌==◌, if◌then◌else◌, Result, ok, err, Error,
  ◌>>=◌, ◌>>◌, require,
}
use he_mai_a.Moe.Layout.{LayoutConfig, Check, pass_all}
use he_mai_a.Moe.Layout.Derived.{Params, derive_common_workload_params}

-- With the default alignment, 1024.
abbrev pub align_up : ℕ → ℕ
align_up value = (value + 1024 - 1) / 1024 * 1024

abbrev pub colored_offset : ℕ → ℕ → ℕ
colored_offset offset color_bytes = align_up offset + color_bytes

pub token_row_stride : ℕ → Result ℕ
token_row_stride payload_bytes =
    let stride = payload_bytes + 32 in if stride % 8 == 0 then ok stride else err Error.row_stride

pub record Placement : Type 0 where
  pub a : ℕ
  pub b0 : ℕ
  pub b1 : ℕ
  pub d0 : ℕ
  pub w2l : ℕ
  pub w2r : ℕ
  pub mode1_d0 : ℕ
  pub tcdm_end : ℕ

abbrev pub build_l15_placement :
    (gate_bytes up_bytes down_half_bytes token_buffer_bytes mode0_output_bytes
      mode1_output_bytes : ℕ)
    → Placement
build_l15_placement gate up down_half token_buffer mode0_output mode1_output =
    let b0 = colored_offset (0 + token_buffer) 0 in
    let b1 = colored_offset (b0 + gate) 272 in
    let d0 = colored_offset (b1 + up) 0 in
    let w2l = colored_offset (d0 + mode0_output) 128 in
    let w2r = colored_offset (w2l + down_half) 0 in
    let mode1_d0 = colored_offset (w2r + down_half) 256 in
    record {
      a = 0;
      b0 = b0;
      b1 = b1;
      d0 = d0;
      w2l = w2l;
      w2r = w2r;
      mode1_d0 = mode1_d0;
      tcdm_end = mode1_d0 + mode1_output;
    }

pub validate_bank_rotation : ℕ → Result (Unit {0})
validate_bank_rotation payload_bytes = token_row_stride payload_bytes >>= λ stride.
    require ((payload_bytes / 8) % 64 == 0 && not ((stride / 8) % 64 == 0)) Error.bank_rotation

pub record LegacyParams : Type 0 where
  pub common : Params
  pub row_stride : ℕ
  pub a_span_bytes : ℕ
  pub router_span_bytes : ℕ
  pub b_data_length : ℕ
  pub w2_data_length : ℕ
  pub mode0_output_bytes : ℕ
  pub mode1_output_span_bytes : ℕ
  pub placement : Placement
  pub mode1_d1 : ℕ
  pub cfg : ℕ
  pub tcdm_size : ℕ

abbrev pub b_length : LayoutConfig → Params → ℕ
b_length c p = c.hidden_size / 8 * (p.shared_hidden / 4) * 16

abbrev pub w2_length : Params → ℕ
w2_length p = p.shared_hidden / 8 * (p.shared_output_width / 2 / 4) * 16

abbrev pub legacy_checks : LayoutConfig → Params → List Check
legacy_checks c p =
    (p.shared_output_width % 2 == 0, Error.odd_width)
    ∷ (p.shared_b_expert_stride == b_length c p, Error.gate_weights)
    ∷ (p.shared_down_b_expert_stride == 2 * w2_length p, Error.down_weights)
    ∷ (p.base.shared_down.m1 * p.base.hw.mesh_row == c.total_tokens, Error.token_rows)
    ∷ []

abbrev pub legacy : LayoutConfig → Params → ℕ → LegacyParams
legacy c p stride =
    let a_span = c.total_tokens * stride in
    let mode0_output = c.total_tokens * p.shared_hidden * 2 in
    let placed =
      build_l15_placement (b_length c p) (b_length c p) (w2_length p) a_span mode0_output a_span in
    record {
      common = p;
      row_stride = stride;
      a_span_bytes = a_span;
      router_span_bytes = p.base.router.m2 * (p.base.router.m1 * p.base.hw.mesh_row * stride);
      b_data_length = b_length c p;
      w2_data_length = w2_length p;
      mode0_output_bytes = mode0_output;
      mode1_output_span_bytes = a_span;
      placement = placed;
      mode1_d1 = placed.mode1_d0 + p.shared_output_width / 2 * 2;
      cfg = placed.tcdm_end;
      tcdm_size = placed.tcdm_end + 91 * 4;
    }

-- The derivation behind the common parameters.
pub place : LayoutConfig → Params → Result LegacyParams
place c p = token_row_stride p.a_token_bytes >>= λ stride.
    validate_bank_rotation p.a_token_bytes
    >> (pass_all (legacy_checks c p) >> ok (legacy c p stride))

pub derive_l15_workload_params : LayoutConfig → Result LegacyParams
derive_l15_workload_params c = derive_common_workload_params c >>= place c
