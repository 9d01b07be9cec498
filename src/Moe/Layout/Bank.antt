-- ===== src/Moe/Layout/Bank.antt =====
-- `derive_bank_workload_params` of multi_cluster_MoE/moe_layout.py: the layout over rows of 512 bytes.
pub mod Fits
pub mod Samples
use he_mai_a.Prelude.{
  ℕ, ◌+◌, ◌-◌, ◌*◌, ◌/◌, ◌%◌, max, not, ◌&&◌, Option, none, some, List, [], ◌∷◌, leb, ◌==◌, Result,
  ok, err, Error, ◌>>=◌, ◌>>◌,
}
use he_mai_a.Moe.Layout.{LayoutConfig, Check, pass_all, or_default}
use he_mai_a.Moe.Layout.Derived.{Params, derive_common_workload_params}

-- The two entries that only this layout reads.
pub record BankConfig : Type 0 where
  pub common : LayoutConfig
  pub s1_weight_chunk_cols : Option ℕ
  pub s3_weight_chunk_cols : Option ℕ

-- `weight_chunk_cols` is looked up even where it is not used.
abbrev pub requested : Option ℕ → Option ℕ → Result ℕ
requested none entry = err Error.missing_parameter
requested (some d) entry = ok (or_default entry d)

-- The spans in bytes, for blocks of `chunk0` and `chunk1` columns.
pub record Spans : Type 0 where
  pub mode0_panel_span : ℕ
  pub mode1_panel_span : ℕ
  pub mode0_chunk_span : ℕ
  pub mode1_chunk_span : ℕ
  pub mode0_region_span : ℕ
  pub mode1_region_offset : ℕ
  pub mode1_region_span : ℕ
  pub token_pages : ℕ
  pub token_page_span : ℕ
  pub mode0_output_page_span : ℕ
  pub mode1_output_page_span : ℕ
  pub resident_end : ℕ

abbrev pub mode0_chunk_cols : LayoutConfig → Params → ℕ
mode0_chunk_cols c p = c.intermediate_size / p.base.s1_count

abbrev pub mode1_chunk_cols : LayoutConfig → Params → ℕ
mode1_chunk_cols c p = c.hidden_size / 2 / p.base.s3_count

abbrev pub panel_span : ℕ → ℕ
panel_span payload = payload / 64 * 512

abbrev pub spans : LayoutConfig → Params → Spans
spans c p =
    let chunk0 = mode0_chunk_cols c p in
    let chunk1 = mode1_chunk_cols c p in
    let panel0 = panel_span (c.hidden_size * 4 / 2) in
    let panel1 = panel_span (c.intermediate_size * 4 / 2) in
    let span0 = chunk0 / 4 * panel0 in
    let span1 = chunk1 / 4 * panel1 in
    let region0 = (p.base.s1_count + 1) / 2 * span0 in
    let region1 = (p.base.s3_count + 1) / 2 * span1 in
    let pages = (c.total_tokens + 8 - 1) / 8 in
    let token_page = p.a_token_bytes / (2 * 8) * 512 in
    let page0 = p.base.s1_count * (chunk0 / 8) * 512 in
    record {
      mode0_panel_span = panel0;
      mode1_panel_span = panel1;
      mode0_chunk_span = span0;
      mode1_chunk_span = span1;
      mode0_region_span = region0;
      mode1_region_offset = region0;
      mode1_region_span = region1;
      token_pages = pages;
      token_page_span = token_page;
      mode0_output_page_span = page0;
      mode1_output_page_span = p.base.s3_count * (chunk1 / 4) * 512;
      resident_end = max (max (region0 + region1) (pages * token_page)) (pages * page0) + 512;
    }

abbrev pub bank_checks : LayoutConfig → Params → (requested0 requested1 : ℕ) → List Check
bank_checks c p requested0 requested1 =
    let s = spans c p in
    (
      (not (requested0 == 0) && requested0 % 16 == 0)
          && (not (requested1 == 0) && requested1 % 16 == 0),
      Error.chunk_columns,
    )
    ∷ (mode0_chunk_cols c p == requested0, Error.s1_chunks)
    ∷ (mode1_chunk_cols c p == requested1, Error.s3_chunks)
    ∷ ((c.hidden_size * 4 / 2) % 64 == 0, Error.mode0_rows)
    ∷ ((c.intermediate_size * 4 / 2) % 64 == 0, Error.mode1_rows)
    ∷ (s.token_page_span == s.mode1_output_page_span, Error.page_spans)
    ∷ (leb s.resident_end 8388608, Error.bank_capacity)
    ∷ (p.indiv_b_block_stride * (512 / 64) == s.mode0_chunk_span, Error.mode0_spans)
    ∷ (p.indiv_down_b_block_stride * (512 / 64) == s.mode1_chunk_span, Error.mode1_spans)
    ∷ []

-- The derivation behind the common parameters; `given` is the entry `weight_chunk_cols`.
pub lay_out : LayoutConfig → Params → (given entry0 entry1 : Option ℕ) → Result (Params × Spans)
lay_out c p given entry0 entry1 = requested given entry0 >>= λ requested0.
    requested given entry1 >>= λ requested1.
    pass_all (bank_checks c p requested0 requested1) >> ok (p, spans c p)

pub derive_bank_workload_params : BankConfig → Result (Params × Spans)
derive_bank_workload_params config =
    let c = config.common in
    derive_common_workload_params c >>= λ p.
    lay_out c p c.weight_chunk_cols config.s1_weight_chunk_cols config.s3_weight_chunk_cols
