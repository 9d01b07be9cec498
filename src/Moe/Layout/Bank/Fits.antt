-- ===== src/Moe/Layout/Bank/Fits.antt =====
-- The configurations that the bank layout accepts.
use native.Mathlib.Nat.{div-eq_of_eq-mul_left}
use he_mai_a.Prelude.{
  ℕ, ◌*◌, ◌/◌, ◌%◌, ◌≤◌, ◌<◌, ◌≡◌, refl, true, Option, some, ok, All, ◌↔◌, ◌>>=◌, ◌>>◌, >>=-eq-ok,
  arith, ◌∙◌, sym, ap, subst, both_iff, positive_iff, leb_iff, ==_iff,
}
use he_mai_a.Moe.Layout.{LayoutConfig, s1_blocks, s3_blocks, pass_all, products, or_default}
use he_mai_a.Moe.Layout.Derived.{sizes, Params, derive_common_workload_params}
use he_mai_a.Moe.Layout.Checks.{pass_all-All, s0_mesh}
use he_mai_a.Moe.Layout.Supported.{
  IsSupported, blocks_cover, derive_common-IsSupported, derive_common-eq,
}
use he_mai_a.Moe.Layout.Bank.{
  BankConfig, Spans, spans, bank_checks, lay_out, derive_bank_workload_params,
}

abbrev pub params_of : LayoutConfig → Params
params_of c = sizes c (products c s0_mesh (s1_blocks c) (s3_blocks c))

-- The columns of a chunk: whole panels that make up the blocks.
pub record IsChunked (c : LayoutConfig) (cols0 cols1 : ℕ) : Type 0 where
  pub panels0 : (0 < cols0) × (cols0 % 16 ≡ 0)
  pub panels1 : (0 < cols1) × (cols1 % 16 ≡ 0)
  pub blocks0 : s1_blocks c * cols0 ≡ c.intermediate_size
  pub blocks1 : 2 * (s3_blocks c * cols1) ≡ c.hidden_size
  pub rows : c.intermediate_size % 32 ≡ 0
  pub capacity : (spans c (params_of c)).resident_end ≤ 8388608

chunk0_lem : (n blocks q : ℕ) → 0 < blocks → blocks * q * 4 ≡ n → n / blocks ≡ q * 4
chunk0_lem n blocks q pos h = div-eq_of_eq-mul_left pos (omega (arith, h))

chunk1_lem : (n blocks r : ℕ) → 0 < blocks → blocks * r * 8 ≡ n → n / 2 / blocks ≡ r * 4
chunk1_lem n blocks r pos h = div-eq_of_eq-mul_left pos (omega (arith, h))

-- A block of weights of half a byte, spread over rows of 512 bytes that hold 64 bytes each.
span_exact :
    (whole tiles q : ℕ)
    → tiles * 8 ≡ whole
    → whole % 32 ≡ 0
    → tiles * q * 8 * 4 / 2 * 8 ≡ q * 4 / 4 * (whole * 4 / 2 / 64 * 512)
span_exact whole tiles q d h =
    let u = whole / 32 in
    let half : tiles * q * 8 * 4 / 2 ≡ tiles * q * 16 = omega arith in
    let quarter : q * 4 / 4 ≡ q = omega arith in
    let panel : whole * 4 / 2 / 64 ≡ u = omega (arith, h) in
    let rows : tiles ≡ 4 * u = omega (arith, d, h) in rw (half, quarter, panel, rows) (omega arith)

page_exact : (n blocks r : ℕ) → blocks * r * 8 ≡ n → n * 2 / 16 * 512 ≡ blocks * (r * 4 / 4) * 512
page_exact n blocks r h = let quarter : r * 4 / 4 ≡ r = omega arith in rw quarter (omega (arith, h))

-- Blocks of whole panels make rows of whole words.
rows_exact : (n blocks cols : ℕ) → cols % 16 ≡ 0 → 2 * (blocks * cols) ≡ n → n % 32 ≡ 0
rows_exact n blocks cols h e =
    let t = cols / 16 in
    let whole : cols ≡ 16 * t = omega (arith, h) in
    let same : 2 * (blocks * (16 * t)) ≡ n = subst (λ (x : ℕ). 2 * (blocks * x) ≡ n) whole e in
    omega (arith, same)

checks-IsChunked :
    (c : LayoutConfig) (cols0 cols1 : ℕ)
    → IsSupported c
    → All (λ x. x.0 ≡ true) (bank_checks c (params_of c) cols0 cols1)
    → IsChunked c cols0 cols1
checks-IsChunked c cols0 cols1 h k =
    let (a0, (a1, (a2, (a3, (a4, (a5, (a6, rest))))))) = k in
    let chunks = (both_iff _ _).0 a0 in
    let first = (both_iff _ _).0 chunks.0 in
    let second = (both_iff _ _).0 chunks.1 in
    let q = c.intermediate_size / (s1_blocks c * 4) in
    let r = c.hidden_size / (s3_blocks c * 8) in
    let rows = blocks_cover c.intermediate_size (s1_blocks c) 4 h.intermediate.1 in
    let columns = blocks_cover c.hidden_size (s3_blocks c) 8 h.hidden.1 in
    let own0 : q * 4 ≡ cols0 =
      sym (chunk0_lem c.intermediate_size (s1_blocks c) q h.blocks.0 rows) ∙ (==_iff _ _).0 a1 in
    let own1 : r * 4 ≡ cols1 =
      sym (chunk1_lem c.hidden_size (s3_blocks c) r h.blocks.2 columns) ∙ (==_iff _ _).0 a2 in
    record {
      panels0 = ((positive_iff cols0).0 first.0, (==_iff _ _).0 first.1);
      panels1 = ((positive_iff cols1).0 second.0, (==_iff _ _).0 second.1);
      blocks0 = subst (λ (x : ℕ). s1_blocks c * x ≡ c.intermediate_size) own0 (omega (arith, rows));
      blocks1 =
          subst (λ (x : ℕ). 2 * (s3_blocks c * x) ≡ c.hidden_size) own1 (omega (arith, columns));
      rows = omega (arith, (==_iff _ _).0 a4);
      capacity = (leb_iff _ 8388608).0 a6;
    }

IsChunked-All :
    (c : LayoutConfig) (cols0 cols1 : ℕ)
    → IsSupported c
    → IsChunked c cols0 cols1
    → All (λ x. x.0 ≡ true) (bank_checks c (params_of c) cols0 cols1)
IsChunked-All c cols0 cols1 h k =
    let q = c.intermediate_size / (s1_blocks c * 4) in
    let r = c.hidden_size / (s3_blocks c * 8) in
    let rows = blocks_cover c.intermediate_size (s1_blocks c) 4 h.intermediate.1 in
    let columns = blocks_cover c.hidden_size (s3_blocks c) 8 h.hidden.1 in
    let chunk0 = chunk0_lem c.intermediate_size (s1_blocks c) q h.blocks.0 rows in
    let chunk1 = chunk1_lem c.hidden_size (s3_blocks c) r h.blocks.2 columns in
    let hidden_rows = rows_exact c.hidden_size (s3_blocks c) cols1 k.panels1.1 k.blocks1 in
    let input : c.hidden_size / 8 * 8 ≡ c.hidden_size = omega (arith, h.hidden_tile) in
    let hidden : c.intermediate_size / 8 * 8 ≡ c.intermediate_size =
      omega (arith, h.intermediate_tile) in
    (
      (both_iff _ _).1 (
        (both_iff _ _).1 ((positive_iff cols0).1 k.panels0.0, (==_iff _ 0).1 k.panels0.1),
        (both_iff _ _).1 ((positive_iff cols1).1 k.panels1.0, (==_iff _ 0).1 k.panels1.1),
      ),
      (
        (==_iff _ cols0).1 (div-eq_of_eq-mul_left h.blocks.0 (omega (arith, k.blocks0))),
        (
          (==_iff _ cols1).1 (div-eq_of_eq-mul_left h.blocks.2 (omega (arith, k.blocks1))),
          (
            (==_iff _ 0).1 (omega (arith, hidden_rows)),
            (
              (==_iff _ 0).1 (omega (arith, k.rows)),
              (
                (==_iff _ _).1 (
                    page_exact c.hidden_size (s3_blocks c) r columns
                    ∙ ap (λ (t : ℕ). s3_blocks c * (t / 4) * 512) (sym chunk1)),
                (
                  (leb_iff _ 8388608).1 k.capacity,
                  (
                    (==_iff _ _).1 (
                        span_exact c.hidden_size (c.hidden_size / 8) q input hidden_rows
                        ∙ ap (λ (t : ℕ). t / 4 * (c.hidden_size * 4 / 2 / 64 * 512)) (sym chunk0)),
                    (
                      (==_iff _ _).1 (
                          span_exact c.intermediate_size (c.intermediate_size / 8) r hidden k.rows
                          ∙ ap (λ (t : ℕ). t / 4 * (c.intermediate_size * 4 / 2 / 64 * 512))
                              (sym chunk1)),
                      tt,
                    ),
                  ),
                ),
              ),
            ),
          ),
        ),
      ),
    )

-- Where the entry is there, what is left are the checks.
lay_out_lem :
    (c : LayoutConfig) (p : Params) (cols : ℕ) (given entry0 entry1 : Option ℕ)
    → given ≡ some cols
    → lay_out c p given entry0 entry1 ≡ (
        pass_all (bank_checks c p (or_default entry0 cols) (or_default entry1 cols))
        >> ok (p, spans c p))
unfolding lay_out
lay_out_lem c p cols given entry0 entry1 e = rw e refl

lay_out-IsChunked :
    (c : LayoutConfig) (cols0 cols1 : ℕ)
    → IsSupported c
    → let checks = bank_checks c (params_of c) cols0 cols1 in
      (pass_all checks ≡ ok tt) ↔ IsChunked c cols0 cols1
lay_out-IsChunked c cols0 cols1 h =
    let iff = pass_all-All (bank_checks c (params_of c) cols0 cols1) in
    (λ e. checks-IsChunked c cols0 cols1 h (iff.0 e), λ k. iff.1 (IsChunked-All c cols0 cols1 h k))

-- The layout accepts a configuration exactly when the common layout supports it, both kinds of chunks
-- are of whole panels of 16 columns that make up the blocks, the rows of the second weights are whole,
-- and the resident regions fit the memory: the checks of the spans and pages refuse nothing else.
pub derive_bank-IsChunked :
    (config : BankConfig) (cols : ℕ)
    → config.common.weight_chunk_cols ≡ some cols
    → ((p : Params × Spans) × (derive_bank_workload_params config ≡ ok p)) ↔ (
        IsSupported config.common
        × IsChunked config.common
            (or_default config.s1_weight_chunk_cols cols)
            (or_default config.s3_weight_chunk_cols cols))
unfolding derive_bank_workload_params
derive_bank-IsChunked config cols given =
    let c = config.common in
    let entry0 = config.s1_weight_chunk_cols in
    let entry1 = config.s3_weight_chunk_cols in
    let cols0 = or_default entry0 cols in
    let cols1 = or_default entry1 cols in
    (
      λ (whole, e).
          let (p, first, rest) = >>=-eq-ok (derive_common_workload_params c) _ {b = whole} e in
          let h = (derive_common-IsSupported c).0 (p, first) in
          let last = sym (lay_out_lem c p cols c.weight_chunk_cols entry0 entry1 given) ∙ rest in
          let (u, passed, made) =
            >>=-eq-ok (pass_all (bank_checks c p cols0 cols1)) _ {b = whole} last in
          (
            h,
            (lay_out-IsChunked c cols0 cols1 h).0 (
                subst (λ p. pass_all (bank_checks c p cols0 cols1) ≡ ok tt)
                  (sym (derive_common-eq c p first)) passed),
          ),
      λ (h, k).
          let (p, first) = (derive_common-IsSupported c).1 h in
          let passed =
            subst (λ p. pass_all (bank_checks c p cols0 cols1) ≡ ok tt) (derive_common-eq c p first)
              ((lay_out-IsChunked c cols0 cols1 h).1 k) in
          (
            (p, spans c p),
            ap (λ r. r >>= λ p. lay_out c p c.weight_chunk_cols entry0 entry1) first
                ∙ (lay_out_lem c p cols c.weight_chunk_cols entry0 entry1 given
                    ∙ ap (λ r. r >> ok (p, spans c p)) passed),
          ),
    )
