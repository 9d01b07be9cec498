-- ===== src/Moe/Layout/Sizes.antt =====
-- The widths and the sizes in bytes of a supported configuration.
use he_mai_a.Prelude.{ℕ, ◌+◌, ◌-◌, ◌*◌, ◌/◌, ◌≤◌, ◌<◌, ◌≡◌, ok, arith, ◌∙◌, sym}
use he_mai_a.Moe.Layout.{LayoutConfig, s1_blocks, s3_blocks, products}
use he_mai_a.Moe.Layout.Derived.{sizes, Params, derive_common_workload_params}
use he_mai_a.Moe.Layout.Checks.{s0_mesh}
use he_mai_a.Moe.Layout.Supported.{blocks_cover, derive_common-IsSupported, derive_common-eq}

-- Weights of half a byte in `blocks` blocks of `q` columns of tiles, with `tiles` rows of tiles.
gate_exact :
    (tiles blocks q depth whole : ℕ)
    → tiles * 8 ≡ depth
    → blocks * q * 4 ≡ whole
    → 2 * (blocks * (tiles * q * 8 * 4 / 2)) ≡ depth * whole
gate_exact tiles blocks q depth whole d w =
    let half : tiles * q * 8 * 4 / 2 ≡ tiles * q * 16 = omega arith in
    rw (half, sym d, sym w) (omega arith)

shared_exact :
    (tiles blocks q depth whole : ℕ)
    → tiles * 8 ≡ depth
    → blocks * q * 4 ≡ whole
    → 2 * (blocks * 1 * tiles * q * 8 * 4 / 2) ≡ depth * whole
shared_exact tiles blocks q depth whole d w =
    let half : blocks * 1 * tiles * q * 8 * 4 / 2 ≡ blocks * tiles * q * 16 = omega arith in
    rw (half, sym d, sym w) (omega arith)

down_exact :
    (tiles blocks q depth whole : ℕ)
    → tiles * 8 ≡ depth
    → blocks * q * 8 ≡ whole
    → 2 * (2 * blocks * (tiles * q * 8 * 4 / 2)) ≡ whole * depth
down_exact tiles blocks q depth whole d w =
    let half : tiles * q * 8 * 4 / 2 ≡ tiles * q * 16 = omega arith in
    rw (half, sym d, sym w) (omega arith)

shared_down_exact :
    (tiles blocks q depth whole : ℕ)
    → tiles * 8 ≡ depth
    → blocks * q * 8 ≡ whole
    → 2 * (2 * blocks * 1 * tiles * q * 8 * 4 / 2) ≡ whole * depth
shared_down_exact tiles blocks q depth whole d w =
    let half : 2 * blocks * 1 * tiles * q * 8 * 4 / 2 ≡ 2 * blocks * tiles * q * 16 = omega arith in
    rw (half, sym d, sym w) (omega arith)

padded_covers : (n : ℕ) → n ≤ (n + 8 - 1) / 8 * 8
padded_covers n = omega arith

padded_few : (n : ℕ) → (n + 8 - 1) / 8 * 8 < n + 8
padded_few n = omega arith

half_same : (a b : ℕ) → 2 * a ≡ 2 * b → a ≡ b
half_same a b h = omega arith

-- In the parameters of a configuration, the hidden and the output widths are those of the
-- configuration, the rows of the hardware hold all tokens with less than one row of padding, and the
-- weights of an expert take half a byte for each pair of an input and an output.
pub derive_common-sizes :
    (c : LayoutConfig) (p : Params)
    → derive_common_workload_params c ≡ ok p
    → (p.indiv_hidden ≡ c.intermediate_size)
      × (p.indiv_output_width ≡ c.hidden_size)
      × (c.total_tokens ≤ p.base.padded_tokens)
      × (p.base.padded_tokens < c.total_tokens + 8)
      × (2 * p.indiv_b_expert_stride ≡ c.hidden_size * c.intermediate_size)
      × (p.shared_b_expert_stride ≡ p.indiv_b_expert_stride)
      × (p.indiv_down_b_expert_stride ≡ p.indiv_b_expert_stride)
      × (p.shared_down_b_expert_stride ≡ p.indiv_b_expert_stride)
derive_common-sizes c p e =
    let h = (derive_common-IsSupported c).0 (p, e) in
    let own : sizes c (products c s0_mesh (s1_blocks c) (s3_blocks c)) ≡ p =
      derive_common-eq c p e in
    let rows = blocks_cover c.intermediate_size (s1_blocks c) 4 h.intermediate.1 in
    let columns = blocks_cover c.hidden_size (s3_blocks c) 8 h.hidden.1 in
    let k = c.hidden_size / 8 in
    let j = c.intermediate_size / 8 in
    let q = c.intermediate_size / (s1_blocks c * 4) in
    let r = c.hidden_size / (s3_blocks c * 8) in
    let input : k * 8 ≡ c.hidden_size = omega (arith, h.hidden_tile) in
    let hidden : j * 8 ≡ c.intermediate_size = omega (arith, h.intermediate_tile) in
    let gate = gate_exact k (s1_blocks c) q c.hidden_size c.intermediate_size input rows in
    let shared = shared_exact k (s1_blocks c) q c.hidden_size c.intermediate_size input rows in
    let down = down_exact j (s3_blocks c) r c.intermediate_size c.hidden_size hidden columns in
    let shared_down =
      shared_down_exact j (s3_blocks c) r c.intermediate_size c.hidden_size hidden columns in
    rw (sym own) (
      rows,
      columns,
      padded_covers c.total_tokens,
      padded_few c.total_tokens,
      gate,
      half_same _ _ (shared ∙ sym gate),
      half_same _ _ (down ∙ sym gate),
      half_same _ _ (shared_down ∙ sym gate),
    )
