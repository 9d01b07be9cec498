-- ===== src/Moe/Layout/Supported.antt =====
-- The configurations that the layout supports.
use native.Mathlib.Nat.{div-add-mod', mul_comm, mul_assoc}
use he_mai_a.Prelude.{
  ℕ, ◌*◌, ◌/◌, ◌%◌, ◌≤◌, ◌<◌, ◌≡◌, refl, true, some, ok, All, ◌↔◌, >>=-eq-ok, arith, ◌∙◌, ap, subst,
  both_iff, positive_iff, leb_iff, ==_iff,
}
use he_mai_a.Prelude.Powers.{IsPowerOfTwo, bit_and-IsPowerOfTwo}
use he_mai_a.Moe.Layout.{
  LayoutConfig, item_at, mesh_of, s1_blocks, s3_blocks, pass_all, config_checks, products,
}
use he_mai_a.Moe.Layout.Derived.{product_checks, sizes, Params, derive_common_workload_params}
use he_mai_a.Moe.Layout.Checks.{pass_all-All, s0_mesh, mesh_of-ok, mesh_of-s0}

pub record IsSupported (c : LayoutConfig) : Type 0 where
  pub shape : c.array_shape ≡ 0
  pub unrolling : item_at c.spatial_unrolling 0 ≡ some s0_mesh
  pub tokens : (0 < c.total_tokens) × (c.total_tokens ≤ 511)
  pub blocks : (0 < s1_blocks c) × (s1_blocks c ≤ 8) × (0 < s3_blocks c) × (s3_blocks c ≤ 8)
  pub hidden : (0 < c.hidden_size) × (c.hidden_size % (s3_blocks c * 8) ≡ 0)
  pub hidden_tile : c.hidden_size % 8 ≡ 0
  pub intermediate : (0 < c.intermediate_size) × (c.intermediate_size % (s1_blocks c * 4) ≡ 0)
  pub intermediate_tile : c.intermediate_size % 8 ≡ 0
  pub experts :
      (0 < c.num_indiv_experts) × (c.num_indiv_experts ≤ 64) × (c.num_indiv_experts % 8 ≡ 0)
  pub backings :
      IsPowerOfTwo c.num_indiv_weight_backings
      × (c.num_indiv_weight_backings ≤ c.num_indiv_experts)
      × (c.num_indiv_experts % c.num_indiv_weight_backings ≡ 0)
  pub routes : (0 < c.top_k) × (c.top_k ≤ 2)
  pub shared : c.num_shared_experts ≡ 2

-- Blocks of a size that divides the whole cover it.
pub blocks_cover :
    (n blocks columns : ℕ)
    → n % (blocks * columns) ≡ 0
    → blocks * (n / (blocks * columns)) * columns ≡ n
blocks_cover n blocks columns h =
    let q = n / (blocks * columns) in
    let order : blocks * q * columns ≡ q * (blocks * columns) =
      ap (λ (t : ℕ). t * columns) (mul_comm blocks q) ∙ mul_assoc q blocks columns in
    omega (arith, order, div-add-mod' n (blocks * columns), h)

checks-IsSupported :
    (c : LayoutConfig)
    → c.array_shape ≡ 0
    → item_at c.spatial_unrolling 0 ≡ some s0_mesh
    → All (λ x. x.0 ≡ true) (config_checks c s0_mesh (s1_blocks c) (s3_blocks c))
    → All (λ x. x.0 ≡ true) (product_checks c (products c s0_mesh (s1_blocks c) (s3_blocks c)))
    → IsSupported c
checks-IsSupported c shape unrolling h k =
    let (a0, (a1, (a2, (a3, (a4, (a5, (a6, (a7, (a8, (a9, (a10, (a11, (a12, a13))))))))))))) = h in
    let (b0, (b1, (b2, (b3, (b4, rest))))) = k in
    let s1 = s1_blocks c in
    let s3 = s3_blocks c in
    let backing = c.num_indiv_weight_backings in
    let hidden = (both_iff _ _).0 a3 in
    let intermediate = (both_iff _ _).0 a4 in
    let experts = (both_iff _ _).0 a5 in
    let backings = (both_iff _ _).0 a6 in
    let some_blocks = (both_iff _ _).0 a9 in
    let few_blocks = (both_iff _ _).0 a10 in
    let routes = (both_iff _ _).0 b1 in
    record {
      shape = shape;
      unrolling = unrolling;
      tokens = ((positive_iff c.total_tokens).0 a0, (leb_iff c.total_tokens 511).0 a2);
      blocks = (
        (positive_iff s1).0 some_blocks.0,
        (leb_iff s1 8).0 few_blocks.0,
        (positive_iff s3).0 some_blocks.1,
        (leb_iff s3 8).0 few_blocks.1,
      );
      hidden = ((positive_iff c.hidden_size).0 hidden.0, (==_iff _ _).0 a12);
      hidden_tile = (==_iff _ _).0 hidden.1;
      intermediate = ((positive_iff c.intermediate_size).0 intermediate.0, (==_iff _ _).0 a11);
      intermediate_tile = (==_iff _ _).0 intermediate.1;
      experts = (
        (positive_iff c.num_indiv_experts).0 experts.0,
        (leb_iff c.num_indiv_experts 64).0 b4,
        (==_iff _ _).0 experts.1,
      );
      backings = (
        (bit_and-IsPowerOfTwo backing).0 ((positive_iff backing).0 backings.0, (==_iff _ _).0 a7),
        (leb_iff backing c.num_indiv_experts).0 backings.1,
        (==_iff _ _).0 a8,
      );
      routes = ((positive_iff c.top_k).0 routes.0, (leb_iff c.top_k 2).0 b2);
      shared = (==_iff _ _).0 b3;
    }

config_checks-All :
    (c : LayoutConfig)
    → IsSupported c
    → All (λ x. x.0 ≡ true) (config_checks c s0_mesh (s1_blocks c) (s3_blocks c))
config_checks-All c h =
    let power = (bit_and-IsPowerOfTwo c.num_indiv_weight_backings).1 h.backings.0 in
    ground (
      arith, power, h.tokens, h.blocks, h.hidden, h.hidden_tile, h.intermediate,
      h.intermediate_tile, h.experts, h.backings.1,
    )

product_checks-All :
    (c : LayoutConfig)
    → IsSupported c
    → All (λ x. x.0 ≡ true) (product_checks c (products c s0_mesh (s1_blocks c) (s3_blocks c)))
product_checks-All c h =
    let rows = blocks_cover c.intermediate_size (s1_blocks c) 4 h.intermediate.1 in
    let columns = blocks_cover c.hidden_size (s3_blocks c) 8 h.hidden.1 in
    ground (arith, rows, columns, h.hidden_tile, h.intermediate_tile, h.experts, h.routes, h.shared)

-- What an accepted configuration has passed.
derive_common-passed :
    (c : LayoutConfig) (p : Params)
    → derive_common_workload_params c ≡ ok p
    → IsSupported c × (sizes c (products c s0_mesh (s1_blocks c) (s3_blocks c)) ≡ p)
unfolding derive_common_workload_params
derive_common-passed c p e =
    let s1 = s1_blocks c in
    let s3 = s3_blocks c in
    let (hw, read, rest) = >>=-eq-ok (mesh_of c) _ {b = p} e in
    let (shape, unrolling, own) = mesh_of-ok c hw read in
    let (u, first, rest') = >>=-eq-ok (pass_all (config_checks c hw s1 s3)) _ {b = p} rest in
    let (v, second, last) =
      >>=-eq-ok (pass_all (product_checks c (products c hw s1 s3))) _ {b = p} rest' in
    let same : sizes c (products c hw s1 s3) ≡ p = ground arith in
    (
      checks-IsSupported c shape unrolling
          ((pass_all-All (config_checks c s0_mesh s1 s3)).0
            (subst (λ m. pass_all (config_checks c m s1 s3) ≡ ok tt) own first))
          ((pass_all-All (product_checks c (products c s0_mesh s1 s3))).0
            (subst (λ m. pass_all (product_checks c (products c m s1 s3)) ≡ ok tt) own second)),
      subst (λ m. sizes c (products c m s1 s3) ≡ p) own same,
    )

pub derive_common-eq :
    (c : LayoutConfig) (p : Params)
    → derive_common_workload_params c ≡ ok p
    → sizes c (products c s0_mesh (s1_blocks c) (s3_blocks c)) ≡ p
derive_common-eq c p e = (derive_common-passed c p e).1

-- A configuration is accepted exactly when the layout supports it: the checks of the derived widths
-- and depths refuse nothing that the checks of the configuration let pass.
pub derive_common-IsSupported :
    (c : LayoutConfig) → ((p : Params) × (derive_common_workload_params c ≡ ok p)) ↔ IsSupported c
unfolding derive_common_workload_params
derive_common-IsSupported c = (
  λ (p, e). (derive_common-passed c p e).0,
  λ h. (
    sizes c (products c s0_mesh (s1_blocks c) (s3_blocks c)),
    rw
        (
          mesh_of-s0 c h.shape h.unrolling,
          (pass_all-All (config_checks c s0_mesh (s1_blocks c) (s3_blocks c))).1
              (config_checks-All c h),
          (pass_all-All (product_checks c (products c s0_mesh (s1_blocks c) (s3_blocks c)))).1
              (product_checks-All c h),
        )
        refl,
  ),
)
