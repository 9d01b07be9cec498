-- ===== src/Moe/Layout/Samples.antt =====
-- The parameters of params.hjson: 32 tokens, 64 experts, a hidden size of 2048.
use he_mai_a.Prelude.{◌+◌, ◌*◌, ◌≤◌, ◌<◌, ◌≡◌, refl, some, [], ◌∷◌, ok}
use he_mai_a.Moe.Layout.{LayoutConfig, mesh, mesh_of, s1_blocks, s3_blocks, pass_all, products}
use he_mai_a.Moe.Layout.Derived.{Params, sizes, derive_common_workload_params}
use he_mai_a.Moe.Layout.Checks.{s0_mesh}
use he_mai_a.Moe.Layout.Sizes.{derive_common-sizes}

abbrev pub config : LayoutConfig
config = record {
  spatial_unrolling = mesh 8 8 4 ∷ mesh 4 8 8 ∷ mesh 2 8 16 ∷ [];
  array_shape = 0;
  total_tokens = 32;
  hidden_size = 2048;
  intermediate_size = 1024;
  weight_chunk_cols = some 128;
  s1_block_count = some 8;
  s3_block_count = some 4;
  num_indiv_experts = 64;
  num_indiv_weight_backings = 4;
  num_shared_experts = 2;
  top_k = 2;
}

abbrev pub params : Params
params = sizes config (products config s0_mesh 8 4)

config-accepted : derive_common_workload_params config ≡ ok params
unfolding derive_common_workload_params mesh_of s1_blocks s3_blocks pass_all
config-accepted = refl

-- 1 MiB of weights for the gate of each expert.
gate_bytes : params.indiv_b_expert_stride ≡ 1048576
gate_bytes = refl

derive_common-sizes_example :
    (params.indiv_hidden ≡ 1024)
    × (params.indiv_output_width ≡ 2048)
    × (32 ≤ params.base.padded_tokens)
    × (params.base.padded_tokens < 32 + 8)
    × (2 * params.indiv_b_expert_stride ≡ 2048 * 1024)
    × (params.shared_b_expert_stride ≡ params.indiv_b_expert_stride)
    × (params.indiv_down_b_expert_stride ≡ params.indiv_b_expert_stride)
    × (params.shared_down_b_expert_stride ≡ params.indiv_b_expert_stride)
derive_common-sizes_example = derive_common-sizes config params config-accepted
