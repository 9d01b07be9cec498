-- ===== src/Moe/Layout/Derived.antt =====
-- The sizes in bytes that `derive_common_workload_params` computes, and its checks of them.
use he_mai_a.Prelude.{
  ℕ, ◌*◌, ◌/◌, ◌%◌, not, ◌&&◌, List, [], ◌∷◌, leb, ◌==◌, Result, ok, Error, ◌>>=◌, ◌>>◌,
}
use he_mai_a.Moe.Layout.{
  Mesh, LayoutConfig, mesh_of, s1_blocks, s3_blocks, Check, pass_all, config_checks, Gemm, Products,
  products,
}

-- N2 * N1 * columns
abbrev pub width : Gemm → ℕ → ℕ
width g columns = g.n2 * g.n1 * columns

-- K2 * K1 * tileSize
abbrev pub depth : Gemm → ℕ → ℕ
depth g tile = g.k2 * g.k1 * tile

abbrev pub token_bytes : LayoutConfig → ℕ
token_bytes c = c.hidden_size * 2

-- The checks between the matrix products and the sizes of the tiles.
abbrev pub product_checks : LayoutConfig → Products → List Check
product_checks c p =
    (p.down_mesh_col == 2 * p.hw.mesh_col, Error.down_columns)
    ∷ (not (c.top_k == 0) && leb c.top_k c.num_indiv_experts, Error.few_top_k)
    ∷ (leb c.top_k 2, Error.many_top_k)
    ∷ (c.num_shared_experts == 2, Error.shared_experts)
    ∷ (leb c.num_indiv_experts 64, Error.scheduler_experts)
    ∷ (c.hidden_size % p.hw.tile_size == 0, Error.input_tiles)
    ∷ (width p.router p.hw.mesh_col == c.num_indiv_experts, Error.router_width)
    ∷ (depth p.indiv_down p.hw.tile_size == width p.indiv p.hw.mesh_col, Error.down_hidden)
    ∷ (depth p.shared_down p.hw.tile_size == width p.shared p.hw.mesh_col, Error.shared_down_hidden)
    ∷ (width p.indiv_down p.down_mesh_col * 2 == token_bytes c, Error.output_width)
    ∷ (width p.shared_down p.down_mesh_col * 2 == token_bytes c, Error.shared_output_width)
    ∷ ((p.router.n2 * p.router.n1) % 2 == 0, Error.odd_groups)
    ∷ []

-- K1 * N1 * tileSize * meshCol // 2, half a byte for each weight
abbrev pub weight_tile : Gemm → Mesh → ℕ
weight_tile g m = g.k1 * g.n1 * m.tile_size * m.mesh_col / 2

-- M1 * N1 * meshRow * meshCol * 2
abbrev pub output_tile : Gemm → Mesh → ℕ
output_tile g m = g.m1 * g.n1 * m.mesh_row * m.mesh_col * 2

pub record Params : Type 0 where
  pub base : Products
  pub a_token_bytes : ℕ
  pub a_total_row_span_bytes : ℕ
  pub router_a_span_bytes : ℕ
  pub indiv_hidden : ℕ
  pub shared_hidden : ℕ
  pub indiv_output_width : ℕ
  pub shared_output_width : ℕ
  pub router_b_total_bytes : ℕ
  pub router_d_total_bytes : ℕ
  pub router_b_vc_stride : ℕ
  pub router_d_vc_stride : ℕ
  pub indiv_b_block_stride : ℕ
  pub indiv_d_tilesize : ℕ
  pub indiv_down_b_block_stride : ℕ
  pub indiv_down_d_tilesize : ℕ
  pub indiv_b_expert_stride : ℕ
  pub indiv_down_b_expert_stride : ℕ
  pub shared_b_expert_stride : ℕ
  pub shared_down_b_expert_stride : ℕ

-- N2 * K2 * K1 * N1 * tileSize * meshCol // 2
abbrev pub expert_stride : Gemm → Mesh → ℕ
expert_stride g m = g.n2 * g.k2 * g.k1 * g.n1 * m.tile_size * m.mesh_col / 2

abbrev pub sizes : LayoutConfig → Products → Params
sizes c p =
    let m = p.hw in
    let vc_n = p.router.n2 * p.router.n1 / 2 in
    record {
      base = p;
      a_token_bytes = token_bytes c;
      a_total_row_span_bytes = c.total_tokens * token_bytes c;
      router_a_span_bytes = p.router.m2 * (p.router.m1 * m.mesh_row * token_bytes c);
      indiv_hidden = width p.indiv m.mesh_col;
      shared_hidden = width p.shared m.mesh_col;
      indiv_output_width = width p.indiv_down p.down_mesh_col;
      shared_output_width = width p.shared_down p.down_mesh_col;
      router_b_total_bytes = p.router.n2 * weight_tile p.router m;
      router_d_total_bytes = p.router.n2 * output_tile p.router m;
      router_b_vc_stride = vc_n * p.router.k2 * p.router.k1 * m.tile_size * m.mesh_col / 2;
      router_d_vc_stride = vc_n * p.router.m1 * m.mesh_row * m.mesh_col * 2;
      indiv_b_block_stride = weight_tile p.indiv m;
      indiv_d_tilesize = output_tile p.indiv m;
      indiv_down_b_block_stride = weight_tile p.indiv_down m;
      indiv_down_d_tilesize = output_tile p.indiv_down m;
      indiv_b_expert_stride = p.indiv.n2 * weight_tile p.indiv m;
      indiv_down_b_expert_stride = 2 * p.indiv_down.n2 * weight_tile p.indiv_down m;
      shared_b_expert_stride = expert_stride p.shared m;
      shared_down_b_expert_stride =
          2 * p.shared_down.n2 * p.shared_down.k2 * p.shared_down.k1 * p.shared_down.n1
          * m.tile_size * m.mesh_col / 2;
    }

unfoldable pub derive_common_workload_params : LayoutConfig → Result Params
derive_common_workload_params config = mesh_of config >>= λ hw.
    let s1 = s1_blocks config in
    let s3 = s3_blocks config in
    let p = products config hw s1 s3 in
    pass_all (config_checks config hw s1 s3)
    >> (pass_all (product_checks config p) >> ok (sizes config p))
