-- ===== src/Moe/Layout.antt =====
-- `derive_common_workload_params` of multi_cluster_MoE/moe_layout.py. The configuration's numbers are
-- natural, so a test for a number that is not positive is one for 0; the entries that are only passed
-- on (addNonZeroC, addZeroC, accumPrevC and the name of the application) are left out. A check is the
-- condition to pass and the exception that is raised where it does not hold. The check of the tile of A
-- against that of the hardware compares two copies of one number, and is left out.
pub mod Checks
pub mod Derived
pub mod Supported
pub mod Sizes
pub mod Bank
pub mod Placement
pub mod Mixed
mod Samples
use he_mai_a.Prelude.{
  ℕ, zero, suc, ◌+◌, ◌-◌, ◌*◌, ◌/◌, ◌%◌, min, Bool, not, ◌&&◌, ◌||◌, Option, none, some, List, [],
  ◌∷◌, ltb, leb, ◌==◌, if◌then◌else◌, Result, ok, err, Error, ◌>>=◌, require, ◌>>◌,
}
use he_mai_a.Prelude.Bits.{bit_and}

-- mesh_row, tile_size and mesh_col
pub record Mesh : Type 0 where
  pub mesh_row : ℕ
  pub tile_size : ℕ
  pub mesh_col : ℕ

pub record LayoutConfig : Type 0 where
  pub spatial_unrolling : List Mesh
  pub array_shape : ℕ
  pub total_tokens : ℕ
  pub hidden_size : ℕ
  pub intermediate_size : ℕ
  pub weight_chunk_cols : Option ℕ
  pub s1_block_count : Option ℕ
  pub s3_block_count : Option ℕ
  pub num_indiv_experts : ℕ
  pub num_indiv_weight_backings : ℕ
  pub num_shared_experts : ℕ
  pub top_k : ℕ

abbrev pub mesh : ℕ → ℕ → ℕ → Mesh
mesh row tile col = record { mesh_row = row; tile_size = tile; mesh_col = col }

-- SHAPE_DIMS; a shape that it does not have raises StopIteration.
abbrev pub shape_dims : ℕ → Option Mesh
shape_dims zero = some (mesh 8 8 4)
shape_dims (suc zero) = some (mesh 4 8 8)
shape_dims (suc (suc zero)) = some (mesh 2 8 16)
shape_dims (suc (suc (suc shape))) = none

-- An index out of range raises IndexError.
abbrev pub item_at : List Mesh → ℕ → Option Mesh
item_at [] i = none
item_at (m ∷ ms) zero = some m
item_at (m ∷ ms) (suc i) = item_at ms i

abbrev pub same_mesh : Mesh → Mesh → Bool
same_mesh a b = a.mesh_row == b.mesh_row && (a.tile_size == b.tile_size && a.mesh_col == b.mesh_col)

abbrev pub expect_mesh : ℕ → Mesh → Option Mesh → Result Mesh
expect_mesh shape found none = err Error.unknown_shape
expect_mesh shape found (some expected) =
    require (same_mesh found expected) Error.other_shape
    >> (require (shape == 0) Error.not_s0 >> ok found)

abbrev pub read_mesh : ℕ → Option Mesh → Result Mesh
read_mesh shape none = err Error.unknown_shape
read_mesh shape (some found) = expect_mesh shape found (shape_dims shape)

pub mesh_of : LayoutConfig → Result Mesh
mesh_of config = read_mesh config.array_shape (item_at config.spatial_unrolling config.array_shape)

abbrev pub or_default : Option ℕ → ℕ → ℕ
or_default none d = d
or_default (some n) d = n

abbrev pub chunk_cols : LayoutConfig → ℕ
chunk_cols config = or_default config.weight_chunk_cols 0

pub s1_blocks : LayoutConfig → ℕ
s1_blocks config =
    or_default config.s1_block_count
      (if chunk_cols config == 0 then 0 else config.intermediate_size / chunk_cols config)

pub s3_blocks : LayoutConfig → ℕ
s3_blocks config =
    or_default config.s3_block_count
      (if chunk_cols config == 0 then 0 else config.hidden_size / (2 * chunk_cols config))

abbrev pub Check : Type 0
Check = Bool × Error

-- The first check that fails raises.
pub pass_all : List Check → Result (Unit {0})
pass_all [] = ok tt
pass_all ((test, raised) ∷ rest) = require test raised >> pass_all rest

-- The checks of the configuration, from `total_tokens` to the block counts.
abbrev pub config_checks : LayoutConfig → Mesh → (s1 s3 : ℕ) → List Check
config_checks c m s1 s3 =
    (not (c.total_tokens == 0), Error.no_tokens)
    ∷ (leb c.total_tokens 32768, Error.token_reference)
    ∷ (leb c.total_tokens 511, Error.hw_task_tokens)
    ∷ (not (c.hidden_size == 0) && c.hidden_size % m.tile_size == 0, Error.hidden_tiles)
    ∷ (
      not (c.intermediate_size == 0) && c.intermediate_size % m.tile_size == 0,
      Error.intermediate_tiles,
    )
    ∷ (
      not (c.num_indiv_experts == 0) && c.num_indiv_experts % (2 * m.mesh_col) == 0,
      Error.expert_columns,
    )
    ∷ (
      not (c.num_indiv_weight_backings == 0) && leb c.num_indiv_weight_backings c.num_indiv_experts,
      Error.weight_backings,
    )
    ∷ (
      bit_and c.num_indiv_weight_backings (c.num_indiv_weight_backings - 1) == 0,
      Error.backing_power,
    )
    ∷ (c.num_indiv_experts % c.num_indiv_weight_backings == 0, Error.backing_share)
    ∷ (not (s1 == 0) && not (s3 == 0), Error.no_blocks)
    ∷ (leb s1 8 && leb s3 8, Error.too_many_blocks)
    ∷ (c.intermediate_size % (s1 * m.mesh_col) == 0, Error.s1_columns)
    ∷ (c.hidden_size % (s3 * (2 * m.mesh_col)) == 0, Error.s3_columns)
    ∷ []

-- M1, N1, K1 and N2 of one matrix product; M2 and K2 are 1.
pub record Gemm : Type 0 where
  pub m1 : ℕ
  pub n1 : ℕ
  pub k1 : ℕ
  pub m2 : ℕ
  pub n2 : ℕ
  pub k2 : ℕ

abbrev pub gemm : (m1 n1 k1 n2 : ℕ) → Gemm
gemm m1 n1 k1 n2 = record { m1 = m1; n1 = n1; k1 = k1; m2 = 1; n2 = n2; k2 = 1 }

-- The dictionary up to the five matrix products.
pub record Products : Type 0 where
  pub hw : Mesh
  pub down_mesh_col : ℕ
  pub indiv_weight_backing_mask : ℕ
  pub dynamic_slot_count : ℕ
  pub padded_tokens : ℕ
  pub s1_count : ℕ
  pub s3_count : ℕ
  pub router : Gemm
  pub indiv : Gemm
  pub shared : Gemm
  pub indiv_down : Gemm
  pub shared_down : Gemm

abbrev pub products : LayoutConfig → Mesh → (s1 s3 : ℕ) → Products
products c m s1 s3 =
    let down_mesh_col = 2 * m.mesh_col in
    let rows = (c.total_tokens + m.mesh_row - 1) / m.mesh_row in
    let input_k1 = c.hidden_size / m.tile_size in
    let hidden_n1 = c.intermediate_size / (s1 * m.mesh_col) in
    let down_k1 = c.intermediate_size / m.tile_size in
    let down_n1 = c.hidden_size / (s3 * down_mesh_col) in
    let router_n1 = c.num_indiv_experts / (2 * m.mesh_col) in
    record {
      hw = m;
      down_mesh_col = down_mesh_col;
      indiv_weight_backing_mask = c.num_indiv_weight_backings - 1;
      dynamic_slot_count = min c.num_indiv_experts (c.total_tokens * c.top_k);
      padded_tokens = rows * m.mesh_row;
      s1_count = s1;
      s3_count = s3;
      router = gemm rows router_n1 input_k1 2;
      indiv = gemm rows hidden_n1 input_k1 s1;
      shared = gemm rows hidden_n1 input_k1 s1;
      indiv_down = gemm rows down_n1 down_k1 s3;
      shared_down = gemm rows down_n1 down_k1 s3;
    }
