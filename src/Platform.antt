-- ===== src/Platform.antt =====
-- bingo_platform.py and bingo_helpers.py (target/sw/host/runtime/libbingo/mini_compiler): the platform's
-- parameters, read from the defines of a header, and the addresses of chiplets. The header is the
-- function from the names of its defines to their values; reading the file is left out.
pub mod Addresses
pub mod Parsed
mod Samples
use he_mai_a.Prelude.{
  ℕ, zero, suc, ◌+◌, ◌*◌, ◌%◌, ◌^◌, not, Option, none, some, List, [], ◌∷◌, length, ◌==◌,
  if◌then◌else◌, Result, ok, err, Error, ◌>>=◌, ◌>>◌, require,
}
use he_mai_a.Prelude.Bits.{bit_or, bit_and, ◌<<◌}

-- The names of the defines that are read.
pub data Define : Type 0 where
  n_chiplets n_clusters_per_chiplet n_cores_per_cluster : Define
  chiplet_id : ℕ → Define

pub record PlatformCfg : Type 0 where
  pub num_chiplets : ℕ
  pub num_clusters_per_chiplet : ℕ
  pub num_cores_per_cluster : ℕ
  pub chiplet_ids : List ℕ

abbrev pub or_missing : Option ℕ → Result ℕ
or_missing none = err Error.missing_define
or_missing (some value) = ok value

pub require_define : (Define → Option ℕ) → Define → Result ℕ
require_define defines name = or_missing (defines name)

-- for idx in range(num_chiplets), from `idx`
pub chiplet_ids_from : (Define → Option ℕ) → (count idx : ℕ) → Result (List ℕ)
chiplet_ids_from defines zero idx = ok []
chiplet_ids_from defines (suc count) idx =
    require_define defines (Define.chiplet_id idx) >>= λ first.
    chiplet_ids_from defines count (idx + 1) >>= λ rest. ok (first ∷ rest)

pub parse_platform_cfg : (Define → Option ℕ) → Result PlatformCfg
parse_platform_cfg defines = require_define defines Define.n_chiplets >>= λ num_chiplets.
    chiplet_ids_from defines num_chiplets 0 >>= λ chiplet_ids.
    require (length chiplet_ids == num_chiplets) Error.chiplet_id_count
    >> (require_define defines Define.n_clusters_per_chiplet >>= λ clusters.
        require_define defines Define.n_cores_per_cluster >>= λ cores. ok (record {
          num_chiplets = num_chiplets;
          num_clusters_per_chiplet = clusters;
          num_cores_per_cluster = cores;
          chiplet_ids = chiplet_ids;
        }))

-- (x << 4) | (y & 0x0F)
pub chip_loc_to_chip_id : ℕ → ℕ → ℕ
chip_loc_to_chip_id x y = bit_or (x << 4) (bit_and y 15)

pub get_chip_baseaddress : ℕ → ℕ
get_chip_baseaddress chip_id = chip_id << 40

pub chiplet_addr_transform_full : ℕ → ℕ → ℕ
chiplet_addr_transform_full chip_id addr = bit_or (get_chip_baseaddress chip_id) addr

pub chiplet_addr_transform_loc : (chip_loc_x chip_loc_y addr : ℕ) → ℕ
chiplet_addr_transform_loc x y addr = bit_or (get_chip_baseaddress (chip_loc_to_chip_id x y)) addr

-- For a size that is an int; a negative one is not a value of the model.
pub check_xdma_size_aligned : (size xdma_width : ℕ) → Result (Unit {0})
check_xdma_size_aligned size xdma_width =
    require (not (size == 0)) Error.xdma_size >> require (size % xdma_width == 0) Error.xdma_width
