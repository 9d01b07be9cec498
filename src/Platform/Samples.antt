-- ===== src/Platform/Samples.antt =====
-- The chip in column 2 and row 3, and a platform with chiplets 0 and 16.
use he_mai_a.Prelude.{ℕ, ◌%◌, ◌^◌, ◌≡◌, refl, arith, Option, some, [], ◌∷◌, ok, ◌↔◌, ◌*◌}
use he_mai_a.Prelude.Bits.{◌>>>◌}
use he_mai_a.Platform.{
  Define, PlatformCfg, require_define, chiplet_ids_from, parse_platform_cfg, chip_loc_to_chip_id,
  chiplet_addr_transform_full, chiplet_addr_transform_loc,
}
use he_mai_a.Platform.Parsed.{IsDescribed, parse_platform_cfg-IsDescribed}
use he_mai_a.Platform.Addresses.{chiplet_addr_transform_loc_lem}

chiplet_addr_transform_loc_lem_example :
    let global = chiplet_addr_transform_loc 2 3 4096 in
    (global % 2 ^ 40 ≡ 4096)
    × ((global >>> 40) % 2 ^ 4 ≡ 3)
    × (global >>> 44 ≡ 2)
    × (global ≡ chiplet_addr_transform_full (chip_loc_to_chip_id 2 3) 4096)
chiplet_addr_transform_loc_lem_example =
    chiplet_addr_transform_loc_lem 2 3 4096 (omega arith) (omega arith)

abbrev header : Define → Option ℕ
header Define.n_chiplets = some 2
header Define.n_clusters_per_chiplet = some 4
header Define.n_cores_per_cluster = some 3
header (Define.chiplet_id i) = some (i * 16)

abbrev two_chiplets : PlatformCfg
two_chiplets = record {
  num_chiplets = 2;
  num_clusters_per_chiplet = 4;
  num_cores_per_cluster = 3;
  chiplet_ids = 0 ∷ 16 ∷ [];
}

header-parsed : parse_platform_cfg header ≡ ok two_chiplets
unfolding parse_platform_cfg chiplet_ids_from require_define
header-parsed = refl

parse_platform_cfg-IsDescribed_example :
    (parse_platform_cfg header ≡ ok two_chiplets) ↔ IsDescribed header two_chiplets
parse_platform_cfg-IsDescribed_example = parse_platform_cfg-IsDescribed header two_chiplets
