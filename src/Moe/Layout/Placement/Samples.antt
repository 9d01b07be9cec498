-- ===== src/Moe/Layout/Placement/Samples.antt =====
-- The legacy placement of params.hjson.
use he_mai_a.Prelude.{◌+◌, ◌≡◌, refl, ok}
use he_mai_a.Moe.Layout.{mesh_of, s1_blocks, s3_blocks, pass_all}
use he_mai_a.Moe.Layout.Derived.{derive_common_workload_params}
use he_mai_a.Moe.Layout.Samples.{config, params}
use he_mai_a.Moe.Layout.Placement.{
  token_row_stride, validate_bank_rotation, LegacyParams, legacy, place, derive_l15_workload_params,
}
use he_mai_a.Moe.Layout.Placement.Disjoint.{IsPlaced, derive_l15-IsPlaced}

abbrev placed : LegacyParams
placed = legacy config params 4128

placed-accepted : derive_l15_workload_params config ≡ ok placed
unfolding derive_l15_workload_params place token_row_stride validate_bank_rotation
    derive_common_workload_params mesh_of s1_blocks s3_blocks pass_all
placed-accepted = refl

derive_l15-IsPlaced_example :
    IsPlaced placed.placement placed.b_data_length placed.b_data_length placed.w2_data_length
      placed.a_span_bytes placed.mode0_output_bytes placed.mode1_output_span_bytes
    × (placed.tcdm_size ≡ placed.placement.tcdm_end + 364)
derive_l15-IsPlaced_example = derive_l15-IsPlaced config placed placed-accepted
