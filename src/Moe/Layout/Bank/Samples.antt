-- ===== src/Moe/Layout/Bank/Samples.antt =====
-- The bank layout of params.hjson.
use he_mai_a.Prelude.{◌≡◌, refl, some, ok}
use he_mai_a.Moe.Layout.{mesh_of, s1_blocks, s3_blocks, pass_all}
use he_mai_a.Moe.Layout.Derived.{derive_common_workload_params}
use he_mai_a.Moe.Layout.Samples.{config, params}
use he_mai_a.Moe.Layout.Bank.{BankConfig, spans, lay_out, derive_bank_workload_params}

abbrev pub banks : BankConfig
banks = record { common = config; s1_weight_chunk_cols = some 128; s3_weight_chunk_cols = some 256 }

banks-accepted : derive_bank_workload_params banks ≡ ok (params, spans config params)
unfolding derive_bank_workload_params lay_out derive_common_workload_params mesh_of s1_blocks
    s3_blocks pass_all
banks-accepted = refl

-- 6 MiB of weights, and the last row.
banks_end : (spans config params).resident_end ≡ 6291968
banks_end = refl
