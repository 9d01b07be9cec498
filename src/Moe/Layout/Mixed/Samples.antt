-- ===== src/Moe/Layout/Mixed/Samples.antt =====
-- Both layouts of params.hjson.
use he_mai_a.Prelude.{◌%◌, ◌≡◌, refl, ok, ◌↔◌}
use he_mai_a.Moe.Layout.Derived.{Params}
use he_mai_a.Moe.Layout.Supported.{IsSupported}
use he_mai_a.Moe.Layout.Samples.{config}
use he_mai_a.Moe.Layout.Bank.{Spans}
use he_mai_a.Moe.Layout.Bank.Fits.{IsChunked}
use he_mai_a.Moe.Layout.Bank.Samples.{banks}
use he_mai_a.Moe.Layout.Placement.{LegacyParams}
use he_mai_a.Moe.Layout.Mixed.{derive_mixed_workload_params, derive_mixed-exact}

derive_mixed-exact_example :
    ((p : (Params × Spans) × LegacyParams) × (derive_mixed_workload_params banks ≡ ok p))
    ↔ (IsSupported config × IsChunked config 128 256 × (32 % 8 ≡ 0) × (2048 % 256 ≡ 0))
derive_mixed-exact_example = derive_mixed-exact banks 128 refl
