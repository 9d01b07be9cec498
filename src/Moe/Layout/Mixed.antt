-- ===== src/Moe/Layout/Mixed.antt =====
-- `derive_mixed_workload_params` of multi_cluster_MoE/moe_layout.py, which the generators call: the bank
-- layout with the fields of the legacy placement beside it.
mod Samples
use he_mai_a.Prelude.{ℕ, ◌%◌, ◌≡◌, refl, Option, some, Result, ok, ◌>>=◌, >>=-eq-ok, ◌↔◌}
use he_mai_a.Moe.Layout.{or_default}
use he_mai_a.Moe.Layout.Derived.{Params}
use he_mai_a.Moe.Layout.Supported.{IsSupported}
use he_mai_a.Moe.Layout.Bank.{BankConfig, Spans, derive_bank_workload_params}
use he_mai_a.Moe.Layout.Bank.Fits.{IsChunked, derive_bank-IsChunked}
use he_mai_a.Moe.Layout.Placement.{LegacyParams, derive_l15_workload_params}
use he_mai_a.Moe.Layout.Placement.Exact.{derive_l15-exact}

pub derive_mixed_workload_params : BankConfig → Result ((Params × Spans) × LegacyParams)
derive_mixed_workload_params config = derive_bank_workload_params config >>= λ p.
    derive_l15_workload_params config.common >>= λ l15. ok (p, l15)

-- The generators accept a configuration exactly when the common layout supports it, both kinds of
-- chunks are of whole panels of 16 columns that make up the blocks, the rows of the second weights are
-- whole, the resident regions fit the memory, the tokens fill whole rows of the hardware, and the hidden
-- size is a multiple of 256.
pub derive_mixed-exact :
    (config : BankConfig) (cols : ℕ)
    → config.common.weight_chunk_cols ≡ some cols
    → ((p : (Params × Spans) × LegacyParams) × (derive_mixed_workload_params config ≡ ok p)) ↔ (
        IsSupported config.common
        × IsChunked config.common
            (or_default config.s1_weight_chunk_cols cols)
            (or_default config.s3_weight_chunk_cols cols)
        × (config.common.total_tokens % 8 ≡ 0)
        × (config.common.hidden_size % 256 ≡ 0))
unfolding derive_mixed_workload_params
derive_mixed-exact config cols given = (
  λ (p, e).
      let (banks, first, rest) = >>=-eq-ok (derive_bank_workload_params config) _ {b = p} e in
      let (l15, second, made) =
        >>=-eq-ok (derive_l15_workload_params config.common) _ {b = p} rest in
      let (h, k) = (derive_bank-IsChunked config cols given).0 (banks, first) in
      let (again, tokens, rotates) = (derive_l15-exact config.common).0 (l15, second) in
      (h, k, tokens, rotates),
  λ (h, k, tokens, rotates).
      let (banks, first) = (derive_bank-IsChunked config cols given).1 (h, k) in
      let (l15, second) = (derive_l15-exact config.common).1 (h, tokens, rotates) in
      ((banks, l15), rw (first, second) refl),
)
