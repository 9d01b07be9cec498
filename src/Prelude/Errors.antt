-- ===== src/Prelude/Errors.antt =====
-- Python exceptions as values. Each constructor of `Error` is one `raise` or `assert` of the source.
use mathlib.Core.Bool.{Bool, true, false}
use mathlib.Core.Path.{◌≡◌, refl}
use mathlib.Core.Logic.{◌↔◌, ◌⊎◌, inl, inr}
use native.Mathlib.Omega.{arith}

pub data Error : Type 0 where
  descriptor_too_wide no_edge cyclic_graph cerf_overflow invalid_mem_level invalid_size : Error
  invalid_chip_id invalid_cluster_id cluster_on_shared_level kernel_assignment : Error
  cerf_boundary multi_endpoint too_many_tags missing_tag missing_parameter : Error
  too_many_experts wrong_sum wrong_length invalid_pair wrong_counts no_case expert_number : Error
  no_node no_routes address_collision dma_overlap odd_routes too_many_routes no_rank self_routing :
      Error
  bad_alignment unknown_shape other_shape not_s0 no_tokens token_reference hw_task_tokens : Error
  hidden_tiles intermediate_tiles expert_columns weight_backings backing_power backing_share : Error
  no_blocks too_many_blocks s1_columns s3_columns a_tile down_columns few_top_k many_top_k : Error
  shared_experts scheduler_experts input_tiles router_width down_hidden output_width : Error
  shared_down_hidden shared_output_width odd_groups : Error
  chunk_columns s1_chunks s3_chunks mode0_rows mode1_rows page_spans bank_capacity : Error
  missing_define chiplet_id_count xdma_size xdma_width : Error
  mode0_spans mode1_spans row_stride bank_rotation odd_width gate_weights down_weights token_rows :
      Error
  nested_condition two_gates gate_is_no_ancestor unknown_gating_mode : Error

pub data Result {ℓ} (A : Type ℓ) : Type ℓ where
  ok : A → Result A
  err : Error → Result A

module _ {ℓ κ} {A : Type ℓ} {B : Type κ} where
  infixl 5 ◌>>=◌
  -- An exception skips what follows.
  abbrev pub ◌>>=◌ : Result A → (A → Result B) → Result B
  err raised >>= next = err raised
  ok value >>= next = next value

module _ {ℓ} {B : Type ℓ} where
  infixl 5 ◌>>◌
  abbrev pub ◌>>◌ : Result (Unit {0}) → Result B → Result B
  check >> next = check >>= λ _. next

-- `if not test: raise e`
abbrev pub require : Bool → Error → Result (Unit {0})
require true e = ok tt
require false e = err e

pub require_iff :
    (test : Bool) (e : Error) (next : Result (Unit {0}))
    → ((require test e >> next) ≡ ok tt) ↔ ((test ≡ true) × (next ≡ ok tt))
require_iff true e next = (λ h. (refl, h), λ h. h.1)
require_iff false e next = ground arith

pub require_only_iff : (test : Bool) (e : Error) → (require test e ≡ ok tt) ↔ (test ≡ true)
require_only_iff true e = (λ h. refl, λ h. refl)
require_only_iff false e = ground arith

pub sequence_iff :
    (first next : Result (Unit {0}))
    → ((first >> next) ≡ ok tt) ↔ ((first ≡ ok tt) × (next ≡ ok tt))
sequence_iff (ok tt) next = (λ h. (refl, h), λ h. h.1)
sequence_iff (err e) next = ground arith

-- What a chain that raises nothing passed through.
pub >>=-eq-ok {ℓ κ} :
    {A : Type ℓ} {B : Type κ} (m : Result A) (next : A → Result B) {b : B}
    → (m >>= next) ≡ ok b
    → (a : A) × (m ≡ ok a) × (next a ≡ ok b)
>>=-eq-ok (ok a) next h = (a, refl, h)
>>=-eq-ok (err e) next h = cc

pub Result-cases {ℓ} :
    {A : Type ℓ} (r : Result A) → ((a : A) × (r ≡ ok a)) ⊎ ((e : Error) × (r ≡ err e))
Result-cases (ok a) = inl (a, refl)
Result-cases (err e) = inr (e, refl)
