-- ===== src/Validate/Samples.antt =====
-- Handles and assignments on a platform of two chiplets.
use he_mai_a.Prelude.{◌≡◌, ◌↔◌, refl, none, some, [], ◌∷◌, All, ok, err, Error}
use he_mai_a.Node.{BingoMemAlloc, BingoNode, new_node}
use he_mai_a.Dfg.Samples.{two_chiplets}
use he_mai_a.Validate.{
  validate_memory_handle, validate_memory_handles, place_failures, namespace_failures,
  struct_failures, kernel_failures, failures, validate_kernel_core_assignments,
}
use he_mai_a.Validate.Correct.{IsPlaced, validate_memory_handles_lem}
use he_mai_a.Validate.Kernels.{IsAssigned, validate_kernel_core_assignments_lem}

abbrev buffer : BingoMemAlloc
buffer = record {
  name = "weights";
  size = 4096;
  mem_level = "L1";
  chip_id = 1;
  cluster_id = 0;
  offset = 0;
  condition = none;
  alignment = some 64;
}

accepted : validate_memory_handles two_chiplets (buffer ∷ []) ≡ ok tt
unfolding validate_memory_handles validate_memory_handle
accepted = refl

shared_level :
    validate_memory_handles two_chiplets (record buffer { mem_level = "L3"; cluster_id = 1 } ∷ [])
    ≡ err Error.cluster_on_shared_level
unfolding validate_memory_handles validate_memory_handle
shared_level = refl

validate_memory_handles_lem_example :
    (validate_memory_handles two_chiplets (buffer ∷ []) ≡ ok tt)
    ↔ All (IsPlaced two_chiplets) (buffer ∷ [])
validate_memory_handles_lem_example = validate_memory_handles_lem two_chiplets (buffer ∷ [])

abbrev host_task : BingoNode
host_task = new_node 0 0 2 "host" (some "__host_bingo_kernel_dummy") none

host_accepted : validate_kernel_core_assignments two_chiplets (host_task ∷ []) ≡ ok tt
unfolding validate_kernel_core_assignments failures place_failures kernel_failures
    namespace_failures struct_failures
host_accepted = refl

host_elsewhere :
    validate_kernel_core_assignments two_chiplets (record host_task { assigned_core_id = 1 } ∷ [])
    ≡ err Error.kernel_assignment
unfolding validate_kernel_core_assignments failures place_failures kernel_failures
    namespace_failures struct_failures
host_elsewhere = refl

validate_kernel_core_assignments_lem_example :
    (validate_kernel_core_assignments two_chiplets (host_task ∷ []) ≡ ok tt)
    ↔ All (IsAssigned two_chiplets) (host_task ∷ [])
validate_kernel_core_assignments_lem_example =
    validate_kernel_core_assignments_lem two_chiplets (host_task ∷ [])
