-- ===== src/Validate.antt =====
-- `_collect_memory_handles`, `_validate_memory_handles` and `_validate_kernel_core_assignments` of
-- bingo_dfg.py: what is checked before C code is generated.
pub mod Correct
pub mod Kernels
mod Samples
use he_mai_a.Prelude.{
  ℕ, ◌-◌, String, Bool, true, false, not, ◌&&◌, ◌||◌, Option, none, some, List, [], ◌∷◌, ◌++◌, ltb,
  leb, ◌==◌, if◌then◌else◌, Result, ok, err, Error, ◌>>◌, require,
}
use he_mai_a.Prelude.Members.{contains}
use text.Mathlib.Text.{starts_with}
use text.Mathlib.Text
use he_mai_a.Node.{BingoMemAlloc, KernelArgs, BingoNode}
use he_mai_a.Dfg.{Config}

-- The handles are objects; two are the same where all their fields are. A Python set of them is
-- modelled by the list in the order of the nodes: only the validation below reads it, and it looks at
-- each handle by itself.
pub collect_memory_handles : List BingoNode → List BingoMemAlloc
collect_memory_handles [] = []
collect_memory_handles (node ∷ nodes) =
    let rest = collect_memory_handles nodes in
    elim node.kernel_args [ none ↦ rest | some args ↦ args.handles ++ rest ]

-- The failures that the source reports, one constructor for each message.
pub data Failure : Type 0 where
  bad_chiplet bad_cluster bad_core : Failure
  host_without_host not_on_host_core not_on_snax_core unknown_namespace : Failure
  not_a_host_struct not_a_snax_struct : Failure

abbrev pub report : Bool → Failure → List Failure
report true f = f ∷ []
report false f = []

abbrev pub raise_if_any : List Failure → Result (Unit {0})
raise_if_any [] = ok tt
raise_if_any (f ∷ fs) = err Error.kernel_assignment

module _ (c : Config) where
  -- The body of the loop. A size is a natural number: of the sizes that the source refuses, 0 is left.
  pub validate_memory_handle : BingoMemAlloc → Result (Unit {0})
  validate_memory_handle h =
      require
        (Text.◌==◌ h.mem_level "L1" || Text.◌==◌ h.mem_level "L2" || Text.◌==◌ h.mem_level "L3")
        Error.invalid_mem_level
      >> require (ltb 0 h.size) Error.invalid_size
      >> require (contains c.chiplet_ids h.chip_id) Error.invalid_chip_id
      >> (if Text.◌==◌ h.mem_level "L1"
          then require (ltb h.cluster_id c.num_clusters_per_chiplet) Error.invalid_cluster_id
          else require (h.cluster_id == 0) Error.cluster_on_shared_level)

  pub validate_memory_handles : List BingoMemAlloc → Result (Unit {0})
  validate_memory_handles [] = ok tt
  validate_memory_handles (h ∷ hs) = validate_memory_handle h >> validate_memory_handles hs

  abbrev pub host_core_id : ℕ
  host_core_id = c.num_cores_per_cluster - 1

  abbrev pub num_snax_cores : ℕ
  num_snax_cores = if c.is_host_as_acc then host_core_id else c.num_cores_per_cluster

  pub place_failures : BingoNode → List Failure
  place_failures node =
      report (not (contains c.chiplet_ids node.assigned_chiplet_id)) Failure.bad_chiplet
      ++ report (leb c.num_clusters_per_chiplet node.assigned_cluster_id) Failure.bad_cluster
      ++ report (leb c.num_cores_per_cluster node.assigned_core_id) Failure.bad_core

  pub namespace_failures : BingoNode → String → List Failure
  namespace_failures node kernel =
      if starts_with kernel "__host"
      then (if c.is_host_as_acc
          then report (not (node.assigned_core_id == host_core_id && node.assigned_cluster_id == 0))
              Failure.not_on_host_core
          else Failure.host_without_host ∷ [])
      else (if starts_with kernel "__snax"
          then report (leb num_snax_cores node.assigned_core_id) Failure.not_on_snax_core
          else Failure.unknown_namespace ∷ [])

  pub struct_failures : String → Option KernelArgs → List Failure
  struct_failures kernel none = []
  struct_failures kernel (some args) =
      report (starts_with kernel "__host" && not (starts_with args.struct_name "__host"))
        Failure.not_a_host_struct
      ++ report (starts_with kernel "__snax" && not (starts_with args.struct_name "__snax"))
          Failure.not_a_snax_struct

  -- `if not kernel_name: continue` stops at a missing name and at the empty one.
  pub kernel_failures : BingoNode → Option String → List Failure
  kernel_failures node none = []
  kernel_failures node (some kernel) =
      if Text.◌==◌ kernel ""
      then []
      else namespace_failures node kernel ++ struct_failures kernel node.kernel_args

  pub failures : List BingoNode → List Failure
  failures [] = []
  failures (node ∷ nodes) =
      place_failures node ++ kernel_failures node node.kernel_name ++ failures nodes

  pub validate_kernel_core_assignments : List BingoNode → Result (Unit {0})
  validate_kernel_core_assignments nodes = raise_if_any (failures nodes)
