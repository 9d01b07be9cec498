-- ===== src/Validate/Kernels.antt =====
-- `_validate_kernel_core_assignments` against an independent description of the assignments it accepts.
use he_mai_a.Prelude.{
  ◌-◌, ◌<◌, ◌≡◌, ◌↔◌, ◌⊎◌, refl, String, Bool, true, false, not, ◌&&◌, Option, none, some, List, [],
  ◌∷◌, ◌++◌, leb, ◌==◌, ok, arith, All,
}
use he_mai_a.Prelude.Members.{contains}
use text.Mathlib.Text.{starts_with}
use text.Mathlib.Text
use text.Mathlib.TextEquality.{eq_iff}
use he_mai_a.Node.{KernelArgs, BingoNode}
use he_mai_a.Dfg.{Config}
use he_mai_a.Validate.{
  Failure, place_failures, namespace_failures, struct_failures, kernel_failures, failures, report,
  host_core_id, num_snax_cores, raise_if_any, validate_kernel_core_assignments,
}

-- No kernel name is in both namespaces.
pub host_is_not_snax :
    (kernel : String) → starts_with kernel "__host" ≡ true → starts_with kernel "__snax" ≡ false
host_is_not_snax kernel h = let e = (eq_iff _ "__host").0 h in rw e refl

raise-append :
    (xs ys : List (Failure))
    → (raise_if_any (xs ++ ys) ≡ ok tt) ↔ ((raise_if_any xs ≡ ok tt) × (raise_if_any ys ≡ ok tt))
raise-append [] ys = (λ h. (refl, h), λ h. h.1)
raise-append (x ∷ xs) ys = ground arith

raise-report : (b : Bool) (f : Failure) → (raise_if_any (report b f) ≡ ok tt) ↔ (b ≡ false)
raise-report true f = ground arith
raise-report false f = (λ h. refl, λ h. refl)

module _ (c : Config) where
  abbrev pub HasStruct : String → Option KernelArgs → Type 0
  HasStruct name none = Unit
  HasStruct name (some args) = starts_with args.struct_name name ≡ true

  -- A host kernel on the host core of cluster 0, or a device kernel on another core; its argument struct
  -- is of the same kind. A node without a kernel may be anywhere.
  abbrev pub FitsKernel : BingoNode → Option String → Type 0
  FitsKernel node none = Unit
  FitsKernel node (some kernel) =
      (Text.◌==◌ kernel "" ≡ true)
      ⊎ (((starts_with kernel "__host" ≡ true)
            × (c.is_host_as_acc ≡ true)
            × (node.assigned_core_id ≡ c.num_cores_per_cluster - 1)
            × (node.assigned_cluster_id ≡ 0)
            × HasStruct "__host" node.kernel_args)
          ⊎ ((starts_with kernel "__snax" ≡ true)
              × (node.assigned_core_id < num_snax_cores c)
              × HasStruct "__snax" node.kernel_args))

  abbrev pub IsAssigned : BingoNode → Type 0
  IsAssigned node =
      (contains c.chiplet_ids node.assigned_chiplet_id ≡ true)
      × (node.assigned_cluster_id < c.num_clusters_per_chiplet)
      × (node.assigned_core_id < c.num_cores_per_cluster)
      × FitsKernel node node.kernel_name

  place_lem :
      (node : BingoNode)
      → (raise_if_any (place_failures c node) ≡ ok tt) ↔ (
          (contains c.chiplet_ids node.assigned_chiplet_id ≡ true)
          × (node.assigned_cluster_id < c.num_clusters_per_chiplet)
          × (node.assigned_core_id < c.num_cores_per_cluster))
  unfolding place_failures
  place_lem node =
      let chiplet = not (contains c.chiplet_ids node.assigned_chiplet_id) in
      let cluster = leb c.num_clusters_per_chiplet node.assigned_cluster_id in
      let core = leb c.num_cores_per_cluster node.assigned_core_id in
      ground (
        arith,
        raise-append (report chiplet Failure.bad_chiplet)
            (report cluster Failure.bad_cluster ++ report core Failure.bad_core),
        raise-append (report cluster Failure.bad_cluster) (report core Failure.bad_core),
        raise-report chiplet Failure.bad_chiplet,
        raise-report cluster Failure.bad_cluster,
        raise-report core Failure.bad_core,
      )

  struct_lem :
      (kernel : String) (args : Option KernelArgs)
      → (raise_if_any (struct_failures c kernel args) ≡ ok tt) ↔ (
          (starts_with kernel "__host" ≡ true → HasStruct "__host" args)
          × (starts_with kernel "__snax" ≡ true → HasStruct "__snax" args))
  unfolding struct_failures
  struct_lem kernel none = (λ e. (λ h. tt, λ h. tt), λ e. refl)
  struct_lem kernel (some args) =
      let host = starts_with kernel "__host" && not (starts_with args.struct_name "__host") in
      let snax = starts_with kernel "__snax" && not (starts_with args.struct_name "__snax") in
      ground (
        arith,
        raise-append (report host Failure.not_a_host_struct)
            (report snax Failure.not_a_snax_struct),
        raise-report host Failure.not_a_host_struct,
        raise-report snax Failure.not_a_snax_struct,
      )

  namespace_lem :
      (node : BingoNode) (kernel : String)
      → (raise_if_any (namespace_failures c node kernel) ≡ ok tt) ↔ (
          ((starts_with kernel "__host" ≡ true)
            × (c.is_host_as_acc ≡ true)
            × (node.assigned_core_id ≡ c.num_cores_per_cluster - 1)
            × (node.assigned_cluster_id ≡ 0))
          ⊎ ((starts_with kernel "__host" ≡ false)
              × (starts_with kernel "__snax" ≡ true)
              × (node.assigned_core_id < num_snax_cores c)))
  unfolding namespace_failures
  namespace_lem node kernel =
      let off = not (node.assigned_core_id == host_core_id c && node.assigned_cluster_id == 0) in
      let over = leb (num_snax_cores c) node.assigned_core_id in
      ground (
        arith,
        raise-report off Failure.not_on_host_core,
        raise-report over Failure.not_on_snax_core,
      )

  kernel_lem :
      (node : BingoNode) (kernel : Option String)
      → (raise_if_any (kernel_failures c node kernel) ≡ ok tt) ↔ FitsKernel node kernel
  unfolding kernel_failures
  kernel_lem node none = (λ e. tt, λ e. refl)
  kernel_lem node (some kernel) = ground (
    arith,
    raise-append (namespace_failures c node kernel) (struct_failures c kernel node.kernel_args),
    namespace_lem node kernel,
    struct_lem kernel node.kernel_args,
    host_is_not_snax kernel,
  )

  -- The assignment check passes exactly when every node is on an existing core of an existing chiplet
  -- and its kernel, if it has one, belongs on that core.
  pub validate_kernel_core_assignments_lem :
      (nodes : List BingoNode)
      → (validate_kernel_core_assignments c nodes ≡ ok tt) ↔ All IsAssigned nodes
  unfolding validate_kernel_core_assignments failures
  validate_kernel_core_assignments_lem [] = (λ e. tt, λ e. refl)
  validate_kernel_core_assignments_lem (node ∷ nodes) =
      let place = place_failures c node in
      let kernel = kernel_failures c node node.kernel_name in
      let outer = raise-append (place ++ kernel) (failures c nodes) in
      let inner = raise-append place kernel in
      let p = place_lem node in
      let k = kernel_lem node node.kernel_name in
      let rest = validate_kernel_core_assignments_lem nodes in
      (
        λ e.
            let (b, r) = outer.0 e in
            let (q, k1) = inner.0 b in (((p.0 q).0, (p.0 q).1, (p.0 q).2, k.0 k1), rest.0 r),
        λ a. outer.1 (inner.1 (p.1 (a.0.0, a.0.1, a.0.2), k.1 a.0.3), rest.1 a.1),
      )
