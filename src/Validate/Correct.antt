-- ===== src/Validate/Correct.antt =====
-- The validations against independent descriptions of what they accept.
use he_mai_a.Prelude.{
  ◌<◌, ◌≡◌, ◌↔◌, ◌⊎◌, inl, inr, refl, String, true, false, ◌||◌, List, [], ◌∷◌, ltb, ◌==◌,
  if◌then◌else◌, ok, Error, ◌>>◌, require, arith, All, require_iff, require_only_iff, sequence_iff,
}
use he_mai_a.Prelude.Members.{contains}
use text.Mathlib.Text.{starts_with}
use text.Mathlib.Text
use text.Mathlib.TextEquality.{eq_iff}
use he_mai_a.Node.{BingoMemAlloc}
use he_mai_a.Dfg.{Config}
use he_mai_a.Validate.{validate_memory_handle, validate_memory_handles}

module _ (c : Config) where
  -- A buffer of at least one byte, in the memory of a cluster or in one that a chiplet of the graph has
  -- once.
  abbrev pub IsPlaced : BingoMemAlloc → Type 0
  IsPlaced h =
      (0 < h.size)
      × (contains c.chiplet_ids h.chip_id ≡ true)
      × (((h.mem_level ≡ "L1") × (h.cluster_id < c.num_clusters_per_chiplet))
          ⊎ (((h.mem_level ≡ "L2") ⊎ (h.mem_level ≡ "L3")) × (h.cluster_id ≡ 0)))

  -- What the last test of the loop's body asks.
  level_test_iff :
      (h : BingoMemAlloc)
      → ((if Text.◌==◌ h.mem_level "L1"
            then require (ltb h.cluster_id c.num_clusters_per_chiplet) Error.invalid_cluster_id
            else require (h.cluster_id == 0) Error.cluster_on_shared_level)
          ≡ ok tt)
        ↔ (((Text.◌==◌ h.mem_level "L1" ≡ true) × (h.cluster_id < c.num_clusters_per_chiplet))
            ⊎ ((Text.◌==◌ h.mem_level "L1" ≡ false) × (h.cluster_id ≡ 0)))
  level_test_iff h = ground (
    arith,
    require_only_iff (ltb h.cluster_id c.num_clusters_per_chiplet) Error.invalid_cluster_id,
    require_only_iff (h.cluster_id == 0) Error.cluster_on_shared_level,
  )

  not_L1 : (level : String) → (level ≡ "L2") ⊎ (level ≡ "L3") → Text.◌==◌ level "L1" ≡ false
  not_L1 level (inl e) = rw e refl
  not_L1 level (inr e) = rw e refl

  validate_handle_lem : (h : BingoMemAlloc) → (validate_memory_handle c h ≡ ok tt) ↔ IsPlaced h
  unfolding validate_memory_handle
  validate_handle_lem h =
      let l1 = Text.◌==◌ h.mem_level "L1" in
      let l2 = Text.◌==◌ h.mem_level "L2" in
      let l3 = Text.◌==◌ h.mem_level "L3" in
      let place =
        (if l1
          then require (ltb h.cluster_id c.num_clusters_per_chiplet) Error.invalid_cluster_id
          else require (h.cluster_id == 0) Error.cluster_on_shared_level) in
      ground (
        arith,
        require_iff (l1 || l2 || l3) Error.invalid_mem_level (
            require (ltb 0 h.size) Error.invalid_size
            >> require (contains c.chiplet_ids h.chip_id) Error.invalid_chip_id
            >> place),
        require_iff (ltb 0 h.size) Error.invalid_size
            (require (contains c.chiplet_ids h.chip_id) Error.invalid_chip_id >> place),
        require_iff (contains c.chiplet_ids h.chip_id) Error.invalid_chip_id place,
        level_test_iff h,
        eq_iff h.mem_level "L1",
        eq_iff h.mem_level "L2",
        eq_iff h.mem_level "L3",
        not_L1 h.mem_level,
      )

  -- The memory handles are accepted exactly when each is placed: it has a positive size and a chiplet of
  -- the graph, and either lies in L1 of an existing cluster or in L2 or L3 with cluster 0.
  pub validate_memory_handles_lem :
      (hs : List BingoMemAlloc) → (validate_memory_handles c hs ≡ ok tt) ↔ All IsPlaced hs
  unfolding validate_memory_handles
  validate_memory_handles_lem [] = (λ e. tt, λ e. refl)
  validate_memory_handles_lem (h ∷ hs) =
      let first = validate_handle_lem h in
      let rest = validate_memory_handles_lem hs in
      let both = sequence_iff (validate_memory_handle c h) (validate_memory_handles c hs) in
      (λ e. (first.0 (both.0 e).0, rest.0 (both.0 e).1), λ p. both.1 (first.1 p.0, rest.1 p.1))
