-- ===== src/Dfg/Conditional/Groups.antt =====
-- Step 3 of `bingo_compile_conditional_regions`: the CERF groups of the components of a gating node's targets.
use he_mai_a.Prelude.{
  ℕ, zero, suc, ◌+◌, ◌-◌, ◌%◌, Bool, true, false, not, ◌&&◌, ◌||◌, some, List, [], ◌∷◌, ◌++◌, leb,
  ltb, ◌==◌, if◌then◌else◌, min, length, get_or, keep_if, all, Result, ok, ◌>>=◌,
}
use he_mai_a.Prelude.Members.{contains}
use he_mai_a.Node.{BingoNode}
use he_mai_a.Graph.{DiGraph, put}
use he_mai_a.Graph.Paths.{Algorithms}
use he_mai_a.Dfg.{Dfg, write}
use he_mai_a.Dfg.Cerf.{alloc_cerf_group, write_groups, set_gating}
use he_mai_a.Dfg.Resources.{pairs}
use he_mai_a.Dfg.Conditional.{Targets, keys, targets_at, is_conditional}

-- The groups so far: of each node, and of the gating node in the order of allocation.
abbrev pub Assigned : Type 0
Assigned = List (ℕ × ℕ) × List ℕ

abbrev pub smallest : (ℕ → ℕ) → ℕ → List ℕ → ℕ
smallest key best [] = best
smallest key best (r ∷ rs) = smallest key (min best (key r)) rs

-- min(n.node_id for n in c); a component has nodes.
abbrev pub smallest_id : (ℕ → BingoNode) → List ℕ → ℕ
smallest_id heap [] = 0
smallest_id heap (r ∷ rs) = smallest (λ x. (heap x).node_id) (heap r).node_id rs

-- sorted(components, key=…)
pub insert_component : (ℕ → BingoNode) → List ℕ → List (List ℕ) → List (List ℕ)
insert_component heap x [] = x ∷ []
insert_component heap x (y ∷ ys) =
    if ltb (smallest_id heap y) (smallest_id heap x)
    then y ∷ insert_component heap x ys
    else x ∷ y ∷ ys

pub sort_components : (ℕ → BingoNode) → List (List ℕ) → List (List ℕ)
sort_components heap [] = []
sort_components heap (x ∷ xs) = insert_component heap x (sort_components heap xs)

-- max_cerf: 32 where no group is left, which the allocation then refuses.
abbrev pub max_cerf : ℕ → ℕ
max_cerf next = if 32 - next == 0 then 32 else 32 - next

module _ {G : Type 0} where
  -- The fields of the nodes of one component.
  pub mark_component : ℕ → ℕ → List ℕ → List (ℕ × ℕ) × Dfg G → List (ℕ × ℕ) × Dfg G
  mark_component gid index [] state = state
  mark_component gid index (r ∷ rs) (groups, s) = mark_component gid index rs (
    (r, gid) ∷ groups,
    record s {
      heap = write s.heap r (record (s.heap r) {
        cond_exec_en = true;
        cond_exec_group_id = gid;
        cond_exec_invert = false;
        cond_node_index = some index;
      });
    },
  )

  -- One group for each component.
  pub group_each : ℕ → List (List ℕ) → Assigned × Dfg G → Result (Assigned × Dfg G)
  group_each index [] state = ok state
  group_each index (component ∷ rest) ((groups, gids), s) = alloc_cerf_group s >>= λ (gid, t).
      let (marked, u) = mark_component gid index component (groups, t) in
      group_each (index + 1) rest ((marked, gids ++ gid ∷ []), u)

  pub alloc_groups : ℕ → Dfg G → Result (List ℕ × Dfg G)
  alloc_groups zero s = ok ([], s)
  alloc_groups (suc n) s =
      alloc_cerf_group s >>= λ (gid, t). alloc_groups n t >>= λ (gids, u). ok (gid ∷ gids, u)

  -- The components share the allocated groups in turn.
  pub share_groups : List ℕ → ℕ → List (List ℕ) → Assigned × Dfg G → Assigned × Dfg G
  share_groups allocated index [] state = state
  share_groups allocated index (component ∷ rest) ((groups, gids), s) =
      let gid = get_or allocated (index % length allocated) 0 in
      let (marked, t) = mark_component gid index component (groups, s) in
      share_groups allocated (index + 1) rest ((marked, put gid gids), t)

  pub group_components : List (List ℕ) → List (ℕ × ℕ) → Dfg G → Result (Assigned × Dfg G)
  group_components components groups s =
      if leb (length components) (max_cerf s.next_cerf_group)
      then group_each 0 components ((groups, []), s)
      else alloc_groups (min (max_cerf s.next_cerf_group) 32) s >>= λ (allocated, t).
          ok (share_groups allocated 0 components ((groups, []), t))

  -- target._gating_node = gating_node
  abbrev pub point_to : ℕ → List ℕ → Dfg G → Dfg G
  point_to gate [] s = s
  point_to gate (t ∷ ts) s =
      point_to gate ts
        (record s { heap = write s.heap t (record (s.heap t) { gating_node = some gate }) })

module _ (nx : DiGraph) (alg : Algorithms nx) where
  open nx use {Graph, successors}

  -- An unconditional edge between two targets, in either direction.
  abbrev pub is_joined : Graph → List ℕ → ℕ → ℕ → Bool
  is_joined g targets u v =
      (contains targets u && contains targets v)
      && ((contains (successors g u) v && not (is_conditional nx alg g u v))
          || (contains (successors g v) u && not (is_conditional nx alg g v u)))

  -- The body of the loop over the gating nodes.
  pub assign_gate :
      Bool → ℕ → Targets → ℕ → List (ℕ × ℕ) × Dfg Graph → Result (List (ℕ × ℕ) × Dfg Graph)
  assign_gate reuse pool_start gates gate (groups, s) =
      let targets = targets_at gates gate in
      let gated = set_gating gate s in
      let t = if reuse then record gated { next_cerf_group = pool_start } else gated in
      let components =
        sort_components t.heap (alg.connected_components targets (is_joined s.graph targets)) in
      group_components components groups t >>= λ ((marked, gids), u).
      ok (marked, point_to gate targets (write_groups gate gids u))

  pub assign_gates :
      Bool → ℕ → Targets → List ℕ → List (ℕ × ℕ) × Dfg Graph → Result (List (ℕ × ℕ) × Dfg Graph)
  assign_gates reuse pool_start gates [] state = ok state
  assign_gates reuse pool_start gates (gate ∷ rest) state =
      assign_gate reuse pool_start gates gate state >>= assign_gates reuse pool_start gates rest

  -- Gates that are totally ordered by paths share their groups.
  abbrev pub reuses_groups : Graph → List ℕ → Bool
  reuses_groups g ordered =
      ltb 1 (length ordered) && all (λ (a, b). alg.has_path g a b) (pairs ordered)

  pub assign_regions : Targets → Dfg Graph → Result (List (ℕ × ℕ) × Dfg Graph)
  assign_regions gates s = alg.topological_sort s.graph >>= λ order.
      let ordered = keep_if (contains (keys gates)) order in
      assign_gates (reuses_groups s.graph ordered) s.next_cerf_group gates ordered ([], s)
