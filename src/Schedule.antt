-- ===== src/Schedule.antt =====
-- `_resource_balanced_topological_sort` of bingo_dfg.py: the order in which the descriptors of one
-- chiplet are emitted. The graph's `nodes` and `successors` are given as lists of node references.
-- A Python set is the list of its members: its order of iteration is never seen, since each list
-- of ready nodes is sorted by node id.
pub mod Sorting
mod Degrees
pub mod Invariant
pub mod Rounds
pub mod Loop
pub mod Correct
pub mod Handover
mod Samples
use he_mai_a.Prelude.{
  ℕ, zero, suc, ◌+◌, ◌-◌, ◌%◌, Bool, true, false, not, ◌&&◌, Option, none, some, List, [], ◌∷◌,
  ◌++◌, map, ◌==◌, if◌then◌else◌, length, get_or, keep_if, any, foldl, Result, ok, err, Error,
}
use he_mai_a.Prelude.Members.{contains}
use he_mai_a.Node.{BingoNode}
use he_mai_a.Schedule.Sorting.{sort_by, Resource, same_resource, sorted_resources}

-- The variables of the loop. `start` is `last_resource_idx + 1`.
pub record Progress : Type 0 where
  pub in_degree : ℕ → ℕ
  pub ready : Resource → List ℕ
  pub result : List ℕ
  pub start : ℕ

abbrev pub update_degree : (ℕ → ℕ) → ℕ → ℕ → ℕ → ℕ
update_degree f v n = λ x. if v == x then n else f x

abbrev pub update_ready : (Resource → List ℕ) → Resource → List ℕ → Resource → List ℕ
update_ready f r l = λ x. if same_resource r x then l else f x

abbrev pub is_empty : List ℕ → Bool
is_empty [] = true
is_empty (x ∷ xs) = false

module _ (successors : ℕ → List ℕ) (node : ℕ → BingoNode) where
  -- (node.assigned_cluster_id, node.assigned_core_id)
  abbrev pub resource : ℕ → Resource
  resource n = ((node n).assigned_cluster_id, (node n).assigned_core_id)

  -- {node for node in self.nodes if node.assigned_chiplet_id == chiplet_id}
  abbrev pub local_nodes : List ℕ → ℕ → List ℕ
  local_nodes nodes chiplet_id = keep_if (λ n. (node n).assigned_chiplet_id == chiplet_id) nodes

  pub by_id : List ℕ → List ℕ
  by_id = sort_by (λ n. (node n).node_id)

  module _ (local : List ℕ) where
    -- for succ in self.successors(node): if succ in local_nodes: in_degree[succ] += 1
    pub count_successors : (ℕ → ℕ) → List ℕ → ℕ → ℕ
    count_successors in_degree [] = in_degree
    count_successors in_degree (s ∷ rest) =
        count_successors
          (if contains local s then update_degree in_degree s (in_degree s + 1) else in_degree) rest

    pub count_degrees : (ℕ → ℕ) → List ℕ → ℕ → ℕ
    count_degrees in_degree [] = in_degree
    count_degrees in_degree (n ∷ rest) =
        count_degrees (count_successors in_degree (successors n)) rest

    -- ready_by_resource, with each list sorted
    pub first_ready : (ℕ → ℕ) → Resource → List ℕ
    first_ready in_degree r =
        by_id (keep_if (λ n. in_degree n == 0 && same_resource (resource n) r) local)

    pub resources : List Resource
    resources = sorted_resources (map resource local)

    -- One round of the loop over the successors of the chosen node.
    pub release_one : Progress → ℕ → Progress
    release_one p s =
        if contains local s
        then (if p.in_degree s - 1 == 0
            then record p {
              in_degree = update_degree p.in_degree s (p.in_degree s - 1);
              ready = update_ready p.ready (resource s) (by_id (p.ready (resource s) ++ s ∷ []));
            }
            else record p { in_degree = update_degree p.in_degree s (p.in_degree s - 1) })
        else p

    pub release : Progress → List ℕ → Progress
    release = foldl release_one

    pub ready_at : Progress → ℕ → List ℕ
    ready_at p i = p.ready (get_or resources i (0, 0))

    -- The scan for the next resource with a ready node, from the one behind the last resource used:
    -- the resource's index, the node, and the nodes left in its list.
    pub choose : Progress → ℕ → ℕ → Option (ℕ × ℕ × List ℕ)
    choose p zero k = none
    choose p (suc left) k =
        let i = (p.start + k) % length resources in
        elim (ready_at p i) [ [] ↦ choose p left (k + 1) | x ∷ rest ↦ some (i, x, rest) ]

    pub any_ready : Progress → Bool
    any_ready p = any (λ r. not (is_empty (p.ready r))) resources

    -- The state when the chosen node has left its list and stands in the result.
    pub taken : Progress → ℕ × ℕ × List ℕ → Progress
    taken p (i, x, rest) = record p {
      ready = update_ready p.ready (get_or resources i (0, 0)) rest;
      result = p.result ++ x ∷ [];
      start = i + 1;
    }

    -- The `while` loop. Each round emits a node, so as many rounds as there are nodes are enough.
    pub run : ℕ → Progress → Progress
    run zero p = p
    run (suc rounds) p = elim (any_ready p) [
      | false ↦ p
      | true ↦ elim (choose p (length resources) 0) [
        | none ↦ p
        | some c ↦ run rounds (release (taken p c) (successors c.1))
      ]
    ]

    -- The state before the loop.
    pub begin : Progress
    begin =
        let in_degree = count_degrees (λ n. 0) local in
        record { in_degree = in_degree; ready = first_ready in_degree; result = []; start = 0 }

    pub sort_local : Result (List ℕ)
    sort_local =
        if is_empty local
        then ok []
        else (let p = run (length local) begin in
            if length p.result == length local then ok p.result else err Error.cyclic_graph)

  -- The order of the nodes of one chiplet; a cycle raises NetworkXUnfeasible.
  pub resource_balanced_topological_sort : List ℕ → ℕ → Result (List ℕ)
  resource_balanced_topological_sort nodes chiplet_id = sort_local (local_nodes nodes chiplet_id)
