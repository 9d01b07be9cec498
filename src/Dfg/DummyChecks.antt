-- ===== src/Dfg/DummyChecks.antt =====
-- `bingo_transform_dfg_add_dummy_check_nodes`: fan-in is turned into dummy-check tasks in front of the
-- consumer, so that each check waits for one core.
pub mod Moves
mod Split
pub mod Loops
mod Cores
pub mod Correct
use he_mai_a.Prelude.{
  ℕ, ◌-◌, true, false, not, none, List, [], ◌∷◌, leb, ◌==◌, if◌then◌else◌, length, keep_if, take,
  map, Result, ok, ◌>>=◌,
}
use he_mai_a.Node.{dummy, BingoNode, new_node, is_dummy_check}
use he_mai_a.Graph.{DiGraph, or_none, or_false, distinct}
use he_mai_a.Schedule.Sorting.{sort_by}
use he_mai_a.Dfg.{Dfg, for_each, create, bingo_insert_node_between}
use he_mai_a.Dfg.DummySets.{group_by}

-- A dummy-check task on the consumer's core that waits for `core`.
pub dummy_check_node : BingoNode → ℕ → BingoNode
dummy_check_node consumer core =
    record (new_node consumer.assigned_chiplet_id consumer.assigned_cluster_id
      consumer.assigned_core_id "dummy_check" none none) {
        node_type = dummy;
        dep_check_enable = true;
        dep_check_list = core ∷ [];
        dep_set_enable = false;
        dep_set_list = [];
        dep_set_cluster_id = 0;
        dep_set_chiplet_id = 0;
        remote_dep_set_all = false;
      }

module _ (nx : DiGraph) where
  open nx use {Graph, nodes, predecessors, edge_data}

  -- The predecessors of a node, without the edges that only order descriptors.
  abbrev pub waited_for : Dfg Graph → ℕ → List ℕ
  waited_for s cur =
      keep_if (λ p. not (or_false (or_none (edge_data s.graph p cur)).descriptor_sequence))
        (predecessors s.graph cur)

  -- Without those that are dummy checks.
  abbrev pub unchecked : Dfg Graph → ℕ → List ℕ
  unchecked s cur = keep_if (λ p. not (is_dummy_check (s.heap p))) (waited_for s cur)

  pub check_one : ℕ → ℕ → ℕ → Dfg Graph → Result (Dfg Graph)
  check_one cur core pred s =
      let (new, t) = create nx (dummy_check_node (s.heap cur) core) s in
      bingo_insert_node_between nx pred cur new t

  -- Case 1: all but the last predecessor on one core, by the predecessor's own core number.
  pub check_group : ℕ → ℕ × List ℕ → Dfg Graph → Result (Dfg Graph)
  check_group cur (core, preds) s =
      if leb 2 (length preds)
      then for_each (λ p t. check_one cur (t.heap p).assigned_core_id p t)
          (take (length preds - 1) preds) s
      else ok s

  -- Case 2, for one core: the first predecessor there, if it is not a dummy check yet.
  pub check_core : ℕ → ℕ → Dfg Graph → Result (Dfg Graph)
  check_core cur core s =
      elim (keep_if (λ p. (s.heap p).assigned_core_id == core) (unchecked s cur)) [
        | [] ↦ ok s
        | pred ∷ others ↦ check_one cur core pred s
      ]

  -- sorted(set(cores)), all but the last: none where there are fewer than two.
  abbrev pub cores_to_split : Dfg Graph → ℕ → List ℕ
  cores_to_split s cur =
      let cores =
        sort_by (λ core. core)
          (distinct (map (λ p. (s.heap p).assigned_core_id) (unchecked s cur))) in
      if leb 2 (length cores) then take (length cores - 1) cores else []

  -- The body of the loop over the nodes.
  pub check_node : ℕ → Dfg Graph → Result (Dfg Graph)
  check_node cur s =
      for_each (check_group cur) (group_by (λ p. (s.heap p).assigned_core_id) [] (waited_for s cur))
        s
      >>= λ t. for_each (check_core cur) (cores_to_split t cur) t

  pub bingo_transform_dfg_add_dummy_check_nodes : Dfg Graph → Result (Dfg Graph)
  bingo_transform_dfg_add_dummy_check_nodes s = for_each check_node (nodes s.graph) s
