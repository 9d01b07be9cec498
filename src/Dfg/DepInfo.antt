-- ===== src/Dfg/DepInfo.antt =====
-- `bingo_assign_normal_node_dep_check_info` and `bingo_assign_normal_node_dep_set_info`: what a normal
-- or gating node checks before it runs and whom it signals afterwards. Warnings are printed only.
mod Parallel
mod Assigned
pub mod Exact
use he_mai_a.Prelude.{ℕ, Bool, true, false, not, List, [], ◌∷◌, if◌then◌else◌, keep_if, map, foldl}
use he_mai_a.Node.{NodeType, BingoNode, is_dummy, is_dummy_set}
use he_mai_a.Graph.{DiGraph}
use he_mai_a.Dfg.{Config, Dfg, write}
use he_mai_a.Dfg.DummySets.{signalled}
use he_mai_a.Dfg.DummyChecks.{unchecked}

module _ (nx : DiGraph) (c : Config) where
  open nx use {Graph, nodes}

  pub checks_of : Dfg Graph → ℕ → List ℕ → BingoNode
  checks_of s cur [] = record (s.heap cur) { dep_check_enable = false; dep_check_list = [] }
  checks_of s cur (p ∷ ps) = record (s.heap cur) {
    dep_check_enable = true;
    dep_check_list = map (λ r. (s.heap r).assigned_core_id) (p ∷ ps);
  }

  -- The body of the loop over the nodes.
  pub assign_check : Dfg Graph → ℕ → Dfg Graph
  assign_check s cur =
      if is_dummy (s.heap cur).node_type
      then s
      else record s { heap = write s.heap cur (checks_of s cur (unchecked nx s cur)) }

  pub bingo_assign_normal_node_dep_check_info : Dfg Graph → Dfg Graph
  bingo_assign_normal_node_dep_check_info s = foldl assign_check s (nodes s.graph)

  -- With more than one successor the node is left as it is, behind a warning.
  pub sets_of : Dfg Graph → ℕ → List ℕ → BingoNode
  sets_of s cur [] = record (s.heap cur) {
    dep_set_enable = false;
    dep_set_list = [];
    remote_dep_set_all = false;
    dep_set_cluster_id = 0;
    dep_set_chiplet_id = 0;
  }
  sets_of s cur (v ∷ []) = record (s.heap cur) {
    dep_set_enable = true;
    dep_set_list = (s.heap v).assigned_core_id ∷ [];
    remote_dep_set_all = false;
    dep_set_chiplet_id = (s.heap v).assigned_chiplet_id;
    dep_set_cluster_id = (s.heap v).assigned_cluster_id;
  }
  sets_of s cur (v ∷ w ∷ rest) = s.heap cur

  abbrev pub task_successors : Dfg Graph → ℕ → List ℕ
  task_successors s cur = keep_if (λ v. not (is_dummy_set (s.heap v))) (signalled nx c s cur)

  pub assign_set : Dfg Graph → ℕ → Dfg Graph
  assign_set s cur =
      if is_dummy (s.heap cur).node_type
      then s
      else record s { heap = write s.heap cur (sets_of s cur (task_successors s cur)) }

  pub bingo_assign_normal_node_dep_set_info : Dfg Graph → Dfg Graph
  bingo_assign_normal_node_dep_set_info s = foldl assign_set s (nodes s.graph)
