-- ===== src/Schedule/Handover.antt =====
-- Two producers on one core and two consumers on another, which take turns.
use he_mai_a.Prelude.{ℕ, ◌%◌, ◌≡◌, refl, true, none, some, List, [], ◌∷◌, ◌==◌, if◌then◌else◌, ok}
use he_mai_a.Node.{BingoNode, new_node}
use he_mai_a.Graph.{no_data, put}
use he_mai_a.Graph.Log.{Change, node, edge, logged_nodes, logged_successors}
use he_mai_a.Schedule.{
  by_id, count_successors, count_degrees, first_ready, resources, release_one, release, ready_at,
  choose, any_ready, taken, run, begin, sort_local, resource_balanced_topological_sort,
}
use he_mai_a.Schedule.Sorting.{sorted_resources, sort_by}

abbrev pub turns : List Change
turns =
    edge 2 3 no_data ∷ edge 1 2 no_data ∷ edge 0 1 no_data ∷ node 3 ∷ node 2 ∷ node 1 ∷ node 0 ∷ []

-- The nodes 0 and 2 on core 0 signal core 1, for which the nodes 1 and 3 on core 1 wait.
abbrev pub turn_node : ℕ → BingoNode
turn_node n =
    let base : BingoNode = record (new_node 0 0 (n % 2) "task" (some "__snax_dma") none) {
      node_id = n;
    } in
    if n % 2 == 0
    then record base { dep_set_enable = true; dep_set_list = 1 ∷ [] }
    else record base { dep_check_enable = true; dep_check_list = 0 ∷ [] }

pub sort-turns :
    resource_balanced_topological_sort (logged_successors turns) turn_node (logged_nodes turns) 0
    ≡ ok (0 ∷ 1 ∷ 2 ∷ 3 ∷ [])
unfolding resource_balanced_topological_sort sort_local run any_ready resources sorted_resources
    begin first_ready by_id sort_by count_degrees count_successors choose ready_at release
    release_one taken put
sort-turns = refl
