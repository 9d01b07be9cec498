-- ===== src/Dfg/Ends.antt =====
-- `bingo_transform_dfg_add_entry_node` and `bingo_transform_dfg_add_exit_nodes`.
pub mod Entry
use he_mai_a.Prelude.{
  ℕ, zero, suc, ◌+◌, ◌-◌, Bool, true, false, not, ◌&&◌, none, some, List, [], ◌∷◌, ◌++◌, ◌==◌,
  if◌then◌else◌, keep_if, any, foldl,
}
use he_mai_a.Node.{BingoNode, new_node}
use he_mai_a.Graph.{DiGraph}
use he_mai_a.Dfg.{Config, Dfg, create, bingo_add_node, plain_edge}

-- range(n)
abbrev pub range_from : ℕ → ℕ → List ℕ
range_from first zero = []
range_from first (suc n) = first ∷ range_from (first + 1) n

abbrev pub is_none_left : List ℕ → Bool
is_none_left [] = true
is_none_left (x ∷ xs) = false

module _ (nx : DiGraph) (c : Config) where
  open nx use {Graph, nodes, successors, predecessors}

  abbrev pub start_nodes : Dfg Graph → List ℕ
  start_nodes s = keep_if (λ r. is_none_left (predecessors s.graph r)) (nodes s.graph)

  abbrev pub entry_node : BingoNode
  entry_node =
      if c.is_host_as_acc
      then new_node 0 0 (c.num_cores_per_cluster - 1) "" (some "__host_bingo_kernel_entry") none
      else new_node 0 0 0 "" (some "__snax_bingo_kernel_entry") none

  abbrev pub connect_to : ℕ → List ℕ → Dfg Graph → Dfg Graph
  connect_to from [] s = s
  connect_to from (to ∷ rest) s = connect_to from rest (plain_edge nx from to s)

  pub bingo_transform_dfg_add_entry_node : Dfg Graph → Dfg Graph
  bingo_transform_dfg_add_entry_node s =
      let (entry, t) = create nx entry_node s in
      connect_to entry (start_nodes s) (bingo_add_node nx entry t)

  -- The nodes of the chiplet without a successor on the chiplet.
  abbrev pub local_end_nodes : Dfg Graph → ℕ → List ℕ
  local_end_nodes s chiplet_id =
      keep_if
        (λ r.
          (s.heap r).assigned_chiplet_id == chiplet_id
          && not (any (λ v. (s.heap v).assigned_chiplet_id == chiplet_id) (successors s.graph r)))
        (nodes s.graph)

  -- The places of the exit nodes on normal cores: for each cluster, each core but the host's.
  abbrev pub normal_cores : List ℕ
  normal_cores =
      keep_if (λ core. not (c.is_host_as_acc && core == c.num_cores_per_cluster - 1))
        (range_from 0 c.num_cores_per_cluster)

  abbrev pub on_cores : ℕ → List ℕ → List (ℕ × ℕ)
  on_cores cluster [] = []
  on_cores cluster (core ∷ cores) = (cluster, core) ∷ on_cores cluster cores

  abbrev pub places : List ℕ → List (ℕ × ℕ)
  places [] = []
  places (cluster ∷ clusters) = on_cores cluster normal_cores ++ places clusters

  -- The exit nodes, added one by one: the references and the state.
  pub add_exits : ℕ → List (ℕ × ℕ) → Dfg Graph → List ℕ × Dfg Graph
  add_exits chiplet_id [] s =
      let (host, t) =
        create nx
          (new_node chiplet_id 0 (c.num_cores_per_cluster - 1) "" (some "__host_bingo_kernel_exit")
            none)
          s in
      (host ∷ [], bingo_add_node nx host t)
  add_exits chiplet_id ((cluster, core) ∷ rest) s =
      let (exit, t) =
        create nx (new_node chiplet_id cluster core "" (some "__snax_bingo_kernel_exit") none) s in
      let (exits, u) = add_exits chiplet_id rest (bingo_add_node nx exit t) in (exit ∷ exits, u)

  abbrev pub connect_from : List ℕ → ℕ → Dfg Graph → Dfg Graph
  connect_from [] to s = s
  connect_from (from ∷ rest) to s = connect_from rest to (plain_edge nx from to s)

  abbrev pub chain : ℕ → List ℕ → Dfg Graph → Dfg Graph
  chain last [] s = s
  chain last (next ∷ rest) s = chain next rest (plain_edge nx last next s)

  -- `add_exits` returns at least the host's exit node.
  abbrev pub link : List ℕ → List ℕ → Dfg Graph → Dfg Graph
  link ends [] s = s
  link ends (first ∷ exits) s = chain first exits (connect_from ends first s)

  -- The body of the loop over the chiplets.
  pub exit_chiplet : Dfg Graph → ℕ → Dfg Graph
  exit_chiplet s chiplet_id =
      let ends = local_end_nodes s chiplet_id in
      let (exits, t) = add_exits chiplet_id (places (range_from 0 c.num_clusters_per_chiplet)) s in
      link ends exits t

  pub bingo_transform_dfg_add_exit_nodes : Dfg Graph → Dfg Graph
  bingo_transform_dfg_add_exit_nodes s = foldl exit_chiplet s c.chiplet_ids
