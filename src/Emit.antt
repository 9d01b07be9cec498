-- ===== src/Emit.antt =====
-- `bingo_emit_task_desc_list` and `bingo_emit_task_id_mapping_lists` of bingo_dfg.py. The C text is the
-- print of tables; the model returns the tables: the descriptor words of each chiplet, and for each
-- chiplet the number that a node has among its device or host tasks, `none` for the printed -1.
pub mod Ids
pub mod Words
mod Samples
use he_mai_a.Prelude.{
  ℕ, ◌+◌, String, Bool, true, false, ◌&&◌, Option, none, some, List, [], ◌∷◌, ◌==◌, if◌then◌else◌,
  length, Result, ok, err, Error, ◌>>=◌,
}
use text.Mathlib.Text.{starts_with}
use he_mai_a.Node.{BingoNode}
use he_mai_a.Graph.{DiGraph}
use he_mai_a.Dfg.{Config, Dfg}
use he_mai_a.Descriptor.{Dimensions, pack_node, unpack_node}
use he_mai_a.Schedule.{resource_balanced_topological_sort}
use he_mai_a.Schedule.Sorting.{sort_by}

-- `kernel_name and kernel_name.startswith(prefix)`: no prefix asked for is empty.
abbrev pub has_prefix : String → BingoNode → Bool
has_prefix prefix node = elim node.kernel_name [
  | none ↦ false
  | some name ↦ starts_with name prefix
]

-- The loop over the nodes, from the counter's value: the entries, and the counter behind the loop.
pub task_ids : String → ℕ → ℕ → List BingoNode → List (Option ℕ) × ℕ
task_ids prefix chiplet_id counter [] = ([], counter)
task_ids prefix chiplet_id counter (node ∷ nodes) =
    let taken = task_ids prefix chiplet_id (counter + 1) nodes in
    let skipped = task_ids prefix chiplet_id counter nodes in
    if node.assigned_chiplet_id == chiplet_id && has_prefix prefix node
    then (some counter ∷ taken.0, taken.1)
    else (none ∷ skipped.0, skipped.1)

-- The table of one chiplet as it is emitted: how many descriptors, the words, and the fields that the
-- comments show.
pub record Emitted : Type 0 where
  pub num_task_desc : ℕ
  pub words : List ℕ
  pub comments : List (List (String × ℕ))

pub pack_all : Dimensions → (ℕ → BingoNode) → List ℕ → Result (List ℕ)
pack_all d node [] = ok []
pack_all d node (r ∷ rs) =
    pack_node d (node r) >>= λ word. pack_all d node rs >>= λ words. ok (word ∷ words)

abbrev pub dimensions : Config → Dimensions
dimensions c = record {
  num_clusters_per_chiplet = c.num_clusters_per_chiplet;
  num_cores_per_cluster = c.num_cores_per_cluster;
}

abbrev pub unpack_all : Dimensions → List ℕ → List (List (String × ℕ))
unpack_all d [] = []
unpack_all d (word ∷ words) = unpack_node d word ∷ unpack_all d words

-- An empty list is emitted as one word 0.
abbrev pub emit_order : Config → (ℕ → BingoNode) → List ℕ → Result Emitted
emit_order c node [] = ok (record { num_task_desc = 0; words = 0 ∷ []; comments = [] })
emit_order c node (r ∷ rs) = pack_all (dimensions c) node (r ∷ rs) >>= λ words. ok (record {
  num_task_desc = length (r ∷ rs);
  words = words;
  comments = unpack_all (dimensions c) words;
})

module _ (nx : DiGraph) (c : Config) where
  open nx use {Graph, nodes, successors}

  pub emit_chiplet : Dfg Graph → ℕ → Result Emitted
  emit_chiplet s chiplet_id =
      resource_balanced_topological_sort (successors s.graph) s.heap (nodes s.graph) chiplet_id
      >>= emit_order c s.heap

  pub emit_chiplets : Dfg Graph → List ℕ → Result (List Emitted)
  emit_chiplets s [] = ok []
  emit_chiplets s (chiplet_id ∷ rest) =
      emit_chiplet s chiplet_id >>= λ first. emit_chiplets s rest >>= λ others. ok (first ∷ others)

  abbrev pub chiplets_to_process : Option ℕ → List ℕ
  chiplets_to_process none = c.chiplet_ids
  chiplets_to_process (some chiplet_id) = chiplet_id ∷ []

  pub bingo_emit_task_desc_list : Dfg Graph → Option ℕ → Result (List Emitted)
  bingo_emit_task_desc_list s target = emit_chiplets s (chiplets_to_process target)

  abbrev pub nodes_of : (ℕ → BingoNode) → List ℕ → List BingoNode
  nodes_of heap [] = []
  nodes_of heap (r ∷ rs) = heap r ∷ nodes_of heap rs

  abbrev pub tables : String → List BingoNode → List ℕ → List (List (Option ℕ) × ℕ)
  tables prefix sorted [] = []
  tables prefix sorted (chiplet_id ∷ rest) =
      task_ids prefix chiplet_id 0 sorted ∷ tables prefix sorted rest

  -- The device tables, then the host tables, of the chiplets to process.
  pub bingo_emit_task_id_mapping_lists :
      Dfg Graph → Option ℕ → List (List (Option ℕ) × ℕ) × List (List (Option ℕ) × ℕ)
  bingo_emit_task_id_mapping_lists s target =
      let sorted = nodes_of s.heap (sort_by (λ r. (s.heap r).node_id) (nodes s.graph)) in
      let chiplets = chiplets_to_process target in
      (tables "__snax" sorted chiplets, tables "__host" sorted chiplets)
