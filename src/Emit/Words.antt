-- ===== src/Emit/Words.antt =====
-- The descriptor table of a chiplet: its order and what its words say.
use he_mai_a.Prelude.{
  ℕ, ◌≤◌, ◌<◌, ◌≡◌, refl, sym, ◌∙◌, String, true, List, [], ◌∷◌, length, arith, ok, ◌==◌, ◌&&◌,
  ==_refl,
}
use he_mai_a.Prelude.Members.{contains, IsDistinct, contains-keep_if}
use he_mai_a.Node.{BingoNode}
use he_mai_a.Graph.{DiGraph}
use he_mai_a.Dfg.{Config, Dfg}
use he_mai_a.Descriptor.{Dimensions}
use he_mai_a.Descriptor.Roundtrip.{IsPackable, descriptor_width, descriptor_rows, unpack-pack}
use he_mai_a.Schedule.{local_nodes}
use he_mai_a.Schedule.Invariant.{IsOrdered}
use he_mai_a.Schedule.Correct.{topological_sort-ok, topological_sort-total}
use he_mai_a.Emit.{Emitted, pack_all, unpack_all, emit_order, emit_chiplet, dimensions}

abbrev pub rows_of : (ℕ → BingoNode) → List ℕ → List (List (String × ℕ))
rows_of node [] = []
rows_of node (r ∷ rs) = descriptor_rows (node r) ∷ rows_of node rs

pack_all-ok :
    (d : Dimensions) (node : ℕ → BingoNode) (rs : List ℕ)
    → ((r : ℕ) → contains rs r ≡ true → IsPackable d (node r))
    → descriptor_width d ≤ 64
    → (words : List ℕ) × (pack_all d node rs ≡ ok words) × (unpack_all d words ≡ rows_of node rs)
unfolding pack_all
pack_all-ok d node [] fit w = ([], refl, refl)
pack_all-ok d node (r ∷ rs) fit w =
    let (word, packed, small, back) =
      unpack-pack d (node r) (fit r (ground (arith, ==_refl r))) w in
    let (words, eq, rows) = pack_all-ok d node rs (λ a m. fit a (ground arith)) w in
    (word ∷ words, rw packed (rw eq refl), rw (back, rows) refl)

-- The words of an empty table are one 0, those of another one unpack to the fields of its nodes.
abbrev pub WordsOf : Config → (ℕ → BingoNode) → List ℕ → List ℕ → Type 0
WordsOf c node [] words = words ≡ 0 ∷ []
WordsOf c node (r ∷ rs) words = unpack_all (dimensions c) words ≡ rows_of node (r ∷ rs)

-- The table of an order: how many tasks, and what the words say of them.
abbrev pub Describes : Config → (ℕ → BingoNode) → List ℕ → Emitted → Type 0
Describes c node order table =
    (table.num_task_desc ≡ length order)
    × (table.comments ≡ rows_of node order)
    × WordsOf c node order table.words

emit_order-ok :
    (c : Config) (node : ℕ → BingoNode) (order : List ℕ)
    → ((r : ℕ) → contains order r ≡ true → IsPackable (dimensions c) (node r))
    → descriptor_width (dimensions c) ≤ 64
    → (table : Emitted) × (emit_order c node order ≡ ok table) × Describes c node order table
emit_order-ok c node [] fit w = (_, refl, (refl, refl, refl))
emit_order-ok c node (r ∷ rs) fit w =
    let (words, eq, rows) = pack_all-ok (dimensions c) node (r ∷ rs) fit w in
    (_, rw eq refl, (refl, rows, rows))

module _ (nx : DiGraph) (c : Config) where
  open nx use {Graph, nodes, successors}

  -- On a chiplet whose nodes have a rank that rises along their edges, and whose nodes fit the fields of a
  -- descriptor of at most 64 bits, the emitted table holds one descriptor for each node of the chiplet,
  -- in an order in which every node comes after its predecessors on the chiplet; its count and its
  -- comments are right, and its words unpack to the fields of these nodes.
  pub emit_chiplet-ok :
      (s : Dfg Graph) (chiplet_id : ℕ) (rank : ℕ → ℕ)
      → let local = local_nodes (successors s.graph) s.heap (nodes s.graph) chiplet_id in
        ((u v : ℕ)
          → contains local u ≡ true
          → contains local v ≡ true
          → contains (successors s.graph u) v ≡ true
          → rank u < rank v)
        → ((r : ℕ) → contains local r ≡ true → IsPackable (dimensions c) (s.heap r))
        → descriptor_width (dimensions c) ≤ 64
        → (table : Emitted) × (order : List ℕ) × (emit_chiplet nx c s chiplet_id ≡ ok table)
          × Describes c s.heap order table
          × IsDistinct order
          × ((v : ℕ)
              → contains order v
                ≡ contains (nodes s.graph) v && (s.heap v).assigned_chiplet_id == chiplet_id)
          × IsOrdered (successors s.graph) s.heap local [] order
  unfolding emit_chiplet
  emit_chiplet-ok s chiplet_id rank up fit w =
      let ns = nodes s.graph in
      let (order, sorted) =
        topological_sort-total (successors s.graph) s.heap ns chiplet_id
          (nx.nodes-IsDistinct s.graph) rank up in
      let (once, same, ordered) =
        topological_sort-ok (successors s.graph) s.heap ns chiplet_id (nx.nodes-IsDistinct s.graph)
          order sorted in
      let (table, eq, says) =
        emit_order-ok c s.heap order (λ r m. fit r (contains-keep_if _ ns r ∙ sym (same r) ∙ m))
          w in
      (table, order, rw sorted eq, says, once, same, ordered)
