-- ===== src/Dfg/Tags.antt =====
-- `bingo_transform_dfg_allocate_dep_tags`: the tags that tell apart the dependencies of one cell of the
-- scoreboard; edges that follow one another share a tag.
pub mod Chains
pub mod Written
pub mod Adds
pub mod Grouped
pub mod Apart
pub mod Cell
pub mod Safe
mod Samples
use he_mai_a.Prelude.{
  ℕ, zero, suc, ◌+◌, Bool, false, not, ◌&&◌, ◌||◌, Option, none, some, List, [], ◌∷◌, ◌++◌, ltb,
  leb, ◌==◌, if◌then◌else◌, length, get_or, keep_if, any, foldl, Result, ok, err, Error, ◌>>=◌,
}
use he_mai_a.Prelude.Bits.{◌<<◌}
use he_mai_a.Prelude.Members.{contains}
use he_mai_a.Graph.{no_data, or_none, or_false, DiGraph}
use he_mai_a.Graph.Paths.{Algorithms}
use he_mai_a.Schedule.{resource_balanced_topological_sort}
use he_mai_a.Dfg.{Config, Dfg, write, for_each}
use he_mai_a.Dfg.Resources.{Place, same_place, all_pairs, group_by_place, lookup}

-- (chiplet, cluster, core of the consumer, core of the producer)
abbrev pub Cell : Type 0
Cell = Place × ℕ

abbrev pub same_cell : Cell → Cell → Bool
same_cell (p, core) (q, core') = same_place p q && core == core'

-- An edge from a producer to a consumer.
abbrev pub Edge : Type 0
Edge = ℕ × ℕ

-- cells.setdefault(key, []).append(edge)
pub add_to_cell : Cell → Edge → List (Cell × List Edge) → List (Cell × List Edge)
add_to_cell cell e [] = (cell, e ∷ []) ∷ []
add_to_cell cell e ((k, edges) ∷ rest) =
    if same_cell cell k then (k, edges ++ e ∷ []) ∷ rest else (k, edges) ∷ add_to_cell cell e rest

-- The index of a node in the order; the length where it is not there.
abbrev pub position : List ℕ → ℕ → ℕ
position [] r = 0
position (x ∷ xs) r = let later = position xs r in if x == r then 0 else later + 1

abbrev pub is_before : List ℕ → Edge → Edge → Bool
is_before order (a, b) (x, y) =
    ltb (position order a) (position order x)
    || (position order a == position order x && ltb (position order b) (position order y))

pub insert_edge : List ℕ → Edge → List Edge → List Edge
insert_edge order e [] = e ∷ []
insert_edge order e (f ∷ fs) =
    if is_before order f e then f ∷ insert_edge order e fs else e ∷ f ∷ fs

-- edges.sort(key=…)
pub sort_edges : List ℕ → List Edge → List Edge
sort_edges order [] = []
sort_edges order (e ∷ es) = insert_edge order e (sort_edges order es)

-- A set or a check that two of the edges have.
abbrev pub has_multi_endpoint : List Edge → Bool
has_multi_endpoint edges =
    any
      (λ (p, q).
        leb 2 (length (keep_if (λ (a, b). a == p) edges))
        || leb 2 (length (keep_if (λ (a, b). b == q) edges)))
      edges

abbrev pub is_matched_to : ℕ → Option ℕ → Bool
is_matched_to j none = false
is_matched_to j (some k) = k == j

-- j in has_predecessor, of `count` edges.
abbrev pub has_predecessor : (ℕ → Option ℕ) → ℕ → ℕ → Bool
has_predecessor successor zero j = false
has_predecessor successor (suc i) j = is_matched_to j (successor i) || has_predecessor successor i j

-- The walk along the matching from one edge, with one tag for all: at most `rounds` edges, and there are
-- no more than edges in the cell.
pub walk : ℕ → (ℕ → Option ℕ) → ℕ → ℕ → List (ℕ × ℕ) → List (ℕ × ℕ)
walk zero successor tag current tags = tags
walk (suc rounds) successor tag current tags = elim (successor current) [
  | none ↦ (current, tag) ∷ tags
  | some next ↦ walk rounds successor tag next ((current, tag) ∷ tags)
]

-- The loop over the edges of a cell, `left` of which are to come: the tags and how many there are.
pub number_chains : ℕ → (ℕ → Option ℕ) → (left index : ℕ) → List (ℕ × ℕ) × ℕ → List (ℕ × ℕ) × ℕ
number_chains count successor zero index (tags, n) = (tags, n)
number_chains count successor (suc left) index (tags, n) =
    number_chains count successor left (index + 1) (
      if has_predecessor successor count index
      then (tags, n)
      else (walk count successor n index tags, n + 1))

module _ {G : Type 0} where
  -- One tag for the producer's set and the consumer's check.
  abbrev pub tag_edge : Edge → ℕ → Dfg G → Dfg G
  tag_edge (producer, consumer) tag s =
      let heap = write s.heap producer (record (s.heap producer) { dep_set_tag = tag }) in
      record s { heap = write heap consumer (record (heap consumer) { dep_check_tag = tag }) }

  -- tag_by_edge[edge_index] raises where the index has no tag.
  pub tag_edges : List (ℕ × ℕ) → ℕ → List Edge → Dfg G → Result (Dfg G)
  tag_edges tags index [] s = ok s
  tag_edges tags index (e ∷ es) s = elim (lookup tags index) [
    | none ↦ err Error.missing_tag
    | some tag ↦ tag_edges tags (index + 1) es (tag_edge e tag s)
  ]

module _ (nx : DiGraph) (alg : Algorithms nx) (c : Config) where
  open nx use {Graph, nodes, successors, edge_data, add_edge}

  pub descriptor_order : Dfg Graph → List ℕ → Result (List ℕ)
  descriptor_order s [] = ok []
  descriptor_order s (chiplet_id ∷ rest) =
      resource_balanced_topological_sort (successors s.graph) s.heap (nodes s.graph) chiplet_id
      >>= λ first. descriptor_order s rest >>= λ others. ok (first ++ others)

  -- An edge whose set and check name each other's core.
  abbrev pub is_tagged : Dfg Graph → ℕ → ℕ → Bool
  is_tagged s producer consumer =
      let p = s.heap producer in
      let q = s.heap consumer in
      (not (or_false (or_none (edge_data s.graph producer consumer)).descriptor_sequence)
        && (p.dep_set_enable && q.dep_check_enable))
      && (contains q.dep_check_list p.assigned_core_id
          && contains p.dep_set_list q.assigned_core_id)

  abbrev pub edges_from : ℕ → List ℕ → List Edge
  edges_from u [] = []
  edges_from u (v ∷ vs) = (u, v) ∷ edges_from u vs

  abbrev pub tagged_edges : Dfg Graph → List ℕ → List Edge
  tagged_edges s [] = []
  tagged_edges s (u ∷ us) =
      edges_from u (keep_if (is_tagged s u) (successors s.graph u)) ++ tagged_edges s us

  abbrev pub cell_of : Dfg Graph → Edge → Cell
  cell_of s (producer, consumer) =
      let q = s.heap consumer in
      (
        (q.assigned_chiplet_id, q.assigned_cluster_id, q.assigned_core_id),
        (s.heap producer).assigned_core_id,
      )

  pub cells : Dfg Graph → List (Cell × List Edge) → List Edge → List (Cell × List Edge)
  cells s known [] = known
  cells s known (e ∷ es) = cells s (add_to_cell (cell_of s e) e known) es

  -- The graph with an edge between consecutive descriptors of each resource. The source copies nodes and
  -- edges into a new graph; only paths are asked of it.
  abbrev pub happens_before : Dfg Graph → List ℕ → Graph
  happens_before s order =
      foldl (λ g (a, b). add_edge g a b no_data) s.graph
        (all_pairs (group_by_place s.heap [] order))

  -- The second edge is only set when the first one has been checked.
  pub can_follow : Graph → List Edge → ℕ → ℕ → Bool
  can_follow g edges first second =
      let consumer = (get_or edges first (0, 0)).1 in
      let producer = (get_or edges second (0, 0)).0 in
      not (first == second)
      && (producer == consumer || contains (alg.descendants g consumer) producer)

  pub allocate_cell : ℕ → Graph → List ℕ → Cell × List Edge → Dfg Graph → Result (Dfg Graph)
  allocate_cell tag_width g order (cell, unsorted) s =
      let edges = sort_edges order unsorted in
      let count = length edges in
      let successor = alg.hopcroft_karp_matching count (can_follow g edges) in
      let (tags, tag_count) = number_chains count successor count 0 ([], 0) in
      if ltb (1 << tag_width) tag_count then err Error.too_many_tags else tag_edges tags 0 edges s

  pub bingo_transform_dfg_allocate_dep_tags : ℕ → Dfg Graph → Result (Dfg Graph)
  bingo_transform_dfg_allocate_dep_tags tag_width s = descriptor_order s c.chiplet_ids >>= λ order.
      let edges = tagged_edges s (nodes s.graph) in
      if has_multi_endpoint edges
      then err Error.multi_endpoint
      else for_each (allocate_cell tag_width (happens_before s order) order) (cells s [] edges) s
