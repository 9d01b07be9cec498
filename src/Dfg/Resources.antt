-- ===== src/Dfg/Resources.antt =====
-- `bingo_transform_add_resource_sequencing_edges` and
-- `bingo_transform_chain_dummy_sets_before_resource_successors`: the order of the tasks, and of the
-- dummy sets, on one physical resource.
pub mod Ordered
use he_mai_a.Prelude.{
  ℕ, ◌+◌, Bool, true, false, not, ◌&&◌, ◌||◌, Option, none, some, List, [], ◌∷◌, ◌++◌, ltb, ◌==◌,
  if◌then◌else◌, keep_if, foldl, Result, ok, err, Error, ◌>>=◌,
}
use he_mai_a.Node.{BingoNode, is_dummy_set}
use he_mai_a.Graph.{EdgeData, no_data, DiGraph}
use he_mai_a.Graph.Paths.{Algorithms}
use he_mai_a.Dfg.{Dfg, has_edge}

-- (chiplet, cluster, core)
abbrev pub Place : Type 0
Place = ℕ × ℕ × ℕ

abbrev pub place : BingoNode → Place
place n = (n.assigned_chiplet_id, n.assigned_cluster_id, n.assigned_core_id)

abbrev pub same_place : Place → Place → Bool
same_place (a, b, d) (a', b', d') = a == a' && b == b' && d == d'

-- resource_groups[key].append(node), in insertion order.
unfoldable pub add_to_place : Place → ℕ → List (Place × List ℕ) → List (Place × List ℕ)
add_to_place p r [] = (p, r ∷ []) ∷ []
add_to_place p r ((q, group) ∷ rest) =
    if same_place p q then (q, group ++ r ∷ []) ∷ rest else (q, group) ∷ add_to_place p r rest

unfoldable pub group_by_place :
    (ℕ → BingoNode) → List (Place × List ℕ) → List ℕ → List (Place × List ℕ)
group_by_place heap groups [] = groups
group_by_place heap groups (r ∷ rs) =
    group_by_place heap (add_to_place (place (heap r)) r groups) rs

-- zip(xs, xs[1:])
abbrev pub pairs : List ℕ → List (ℕ × ℕ)
pairs [] = []
pairs (x ∷ []) = []
pairs (x ∷ y ∷ rest) = (x, y) ∷ pairs (y ∷ rest)

abbrev pub all_pairs : List (Place × List ℕ) → List (ℕ × ℕ)
all_pairs [] = []
all_pairs ((p, group) ∷ rest) = pairs group ++ all_pairs rest

-- A dictionary, newest entry first.
abbrev pub lookup {ℓ} : {A : Type ℓ} → List (ℕ × A) → ℕ → Option A
lookup [] key = none
lookup ((k, v) ∷ rest) key = let later = lookup rest key in if k == key then some v else later

-- Python's order of tuples and of lists, as tests.
abbrev pub before_list : List ℕ → List ℕ → Bool
before_list [] [] = false
before_list [] (y ∷ ys) = true
before_list (x ∷ xs) [] = false
before_list (x ∷ xs) (y ∷ ys) = ltb x y || (x == y && before_list xs ys)

abbrev pub before_set : BingoNode → BingoNode → Bool
before_set a b =
    before_list (a.dep_set_chiplet_id ∷ a.dep_set_cluster_id ∷ [])
      (b.dep_set_chiplet_id ∷ b.dep_set_cluster_id ∷ [])
    || (a.dep_set_chiplet_id == b.dep_set_chiplet_id
        && a.dep_set_cluster_id == b.dep_set_cluster_id
        && (before_list a.dep_set_list b.dep_set_list
            || (not (before_list b.dep_set_list a.dep_set_list) && ltb a.node_id b.node_id)))

-- dummy_sets.sort(key=…): stable, by insertion.
pub insert_set : (ℕ → BingoNode) → ℕ → List ℕ → List ℕ
insert_set heap x [] = x ∷ []
insert_set heap x (y ∷ ys) =
    if before_set (heap y) (heap x) then y ∷ insert_set heap x ys else x ∷ y ∷ ys

pub sort_sets : (ℕ → BingoNode) → List ℕ → List ℕ
sort_sets heap [] = []
sort_sets heap (x ∷ xs) = insert_set heap x (sort_sets heap xs)

module _ (nx : DiGraph) (alg : Algorithms nx) where
  open nx use {Graph, nodes, successors, add_edge}

  -- The body of the inner loop: the number of edges added, and the state.
  pub sequence_pair : ℕ × Dfg Graph → ℕ × ℕ → ℕ × Dfg Graph
  sequence_pair (added, s) (prev, next) =
      let t = record s {
        resource_sequence_successors = (prev, next) ∷ s.resource_sequence_successors;
      } in
      if not (has_edge nx s.graph prev next) && not (alg.has_path s.graph prev next)
      then (
        added + 1,
        record t {
          graph = add_edge s.graph prev next (record no_data { resource_sequence = some true });
        },
      )
      else (added, t)

  pub bingo_transform_add_resource_sequencing_edges : Dfg Graph → Result (ℕ × Dfg Graph)
  bingo_transform_add_resource_sequencing_edges s = alg.topological_sort s.graph >>= λ order. ok (
      foldl sequence_pair (0, record s { resource_sequence_successors = [] })
        (all_pairs (group_by_place s.heap [] order)))

  -- The dummy sets of a producer, on its own resource.
  abbrev pub own_dummy_sets : Dfg Graph → ℕ → List ℕ
  own_dummy_sets s producer =
      keep_if
        (λ v.
          (is_dummy_set (s.heap v) && not (s.heap v).dep_check_enable)
          && same_place (place (s.heap v)) (place (s.heap producer)))
        (successors s.graph producer)

  -- An edge that only orders descriptors, unless a path is there.
  abbrev pub order_descriptors : ℕ × Dfg Graph → ℕ × ℕ → ℕ × Dfg Graph
  order_descriptors (added, s) (first, second) =
      if alg.has_path s.graph first second then (added, s) else (
        added + 1,
        record s {
          graph =
              add_edge s.graph first second (record no_data { descriptor_sequence = some true });
        },
      )

  abbrev pub last_of : ℕ → List ℕ → ℕ
  last_of x [] = x
  last_of x (y ∷ ys) = last_of y ys

  -- The last dummy set before the next task on the resource.
  abbrev pub order_last : Option ℕ → ℕ → ℕ × Dfg Graph → ℕ × Dfg Graph
  order_last none last state = state
  order_last (some next) last state =
      let ordered = order_descriptors state (last, next) in if next == last then state else ordered

  pub chain_sets : ℕ → List ℕ → ℕ × Dfg Graph → ℕ × Dfg Graph
  chain_sets producer [] state = state
  chain_sets producer (first ∷ rest) (added, s) =
      order_last (lookup s.resource_sequence_successors producer) (last_of first rest)
        (foldl order_descriptors (added, s) (pairs (first ∷ rest)))

  -- The body of the loop over the producers.
  pub chain_producer : ℕ × Dfg Graph → ℕ → ℕ × Dfg Graph
  chain_producer (added, s) producer =
      chain_sets producer (sort_sets s.heap (own_dummy_sets s producer)) (added, s)

  pub bingo_transform_chain_dummy_sets_before_resource_successors : Dfg Graph → ℕ × Dfg Graph
  bingo_transform_chain_dummy_sets_before_resource_successors s =
      foldl chain_producer (0, s) (nodes s.graph)
