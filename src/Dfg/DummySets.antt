-- ===== src/Dfg/DummySets.antt =====
-- `bingo_transform_dfg_add_dummy_set_nodes`: fan-out is turned into a queue of dummy-set tasks behind
-- the producer, until the producer itself signals at most one task.
pub mod Groups
mod FanOut
pub mod Correct
use he_mai_a.Prelude.{
  ℕ, zero, suc, ◌+◌, ◌-◌, String, Bool, true, false, not, ◌&&◌, Option, none, some, List, [], ◌∷◌,
  ◌++◌, ltb, ◌==◌, if◌then◌else◌, length, keep_if, take, foldl, Result, ok, err, Error, ◌>>=◌,
}
use he_mai_a.Prelude.Members.{contains}
use he_mai_a.Node.{NodeType, normal, dummy, gating, BingoNode, new_node}
use he_mai_a.Graph.{EdgeData, or_none, or_false, put, DiGraph}
use he_mai_a.Dfg.{Config, Dfg, for_each, create, bingo_insert_node_between, bingo_insert_node_after}

-- A dummy-set task on the producer's core that signals `succ`.
pub dummy_set_node : (producer succ : BingoNode) → (all : Bool) → BingoNode
dummy_set_node producer succ all =
    record (new_node producer.assigned_chiplet_id producer.assigned_cluster_id
      producer.assigned_core_id "dummy_set" none none) {
        node_type = dummy;
        dep_set_enable = true;
        dep_set_list = succ.assigned_core_id ∷ [];
        dep_set_cluster_id = succ.assigned_cluster_id;
        dep_set_chiplet_id = succ.assigned_chiplet_id;
        dep_check_enable = false;
        dep_check_list = [];
        remote_dep_set_all = all;
      }

-- groups.setdefault(core, []).append(r), on a dictionary in insertion order.
unfoldable pub add_to_group : ℕ → ℕ → List (ℕ × List ℕ) → List (ℕ × List ℕ)
add_to_group core r [] = (core, r ∷ []) ∷ []
add_to_group core r ((c, group) ∷ rest) =
    if c == core then (c, group ++ r ∷ []) ∷ rest else (c, group) ∷ add_to_group core r rest

unfoldable pub group_by : (ℕ → ℕ) → List (ℕ × List ℕ) → List ℕ → List (ℕ × List ℕ)
group_by key groups [] = groups
group_by key groups (r ∷ rs) = group_by key (add_to_group (key r) r groups) rs

-- len(set(key(r) for r in rs))
pub count_distinct : (ℕ → ℕ) → List ℕ → List ℕ → ℕ
count_distinct key seen [] = length seen
count_distinct key seen (r ∷ rs) = count_distinct key (put (key r) seen) rs

module _ (nx : DiGraph) (c : Config) where
  open nx use {Graph, nodes, successors, edge_data}

  abbrev pub is_descriptor_edge : Graph → ℕ → ℕ → Bool
  is_descriptor_edge g u v = or_false (or_none (edge_data g u v)).descriptor_sequence

  -- The successors of a node, without the edges that only order descriptors.
  abbrev pub signalled : Dfg Graph → ℕ → List ℕ
  signalled s cur = keep_if (λ v. not (is_descriptor_edge s.graph cur v)) (successors s.graph cur)

  abbrev pub is_local : Dfg Graph → ℕ → ℕ → Bool
  is_local s cur v = (s.heap v).assigned_chiplet_id == (s.heap cur).assigned_chiplet_id

  -- One dummy set between the producer and one successor.
  pub set_one : ℕ → ℕ → Dfg Graph → Result (Dfg Graph)
  set_one cur succ s =
      let (new, t) = create nx (dummy_set_node (s.heap cur) (s.heap succ) false) s in
      bingo_insert_node_between nx cur succ new t

  -- One dummy set in front of a whole group.
  pub set_broadcast : ℕ → ℕ → List ℕ → Dfg Graph → Dfg Graph
  set_broadcast cur first group s =
      let (new, t) = create nx (dummy_set_node (s.heap cur) (s.heap first) true) s in
      bingo_insert_node_after nx cur new group t

  -- The successors on other chiplets that share a core number.
  pub set_group : ℕ → ℕ × List ℕ → Dfg Graph → Result (Dfg Graph)
  set_group cur (core, []) s = ok s
  set_group cur (core, first ∷ group) s =
      if count_distinct (λ r. (s.heap r).assigned_chiplet_id) [] (first ∷ group)
        == c.num_chiplets - 1
      then ok (set_broadcast cur first (first ∷ group) s)
      else for_each (set_one cur) (first ∷ group) s

  -- Successors on the producer's own core come first.
  abbrev pub prioritized : Dfg Graph → ℕ → List ℕ → List ℕ
  prioritized s cur locals =
      let same = λ (v : ℕ). (s.heap v).assigned_core_id == (s.heap cur).assigned_core_id in
      keep_if same locals ++ keep_if (λ v. not (same v)) locals

  -- The local successors that get a dummy set: all but one.
  abbrev pub local_targets : Dfg Graph → ℕ → List ℕ → List ℕ
  local_targets s cur locals =
      if ltb 1 (length locals) then take (length locals - 1) (prioritized s cur locals) else []

  -- The body of the loop over the nodes.
  pub set_node : ℕ → Dfg Graph → Result (Dfg Graph)
  set_node cur s =
      let remote = keep_if (λ v. not (is_local s cur v)) (signalled s cur) in
      let locals = keep_if (is_local s cur) (signalled s cur) in
      for_each (set_group cur) (group_by (λ r. (s.heap r).assigned_core_id) [] remote) s >>= λ t.
      for_each (set_one cur) (local_targets s cur locals) t

  pub bingo_transform_dfg_add_dummy_set_nodes : Dfg Graph → Result (Dfg Graph)
  bingo_transform_dfg_add_dummy_set_nodes s = for_each set_node (nodes s.graph) s
