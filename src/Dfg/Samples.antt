-- ===== src/Dfg/Samples.antt =====
-- A producer with two successors on its own chiplet and one on another.
use he_mai_a.Prelude.{
  ℕ, ◌<◌, ◌≤◌, ◌≡◌, refl, ap, true, false, ◌||◌, none, some, List, [], ◌∷◌, arith, ◌==◌,
  if◌then◌else◌, length, Bool-cases, inl, inr, ok, err, Error, ◌⊎◌, map,
}
use he_mai_a.Prelude.Members.{contains}
use he_mai_a.Node.{new_node, is_dummy, dummy, normal}
use he_mai_a.Graph.{no_data, put}
use he_mai_a.Graph.Log.{Change, node, edge, logged, logged_nodes, logged_successors}
use he_mai_a.Dfg.{Config, Dfg}
use he_mai_a.Graph.Paths.{Reaches}
use he_mai_a.Graph.Search.{searched}
use he_mai_a.Graph.Log.{logged_predecessors}
use he_mai_a.Dfg.Ends.{is_none_left, bingo_transform_dfg_add_entry_node}
use he_mai_a.Dfg.Ends.Entry.{entry_node-only_source}
use he_mai_a.Dfg.Cerf.{bingo_define_conditional_region}
use he_mai_a.Dfg.Cerf.Alloc.{conditional_region-ok, conditional_region-overflow}
use he_mai_a.Dfg.DummyChecks.{unchecked, bingo_transform_dfg_add_dummy_check_nodes}
use he_mai_a.Dfg.DummyChecks.Moves.{InUse}
use he_mai_a.Dfg.DummyChecks.Correct.{IsAwaited, dummy_checks-ok}
use he_mai_a.Dfg.Resources.{place, same_place, bingo_transform_add_resource_sequencing_edges}
use he_mai_a.Dfg.Resources.Ordered.{Before, resource_sequencing-orders}
use he_mai_a.Dfg.Moves.{IsBounded}
use he_mai_a.Dfg.DummySets.{bingo_transform_dfg_add_dummy_set_nodes, signalled}
use he_mai_a.Dfg.DummySets.Correct.{direct, IsServed, dummy_sets-ok}
use he_mai_a.Dfg.DepInfo.{
  bingo_assign_normal_node_dep_set_info, bingo_assign_normal_node_dep_check_info,
}
use he_mai_a.Dfg.DepInfo.Exact.{
  Signals, Checks, set_info-exact, check_info-exact, check_info-single, has_items,
}

abbrev pub two_chiplets : Config
two_chiplets = record {
  num_chiplets = 2;
  num_clusters_per_chiplet = 1;
  num_cores_per_cluster = 3;
  is_host_as_acc = true;
  chiplet_ids = 0 ∷ 1 ∷ [];
}

abbrev pub fan_out : List Change
fan_out =
    edge 0 3 no_data ∷ edge 0 2 no_data ∷ edge 0 1 no_data ∷ node 3 ∷ node 2 ∷ node 1 ∷ node 0 ∷ []

abbrev pub producer : Dfg (List Change)
producer = record {
  graph = fan_out;
  heap = λ r.
      record (new_node (if r == 3 then 1 else 0) 0 (if r == 2 then 1 else 0) "task"
        (some "__snax_dma") none) { node_id = r };
  next_ref = 4;
  next_id = 4;
  next_cerf_group = 0;
  node_to_cerf_group = [];
  gating_cerf_mappings = [];
  resource_sequence_successors = [];
}

pub from_zero : (u v : ℕ) → contains (logged_successors fan_out u) v ≡ true → (u < 4) × (v < 4)
unfolding put
from_zero u v m = elim (Bool-cases (0 == u)) [
  | inl e ↦
      let shown : logged_successors fan_out u ≡ 1 ∷ 2 ∷ 3 ∷ [] = rw e refl in
      (ground arith, ground (arith, ap (λ l. contains l v) shown))
  | inr e ↦
      let shown : logged_successors fan_out u ≡ [] = rw e refl in
      absurd (ground (arith, ap (λ l. contains l v) shown))
]

pub producer-IsBounded : IsBounded logged producer
unfolding put
producer-IsBounded = record {
  nodes_lt = λ r m. ground arith;
  source_lt = λ u v m. (from_zero u v m).0;
  target_lt = λ u v m. (from_zero u v m).1;
}

dummy_sets-ok_example :
    (t : Dfg (List Change)) × (bingo_transform_dfg_add_dummy_set_nodes logged two_chiplets producer
      ≡ ok t)
    × ((w : ℕ)
        → contains (logged_nodes fan_out) w ≡ true
        → (contains (logged_nodes t.graph) w ≡ true)
          × (length (direct logged two_chiplets t w) ≤ 1)
          × ((v : ℕ)
              → contains (signalled logged two_chiplets producer w) v ≡ true
              → IsServed logged two_chiplets 4 t w v))
dummy_sets-ok_example = dummy_sets-ok logged two_chiplets producer producer-IsBounded

set_info-exact_example :
    (t : Dfg (List Change)) × (bingo_transform_dfg_add_dummy_set_nodes logged two_chiplets producer
      ≡ ok t)
    × ((w : ℕ)
        → contains (logged_nodes fan_out) w ≡ true
        → is_dummy (t.heap w).node_type ≡ false
        → Signals logged two_chiplets t
            ((bingo_assign_normal_node_dep_set_info logged two_chiplets t).heap w)
            (direct logged two_chiplets t w))
set_info-exact_example = set_info-exact logged two_chiplets producer producer-IsBounded

-- Task 3 behind a task, a dummy check, and a task that only precedes it as a descriptor.
abbrev mixed : List Change
mixed =
    edge 2 3 (record no_data { descriptor_sequence = some true })
    ∷ edge 1 3 no_data
    ∷ edge 0 3 no_data
    ∷ []

abbrev mixed_tasks : Dfg (List Change)
mixed_tasks = record producer {
  graph = mixed;
  heap = λ r. record (new_node 0 0 (if r == 0 then 2 else 1) "task" (some "__snax_dma") none) {
    node_id = r;
    node_type = if r == 1 then dummy else normal;
    dep_check_enable = r == 1;
  };
}

check_info-exact_example :
    let t = bingo_assign_normal_node_dep_check_info logged two_chiplets mixed_tasks in
    (t.graph ≡ mixed)
    × ((w : ℕ)
        → contains (logged_nodes mixed) w ≡ true
        → ((is_dummy (mixed_tasks.heap w).node_type ≡ true) × (t.heap w ≡ mixed_tasks.heap w))
          ⊎ ((is_dummy (mixed_tasks.heap w).node_type ≡ false)
              × Checks logged two_chiplets mixed_tasks w (t.heap w)))
check_info-exact_example = check_info-exact logged two_chiplets mixed_tasks

entry_node-only_source_example :
    let t = bingo_transform_dfg_add_entry_node logged two_chiplets producer in
    ((r : ℕ) → contains (logged_nodes t.graph) r ≡ contains (logged_nodes fan_out) r || 4 == r)
    × ((p : ℕ) → contains (logged_predecessors t.graph 4) p ≡ false)
    × ((v : ℕ)
        → contains (logged_nodes t.graph) v ≡ true
        → (4 == v) ≡ false
        → is_none_left (logged_predecessors t.graph v) ≡ false)
    × ((w : ℕ) → (4 == w) ≡ false → logged_successors t.graph w ≡ logged_successors fan_out w)
entry_node-only_source_example =
    entry_node-only_source logged two_chiplets producer producer-IsBounded

conditional_region-ok_example :
    (t : Dfg (List Change)) × (bingo_define_conditional_region 0 (1 ∷ 2 ∷ []) true false producer
      ≡ ok (0 ∷ 1 ∷ [], t))
    × ((r : ℕ)
        → contains (1 ∷ 2 ∷ []) r ≡ true
        → ((t.heap r).cond_exec_en ≡ true)
          × ((t.heap r).cond_exec_invert ≡ false)
          × (contains (t.heap 0).cerf_write_groups (t.heap r).cond_exec_group_id ≡ true)
          × ((q : ℕ)
              → contains (1 ∷ 2 ∷ []) q ≡ true
              → (t.heap r).cond_exec_group_id ≡ (t.heap q).cond_exec_group_id
              → r ≡ q))
conditional_region-ok_example =
    conditional_region-ok 0 (1 ∷ 2 ∷ []) false producer (refl, (refl, tt)) (omega arith)

conditional_region-overflow_example :
    bingo_define_conditional_region 0
      (1 ∷ 2 ∷ [])
      true
      false
      (record producer { next_cerf_group = 31 })
    ≡ err Error.cerf_overflow
conditional_region-overflow_example =
    conditional_region-overflow 0 (1 ∷ 2 ∷ []) false (record producer { next_cerf_group = 31 })
      (omega arith) (omega arith)

resource_sequencing-orders_example :
    (n : ℕ) × (t : Dfg (List Change)) × (bingo_transform_add_resource_sequencing_edges logged
        searched producer
      ≡ ok (n, t))
    × ((a b : ℕ)
        → Before a b (0 ∷ 1 ∷ 2 ∷ 3 ∷ [])
        → same_place (place (producer.heap a)) (place (producer.heap b)) ≡ true
        → Reaches logged t.graph a b)
    × ((a b : ℕ) → Reaches logged fan_out a b → Reaches logged t.graph a b)
unfolding put
resource_sequencing-orders_example =
    resource_sequencing-orders logged searched producer (0 ∷ 1 ∷ 2 ∷ 3 ∷ []) refl

-- A consumer with two predecessors on core 0, of different clusters, and one on core 1.
abbrev fan_in : List Change
fan_in =
    edge 2 3 no_data ∷ edge 1 3 no_data ∷ edge 0 3 no_data ∷ node 3 ∷ node 2 ∷ node 1 ∷ node 0 ∷ []

abbrev consumer : Dfg (List Change)
consumer = record producer {
  graph = fan_in;
  heap = λ r.
      record (new_node 0 (if r == 1 then 1 else 0) (if r == 2 then 1 else 0) "task"
        (some "__snax_dma") none) { node_id = r };
}

into_three : (u v : ℕ) → contains (logged_predecessors fan_in v) u ≡ true → (u < 4) × (v < 4)
unfolding put
into_three u v m = elim (Bool-cases (3 == v)) [
  | inl e ↦
      let shown : logged_predecessors fan_in v ≡ 0 ∷ 1 ∷ 2 ∷ [] = rw e refl in
      (ground (arith, ap (λ l. contains l u) shown), ground arith)
  | inr e ↦
      let shown : logged_predecessors fan_in v ≡ [] = rw e refl in
      absurd (ground (arith, ap (λ l. contains l u) shown))
]

consumer-InUse : InUse logged consumer
unfolding put
consumer-InUse = record {
  nodes_lt = λ r m. ground arith;
  from_lt = λ u v m. (into_three u v m).0;
  to_lt = λ u v m. (into_three u v m).1;
}

dummy_checks-ok_example :
    (t : Dfg (List Change)) × (bingo_transform_dfg_add_dummy_check_nodes logged consumer ≡ ok t)
    × ((w : ℕ)
        → contains (logged_nodes fan_in) w ≡ true
        → (contains (logged_nodes t.graph) w ≡ true)
          × (length (unchecked logged t w) ≤ 1)
          × ((p : ℕ) → contains (logged_predecessors fan_in w) p ≡ true → IsAwaited logged 4 t w p))
dummy_checks-ok_example = dummy_checks-ok logged consumer consumer-InUse

check_info-single_example :
    (t : Dfg (List Change)) × (bingo_transform_dfg_add_dummy_check_nodes logged consumer ≡ ok t)
    × ((w : ℕ)
        → contains (logged_nodes fan_in) w ≡ true
        → is_dummy (t.heap w).node_type ≡ false
        → let node = (bingo_assign_normal_node_dep_check_info logged two_chiplets t).heap w in
          (length node.dep_check_list ≤ 1)
          × (node.dep_check_enable ≡ has_items (unchecked logged t w))
          × (node.dep_check_list ≡ map (λ p. (t.heap p).assigned_core_id) (unchecked logged t w)))
check_info-single_example = check_info-single logged two_chiplets consumer consumer-InUse
