-- ===== src/Emit/Samples.antt =====
-- The tables of a chiplet with three tasks.
use he_mai_a.Prelude.{
  ℕ, ◌<◌, ◌≡◌, refl, ap, true, ◌&&◌, List, [], ◌∷◌, arith, ◌==◌, length, keep_if, ok, Bool-cases,
  inl, inr,
}
use he_mai_a.Prelude.Members.{contains, IsDistinct}
use he_mai_a.Node.{BingoNode}
use he_mai_a.Graph.{put}
use he_mai_a.Graph.Log.{logged, logged_nodes, logged_successors}
use he_mai_a.Dfg.Samples.{two_chiplets, fan_out, producer}
use he_mai_a.Descriptor.{idx_width}
use he_mai_a.Descriptor.Roundtrip.{IsPackable, descriptor_width}
use he_mai_a.Schedule.{local_nodes}
use he_mai_a.Schedule.Invariant.{IsOrdered}
use he_mai_a.Emit.{Emitted, task_ids, emit_chiplet, dimensions}
use he_mai_a.Emit.Ids.{is_number, is_task_of, marks, numbers, up_from, task_ids_lem}
use he_mai_a.Emit.Words.{Describes, emit_chiplet-ok}

abbrev three : List BingoNode
three = producer.heap 0 ∷ producer.heap 3 ∷ producer.heap 1 ∷ []

task_ids_lem_example :
    let (ids, count) = task_ids "__snax" 0 0 three in
    (marks is_number ids ≡ marks (is_task_of "__snax" 0) three)
    × (numbers ids ≡ up_from 0 count)
    × (count ≡ length (keep_if (is_task_of "__snax" 0) three))
task_ids_lem_example = task_ids_lem "__snax" 0 three

platform_width : descriptor_width (dimensions two_chiplets) ≡ 58
unfolding idx_width
platform_width = refl

rises : (u v : ℕ) → contains (logged_successors fan_out u) v ≡ true → u < v
unfolding put
rises u v m = elim (Bool-cases (0 == u)) [
  | inl e ↦
      let shown : logged_successors fan_out u ≡ 1 ∷ 2 ∷ 3 ∷ [] = rw e refl in
      ground (arith, ap (λ l. contains l v) shown)
  | inr e ↦
      let shown : logged_successors fan_out u ≡ [] = rw e refl in
      absurd (ground (arith, ap (λ l. contains l v) shown))
]

packable :
    (r : ℕ)
    → contains (local_nodes (logged_successors fan_out) producer.heap (logged_nodes fan_out) 0) r
      ≡ true
    → IsPackable (dimensions two_chiplets) (producer.heap r)
unfolding put
packable r m =
    let small : r < 4 = ground arith in
    record {
      group = omega arith;
      id = omega arith;
      chiplet = ground arith;
      cluster = omega arith;
      core = ground arith;
      check_cores = tt;
      check_tag = omega arith;
      set_chiplet = omega arith;
      set_cluster = omega arith;
      set_cores = tt;
      set_tag = omega arith;
    }

emit_chiplet-ok_example :
    (table : Emitted) × (order : List ℕ) × (emit_chiplet logged two_chiplets producer 0 ≡ ok table)
    × Describes two_chiplets producer.heap order table
    × IsDistinct order
    × ((v : ℕ)
        → contains order v
          ≡ contains (logged_nodes fan_out) v && (producer.heap v).assigned_chiplet_id == 0)
    × IsOrdered
        (logged_successors fan_out)
        producer.heap
        (local_nodes (logged_successors fan_out) producer.heap (logged_nodes fan_out) 0)
        []
        order
emit_chiplet-ok_example =
    emit_chiplet-ok logged two_chiplets producer 0 (λ r. r) (λ u v l k e. rises u v e) packable
      (omega (arith, platform_width))
