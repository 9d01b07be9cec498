-- ===== src/Schedule/Samples.antt =====
-- A chiplet with two resources and a diamond of four tasks; the fifth task is on another chiplet.
use he_mai_a.Prelude.{
  ℕ, ◌%◌, ◌<◌, ◌≡◌, refl, true, ◌&&◌, none, some, List, [], ◌∷◌, arith, ltb, ◌==◌, if◌then◌else◌,
  ok, ◌↔◌,
}
use he_mai_a.Prelude.Members.{contains, IsDistinct}
use he_mai_a.Node.{BingoNode, new_node}
use he_mai_a.Schedule.{
  local_nodes, by_id, count_successors, count_degrees, first_ready, resources, release_one, release,
  ready_at, choose, any_ready, taken, run, begin, sort_local, resource_balanced_topological_sort,
}
use he_mai_a.Schedule.Sorting.{sorted_resources, sort_by}
use he_mai_a.Schedule.Invariant.{IsOrdered}
use he_mai_a.Schedule.Rounds.{Blank, IsNext, choose_lem}
use he_mai_a.Schedule.Correct.{topological_sort-ok, topological_sort-total}

abbrev fork : ℕ → List ℕ
fork n = if n == 0 then 1 ∷ 2 ∷ [] else if n == 3 then 4 ∷ [] else if ltb n 3 then 3 ∷ [] else []

abbrev tasks : ℕ → BingoNode
tasks n = record (new_node (if n == 4 then 1 else 0) 0 (n % 2) "task" (some "__snax_dma") none) {
  node_id = n;
}

abbrev five : List ℕ
five = 0 ∷ 1 ∷ 2 ∷ 3 ∷ 4 ∷ []

sorted_diamond : resource_balanced_topological_sort fork tasks five 0 ≡ ok (0 ∷ 1 ∷ 2 ∷ 3 ∷ [])
unfolding resource_balanced_topological_sort sort_local run any_ready resources sorted_resources
    begin first_ready by_id sort_by count_degrees count_successors choose ready_at release
    release_one taken
sorted_diamond = refl

five-IsDistinct : IsDistinct five
five-IsDistinct = (refl, (refl, (refl, (refl, (refl, tt)))))

topological_sort-ok_example :
    IsDistinct (0 ∷ 1 ∷ 2 ∷ 3 ∷ [])
    × ((v : ℕ)
        → contains (0 ∷ 1 ∷ 2 ∷ 3 ∷ []) v ≡ contains five v && (tasks v).assigned_chiplet_id == 0)
    × IsOrdered fork tasks (local_nodes fork tasks five 0) [] (0 ∷ 1 ∷ 2 ∷ 3 ∷ [])
topological_sort-ok_example =
    topological_sort-ok fork tasks five 0 five-IsDistinct (0 ∷ 1 ∷ 2 ∷ 3 ∷ []) sorted_diamond

fork_rises :
    (u v : ℕ)
    → contains (local_nodes fork tasks five 0) u ≡ true
    → contains (local_nodes fork tasks five 0) v ≡ true
    → contains (fork u) v ≡ true
    → u < v
fork_rises u v hu hv edge = ground arith

topological_sort-total_example :
    (result : List ℕ) × (resource_balanced_topological_sort fork tasks five 0 ≡ ok result)
topological_sort-total_example =
    topological_sort-total fork tasks five 0 five-IsDistinct (λ n. n) fork_rises

choose_lem_example :
    let local = local_nodes fork tasks five 0 in
    let p = begin fork tasks local in
    ((choose fork tasks local p 2 0 ≡ none) ↔ Blank fork tasks local p 0 2)
    × ((c : ℕ × ℕ × List ℕ)
        → (choose fork tasks local p 2 0 ≡ some c) ↔ IsNext fork tasks local p 2 0 c)
choose_lem_example =
    choose_lem fork tasks (local_nodes fork tasks five 0)
      (begin fork tasks (local_nodes fork tasks five 0)) 2 0
