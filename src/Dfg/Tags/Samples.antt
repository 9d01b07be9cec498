-- ===== src/Dfg/Tags/Samples.antt =====
-- Two dependencies of one cell that take turns, and share a tag.
use he_mai_a.Prelude.{◌^◌, ◌<◌, ◌≡◌, refl, true, ◌⊎◌, inl, inr, List, [], ◌∷◌, ok}
use he_mai_a.Graph.{put}
use he_mai_a.Graph.Log.{Change, logged}
use he_mai_a.Graph.Paths.{Reaches}
use he_mai_a.Graph.Search.{searched}
use he_mai_a.Schedule.Handover.{turns, turn_node, sort-turns}
use he_mai_a.Dfg.{Config, Dfg, for_each}
use he_mai_a.Dfg.Resources.{add_to_place, group_by_place}
use he_mai_a.Dfg.Tags.{
  Edge, add_to_cell, insert_edge, sort_edges, walk, number_chains, tag_edges, tag_edge, cells,
  can_follow, descriptor_order, happens_before, allocate_cell,
  bingo_transform_dfg_allocate_dep_tags,
}
use he_mai_a.Dfg.Tags.Written.{set_tag, check_tag}
use he_mai_a.Dfg.Tags.Safe.{dep_tags-ordered, dep_tags-agree}

abbrev one_chiplet : Config
one_chiplet = record {
  num_chiplets = 1;
  num_clusters_per_chiplet = 1;
  num_cores_per_cluster = 2;
  is_host_as_acc = true;
  chiplet_ids = 0 ∷ [];
}

abbrev handover : Dfg (List Change)
handover = record {
  graph = turns;
  heap = turn_node;
  next_ref = 4;
  next_id = 4;
  next_cerf_group = 0;
  node_to_cerf_group = [];
  gating_cerf_mappings = [];
  resource_sequence_successors = [];
}

abbrev first : Edge
first = (0, 1)

abbrev second : Edge
second = (2, 3)

abbrev tagged : Dfg (List Change)
tagged = tag_edge second 0 (tag_edge first 0 handover)

handover_order :
    descriptor_order logged searched one_chiplet handover (0 ∷ []) ≡ ok (0 ∷ 1 ∷ 2 ∷ 3 ∷ [])
unfolding descriptor_order put
handover_order = rw sort-turns refl

pass_run : bingo_transform_dfg_allocate_dep_tags logged searched one_chiplet 1 handover ≡ ok tagged
unfolding bingo_transform_dfg_allocate_dep_tags allocate_cell number_chains walk can_follow
    sort_edges insert_edge cells add_to_cell tag_edges for_each group_by_place add_to_place put
pass_run = rw handover_order refl

dep_tags-ordered_example :
    let g = happens_before logged searched one_chiplet handover (0 ∷ 1 ∷ 2 ∷ 3 ∷ []) in
    (first ≡ second) ⊎ (Reaches logged g 1 2 ⊎ Reaches logged g 3 0)
unfolding put
dep_tags-ordered_example =
    dep_tags-ordered logged searched one_chiplet 1 handover tagged (0 ∷ 1 ∷ 2 ∷ 3 ∷ []) first second
      handover_order pass_run (inl refl) (inr (inl refl)) refl refl

dep_tags-agree_example :
    (set_tag tagged second ≡ check_tag tagged second) × (set_tag tagged second < 2 ^ 1)
unfolding put
dep_tags-agree_example =
    dep_tags-agree logged searched one_chiplet 1 handover tagged second pass_run (inr (inl refl))
