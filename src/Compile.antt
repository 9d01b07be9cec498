-- ===== src/Compile.antt =====
-- `bingo_compile_dfg` and the checks and tables of `bingo_emit_offload_c_code`. The pictures and the CSV
-- file that the source writes between the passes change nothing and are left out.
mod Sound
use he_mai_a.Prelude.{
  ℕ, ◌≡◌, Option, none, some, List, [], ◌∷◌, map, Result, ok, err, Error, ◌>>=◌, ◌>>◌,
}
use he_mai_a.Node.{KernelArgs, BingoNode}
use he_mai_a.Graph.{DiGraph}
use he_mai_a.Graph.Paths.{Algorithms}
use he_mai_a.Schedule.Sorting.{sort_by}
use he_mai_a.Dfg.{Config, Dfg}
use he_mai_a.Dfg.Ends.{bingo_transform_dfg_add_entry_node, bingo_transform_dfg_add_exit_nodes}
use he_mai_a.Dfg.DummySets.{bingo_transform_dfg_add_dummy_set_nodes}
use he_mai_a.Dfg.DummyChecks.{bingo_transform_dfg_add_dummy_check_nodes}
use he_mai_a.Dfg.DepInfo.{
  bingo_assign_normal_node_dep_check_info, bingo_assign_normal_node_dep_set_info,
}
use he_mai_a.Dfg.Resources.{
  bingo_transform_add_resource_sequencing_edges,
  bingo_transform_chain_dummy_sets_before_resource_successors,
}
use he_mai_a.Dfg.Conditional.{Policy}
use he_mai_a.Dfg.Conditional.Compile.{
  bingo_compile_conditional_regions, validate_cerf_cross_group_edges,
}
use he_mai_a.Dfg.Tags.{bingo_transform_dfg_allocate_dep_tags}
use he_mai_a.Validate.{
  collect_memory_handles, validate_memory_handles, validate_kernel_core_assignments,
}
use he_mai_a.Emit.{Emitted, nodes_of, bingo_emit_task_desc_list, bingo_emit_task_id_mapping_lists}

abbrev pub dep_tag_width : ℕ
dep_tag_width = 4

-- What the C code of one chiplet is printed from.
pub record Tables : Type 0 where
  pub descriptors : List Emitted
  pub device_ids : List (List (Option ℕ) × ℕ)
  pub host_ids : List (List (Option ℕ) × ℕ)

module _ (nx : DiGraph) (alg : Algorithms nx) (custom_args : Policy → ℕ → Option KernelArgs)
    (c : Config) where
  open nx use {Graph, nodes}

  -- sorted(self.node_list, key=lambda n: n.node_id)
  abbrev pub sorted_nodes : Dfg Graph → List BingoNode
  sorted_nodes s = nodes_of nx c s.heap (sort_by (λ r. (s.heap r).node_id) (nodes s.graph))

  -- The passes up to the dependency tags.
  pub transform : Dfg Graph → Result (Dfg Graph)
  transform s =
      bingo_compile_conditional_regions nx alg custom_args
        (bingo_transform_dfg_add_exit_nodes nx c (bingo_transform_dfg_add_entry_node nx c s))
      >>= λ (groups, t).
          (validate_cerf_cross_group_edges nx alg custom_args t
            >> bingo_transform_add_resource_sequencing_edges nx alg t)
          >>= λ (added, u). bingo_transform_dfg_add_dummy_set_nodes nx c u >>= λ v.
              bingo_transform_dfg_add_dummy_check_nodes nx
                (bingo_transform_chain_dummy_sets_before_resource_successors nx alg v).1
              >>= λ w. bingo_transform_dfg_allocate_dep_tags nx alg c dep_tag_width (
                  bingo_assign_normal_node_dep_check_info nx c
                    (bingo_assign_normal_node_dep_set_info nx c w))

  pub chiplet_tables : Dfg Graph → ℕ → Result Tables
  chiplet_tables s chiplet_id =
      bingo_emit_task_desc_list nx c s (some chiplet_id) >>= λ descriptors.
      let (device, host) = bingo_emit_task_id_mapping_lists nx c s (some chiplet_id) in
      ok (record { descriptors = descriptors; device_ids = device; host_ids = host })

  pub all_tables : Dfg Graph → List ℕ → Result (List Tables)
  all_tables s [] = ok []
  all_tables s (chiplet_id ∷ rest) =
      chiplet_tables s chiplet_id >>= λ first. all_tables s rest >>= λ others. ok (first ∷ others)

  pub bingo_emit_offload_c_code : Dfg Graph → Result (List Tables)
  bingo_emit_offload_c_code s =
      validate_kernel_core_assignments c (sorted_nodes s)
      >> (validate_memory_handles c (collect_memory_handles (sorted_nodes s))
          >> all_tables s c.chiplet_ids)

  pub bingo_compile_dfg : Dfg Graph → Result (Dfg Graph × List Tables)
  bingo_compile_dfg s =
      transform s >>= λ t. bingo_emit_offload_c_code t >>= λ tables. ok (t, tables)
