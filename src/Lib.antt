-- ===== src/Lib.antt =====
-- The mini-compiler of the Bingo runtime (target/sw/host/runtime/libbingo/mini_compiler). It
-- takes a data-flow graph of tasks, each on a core of a cluster of a chiplet, and produces the
-- 64-bit descriptors from which the Bingo hardware manager runs the tasks: a descriptor says
-- which cores' signals a task waits for and which core it signals. Since a task can signal one
-- core only and wait for one signal of each core only, the compiler adds dummy tasks, orders
-- the tasks of each core, and gives the dependencies tags.
--
-- The class BingoDFG of bingo_dfg.py is a networkx graph with node objects. The model keeps its
-- state in the record Dfg.Dfg: the graph, a heap from references to node objects
-- (Node.BingoNode is the class BingoNode of bingo_node.py), and the counters and dictionaries
-- that the methods keep. A Python reference is a number, and a new object takes the next one. A
-- method that changes the object is a function from states to states, or to a Prelude.Result
-- where it can raise: each raise of the source is a constructor of Prelude.Error. Texts that
-- are only printed, warnings among them, are left out.
--
-- networkx is not part of the repository. Graph.DiGraph is the interface of its directed
-- graphs, with the documented effect of each operation on nodes, neighbours and edge attributes
-- as laws, and Graph.Paths.Algorithms that of the algorithms the compiler calls. Graph.Log and
-- Graph.Search meet these laws, so that the theorems are not empty, and the samples run on
-- them.
--
-- - Prelude: names of the library, tests, lists of native numbers, bit operations, sets of
--   numbers, errors.
-- - Node: bingo_node.py, BingoMemAlloc of bingo_mem_handle.py, and what the compiler reads of a
--   BingoKernelArgs.
-- - Graph: DiGraphWrapper of bingo_utils.py with the operations of networkx that the compiler
--   calls.
-- - Descriptor: bingo_pack_node and bingo_unpack_node. The width of an index is
--   math.ceil(math.log2(n)), computed as the floats compute it: n rounded to 53 bits, the
--   logarithm rounded to the nearest float (n below 2 ^ 1024). The searches for a width have a
--   round for each item, which is enough since n ≤ 2 ^ n.
-- - Schedule: _resource_balanced_topological_sort, with rounds for its while loop; as many as
--   the chiplet has nodes are enough, since each emits one node. Schedule.Rounds is about the
--   scan for the next resource, Schedule.Loop about the rounds.
-- - Dfg: __init__, bingo_add_node, bingo_add_edge, bingo_insert_node_between and
--   bingo_insert_node_after.
-- - Dfg.Ends: the entry node and the exit nodes.
-- - Dfg.DummySets: bingo_transform_dfg_add_dummy_set_nodes; Dfg.Moves and Dfg.GroupMoves say
--   what an insertion leaves in place.
-- - Dfg.DummyChecks: bingo_transform_dfg_add_dummy_check_nodes.
-- - Dfg.Resources: the order of tasks and of dummy sets on one resource.
-- - Dfg.DepInfo: the check and set information of normal and gating nodes.
-- - Dfg.Tags: bingo_transform_dfg_allocate_dep_tags; the walk along a chain has as many rounds
--   as the cell has edges, which bounds every chain of a matching.
-- - Dfg.Cerf: _alloc_cerf_group and bingo_define_conditional_region.
-- - Dfg.Conditional: bingo_compile_conditional_regions and _validate_cerf_cross_group_edges.
-- - Validate: the checks of memory handles and of the cores of kernels.
-- - Emit: the tables that bingo_emit_task_desc_list and bingo_emit_task_id_mapping_lists print.
-- - AddrMap: the address map of the crossbar generator (util/solder/solder.py): AddrMap, its
--   leaves and nodes, and the routes of a node. An entry object is referred to by its id. The
--   recursion of get_ranges_inner has one unit of fuel for each id, which is enough since no
--   path passes a node twice.
-- - Moe.Slot: the slots of the MoE schedules (multi_cluster_MoE_test/moe_test_schedule.py under
--   target/sw/host/apps/offload_bingo_hw/single_chip/workloads): SlotSpec, _task_timeline and
--   _dma_intervals.
-- - Moe.Lanes: cross_cluster_dma_release_edges, which makes the clusters share the two DMA
--   lanes.
-- - Moe.Build: the queues with one stream for each cluster, and the replay of a fixed order.
-- - Moe.Routing: multi_cluster_MoE/moe_routing_cases.py, the token pairs that realize the
--   counts of the experts. The loop over the heap has a round for each token, and the heap is
--   empty when these end. Making the heap raises for a count above zero that belongs to none of
--   the 64 experts.
-- - Moe.Layout: derive_common_workload_params of multi_cluster_MoE/moe_layout.py, the sizes of
--   the matrix products and of their operands; only the shape S0 is accepted. Moe.Layout.Bank:
--   derive_bank_workload_params; Moe.Layout.Placement: derive_l15_workload_params;
--   Moe.Layout.Mixed: derive_mixed_workload_params, the composition that the generators call,
--   without copying the fields into one dictionary. Entries that repeat a parameter or a
--   constant under a second name are left out.
-- - Platform: parse_platform_cfg of bingo_platform.py on the defines of a header, and the
--   addresses and the size check of bingo_helpers.py.
-- - Compile: the passes in the order of bingo_compile_dfg, and the checks and tables of
--   bingo_emit_offload_c_code.
--
-- Sizes, identifiers and counts are natural numbers, so an unassigned core (-1) is not a value
-- of the model and the check for one is left out. A node that is created without a name gets a
-- fixed one, since the generated name is only printed. A Python set is a list whose order is
-- not relied on. The value of a gating policy is a number or a text; a policy that names its
-- own class of kernel arguments calls code outside of the compiler, which is a parameter.
--
-- Not modelled are the printed C text around the tables, the pictures and the CSV file, the
-- other classes of bingo_kernel_args.py, the reading of the platform's header and the guards of
-- bingo_platform.py that remove a generated file, the scripts under target/sw/host/apps that
-- build graphs for the compiler, the audits that compare the MoE schedules with their recorded
-- histories, and the generators and simulators under util and target/sim.
pub mod AddrMap
pub mod Prelude
pub mod Node
pub mod Graph
pub mod Descriptor
pub mod Schedule
pub mod Dfg
pub mod Validate
pub mod Emit
pub mod Compile
pub mod Moe
pub mod Platform
