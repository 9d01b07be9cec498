-- ===== src/Moe.antt =====
-- The slot schedules of the MoE workload, and its routing cases and layout
-- (target/sw/host/apps/offload_bingo_hw/single_chip/workloads, multi_cluster_MoE_test and
-- multi_cluster_MoE).
pub mod Slot
pub mod Lanes
pub mod Build
pub mod Routing
pub mod Layout
