-- ===== src/Moe/Build.antt =====
-- The loops of moe_test_schedule.py that build the queues of slots: the streams that keep each cluster
-- on its own DMA lane, and the replay of a fixed order. A table of counts is a function of the expert.
pub mod Static
pub mod Samples
use he_mai_a.Prelude.{ℕ, ◌+◌, Bool, false, Option, none, some, List, [], ◌∷◌, ◌++◌, length}
use he_mai_a.Moe.Slot.{Shape, Dma, Cluster, SlotSpec, cluster_dma, TaskTimeline, task_timeline}

-- A slot of a stream with one shape, both transfers on the cluster's lane, and no prefetch.
pub static_slot : Cluster → Shape → (expert ntokens local_slot start_tick : ℕ) → SlotSpec
static_slot cluster shape expert ntokens local_slot start_tick = record {
  cluster_name = cluster;
  local_slot = local_slot;
  expert_id = expert;
  ntokens = ntokens;
  s1_shape = shape;
  s3_shape = shape;
  s2_prefetch_dma = Dma.dma_none;
  reference_start_tick = start_tick;
  reference_end_tick = 0;
  token_start_rank = 0;
  s1_dma_override = some (cluster_dma cluster);
  s3_dma_override = some (cluster_dma cluster);
  s4_prefetch_dma = Dma.dma_none;
  s4_prefetch_target_eid = none;
  skip_s1 = false;
  skip_s3_override = false;
}

-- for expert_id in eids: the slot starts where the one before it ends.
pub static_queue : Cluster → Shape → (ℕ → ℕ) → (local_slot start_tick : ℕ) → List ℕ → List SlotSpec
static_queue cluster shape counts local_slot start_tick [] = []
static_queue cluster shape counts local_slot start_tick (expert ∷ eids) =
    let slot = static_slot cluster shape expert (counts expert) local_slot start_tick in
    let end_tick = (task_timeline slot start_tick).task_end in
    record slot { reference_end_tick = end_tick }
    ∷ static_queue cluster shape counts (local_slot + 1) end_tick eids

-- Both queues, as `build_static_desc_schedule` and its three kin make them for shape B, and
-- `build_m32_fixed_shape_schedule` for each shape, before the audit.
pub static_queues : Shape → (ℕ → ℕ) → (eids0 eids1 : List ℕ) → List (List SlotSpec)
static_queues shape counts eids0 eids1 =
    static_queue Cluster.c0 shape counts 0 0 eids0
    ∷ static_queue Cluster.c1 shape counts 0 0 eids1
    ∷ []

pub record FixedOrderTask : Type 0 where
  pub cluster_name : Cluster
  pub expert_id : ℕ
  pub token_start_rank : ℕ
  pub ntokens : ℕ
  pub start_tick : ℕ
  pub end_tick : ℕ
  pub s1_shape : Shape
  pub s3_shape : Shape
  pub s2_prefetch_dma : Dma
  pub s1_dma : Dma
  pub s3_dma : Dma
  pub s4_prefetch_dma : Dma
  pub s4_prefetch_target_eid : Option ℕ
  pub skip_s1 : Bool
  pub skip_s3 : Bool

abbrev pub fixed_order_slot : FixedOrderTask → ℕ → SlotSpec
fixed_order_slot task local_slot = record {
  cluster_name = task.cluster_name;
  local_slot = local_slot;
  expert_id = task.expert_id;
  ntokens = task.ntokens;
  s1_shape = task.s1_shape;
  s3_shape = task.s3_shape;
  s2_prefetch_dma = task.s2_prefetch_dma;
  reference_start_tick = task.start_tick;
  reference_end_tick = task.end_tick;
  token_start_rank = task.token_start_rank;
  s1_dma_override = some task.s1_dma;
  s3_dma_override = some task.s3_dma;
  s4_prefetch_dma = task.s4_prefetch_dma;
  s4_prefetch_target_eid = task.s4_prefetch_target_eid;
  skip_s1 = task.skip_s1;
  skip_s3_override = task.skip_s3;
}

-- queues[task.cluster_name].append(…)
abbrev pub enqueue :
    FixedOrderTask → List SlotSpec × List SlotSpec → Cluster → List SlotSpec × List SlotSpec
enqueue task (q0, q1) Cluster.c0 = (q0 ++ fixed_order_slot task (length q0) ∷ [], q1)
enqueue task (q0, q1) Cluster.c1 = (q0, q1 ++ fixed_order_slot task (length q1) ∷ [])

pub fixed_order_onto :
    List FixedOrderTask → List SlotSpec × List SlotSpec → List SlotSpec × List SlotSpec
fixed_order_onto [] queues = queues
fixed_order_onto (task ∷ history) queues =
    fixed_order_onto history (enqueue task queues task.cluster_name)

pub build_fixed_order_schedule : List FixedOrderTask → List SlotSpec × List SlotSpec
build_fixed_order_schedule history = fixed_order_onto history ([], [])
