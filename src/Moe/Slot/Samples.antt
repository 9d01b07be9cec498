-- ===== src/Moe/Slot/Samples.antt =====
-- A slot of 22 tokens in shapes A and B, whose third stage is prefetched.
use he_mai_a.Prelude.{◌+◌, ◌*◌, ◌≡◌, refl, false, none, max, if◌then◌else◌}
use he_mai_a.Moe.Slot.{
  Shape, Dma, Cluster, SlotSpec, task_timeline, s1_dma, s3_dma, skip_s3, s2_m_exec, s4_m_exec,
  s1_compute_ticks, s3_compute_ticks, is_both, first_half, second_half, single_dma,
}
use he_mai_a.Moe.Slot.Timeline.{task_timeline-m_exec}

abbrev slot : SlotSpec
slot = record {
  cluster_name = Cluster.c0;
  local_slot = 0;
  expert_id = 0;
  ntokens = 22;
  s1_shape = Shape.shape_a;
  s3_shape = Shape.shape_b;
  s2_prefetch_dma = Dma.dma_idma;
  reference_start_tick = 0;
  reference_end_tick = 33;
  token_start_rank = 0;
  s1_dma_override = none;
  s3_dma_override = none;
  s4_prefetch_dma = Dma.dma_none;
  s4_prefetch_target_eid = none;
  skip_s1 = false;
  skip_s3_override = false;
}

slot_end : (task_timeline slot 0).task_end ≡ slot.reference_end_tick
unfolding task_timeline first_half second_half skip_s3 s1_dma s3_dma single_dma
slot_end = refl

task_timeline-m_exec_example :
    let t = task_timeline slot 7 in
    let s1 =
      if slot.skip_s1
      then 0
      else max (s1_compute_ticks slot.s1_shape) (if is_both (s1_dma slot) then 2 else 4) in
    let s3_end =
      if skip_s3 slot
      then t.dma3_end
      else t.s2_end
        + max (s3_compute_ticks slot.s3_shape) (if is_both (s3_dma slot) then 1 else 2) in
    (t.s2_end ≡ 7 + s1 + 2 * s2_m_exec slot) × (t.task_end ≡ s3_end + s4_m_exec slot)
task_timeline-m_exec_example = task_timeline-m_exec slot 7
