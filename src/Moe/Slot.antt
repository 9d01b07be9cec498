-- ===== src/Moe/Slot.antt =====
-- `SlotSpec` and `_task_timeline` of moe_test_schedule.py. Shapes and DMA masks are constants of the
-- source; an override or a target of -1 is `none`, and the end tick that a slot has before it is
-- known is 0. A cluster is its name, "c0" or "c1".
pub mod Timeline
mod Samples
use he_mai_a.Prelude.{
  ℕ, zero, suc, ◌+◌, ◌-◌, ◌*◌, ◌/◌, Bool, true, false, not, ◌&&◌, ◌||◌, Option, none, some, List,
  [], ◌∷◌, ◌++◌, max, ltb, ◌==◌, if◌then◌else◌, Result, ok, err, Error,
}

pub data Shape : Type 0 where
  shape_a shape_b shape_c : Shape

-- DMA_NONE, DMA_IDMA, DMA_XDMA and DMA_BOTH, the union of the two.
pub data Dma : Type 0 where
  dma_none dma_idma dma_xdma dma_both : Dma

pub data Cluster : Type 0 where
  c0 c1 : Cluster

abbrev pub is_none : Dma → Bool
is_none Dma.dma_none = true
is_none _ = false

abbrev pub is_both : Dma → Bool
is_both Dma.dma_both = true
is_both _ = false

abbrev pub is_shape_c : Shape → Bool
is_shape_c Shape.shape_c = true
is_shape_c _ = false

-- SHAPE_M
abbrev pub shape_m : Shape → ℕ
shape_m Shape.shape_a = 8
shape_m Shape.shape_b = 4
shape_m Shape.shape_c = 2

-- S1_COMPUTE_TICKS
abbrev pub s1_compute_ticks : Shape → ℕ
s1_compute_ticks Shape.shape_a = 8
s1_compute_ticks Shape.shape_b = 4
s1_compute_ticks Shape.shape_c = 2

-- S3_COMPUTE_TICKS
abbrev pub s3_compute_ticks : Shape → ℕ
s3_compute_ticks Shape.shape_a = 4
s3_compute_ticks Shape.shape_b = 2
s3_compute_ticks Shape.shape_c = 1

pub record SlotSpec : Type 0 where
  pub cluster_name : Cluster
  pub local_slot : ℕ
  pub expert_id : ℕ
  pub ntokens : ℕ
  pub s1_shape : Shape
  pub s3_shape : Shape
  pub s2_prefetch_dma : Dma
  pub reference_start_tick : ℕ
  pub reference_end_tick : ℕ
  pub token_start_rank : ℕ
  pub s1_dma_override : Option Dma
  pub s3_dma_override : Option Dma
  pub s4_prefetch_dma : Dma
  pub s4_prefetch_target_eid : Option ℕ
  pub skip_s1 : Bool
  pub skip_s3_override : Bool

abbrev pub or_else : Option Dma → Dma → Dma
or_else (some d) e = d
or_else none e = e

abbrev pub cluster_dma : Cluster → Dma
cluster_dma Cluster.c0 = Dma.dma_idma
cluster_dma Cluster.c1 = Dma.dma_xdma

unfoldable pub single_dma : SlotSpec → Dma
single_dma slot = cluster_dma slot.cluster_name

unfoldable pub skip_s3 : SlotSpec → Bool
skip_s3 slot = slot.skip_s3_override || not (is_none slot.s2_prefetch_dma)

unfoldable pub s1_dma : SlotSpec → Dma
s1_dma slot = or_else slot.s1_dma_override (
    if slot.skip_s1
    then Dma.dma_none
    else (if is_shape_c slot.s1_shape then Dma.dma_both else single_dma slot))

unfoldable pub s3_dma : SlotSpec → Dma
s3_dma slot = or_else slot.s3_dma_override (
    if skip_s3 slot
    then Dma.dma_none
    else (if is_shape_c slot.s3_shape then Dma.dma_both else single_dma slot))

-- The function of the same name, at the fields of a slot.
pub s2pf_s1_overlap_steps : SlotSpec → ℕ
s2pf_s1_overlap_steps slot =
    if slot.skip_s1 || is_none slot.s2_prefetch_dma
    then 0
    else (if ltb (if is_both (s1_dma slot) then 2 else 4) (s1_compute_ticks slot.s1_shape)
        then 2
        else 0)

pub s2pf_starts_after_s1_dma : SlotSpec → Bool
s2pf_starts_after_s1_dma slot =
    is_none slot.s2_prefetch_dma || slot.skip_s1 || not (s2pf_s1_overlap_steps slot == 0)

unfoldable pub s2_token_start : SlotSpec → ℕ
s2_token_start slot = if slot.skip_s1 then 0 else shape_m slot.s1_shape

-- max(a - b, 0) is the subtraction of natural numbers.
unfoldable pub s2_m_exec : SlotSpec → ℕ
s2_m_exec slot =
    (slot.ntokens - s2_token_start slot + shape_m Shape.shape_c - 1) / shape_m Shape.shape_c

unfoldable pub s4_token_start : SlotSpec → ℕ
s4_token_start slot = if skip_s3 slot then 0 else shape_m slot.s3_shape

unfoldable pub s4_m_exec : SlotSpec → ℕ
s4_m_exec slot =
    (slot.ntokens - s4_token_start slot + shape_m Shape.shape_c - 1) / shape_m Shape.shape_c

pub record TaskTimeline : Type 0 where
  pub start : ℕ
  pub task_end : ℕ
  pub dma1_end : ℕ
  pub s2_end : ℕ
  pub dma3_end : ℕ

-- The two halves of `_task_timeline`.
unfoldable pub first_half : SlotSpec → ℕ → ℕ × ℕ
first_half slot start =
    if slot.skip_s1
    then (start, start + 2 * ((slot.ntokens + 1) / 2))
    else (let tail = slot.ntokens - shape_m slot.s1_shape in
        let dma_ticks = if is_both (s1_dma slot) then 2 else 4 in
        (
          start + dma_ticks,
          start + max (s1_compute_ticks slot.s1_shape) dma_ticks + 2 * ((tail + 1) / 2),
        ))

abbrev pub s2pf_ticks : Dma → ℕ
s2pf_ticks dma = if is_both dma then 1 else 2

unfoldable pub second_half : SlotSpec → ℕ → ℕ → ℕ × ℕ
second_half slot dma1_end s2_end =
    if skip_s3 slot
    then (let dma3_end = max s2_end (dma1_end + s2pf_ticks slot.s2_prefetch_dma) in
        (dma3_end, dma3_end + (slot.ntokens + 1) / 2))
    else (let tail = slot.ntokens - shape_m slot.s3_shape in
        let dma_ticks = if is_both (s3_dma slot) then 1 else 2 in
        (
          s2_end + dma_ticks,
          s2_end + max (s3_compute_ticks slot.s3_shape) dma_ticks + (tail + 1) / 2,
        ))

unfoldable pub task_timeline : SlotSpec → ℕ → TaskTimeline
task_timeline slot start =
    let (dma1_end, s2_end) = first_half slot start in
    let (dma3_end, task_end) = second_half slot dma1_end s2_end in
    record {
      start = start;
      task_end = task_end;
      dma1_end = dma1_end;
      s2_end = s2_end;
      dma3_end = dma3_end;
    }

pub data Stage : Type 0 where
  s1 s2pf s3 s4pf : Stage

-- A transfer of a slot: (start, end, dma, stage), with the slot that makes it.
pub record Transfer : Type 0 where
  pub begin : ℕ
  pub finish : ℕ
  pub dma : Dma
  pub cluster : Cluster
  pub slot_index : ℕ
  pub expert : ℕ
  pub stage : Stage

abbrev pub transfer_of : SlotSpec → ℕ → ℕ → Dma → Stage → Transfer
transfer_of slot begin finish dma stage = record {
  begin = begin;
  finish = finish;
  dma = dma;
  cluster = slot.cluster_name;
  slot_index = slot.local_slot;
  expert = slot.expert_id;
  stage = stage;
}

-- if dma != DMA_NONE: intervals.append(…)
abbrev pub used : SlotSpec → ℕ → ℕ → Dma → Stage → List Transfer
used slot begin finish dma stage =
    if is_none dma then [] else transfer_of slot begin finish dma stage ∷ []

unfoldable pub dma_intervals : SlotSpec → List Transfer
dma_intervals slot =
    let t = task_timeline slot slot.reference_start_tick in
    used slot t.start t.dma1_end (s1_dma slot) Stage.s1
    ++ (used slot t.dma1_end (t.dma1_end + s2pf_ticks slot.s2_prefetch_dma) slot.s2_prefetch_dma
          Stage.s2pf
        ++ (used slot t.s2_end t.dma3_end (s3_dma slot) Stage.s3
            ++ used slot t.dma3_end (t.dma3_end + (if is_both slot.s4_prefetch_dma then 2 else 4))
                slot.s4_prefetch_dma Stage.s4pf))
