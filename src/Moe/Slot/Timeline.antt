-- ===== src/Moe/Slot/Timeline.antt =====
-- The phases of a slot on its timeline.
use he_mai_a.Prelude.{
  ℕ, ◌+◌, ◌-◌, ◌*◌, ◌≤◌, ◌<◌, ◌≡◌, ◌⊎◌, true, not, ◌||◌, arith, max, if◌then◌else◌,
}
use he_mai_a.Moe.Slot.{
  SlotSpec, s1_compute_ticks, s3_compute_ticks, s1_dma, s3_dma, skip_s3, s2_token_start, s2_m_exec,
  s4_token_start, s4_m_exec, first_half, second_half, task_timeline, is_none, is_both,
}

-- The timeline of every slot runs in the order of its phases.
pub task_timeline-ordered :
    (slot : SlotSpec) (start : ℕ)
    → let t = task_timeline slot start in
      (t.start ≡ start)
      × (start ≤ t.dma1_end)
      × (t.dma1_end ≤ t.s2_end)
      × (t.s2_end ≤ t.dma3_end)
      × (t.dma3_end ≤ t.task_end)
unfolding task_timeline first_half second_half
task_timeline-ordered slot start = ground arith

-- The calls of the second and the fourth stage, two tokens each, take exactly the tokens that the
-- first and the third stage leave: they reach the last token, and no call is without one.
pub m_exec_lem :
    (slot : SlotSpec)
    → (slot.ntokens ≤ s2_token_start slot + 2 * s2_m_exec slot)
      × (s2_m_exec slot ≡ 0 ⊎ s2_token_start slot + 2 * (s2_m_exec slot - 1) < slot.ntokens)
      × (slot.ntokens ≤ s4_token_start slot + 2 * s4_m_exec slot)
      × (s4_m_exec slot ≡ 0 ⊎ s4_token_start slot + 2 * (s4_m_exec slot - 1) < slot.ntokens)
unfolding s2_m_exec s4_m_exec
m_exec_lem slot = ground arith

-- The time of the second and the fourth stage in the timeline is that of their calls: two ticks for
-- each call of the second stage and one for each of the fourth, behind the stage before it.
pub task_timeline-m_exec :
    (slot : SlotSpec) (start : ℕ)
    → let t = task_timeline slot start in
      let s1 =
        if slot.skip_s1
        then 0
        else max (s1_compute_ticks slot.s1_shape) (if is_both (s1_dma slot) then 2 else 4) in
      let s3_end =
        if skip_s3 slot
        then t.dma3_end
        else t.s2_end
          + max (s3_compute_ticks slot.s3_shape) (if is_both (s3_dma slot) then 1 else 2) in
      (t.s2_end ≡ start + s1 + 2 * s2_m_exec slot) × (t.task_end ≡ s3_end + s4_m_exec slot)
unfolding task_timeline first_half second_half s2_m_exec s4_m_exec s2_token_start s4_token_start
task_timeline-m_exec slot start = ground arith

-- A stage that is skipped makes no transfer of its own.
abbrev pub IsConsistent : SlotSpec → Type 0
IsConsistent slot =
    ((not slot.skip_s1 || is_none (s1_dma slot)) ≡ true)
    × ((not (skip_s3 slot) || is_none (s3_dma slot)) ≡ true)

-- A transfer that is made takes time.
pub task_timeline-transfers :
    (slot : SlotSpec) (start : ℕ)
    → IsConsistent slot
    → let t = task_timeline slot start in
      (is_none (s1_dma slot) ≡ true ⊎ start < t.dma1_end)
      × (is_none (s3_dma slot) ≡ true ⊎ t.s2_end < t.dma3_end)
unfolding task_timeline first_half second_half
task_timeline-transfers slot start h = ground (arith, h.0, h.1)
