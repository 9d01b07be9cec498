-- ===== src/Moe/Lanes/Released.antt =====
-- When the lanes are accepted.
use he_mai_a.Prelude.{
  ℕ, ◌+◌, ◌≤◌, ◌<◌, ◌≡◌, ◌⊎◌, ◌↔◌, refl, Bool, true, false, List, [], ◌∷◌, ◌++◌, arith, ok, inl,
  inr, All, All-imp, All-append, Bool-cases, keep_if, >>=-eq-ok, ltb, if◌then◌else◌,
}
use he_mai_a.Moe.Slot.{
  Dma, SlotSpec, Transfer, Stage, dma_intervals, used, is_none, is_both, task_timeline, s1_dma,
  s3_dma, s2pf_ticks,
}
use he_mai_a.Moe.Slot.Timeline.{IsConsistent, task_timeline-transfers, task_timeline-ordered}
use he_mai_a.Moe.Lanes.{
  Lane, has_lane, sort_transfers, ReleaseEdge, insert_edge, same_cluster, release_lane,
  lane_intervals, all_intervals, cross_cluster_dma_release_edges,
}
use he_mai_a.Moe.Lanes.Exclusive.{
  IsExclusive, IsTransfer, IsSorted, Apart, sort_transfers-IsSorted, sort_transfers-IsExclusive,
  sort_transfers-All,
}

behind :
    (p c : Transfer) (rest : List Transfer)
    → p.finish ≤ c.begin
    → All (λ u. c.begin ≤ u.begin) rest
    → All (Apart p) rest
behind p c rest le =
    All-imp (λ u. c.begin ≤ u.begin) (Apart p) rest (λ u h. inl (omega (arith, le, h)))

release_lane-IsExclusive :
    (ts : List Transfer) (edges found : List ReleaseEdge)
    → IsSorted ts
    → release_lane ts edges ≡ ok found
    → IsExclusive ts
unfolding release_lane
release_lane-IsExclusive [] edges found sorted e = tt
release_lane-IsExclusive (p ∷ []) edges found sorted e = (tt, tt)
release_lane-IsExclusive (p ∷ (c ∷ rest)) edges found sorted e =
    elim (Bool-cases (ltb c.begin p.finish)) [
      | inl clash ↦ absurd (ground arith)
      | inr free ↦
          let le : p.finish ≤ c.begin = ground arith in
          (
            (inl le, behind p c rest le sorted.1.0),
            release_lane-IsExclusive (c ∷ rest)
                (if same_cluster p c then edges else insert_edge (p, c) edges) found sorted.1
                (ground arith),
          )
    ]

IsExclusive-release_lane :
    (ts : List Transfer) (edges : List ReleaseEdge)
    → IsSorted ts
    → All IsTransfer ts
    → IsExclusive ts
    → (found : List ReleaseEdge) × (release_lane ts edges ≡ ok found)
unfolding release_lane
IsExclusive-release_lane [] edges sorted full h = (edges, refl)
IsExclusive-release_lane (p ∷ []) edges sorted full h = (edges, refl)
IsExclusive-release_lane (p ∷ (c ∷ rest)) edges sorted full h =
    let next = if same_cluster p c then edges else insert_edge (p, c) edges in
    let (found, e) = IsExclusive-release_lane (c ∷ rest) next sorted.1 full.1 h.1 in
    let free : ltb c.begin p.finish ≡ false = ground (arith, h.0.0, full.0, full.1.0, sorted.0.0) in
    (found, rw free e)

used-IsTransfer :
    (slot : SlotSpec) (begin finish : ℕ) (dma : Dma) (stage : Stage)
    → (is_none dma ≡ true) ⊎ (begin < finish)
    → All IsTransfer (used slot begin finish dma stage)
used-IsTransfer slot begin finish dma stage h = elim (Bool-cases (is_none dma)) [
  | inl none ↦ rw none tt
  | inr some ↦ rw some (ground (arith, h), tt)
]

dma_intervals-IsTransfer :
    (slot : SlotSpec) → IsConsistent slot → All IsTransfer (dma_intervals slot)
unfolding dma_intervals
dma_intervals-IsTransfer slot h =
    let t = task_timeline slot slot.reference_start_tick in
    let times = task_timeline-transfers slot slot.reference_start_tick h in
    let start = (task_timeline-ordered slot slot.reference_start_tick).0 in
    let first = used slot t.start t.dma1_end (s1_dma slot) Stage.s1 in
    let second =
      used slot t.dma1_end (t.dma1_end + s2pf_ticks slot.s2_prefetch_dma) slot.s2_prefetch_dma
        Stage.s2pf in
    let third = used slot t.s2_end t.dma3_end (s3_dma slot) Stage.s3 in
    let fourth =
      used slot t.dma3_end (t.dma3_end + (if is_both slot.s4_prefetch_dma then 2 else 4))
        slot.s4_prefetch_dma Stage.s4pf in
    All-append IsTransfer first (second ++ (third ++ fourth))
      (used-IsTransfer slot t.start t.dma1_end (s1_dma slot) Stage.s1 (rw start times.0))
      (All-append IsTransfer second (third ++ fourth)
        (used-IsTransfer slot t.dma1_end (t.dma1_end + s2pf_ticks slot.s2_prefetch_dma)
          slot.s2_prefetch_dma Stage.s2pf (inr (ground arith)))
        (All-append IsTransfer third fourth
          (used-IsTransfer slot t.s2_end t.dma3_end (s3_dma slot) Stage.s3 times.1)
          (used-IsTransfer slot t.dma3_end
            (t.dma3_end + (if is_both slot.s4_prefetch_dma then 2 else 4)) slot.s4_prefetch_dma
            Stage.s4pf (inr (ground arith)))))

all_intervals-IsTransfer :
    (queues : List (List SlotSpec))
    → All (All IsConsistent) queues
    → All IsTransfer (all_intervals queues)
unfolding all_intervals
all_intervals-IsTransfer [] h = tt
all_intervals-IsTransfer ([] ∷ queues) h = all_intervals-IsTransfer queues h.1
all_intervals-IsTransfer ((slot ∷ slots) ∷ queues) h =
    All-append IsTransfer (dma_intervals slot) (all_intervals (slots ∷ queues))
      (dma_intervals-IsTransfer slot h.0.0) (all_intervals-IsTransfer (slots ∷ queues) (h.0.1, h.1))

keep_if-All :
    (P : Transfer → Type 0) (p : Transfer → Bool) (ts : List Transfer)
    → All P ts
    → All P (keep_if p ts)
keep_if-All P p [] h = tt
keep_if-All P p (t ∷ ts) h = elim (Bool-cases (p t)) [
  | inl e ↦ rw e (h.0, keep_if-All P p ts h.1)
  | inr e ↦ rw e (keep_if-All P p ts h.1)
]

-- The transfers of one lane.
abbrev pub on_lane : Lane → List (List SlotSpec) → List Transfer
on_lane lane queues = keep_if (λ t. has_lane lane t.dma) (all_intervals queues)

module _ (lane : Lane) (queues : List (List SlotSpec)) where
  lane-IsExclusive :
      (edges found : List ReleaseEdge)
      → release_lane (lane_intervals lane (all_intervals queues)) edges ≡ ok found
      → IsExclusive (on_lane lane queues)
  unfolding lane_intervals
  lane-IsExclusive edges found e =
      let ts = on_lane lane queues in
      (sort_transfers-IsExclusive ts).0
        (release_lane-IsExclusive (sort_transfers ts) edges found (sort_transfers-IsSorted ts) e)

  IsExclusive-lane :
      (edges : List ReleaseEdge)
      → All (All IsConsistent) queues
      → IsExclusive (on_lane lane queues)
      → (found : List ReleaseEdge) × (release_lane
            (lane_intervals lane (all_intervals queues))
            edges
          ≡ ok found)
  unfolding lane_intervals
  IsExclusive-lane edges h apart =
      let ts = on_lane lane queues in
      IsExclusive-release_lane (sort_transfers ts) edges (sort_transfers-IsSorted ts)
        (sort_transfers-All IsTransfer ts (
          keep_if-All IsTransfer (λ t. has_lane lane t.dma) (all_intervals queues)
            (all_intervals-IsTransfer queues h)))
        ((sort_transfers-IsExclusive ts).1 apart)

-- For slots whose skipped stages make no transfer of their own, the release edges are found exactly
-- when no two transfers of the schedule run on one DMA lane at one time; else the schedule is refused.
pub release_edges-IsExclusive :
    (queues : List (List SlotSpec))
    → All (All IsConsistent) queues
    → ((edges : List ReleaseEdge) × (cross_cluster_dma_release_edges queues ≡ ok edges))
      ↔ (IsExclusive (on_lane Lane.idma queues) × IsExclusive (on_lane Lane.xdma queues))
unfolding cross_cluster_dma_release_edges
release_edges-IsExclusive queues h = (
  λ (edges, e).
      let (first, e1, e2) =
        >>=-eq-ok (release_lane (lane_intervals Lane.idma (all_intervals queues)) [])
          (λ edges. release_lane (lane_intervals Lane.xdma (all_intervals queues)) edges) e in
      (
        lane-IsExclusive Lane.idma queues [] first e1,
        lane-IsExclusive Lane.xdma queues first edges e2,
      ),
  λ (apart1, apart2).
      let (first, e1) = IsExclusive-lane Lane.idma queues [] h apart1 in
      let (edges, e2) = IsExclusive-lane Lane.xdma queues first h apart2 in (edges, rw e1 e2),
)
