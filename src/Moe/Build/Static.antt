-- ===== src/Moe/Build/Static.antt =====
-- Streams that keep to their own lanes are accepted, and no cluster waits for the other.
use he_mai_a.Prelude.{
  ℕ, ◌+◌, ◌≤◌, ◌≡◌, refl, sym, ap, ◌∙◌, Bool, true, false, List, [], ◌∷◌, ◌++◌, arith, ok, inl, inr,
  All, All-imp, All-append, keep_if, Bool-cases, ltb, ==_refl, >>=-eq-ok, subst,
}
use he_mai_a.Moe.Slot.{
  Shape, Cluster, SlotSpec, Transfer, cluster_dma, task_timeline, first_half, second_half,
  dma_intervals, s1_dma, s3_dma, skip_s3,
}
use he_mai_a.Moe.Slot.Timeline.{task_timeline-ordered, IsConsistent}
use mathlib.Core.List.{append_assoc, append-nil}
use he_mai_a.Moe.Lanes.{
  Lane, has_lane, ReleaseEdge, release_lane, lane_intervals, all_intervals, sort_transfers,
  same_cluster, cluster_rank, cross_cluster_dma_release_edges,
}
use he_mai_a.Moe.Lanes.Exclusive.{Apart, IsExclusive, sort_transfers-All}
use he_mai_a.Moe.Lanes.Released.{on_lane, release_edges-IsExclusive}
use he_mai_a.Moe.Build.{static_slot, static_queue, static_queues}

-- The transfers of a slot on its timeline: two on the cluster's lane, within the slot's time.
abbrev Fits : Cluster → ℕ → ℕ → Transfer → Type 0
Fits cluster start end t =
    (start ≤ t.begin) × (t.finish ≤ end) × (t.dma ≡ cluster_dma cluster) × (t.cluster ≡ cluster)

static_slot_lem :
    (cluster : Cluster) (shape : Shape) (expert ntokens local_slot start end : ℕ)
    → let slot = static_slot cluster shape expert ntokens local_slot start in
      let ts = dma_intervals (record slot { reference_end_tick = end }) in
      IsExclusive ts × All (Fits cluster start (task_timeline slot start).task_end) ts
unfolding static_slot dma_intervals task_timeline first_half second_half s1_dma s3_dma skip_s3
static_slot_lem Cluster.c0 shape expert ntokens local_slot start end = ground arith
static_slot_lem Cluster.c1 shape expert ntokens local_slot start end = ground arith

append-IsExclusive :
    (mid : ℕ) (xs ys : List Transfer)
    → IsExclusive xs
    → IsExclusive ys
    → All (λ t. t.finish ≤ mid) xs
    → All (λ t. mid ≤ t.begin) ys
    → IsExclusive (xs ++ ys)
append-IsExclusive mid [] ys hx hy before after = hy
append-IsExclusive mid (x ∷ xs) ys hx hy before after = (
  All-append (Apart x) xs ys hx.0
      (All-imp (λ t. mid ≤ t.begin) (Apart x) ys (λ t h. inl (omega (arith, h, before.0))) after),
  append-IsExclusive mid xs ys hx.1 hy before.1 after,
)

-- What a queue's transfers have in common.
abbrev Owned : Cluster → ℕ → Transfer → Type 0
Owned cluster start t = (start ≤ t.begin) × (t.dma ≡ cluster_dma cluster) × (t.cluster ≡ cluster)

static_queue_lem :
    (cluster : Cluster) (shape : Shape) (counts : ℕ → ℕ) (local_slot start : ℕ) (eids : List ℕ)
    → let ts = all_intervals (static_queue cluster shape counts local_slot start eids ∷ []) in
      IsExclusive ts × All (Owned cluster start) ts
unfolding static_queue all_intervals
static_queue_lem cluster shape counts local_slot start [] = (tt, tt)
static_queue_lem cluster shape counts local_slot start (expert ∷ eids) =
    let slot = static_slot cluster shape expert (counts expert) local_slot start in
    let end = (task_timeline slot start).task_end in
    let ts = dma_intervals (record slot { reference_end_tick = end }) in
    let us = all_intervals (static_queue cluster shape counts (local_slot + 1) end eids ∷ []) in
    let (own, fits) = static_slot_lem cluster shape expert (counts expert) local_slot start end in
    let (rest, owned) = static_queue_lem cluster shape counts (local_slot + 1) end eids in
    let order = task_timeline-ordered slot start in
    (
      append-IsExclusive end ts us own rest
          (All-imp (Fits cluster start end) (λ t. t.finish ≤ end) ts (λ t h. h.1) fits)
          (All-imp (Owned cluster end) (λ t. end ≤ t.begin) us (λ t h. h.0) owned),
      All-append (Owned cluster start) ts us
          (All-imp (Fits cluster start end) (Owned cluster start) ts (λ t h. (h.0, h.2, h.3)) fits)
          (All-imp (Owned cluster end) (Owned cluster start) us
            (λ t h. (omega (arith, order, h.0), h.1, h.2)) owned),
    )

all_intervals-append :
    (q : List SlotSpec) (queues : List (List SlotSpec))
    → all_intervals (q ∷ queues) ≡ all_intervals (q ∷ []) ++ all_intervals queues
unfolding all_intervals
all_intervals-append [] queues = refl
all_intervals-append (slot ∷ slots) queues =
    ap (λ ts. dma_intervals slot ++ ts) (all_intervals-append slots queues)
    ∙ sym (append_assoc (dma_intervals slot) (all_intervals (slots ∷ [])) (all_intervals queues))

keep_if-append :
    (p : Transfer → Bool) (xs ys : List Transfer)
    → keep_if p (xs ++ ys) ≡ keep_if p xs ++ keep_if p ys
keep_if-append p [] ys = refl
keep_if-append p (x ∷ xs) ys = ground (arith, keep_if-append p xs ys)

keep_if-id :
    (p : Transfer → Bool) (xs : List Transfer) → All (λ t. p t ≡ true) xs → keep_if p xs ≡ xs
keep_if-id p [] h = refl
keep_if-id p (x ∷ xs) h = ground (arith, keep_if-id p xs h.1, h.0)

keep_if-none :
    (p : Transfer → Bool) (xs : List Transfer) → All (λ t. p t ≡ false) xs → keep_if p xs ≡ []
keep_if-none p [] h = refl
keep_if-none p (x ∷ xs) h = ground (arith, keep_if-none p xs h.1, h.0)

module _ (shape : Shape) (counts : ℕ → ℕ) (eids0 eids1 : List ℕ) where
  first : List Transfer
  first = all_intervals (static_queue Cluster.c0 shape counts 0 0 eids0 ∷ [])

  second : List Transfer
  second = all_intervals (static_queue Cluster.c1 shape counts 0 0 eids1 ∷ [])

  first-IsExclusive : IsExclusive first
  unfolding first
  first-IsExclusive = (static_queue_lem Cluster.c0 shape counts 0 0 eids0).0

  second-IsExclusive : IsExclusive second
  unfolding second
  second-IsExclusive = (static_queue_lem Cluster.c1 shape counts 0 0 eids1).0

  owned0 : All (Owned Cluster.c0 0) first
  unfolding first
  owned0 = (static_queue_lem Cluster.c0 shape counts 0 0 eids0).1

  owned1 : All (Owned Cluster.c1 0) second
  unfolding second
  owned1 = (static_queue_lem Cluster.c1 shape counts 0 0 eids1).1

  lane_split :
      (lane : Lane)
      → on_lane lane (static_queues shape counts eids0 eids1)
        ≡ keep_if (λ t. has_lane lane t.dma) first ++ keep_if (λ t. has_lane lane t.dma) second
  unfolding static_queues first second
  lane_split lane =
      ap (keep_if (λ t. has_lane lane t.dma)) (
        all_intervals-append (static_queue Cluster.c0 shape counts 0 0 eids0)
          (static_queue Cluster.c1 shape counts 0 0 eids1 ∷ []))
      ∙ keep_if-append (λ t. has_lane lane t.dma) first second

  on_idma : on_lane Lane.idma (static_queues shape counts eids0 eids1) ≡ first
  on_idma =
      let p = λ (t : Transfer). has_lane Lane.idma t.dma in
      lane_split Lane.idma
      ∙ (rw
          (keep_if-id p first
            (All-imp (Owned Cluster.c0 0) (λ t. p t ≡ true) first (λ t h. rw h.1 refl) owned0))
          (rw
            (keep_if-none p second
              (All-imp (Owned Cluster.c1 0) (λ t. p t ≡ false) second (λ t h. rw h.1 refl) owned1))
            (append-nil first)))

  on_xdma : on_lane Lane.xdma (static_queues shape counts eids0 eids1) ≡ second
  on_xdma =
      let p = λ (t : Transfer). has_lane Lane.xdma t.dma in
      lane_split Lane.xdma
      ∙ (rw
          (keep_if-none p first
            (All-imp (Owned Cluster.c0 0) (λ t. p t ≡ false) first (λ t h. rw h.1 refl) owned0))
          (rw
            (keep_if-id p second
              (All-imp (Owned Cluster.c1 0) (λ t. p t ≡ true) second (λ t h. rw h.1 refl) owned1))
            refl))

static_queue-IsConsistent :
    (cluster : Cluster) (shape : Shape) (counts : ℕ → ℕ) (local_slot start : ℕ) (eids : List ℕ)
    → All IsConsistent (static_queue cluster shape counts local_slot start eids)
unfolding static_queue static_slot skip_s3
static_queue-IsConsistent cluster shape counts local_slot start [] = tt
static_queue-IsConsistent cluster shape counts local_slot start (expert ∷ eids) =
    let slot = static_slot cluster shape expert (counts expert) local_slot start in
    (
      (refl, refl),
      static_queue-IsConsistent cluster shape counts (local_slot + 1)
          (task_timeline slot start).task_end eids,
    )

static_queues-IsConsistent :
    (shape : Shape) (counts : ℕ → ℕ) (eids0 eids1 : List ℕ)
    → All (All IsConsistent) (static_queues shape counts eids0 eids1)
unfolding static_queues
static_queues-IsConsistent shape counts eids0 eids1 = (
  static_queue-IsConsistent Cluster.c0 shape counts 0 0 eids0,
  (static_queue-IsConsistent Cluster.c1 shape counts 0 0 eids1, tt),
)

own_lane :
    (cluster : Cluster) (start : ℕ) (ts : List Transfer)
    → All (Owned cluster start) ts
    → All (λ t. t.cluster ≡ cluster) ts
own_lane cluster start ts = All-imp (Owned cluster start) (λ t. t.cluster ≡ cluster) ts (λ t h. h.2)

-- Neighbours of one cluster make no edge.
release_lane-own :
    (cluster : Cluster) (ts : List Transfer) (edges found : List ReleaseEdge)
    → All (λ t. t.cluster ≡ cluster) ts
    → release_lane ts edges ≡ ok found
    → edges ≡ found
unfolding release_lane
release_lane-own cluster [] edges found own e = cc
release_lane-own cluster (p ∷ []) edges found own e = cc
release_lane-own cluster (p ∷ (c ∷ rest)) edges found own e =
    elim (Bool-cases (ltb c.begin p.finish)) [
      | inl clash ↦ absurd (ground arith)
      | inr free ↦
          let same : same_cluster p c ≡ true =
            rw own.0 (rw own.1.0 (==_refl (cluster_rank cluster))) in
          release_lane-own cluster (c ∷ rest) edges found own.1 (rw (free, same) at e)
    ]

-- The stream of each cluster on its own lane is accepted for every shape, all counts and all experts
-- in any order, and leaves no edge between the clusters.
pub static_queues-release_edges :
    (shape : Shape) (counts : ℕ → ℕ) (eids0 eids1 : List ℕ)
    → cross_cluster_dma_release_edges (static_queues shape counts eids0 eids1) ≡ ok []
unfolding cross_cluster_dma_release_edges lane_intervals
static_queues-release_edges shape counts eids0 eids1 =
    let queues = static_queues shape counts eids0 eids1 in
    let apart0 : IsExclusive (on_lane Lane.idma queues) =
      subst IsExclusive (sym (on_idma shape counts eids0 eids1))
        (first-IsExclusive shape counts eids0 eids1) in
    let apart1 : IsExclusive (on_lane Lane.xdma queues) =
      subst IsExclusive (sym (on_xdma shape counts eids0 eids1))
        (second-IsExclusive shape counts eids0 eids1) in
    let (edges, e) =
      (release_edges-IsExclusive queues (static_queues-IsConsistent shape counts eids0 eids1)).1
        (apart0, apart1) in
    let (mid, e0, e1) =
      >>=-eq-ok (release_lane (lane_intervals Lane.idma (all_intervals queues)) [])
        (λ edges. release_lane (lane_intervals Lane.xdma (all_intervals queues)) edges) e in
    let none0 =
      release_lane-own Cluster.c0 (sort_transfers (on_lane Lane.idma queues)) [] mid
        (sort_transfers-All (λ t. t.cluster ≡ Cluster.c0) (on_lane Lane.idma queues)
          (own_lane Cluster.c0 0 (on_lane Lane.idma queues) (
            subst (All (Owned Cluster.c0 0)) (sym (on_idma shape counts eids0 eids1))
              (owned0 shape counts eids0 eids1))))
        e0 in
    let none1 =
      release_lane-own Cluster.c1 (sort_transfers (on_lane Lane.xdma queues)) mid edges
        (sort_transfers-All (λ t. t.cluster ≡ Cluster.c1) (on_lane Lane.xdma queues)
          (own_lane Cluster.c1 0 (on_lane Lane.xdma queues) (
            subst (All (Owned Cluster.c1 0)) (sym (on_xdma shape counts eids0 eids1))
              (owned1 shape counts eids0 eids1))))
        e1 in
    e ∙ sym (ap ok (none0 ∙ none1))
