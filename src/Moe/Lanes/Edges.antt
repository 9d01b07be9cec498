-- ===== src/Moe/Lanes/Edges.antt =====
-- What the release edges order.
use he_mai_a.Prelude.{
  ◌≤◌, ◌≡◌, true, false, List, [], ◌∷◌, arith, ok, inl, inr, All, Bool-cases, keep_if, >>=-eq-ok,
  subst, ltb, if◌then◌else◌,
}
use he_mai_a.Moe.Slot.{SlotSpec, Transfer}
use he_mai_a.Moe.Lanes.{
  Lane, has_lane, sort_transfers, ReleaseEdge, insert_edge, edge_key, tuple_before, same_cluster,
  release_lane, lane_intervals, all_intervals, cross_cluster_dma_release_edges,
}
use he_mai_a.Moe.Lanes.Exclusive.{sort_transfers-All}
use he_mai_a.Moe.Lanes.Released.{on_lane}

-- What an edge says: a transfer of one cluster ends before one of the other begins, on a lane that
-- both use.
abbrev pub IsHandover : ReleaseEdge → Type 0
IsHandover (p, c) =
    (p.finish ≤ c.begin)
    × (same_cluster p c ≡ false)
    × ((lane : Lane) × (has_lane lane p.dma ≡ true) × (has_lane lane c.dma ≡ true))

insert_edge-All :
    (P : ReleaseEdge → Type 0) (e : ReleaseEdge) (es : List ReleaseEdge)
    → P e
    → All P es
    → All P (insert_edge e es)
unfolding insert_edge
insert_edge-All P e [] p h = (p, tt)
insert_edge-All P e (f ∷ fs) p h = elim (Bool-cases (tuple_before (edge_key e) (edge_key f))) [
  | inl before ↦ rw before (p, h)
  | inr other ↦ elim (Bool-cases (tuple_before (edge_key f) (edge_key e))) [
    | inl after ↦ rw (other, after) (h.0, insert_edge-All P e fs p h.1)
    | inr same ↦ rw (other, same) h
  ]
]

release_lane-IsHandover :
    (lane : Lane) (ts : List Transfer) (edges found : List ReleaseEdge)
    → All (λ t. has_lane lane t.dma ≡ true) ts
    → All IsHandover edges
    → release_lane ts edges ≡ ok found
    → All IsHandover found
unfolding release_lane
release_lane-IsHandover lane [] edges found on h e =
    let same : edges ≡ found = cc in subst (All IsHandover) same h
release_lane-IsHandover lane (p ∷ []) edges found on h e =
    let same : edges ≡ found = cc in subst (All IsHandover) same h
release_lane-IsHandover lane (p ∷ (c ∷ rest)) edges found on h e =
    elim (Bool-cases (ltb c.begin p.finish)) [
      | inl clash ↦ absurd (ground arith)
      | inr free ↦
          let le : p.finish ≤ c.begin = ground arith in
          let next = if same_cluster p c then edges else insert_edge (p, c) edges in
          let known : All IsHandover next = elim (Bool-cases (same_cluster p c)) [
            | inl own ↦ rw own h
            | inr other ↦
                rw other
                  (insert_edge-All IsHandover (p, c) edges (le, other, (lane, on.0, on.1.0)) h)
          ] in
          release_lane-IsHandover lane (c ∷ rest) next found on.1 known (rw free at e)
    ]

kept_on :
    (lane : Lane) (ts : List Transfer)
    → All (λ t. has_lane lane t.dma ≡ true) (keep_if (λ t. has_lane lane t.dma) ts)
kept_on lane [] = tt
kept_on lane (t ∷ ts) = elim (Bool-cases (has_lane lane t.dma)) [
  | inl e ↦ rw e (e, kept_on lane ts)
  | inr e ↦ rw e (kept_on lane ts)
]

-- Every release edge leads from a transfer of one cluster to a transfer of the other that begins no
-- earlier than the first ends, on a DMA lane that both use.
pub release_edges-IsHandover :
    (queues : List (List SlotSpec)) (edges : List ReleaseEdge)
    → cross_cluster_dma_release_edges queues ≡ ok edges
    → All IsHandover edges
unfolding cross_cluster_dma_release_edges lane_intervals
release_edges-IsHandover queues edges e =
    let on = λ (lane : Lane).
      sort_transfers-All (λ t. has_lane lane t.dma ≡ true) (on_lane lane queues)
        (kept_on lane (all_intervals queues)) in
    let (first, e1, e2) =
      >>=-eq-ok (release_lane (lane_intervals Lane.idma (all_intervals queues)) [])
        (λ edges. release_lane (lane_intervals Lane.xdma (all_intervals queues)) edges) e in
    release_lane-IsHandover Lane.xdma (sort_transfers (on_lane Lane.xdma queues)) first edges
      (on Lane.xdma)
      (release_lane-IsHandover Lane.idma (sort_transfers (on_lane Lane.idma queues)) [] first
        (on Lane.idma) tt e1)
      e2
