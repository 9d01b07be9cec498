-- ===== src/Moe/Build/Samples.antt =====
-- The replayed schedule of eight tokens, and a stream of two experts on each cluster.
use he_mai_a.Prelude.{ℕ, ◌≡◌, refl, false, none, List, [], ◌∷◌, ok, All, ◌↔◌, ◌==◌, if◌then◌else◌}
use he_mai_a.Moe.Slot.{
  Shape, Dma, Cluster, Stage, SlotSpec, transfer_of, s1_dma, s3_dma, skip_s3, first_half,
  second_half, task_timeline, dma_intervals,
}
use he_mai_a.Moe.Slot.Timeline.{IsConsistent}
use he_mai_a.Moe.Lanes.{
  Lane, ReleaseEdge, sort_transfers, insert_transfer, insert_edge, release_lane, lane_intervals,
  all_intervals, cross_cluster_dma_release_edges,
}
use he_mai_a.Moe.Lanes.Exclusive.{IsExclusive}
use he_mai_a.Moe.Lanes.Released.{on_lane, release_edges-IsExclusive}
use he_mai_a.Moe.Lanes.Edges.{IsHandover, release_edges-IsHandover}
use he_mai_a.Moe.Build.{
  FixedOrderTask, fixed_order_slot, fixed_order_onto, build_fixed_order_schedule, static_queues,
}
use he_mai_a.Moe.Build.Static.{static_queues-release_edges}

abbrev task : Cluster → (expert ntokens start end : ℕ) → Shape → Dma → Dma → Dma → FixedOrderTask
task cluster expert ntokens start end shape s2_prefetch s1 s3 = record {
  cluster_name = cluster;
  expert_id = expert;
  token_start_rank = 0;
  ntokens = ntokens;
  start_tick = start;
  end_tick = end;
  s1_shape = shape;
  s3_shape = shape;
  s2_prefetch_dma = s2_prefetch;
  s1_dma = s1;
  s3_dma = s3;
  s4_prefetch_dma = Dma.dma_none;
  s4_prefetch_target_eid = none;
  skip_s1 = false;
  skip_s3 = false;
}

-- M8_DISTILLED_HISTORY
abbrev m8_distilled_history : List FixedOrderTask
m8_distilled_history =
    task Cluster.c0 0 6 0 9 Shape.shape_b Dma.dma_idma Dma.dma_idma Dma.dma_none
    ∷ task Cluster.c0 1 4 9 15 Shape.shape_c Dma.dma_none Dma.dma_both Dma.dma_both
    ∷ task Cluster.c1 63 6 0 9 Shape.shape_b Dma.dma_none Dma.dma_xdma Dma.dma_xdma
    ∷ []

abbrev e0 : SlotSpec
e0 =
    fixed_order_slot (task Cluster.c0 0 6 0 9 Shape.shape_b Dma.dma_idma Dma.dma_idma Dma.dma_none)
      0

abbrev e1 : SlotSpec
e1 =
    fixed_order_slot (task Cluster.c0 1 4 9 15 Shape.shape_c Dma.dma_none Dma.dma_both Dma.dma_both)
      1

abbrev e63 : SlotSpec
e63 =
    fixed_order_slot (task Cluster.c1 63 6 0 9 Shape.shape_b Dma.dma_none Dma.dma_xdma Dma.dma_xdma)
      0

m8_queues : build_fixed_order_schedule m8_distilled_history ≡ (e0 ∷ e1 ∷ [], e63 ∷ [])
unfolding build_fixed_order_schedule fixed_order_onto
m8_queues = refl

abbrev queues : List (List SlotSpec)
queues = (e0 ∷ e1 ∷ []) ∷ (e63 ∷ []) ∷ []

abbrev edges : List ReleaseEdge
edges = (transfer_of e63 6 8 Dma.dma_xdma Stage.s3, transfer_of e1 9 11 Dma.dma_both Stage.s1) ∷ []

m8_end : (task_timeline e1 9).task_end ≡ 15
unfolding task_timeline first_half second_half skip_s3 s1_dma s3_dma
m8_end = refl

m8_edges : cross_cluster_dma_release_edges queues ≡ ok edges
unfolding cross_cluster_dma_release_edges release_lane lane_intervals all_intervals dma_intervals
    task_timeline first_half second_half skip_s3 s1_dma s3_dma sort_transfers insert_transfer
    insert_edge
m8_edges = refl

queues-IsConsistent : All (All IsConsistent) queues
unfolding skip_s3 s1_dma s3_dma
queues-IsConsistent = (((refl, refl), ((refl, refl), tt)), (((refl, refl), tt), tt))

release_edges-IsExclusive_example :
    ((edges : List ReleaseEdge) × (cross_cluster_dma_release_edges queues ≡ ok edges))
    ↔ (IsExclusive (on_lane Lane.idma queues) × IsExclusive (on_lane Lane.xdma queues))
release_edges-IsExclusive_example = release_edges-IsExclusive queues queues-IsConsistent

release_edges-IsHandover_example : All IsHandover edges
release_edges-IsHandover_example = release_edges-IsHandover queues edges m8_edges

static_queues-release_edges_example :
    cross_cluster_dma_release_edges
      (static_queues Shape.shape_b (λ e. if e == 0 then 22 else 3) (0 ∷ 3 ∷ []) (1 ∷ 2 ∷ []))
    ≡ ok []
static_queues-release_edges_example =
    static_queues-release_edges Shape.shape_b (λ e. if e == 0 then 22 else 3) (0 ∷ 3 ∷ [])
      (1 ∷ 2 ∷ [])
