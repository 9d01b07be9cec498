-- ===== src/Moe/Lanes.antt =====
-- `cross_cluster_dma_release_edges` of moe_test_schedule.py: the transfers of all slots on the two DMA
-- lanes, and the edges that make one cluster wait for the other.
pub mod Exclusive
pub mod Released
pub mod Edges
use he_mai_a.Prelude.{
  ℕ, Bool, true, false, not, ◌&&◌, ◌||◌, List, [], ◌∷◌, ◌++◌, ltb, leb, ◌==◌, if◌then◌else◌, Result,
  ok, err, Error, ◌>>=◌, keep_if, map,
}
use he_mai_a.Moe.Slot.{Dma, Cluster, SlotSpec, Stage, Transfer, dma_intervals}

-- The bits of a DMA mask.
pub data Lane : Type 0 where
  idma xdma : Lane

-- dma & lane
abbrev pub has_lane : Lane → Dma → Bool
has_lane _ Dma.dma_none = false
has_lane _ Dma.dma_both = true
has_lane Lane.idma Dma.dma_idma = true
has_lane Lane.idma Dma.dma_xdma = false
has_lane Lane.xdma Dma.dma_idma = false
has_lane Lane.xdma Dma.dma_xdma = true

-- The names of clusters and stages in the order of their texts.
abbrev pub cluster_rank : Cluster → ℕ
cluster_rank Cluster.c0 = 0
cluster_rank Cluster.c1 = 1

abbrev pub stage_rank : Stage → ℕ
stage_rank Stage.s1 = 0
stage_rank Stage.s2pf = 1
stage_rank Stage.s3 = 2
stage_rank Stage.s4pf = 3

-- Python's order of tuples of one length.
abbrev pub tuple_before : List ℕ → List ℕ → Bool
tuple_before [] ys = false
tuple_before (x ∷ xs) [] = false
tuple_before (x ∷ xs) (y ∷ ys) = ltb x y || (x == y && tuple_before xs ys)

abbrev pub owner_key : Transfer → List ℕ
owner_key t = cluster_rank t.cluster ∷ t.slot_index ∷ t.expert ∷ stage_rank t.stage ∷ []

abbrev pub transfer_before : Transfer → Transfer → Bool
transfer_before t u =
    tuple_before (t.begin ∷ t.finish ∷ owner_key t) (u.begin ∷ u.finish ∷ owner_key u)

unfoldable pub insert_transfer : Transfer → List Transfer → List Transfer
insert_transfer t [] = t ∷ []
insert_transfer t (u ∷ us) = if transfer_before u t then u ∷ insert_transfer t us else t ∷ u ∷ us

unfoldable pub sort_transfers : List Transfer → List Transfer
sort_transfers [] = []
sort_transfers (t ∷ ts) = insert_transfer t (sort_transfers ts)

-- The end of a transfer of one cluster releases the start of one of the other.
abbrev pub ReleaseEdge : Type 0
ReleaseEdge = Transfer × Transfer

abbrev pub edge_key : ReleaseEdge → List ℕ
edge_key (p, c) = owner_key p ++ owner_key c

-- The source's edge is the keys of both transfers: edges with one key are one.
unfoldable pub insert_edge : ReleaseEdge → List ReleaseEdge → List ReleaseEdge
insert_edge e [] = e ∷ []
insert_edge e (f ∷ fs) =
    if tuple_before (edge_key e) (edge_key f)
    then e ∷ f ∷ fs
    else (if tuple_before (edge_key f) (edge_key e) then f ∷ insert_edge e fs else f ∷ fs)

abbrev pub same_cluster : Transfer → Transfer → Bool
same_cluster p c = cluster_rank p.cluster == cluster_rank c.cluster

-- The loop over neighbours in one lane.
unfoldable pub release_lane : List Transfer → List ReleaseEdge → Result (List ReleaseEdge)
release_lane [] edges = ok edges
release_lane (p ∷ []) edges = ok edges
release_lane (p ∷ (c ∷ rest)) edges =
    if ltb c.begin p.finish
    then err Error.dma_overlap
    else release_lane (c ∷ rest) (if same_cluster p c then edges else insert_edge (p, c) edges)

unfoldable pub lane_intervals : Lane → List Transfer → List Transfer
lane_intervals lane intervals = sort_transfers (keep_if (λ t. has_lane lane t.dma) intervals)

unfoldable pub all_intervals : List (List SlotSpec) → List Transfer
all_intervals [] = []
all_intervals ([] ∷ queues) = all_intervals queues
all_intervals ((slot ∷ slots) ∷ queues) = dma_intervals slot ++ all_intervals (slots ∷ queues)

unfoldable pub cross_cluster_dma_release_edges : List (List SlotSpec) → Result (List ReleaseEdge)
cross_cluster_dma_release_edges queues =
    release_lane (lane_intervals Lane.idma (all_intervals queues)) [] >>= λ edges.
    release_lane (lane_intervals Lane.xdma (all_intervals queues)) edges
