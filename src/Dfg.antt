-- ===== src/Dfg.antt =====
-- `BingoDFG` of bingo_dfg.py: the graph with its node objects, and the methods that add nodes and
-- edges. A Python reference to a node object is a number, and the heap maps it to the object.
pub mod DummySets
pub mod Moves
pub mod GroupMoves
pub mod Cerf
pub mod Ends
pub mod DummyChecks
pub mod DepInfo
pub mod Resources
pub mod Conditional
pub mod Tags
pub mod Samples
use he_mai_a.Prelude.{
  ℕ, ◌+◌, ◌-◌, Bool, true, false, Option, none, some, List, [], ◌∷◌, ◌==◌, if◌then◌else◌, foldl,
  Result, ok, err, Error, String, ◌≡◌, Result-cases, arith, inl, inr,
}
use he_mai_a.Prelude.Members.{contains}
use he_mai_a.Node.{BingoNode}
use he_mai_a.Graph.{EdgeData, PolicyValue, no_data, or_none, DiGraph}

-- What `BingoDFG.__init__` fixes. `num_cores_per_cluster` counts the host core already.
pub record Config : Type 0 where
  pub num_chiplets : ℕ
  pub num_clusters_per_chiplet : ℕ
  pub num_cores_per_cluster : ℕ
  pub is_host_as_acc : Bool
  pub chiplet_ids : List ℕ

-- The state of the object. `next_id` is `self.id + 1`; `next_ref` is a reference that no object
-- has yet.
pub record Dfg (G : Type 0) : Type 0 where
  pub graph : G
  pub heap : ℕ → BingoNode
  pub next_ref : ℕ
  pub next_id : ℕ
  pub next_cerf_group : ℕ
  pub node_to_cerf_group : List (ℕ × ℕ)
  pub gating_cerf_mappings : List (ℕ × List ℕ)
  pub resource_sequence_successors : List (ℕ × ℕ)

abbrev pub write : (ℕ → BingoNode) → ℕ → BingoNode → ℕ → BingoNode
write heap r node = λ x. if r == x then node else heap x

-- for item in items: the body may raise.
pub for_each {ℓ κ} : {A : Type ℓ} {S : Type κ} → (A → S → Result S) → List A → S → Result S
for_each body [] s = ok s
for_each body (x ∷ xs) s = elim (body x s) [ ok t ↦ for_each body xs t | err e ↦ err e ]

pub for_each-step {ℓ κ} :
    {A : Type ℓ} {S : Type κ} (body : A → S → Result S) (x : A) (xs : List A) (s t u : S)
    → body x s ≡ ok t
    → for_each body xs t ≡ ok u
    → for_each body (x ∷ xs) s ≡ ok u
unfolding for_each
for_each-step body x xs s t u first rest = rw (for_each, first) rest

-- What a loop that raises nothing passed through.
pub for_each-first {ℓ κ} :
    {A : Type ℓ} {S : Type κ} (body : A → S → Result S) (x : A) (xs : List A) (s u : S)
    → for_each body (x ∷ xs) s ≡ ok u
    → (t : S) × (body x s ≡ ok t) × (for_each body xs t ≡ ok u)
unfolding for_each
for_each-first body x xs s u e = elim (Result-cases (body x s)) [
  | inl (t, first) ↦ (t, first, rw (for_each, first) at e)
  | inr (raised, stop) ↦
      let refused : err raised ≡ ok u = rw (for_each, stop) at e in absurd (ground arith)
]

pub for_each-done {ℓ κ} :
    {A : Type ℓ} {S : Type κ} (body : A → S → Result S) (s t : S)
    → for_each body [] s ≡ ok t
    → s ≡ t
unfolding for_each
for_each-done body s t e = ground arith

module _ (nx : DiGraph) where
  open nx use {Graph, nodes, successors, predecessors, edge_data, add_node, add_edge, remove_edge}

  -- self.has_edge(u, v)
  abbrev pub has_edge : Graph → ℕ → ℕ → Bool
  has_edge g u v = contains (successors g u) v

  -- A new object, not yet in the graph: the reference and the state.
  pub create : BingoNode → Dfg Graph → ℕ × Dfg Graph
  create node s =
      (s.next_ref, record s { heap = write s.heap s.next_ref node; next_ref = s.next_ref + 1 })

  pub bingo_add_node : ℕ → Dfg Graph → Dfg Graph
  bingo_add_node r s = record s {
    next_id = s.next_id + 1;
    heap = write s.heap r (record (s.heap r) { node_id = s.next_id });
    graph = add_node s.graph r;
  }

  -- A policy makes the edge conditional.
  pub bingo_add_edge :
      (from to : ℕ) → Bool → Option (List (String × PolicyValue)) → Dfg Graph → Dfg Graph
  bingo_add_edge from to cond none s = record s {
    graph = add_edge s.graph from to (record no_data { cond = some cond; cond_dic = some [] });
  }
  bingo_add_edge from to cond (some policy) s = record s {
    graph = add_edge s.graph from to (record no_data { cond = some true; cond_dic = some policy });
  }

  -- self.bingo_add_edge(from_node, to_node), as the transformations call it.
  abbrev pub plain_edge : (from to : ℕ) → Dfg Graph → Dfg Graph
  plain_edge from to s = bingo_add_edge from to false none s

  -- The splice behind the test of `bingo_insert_node_between`.
  pub splice : (from to new : ℕ) → Dfg Graph → Dfg Graph
  unfolding bingo_add_node
  splice from to new s =
      let kept = or_none (edge_data s.graph from to) in
      let t = bingo_add_node new s in
      record t {
        graph = add_edge (add_edge (remove_edge t.graph from to) from new no_data) new to kept;
      }

  pub bingo_insert_node_between : (from to new : ℕ) → Dfg Graph → Result (Dfg Graph)
  bingo_insert_node_between from to new s =
      if has_edge s.graph from to then ok (splice from to new s) else err Error.no_edge

  -- The three loops of `bingo_insert_node_after`.
  abbrev pub remove_all : ℕ → List ℕ → Graph → Graph
  remove_all existing [] g = g
  remove_all existing (v ∷ vs) g = remove_all existing vs (remove_edge g existing v)

  abbrev pub add_all : ℕ → List (ℕ × EdgeData) → Graph → Graph
  add_all new [] g = g
  add_all new ((v, d) ∷ vs) g = add_all new vs (add_edge g new v d)

  abbrev pub with_data : Graph → ℕ → List ℕ → List (ℕ × EdgeData)
  with_data g existing [] = []
  with_data g existing (v ∷ vs) = (v, or_none (edge_data g existing v)) ∷ with_data g existing vs

  -- `successors_to_move` holds successors of the existing node.
  pub bingo_insert_node_after : (existing new : ℕ) → List ℕ → Dfg Graph → Dfg Graph
  unfolding bingo_add_node
  bingo_insert_node_after existing new moved s =
      let kept = with_data s.graph existing moved in
      let t = bingo_add_node new s in
      record t {
        graph =
            add_all new kept (add_edge (remove_all existing moved t.graph) existing new no_data);
      }
