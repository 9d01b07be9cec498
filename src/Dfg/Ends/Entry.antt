-- ===== src/Dfg/Ends/Entry.antt =====
-- What `bingo_transform_dfg_add_entry_node` leaves: one node without predecessors.
use he_mai_a.Prelude.{
  ℕ, ◌≡◌, refl, sym, ap, ◌∙◌, true, false, ◌&&◌, ◌||◌, List, [], ◌∷◌, arith, ◌==◌, ==_refl,
  Bool-cases, inl, inr, subst,
}
use he_mai_a.Prelude.Members.{contains, contains-keep_if}
use he_mai_a.Graph.{DiGraph, put, contains-put}
use he_mai_a.Dfg.{Config, Dfg, create, bingo_add_node, bingo_add_edge, plain_edge}
use he_mai_a.Dfg.Moves.{IsBounded}
use he_mai_a.Dfg.Ends.{
  start_nodes, entry_node, connect_to, is_none_left, bingo_transform_dfg_add_entry_node,
}

is_none_left-member : (xs : List ℕ) (a : ℕ) → contains xs a ≡ true → is_none_left xs ≡ false
is_none_left-member [] a m = absurd (ground arith)
is_none_left-member (x ∷ xs) a m = refl

is_none_left-some : (xs : List ℕ) → is_none_left xs ≡ false → (a : ℕ) × (contains xs a ≡ true)
is_none_left-some [] h = absurd (ground arith)
is_none_left-some (x ∷ xs) h = (x, ground (arith, ==_refl x))

same_member :
    (xs : List ℕ) (a b : ℕ) → contains xs a ≡ true → (a == b) ≡ true → contains xs b ≡ true
same_member xs a b m e = let same : a ≡ b = ground arith in subst (λ x. contains xs x ≡ true) same m

module _ (nx : DiGraph) (c : Config) where
  open nx use {Graph, nodes, successors, predecessors, add_node}

  edge-predecessors :
      (from to : ℕ) (s : Dfg Graph) (v p : ℕ)
      → contains (predecessors (plain_edge nx from to s).graph v) p
        ≡ contains (predecessors s.graph v) p || (to == v && from == p)
  unfolding bingo_add_edge
  edge-predecessors from to s v p =
      rw (nx.predecessors-add_edge s.graph from to _ v)
        (ground (arith, contains-put from (predecessors s.graph v) p))

  edge-nodes :
      (from to : ℕ) (s : Dfg Graph) (r : ℕ)
      → contains (nodes (plain_edge nx from to s).graph) r
        ≡ (contains (nodes s.graph) r || from == r) || to == r
  unfolding bingo_add_edge
  edge-nodes from to s r = rw (nx.nodes-add_edge s.graph from to _) (
      contains-put to (put from (nodes s.graph)) r
      ∙ ap (λ b. b || to == r) (contains-put from (nodes s.graph) r))

  edge-successors :
      (from to : ℕ) (s : Dfg Graph) (w : ℕ)
      → (from == w) ≡ false
      → successors (plain_edge nx from to s).graph w ≡ successors s.graph w
  unfolding bingo_add_edge
  edge-successors from to s w ne = nx.successors-add_edge s.graph from to _ w ∙ (rw ne refl)

  connect-predecessors :
      (from : ℕ) (tos : List ℕ) (s : Dfg Graph) (v p : ℕ)
      → contains (predecessors (connect_to nx c from tos s).graph v) p
        ≡ contains (predecessors s.graph v) p || (contains tos v && from == p)
  connect-predecessors from [] s v p = ground arith
  connect-predecessors from (to ∷ tos) s v p = ground (
    arith,
    connect-predecessors from tos (plain_edge nx from to s) v p,
    edge-predecessors from to s v p,
  )

  connect-nodes :
      (from : ℕ) (tos : List ℕ) (s : Dfg Graph) (r : ℕ)
      → contains (nodes s.graph) from ≡ true
      → ((v : ℕ) → contains tos v ≡ true → contains (nodes s.graph) v ≡ true)
      → contains (nodes (connect_to nx c from tos s).graph) r ≡ contains (nodes s.graph) r
  connect-nodes from [] s r h k = refl
  connect-nodes from (to ∷ tos) s r h k =
      let there : contains (nodes s.graph) to ≡ true = k to (ground (arith, ==_refl to)) in
      let same = λ (x : ℕ). member_same x there in
      connect-nodes from tos (plain_edge nx from to s) r (same from ∙ h)
        (λ v m. same v ∙ k v (ground arith))
      ∙ same r
    where
      member_same :
          (x : ℕ)
          → contains (nodes s.graph) to ≡ true
          → contains (nodes (plain_edge nx from to s).graph) x ≡ contains (nodes s.graph) x
      member_same x there = ground (
        arith,
        edge-nodes from to s x,
        same_member (nodes s.graph) from x h,
        same_member (nodes s.graph) to x there,
      )

  connect-successors :
      (from : ℕ) (tos : List ℕ) (s : Dfg Graph) (w : ℕ)
      → (from == w) ≡ false
      → successors (connect_to nx c from tos s).graph w ≡ successors s.graph w
  connect-successors from [] s w ne = refl
  connect-successors from (to ∷ tos) s w ne =
      connect-successors from tos (plain_edge nx from to s) w ne ∙ edge-successors from to s w ne

  module _ (s : Dfg Graph) (b : IsBounded nx s) where
    abbrev entry : ℕ
    entry = s.next_ref

    -- The graph with the entry node, before its edges.
    abbrev added : Dfg Graph
    added = bingo_add_node nx entry (create nx (entry_node nx c) s).1

    abbrev result : Dfg Graph
    result = connect_to nx c entry (start_nodes nx c s) added

    result_lem : bingo_transform_dfg_add_entry_node nx c s ≡ result
    unfolding bingo_transform_dfg_add_entry_node create
    result_lem = refl

    starts :
        (v : ℕ)
        → contains (start_nodes nx c s) v
          ≡ contains (nodes s.graph) v && is_none_left (predecessors s.graph v)
    starts v = contains-keep_if (λ r. is_none_left (predecessors s.graph r)) (nodes s.graph) v

    added-nodes :
        (r : ℕ) → contains (nodes added.graph) r ≡ contains (nodes s.graph) r || entry == r
    unfolding bingo_add_node create
    added-nodes r =
        ap (λ l. contains l r) (nx.nodes-add_node s.graph entry)
        ∙ contains-put entry (nodes s.graph) r

    added-predecessors : (v : ℕ) → predecessors added.graph v ≡ predecessors s.graph v
    unfolding bingo_add_node create
    added-predecessors v = nx.predecessors-add_node s.graph entry v

    added-successors : (v : ℕ) → successors added.graph v ≡ successors s.graph v
    unfolding bingo_add_node create
    added-successors v = nx.successors-add_node s.graph entry v

    result-nodes :
        (r : ℕ) → contains (nodes result.graph) r ≡ contains (nodes s.graph) r || entry == r
    result-nodes r =
        connect-nodes entry (start_nodes nx c s) added r
          (ground (arith, added-nodes entry, ==_refl entry))
          (λ v m. ground (arith, added-nodes v, starts v))
        ∙ added-nodes r

    result-predecessors :
        (v p : ℕ)
        → contains (predecessors result.graph v) p
          ≡ contains (predecessors s.graph v) p || (contains (start_nodes nx c s) v && entry == p)
    result-predecessors v p =
        connect-predecessors entry (start_nodes nx c s) added v p
        ∙ ap (λ l. contains l p || (contains (start_nodes nx c s) v && entry == p))
            (added-predecessors v)

    nothing_before_entry : (p : ℕ) → contains (predecessors s.graph entry) p ≡ false
    nothing_before_entry p = elim (Bool-cases (contains (predecessors s.graph entry) p)) [
      | inl e ↦
          let edge : contains (successors s.graph p) entry ≡ true =
            nx.successors-edge_data s.graph p entry
            ∙ sym (nx.predecessors-edge_data s.graph p entry)
            ∙ e in
          absurd (omega (arith, b.target_lt p entry edge))
      | inr e ↦ e
    ]

    entry_is_not_start : contains (start_nodes nx c s) entry ≡ false
    entry_is_not_start = elim (Bool-cases (contains (start_nodes nx c s) entry)) [
      | inl e ↦
          let there : contains (nodes s.graph) entry ≡ true = ground (arith, starts entry) in
          absurd (omega (arith, b.nodes_lt entry there))
      | inr e ↦ e
    ]

    has_predecessor :
        (v : ℕ)
        → contains (nodes s.graph) v ≡ true
        → is_none_left (predecessors result.graph v) ≡ false
    has_predecessor v m = elim (Bool-cases (is_none_left (predecessors s.graph v))) [
      | inl e ↦
          is_none_left-member (predecessors result.graph v) entry
            (ground (arith, result-predecessors v entry, starts v, ==_refl entry))
      | inr e ↦
          let (p, old) = is_none_left-some (predecessors s.graph v) e in
          is_none_left-member (predecessors result.graph v) p
            (ground (arith, result-predecessors v p, old))
    ]

    result-successors :
        (w : ℕ) → (entry == w) ≡ false → successors result.graph w ≡ successors s.graph w
    result-successors w ne =
        connect-successors entry (start_nodes nx c s) added w ne ∙ added-successors w

  -- On a graph whose nodes are objects in use, the pass adds one new node; this node has no predecessor,
  -- every other node of the new graph has one, and the other nodes keep their successors.
  pub entry_node-only_source :
      (s : Dfg Graph)
      → IsBounded nx s
      → let t = bingo_transform_dfg_add_entry_node nx c s in
        ((r : ℕ) → contains (nodes t.graph) r ≡ contains (nodes s.graph) r || s.next_ref == r)
        × ((p : ℕ) → contains (predecessors t.graph s.next_ref) p ≡ false)
        × ((v : ℕ)
            → contains (nodes t.graph) v ≡ true
            → (s.next_ref == v) ≡ false
            → is_none_left (predecessors t.graph v) ≡ false)
        × ((w : ℕ) → (s.next_ref == w) ≡ false → successors t.graph w ≡ successors s.graph w)
  entry_node-only_source s b = rw (result_lem s b) (
    result-nodes s b,
    λ p. ground (
      arith,
      result-predecessors s b s.next_ref p,
      nothing_before_entry s b p,
      entry_is_not_start s b,
    ),
    λ v m ne. has_predecessor s b v (ground (arith, result-nodes s b v)),
    result-successors s b,
  )
