-- ===== src/Dfg/Moves.antt =====
-- What the insertion of nodes behind one node does to the rest of the graph.
use native.Mathlib.Decide.{dec_lt}
use he_mai_a.Prelude.{
  ℕ, ◌+◌, ◌≤◌, ◌<◌, ◌≡◌, refl, ◌∙◌, true, false, not, ◌&&◌, ◌||◌, List, [], ◌∷◌, ◌++◌, arith, ◌==◌,
  if◌then◌else◌, ==_refl, Bool-cases, inl, inr,
}
use he_mai_a.Prelude.Members.{contains, contains-append}
use he_mai_a.Node.{BingoNode, is_dummy_set}
use he_mai_a.Graph.{put, without, contains-put, contains-without, DiGraph}
use he_mai_a.Dfg.{Dfg, create, splice}

module _ (nx : DiGraph) where
  open nx use {Graph, nodes, successors, predecessors, edge_data, add_node, add_edge, remove_edge}

  -- The graph names only references that are in use.
  pub record IsBounded (s : Dfg Graph) : Type 0 where
    pub nodes_lt : (r : ℕ) → contains (nodes s.graph) r ≡ true → r < s.next_ref
    pub source_lt : (u v : ℕ) → contains (successors s.graph u) v ≡ true → u < s.next_ref
    pub target_lt : (u v : ℕ) → contains (successors s.graph u) v ≡ true → v < s.next_ref

  -- A dummy set created at or behind the reference `low` stands between the two nodes.
  pub record IsCarried (low : ℕ) (t : Dfg Graph) (cur x : ℕ) : Type 0 where
    pub via : ℕ
    pub is_new : low ≤ via
    pub is_set : is_dummy_set (t.heap via) ≡ true
    pub to_via : contains (successors t.graph cur) via ≡ true
    pub from_via : contains (successors t.graph via) x ≡ true

  -- From `s` to `t` the successors `vs` of `cur` were moved behind new dummy sets of `cur`, and nothing
  -- else that was there changed.
  pub record Moved (s t : Dfg Graph) (cur : ℕ) (vs : List ℕ) : Type 0 where
    pub bounded : IsBounded t
    pub grows : s.next_ref ≤ t.next_ref
    pub keeps_nodes :
        (r : ℕ) → contains (nodes s.graph) r ≡ true → contains (nodes t.graph) r ≡ true
    pub old_nodes : (r : ℕ) → r < s.next_ref → t.heap r ≡ s.heap r
    pub others :
        (w : ℕ) → w < s.next_ref → (w == cur) ≡ false → successors t.graph w ≡ successors s.graph w
    pub other_data :
        (w x : ℕ)
        → w < s.next_ref
        → (w == cur) ≡ false
        → edge_data t.graph w x ≡ edge_data s.graph w x
    pub own :
        (x : ℕ)
        → x < s.next_ref
        → contains (successors t.graph cur) x
          ≡ contains (successors s.graph cur) x && not (contains vs x)
    pub own_data :
        (x : ℕ)
        → x < s.next_ref
        → contains vs x ≡ false
        → edge_data t.graph cur x ≡ edge_data s.graph cur x
    pub new_targets :
        (x : ℕ)
        → s.next_ref ≤ x
        → contains (successors t.graph cur) x ≡ true
        → is_dummy_set (t.heap x) ≡ true
    pub carried : (x : ℕ) → contains vs x ≡ true → IsCarried s.next_ref t cur x

  pub Moved-refl : (s : Dfg Graph) (cur : ℕ) → IsBounded s → Moved s s cur []
  Moved-refl s cur b = record {
    bounded = b;
    grows = omega arith;
    keeps_nodes = λ r m. m;
    old_nodes = λ r h. refl;
    others = λ w h ne. refl;
    other_data = λ w x h ne. refl;
    own = λ x h. ground arith;
    own_data = λ x h a. refl;
    new_targets = λ x h m. absurd (omega (arith, b.target_lt cur x m));
    carried = λ x m. absurd (ground arith);
  }

  -- Later moves of old successors of the same node leave what is carried in place.
  IsCarried-on :
      (low : ℕ) (t u : Dfg Graph) (cur x : ℕ) (ws : List ℕ)
      → cur < low
      → ((w : ℕ) → contains ws w ≡ true → w < low)
      → IsBounded t
      → Moved t u cur ws
      → IsCarried low t cur x
      → IsCarried low u cur x
  IsCarried-on low t u cur x ws h old b m k =
      let early : k.via < t.next_ref = b.target_lt cur k.via k.to_via in
      let kept : contains ws k.via ≡ false = elim (Bool-cases (contains ws k.via)) [
        | inl e ↦ absurd (omega (arith, old k.via e, k.is_new))
        | inr e ↦ e
      ] in
      record {
        via = k.via;
        is_new = k.is_new;
        is_set = rw (m.old_nodes k.via early) k.is_set;
        to_via = ground (arith, m.own k.via early, kept, k.to_via);
        from_via = rw (m.others k.via early (ground (arith, k.is_new))) k.from_via;
      }

  pub Moved-trans :
      (s t u : Dfg Graph) (cur : ℕ) (vs ws : List ℕ)
      → cur < s.next_ref
      → ((w : ℕ) → contains ws w ≡ true → w < s.next_ref)
      → Moved s t cur vs
      → Moved t u cur ws
      → Moved s u cur (vs ++ ws)
  Moved-trans s t u cur vs ws h old a b = record {
    bounded = b.bounded;
    grows = omega (arith, a.grows, b.grows);
    keeps_nodes = λ r m. b.keeps_nodes r (a.keeps_nodes r m);
    old_nodes = λ r hr. b.old_nodes r (omega (arith, a.grows)) ∙ a.old_nodes r hr;
    others = λ w hw ne. b.others w (omega (arith, a.grows)) ne ∙ a.others w hw ne;
    other_data = λ w x hw ne. b.other_data w x (omega (arith, a.grows)) ne ∙ a.other_data w x hw ne;
    own = λ x hx.
        ground (arith, b.own x (omega (arith, a.grows)), a.own x hx, contains-append vs ws x);
    own_data = λ x hx out.
        b.own_data x (omega (arith, a.grows)) (ground (arith, contains-append vs ws x))
        ∙ a.own_data x hx (ground (arith, contains-append vs ws x));
    new_targets = λ x hx m. elim (dec_lt x t.next_ref) [
      | yes early ↦ rw (b.old_nodes x early) (a.new_targets x hx (ground (arith, b.own x early)))
      | no late ↦ b.new_targets x (omega arith) m
    ];
    carried = λ x m. elim (Bool-cases (contains vs x)) [
      | inl e ↦ IsCarried-on s.next_ref t u cur x ws h old a.bounded b (a.carried x e)
      | inr e ↦
          let k = b.carried x (ground (arith, contains-append vs ws x)) in
          record {
            via = k.via;
            is_new = omega (arith, k.is_new, a.grows);
            is_set = k.is_set;
            to_via = k.to_via;
            from_via = k.from_via;
          }
    ];
  }

  module _ (s : Dfg Graph) (cur v : ℕ) (node : BingoNode) (b : IsBounded s)
      (edge : contains (successors s.graph cur) v ≡ true) (is_set : is_dummy_set node ≡ true) where
    abbrev pub new : ℕ
    new = s.next_ref

    abbrev pub after : Dfg Graph
    after = splice nx cur v new (create nx node s).1

    cur-lt : cur < new
    cur-lt = b.source_lt cur v edge

    v-lt : v < new
    v-lt = b.target_lt cur v edge

    successors-after :
        (w : ℕ)
        → successors after.graph w ≡ (
            if new == w
            then put v (successors s.graph w)
            else if cur == w
            then put new (without v (successors s.graph w))
            else successors s.graph w)
    unfolding splice create
    successors-after w =
        simp (nx.successors-add_edge, nx.successors-remove_edge, nx.successors-add_node)
          (ground (arith, cur-lt))

    -- No edge starts at a reference that is not in use.
    no_successors : (x : ℕ) → contains (successors s.graph new) x ≡ false
    no_successors x = elim (Bool-cases (contains (successors s.graph new) x)) [
      | inl e ↦ absurd (omega (arith, b.source_lt new x e))
      | inr e ↦ e
    ]

    contains-after :
        (w x : ℕ)
        → contains (successors after.graph w) x ≡ (
            if new == w
            then v == x
            else if cur == w
            then new == x || contains (successors s.graph w) x && not (x == v)
            else contains (successors s.graph w) x)
    contains-after w x = rw (successors-after w) (
        ground (
          arith,
          contains-put v (successors s.graph w) x,
          contains-put new (without v (successors s.graph w)) x,
          contains-without v (successors s.graph w) x,
          no_successors x,
        ))

    data-after :
        (w x : ℕ)
        → (new == w && v == x) ≡ false
        → (cur == w && new == x) ≡ false
        → (cur == w && v == x) ≡ false
        → edge_data after.graph w x ≡ edge_data s.graph w x
    unfolding splice create
    data-after w x a c e =
        simp (nx.edge_data-add_edge, nx.edge_data-remove_edge, nx.edge_data-add_node) (ground arith)

    heap-after : (r : ℕ) → r < new → after.heap r ≡ s.heap r
    unfolding splice create
    heap-after r h = ground arith

    new_type : is_dummy_set (after.heap new) ≡ true
    unfolding splice create
    new_type = ground (arith, is_set, ==_refl new)

    next_ref-after : after.next_ref ≡ new + 1
    unfolding splice create
    next_ref-after = refl

    contains-nodes-after :
        (r : ℕ)
        → contains (nodes after.graph) r
          ≡ contains (nodes s.graph) r || new == r || cur == r || new == r || new == r || v == r
    unfolding splice create
    contains-nodes-after r =
        simp (nx.nodes-add_edge, nx.nodes-remove_edge, nx.nodes-add_node, contains-put)
          (ground arith)

    IsBounded-after : IsBounded after
    IsBounded-after = record {
      nodes_lt =
          λ r m. ground (arith, next_ref-after, contains-nodes-after r, b.nodes_lt r, cur-lt, v-lt);
      source_lt =
          λ u w m. ground (arith, next_ref-after, contains-after u w, b.source_lt u w, cur-lt);
      target_lt =
          λ u w m. ground (arith, next_ref-after, contains-after u w, b.target_lt u w, v-lt);
    }

    after-new_targets :
        (x : ℕ)
        → s.next_ref ≤ x
        → contains (successors after.graph cur) x ≡ true
        → is_dummy_set (after.heap x) ≡ true
    after-new_targets x h m =
        let e : x ≡ new = ground (arith, contains-after cur x, b.target_lt cur x, cur-lt) in
        rw e new_type

    pub after-Moved : Moved s after cur (v ∷ [])
    after-Moved = record {
      bounded = IsBounded-after;
      grows = omega (arith, next_ref-after);
      keeps_nodes = λ r m. ground (arith, contains-nodes-after r);
      old_nodes = heap-after;
      others = λ w h ne. rw (successors-after w) (ground arith);
      other_data = λ w x h ne. data-after w x (ground arith) (ground arith) (ground arith);
      own = λ x h. ground (arith, contains-after cur x, cur-lt);
      own_data = λ x h out. data-after cur x (ground (arith, cur-lt)) (ground arith) (ground arith);
      new_targets = after-new_targets;
      carried = λ x m. record {
        via = new;
        is_new = omega arith;
        is_set = new_type;
        to_via = ground (arith, contains-after cur new, cur-lt);
        from_via = ground (arith, contains-after new x);
      };
    }
