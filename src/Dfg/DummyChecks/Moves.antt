-- ===== src/Dfg/DummyChecks/Moves.antt =====
-- What the insertion of dummy checks in front of one node does to the rest of the graph.
use native.Mathlib.Decide.{dec_lt}
use he_mai_a.Prelude.{
  ℕ, ◌+◌, ◌≤◌, ◌<◌, ◌≡◌, refl, sym, ap, ◌∙◌, true, false, not, ◌&&◌, ◌||◌, List, [], ◌∷◌, ◌++◌,
  arith, ◌==◌, ==_refl, if◌then◌else◌, Bool-cases, inl, inr, subst,
}
use he_mai_a.Prelude.Members.{contains, contains-append}
use he_mai_a.Node.{BingoNode, is_dummy_check}
use he_mai_a.Graph.{put, without, contains-put, contains-without, DiGraph}
use he_mai_a.Dfg.{Dfg, create, splice}

module _ (nx : DiGraph) where
  open nx use {Graph, nodes, successors, predecessors, edge_data, add_node, add_edge, remove_edge}

  -- The graph names only references that are in use.
  pub record InUse (s : Dfg Graph) : Type 0 where
    pub nodes_lt : (r : ℕ) → contains (nodes s.graph) r ≡ true → r < s.next_ref
    pub from_lt : (u v : ℕ) → contains (predecessors s.graph v) u ≡ true → u < s.next_ref
    pub to_lt : (u v : ℕ) → contains (predecessors s.graph v) u ≡ true → v < s.next_ref

  -- A dummy check created at or behind the reference `low` stands between the two nodes and waits for
  -- the core of the first one.
  pub record IsGuarded (low : ℕ) (t : Dfg Graph) (cur p : ℕ) : Type 0 where
    pub via : ℕ
    pub is_new : low ≤ via
    pub is_check : is_dummy_check (t.heap via) ≡ true
    pub waits : (t.heap via).dep_check_list ≡ (t.heap p).assigned_core_id ∷ []
    pub to_cur : contains (predecessors t.graph cur) via ≡ true
    pub from_p : contains (predecessors t.graph via) p ≡ true

  -- From `s` to `t` the predecessors `ps` of `cur` were moved behind new dummy checks of `cur`, and nothing
  -- else that was there changed.
  pub record Shifted (s t : Dfg Graph) (cur : ℕ) (ps : List ℕ) : Type 0 where
    pub in_use : InUse t
    pub grows : s.next_ref ≤ t.next_ref
    pub old_nodes : (r : ℕ) → r < s.next_ref → t.heap r ≡ s.heap r
    pub keeps_nodes :
        (r : ℕ) → contains (nodes s.graph) r ≡ true → contains (nodes t.graph) r ≡ true
    pub others :
        (w : ℕ)
        → w < s.next_ref
        → (w == cur) ≡ false
        → predecessors t.graph w ≡ predecessors s.graph w
    pub other_data :
        (u w : ℕ)
        → w < s.next_ref
        → (w == cur) ≡ false
        → edge_data t.graph u w ≡ edge_data s.graph u w
    pub own :
        (x : ℕ)
        → x < s.next_ref
        → contains (predecessors t.graph cur) x
          ≡ contains (predecessors s.graph cur) x && not (contains ps x)
    pub own_data :
        (x : ℕ)
        → x < s.next_ref
        → contains ps x ≡ false
        → edge_data t.graph x cur ≡ edge_data s.graph x cur
    pub new_sources :
        (x : ℕ)
        → s.next_ref ≤ x
        → contains (predecessors t.graph cur) x ≡ true
        → is_dummy_check (t.heap x) ≡ true
    pub guarded : (x : ℕ) → contains ps x ≡ true → IsGuarded s.next_ref t cur x

  pub Shifted-refl : (s : Dfg Graph) (cur : ℕ) → InUse s → Shifted s s cur []
  Shifted-refl s cur b = record {
    in_use = b;
    grows = omega arith;
    old_nodes = λ r h. refl;
    keeps_nodes = λ r m. m;
    others = λ w h ne. refl;
    other_data = λ u w h ne. refl;
    own = λ x h. ground arith;
    own_data = λ x h a. refl;
    new_sources = λ x h m. absurd (omega (arith, b.from_lt x cur m));
    guarded = λ x m. absurd (ground arith);
  }

  IsGuarded-on :
      (low : ℕ) (t u : Dfg Graph) (cur x : ℕ) (ws : List ℕ)
      → cur < low
      → x < t.next_ref
      → ((w : ℕ) → contains ws w ≡ true → w < low)
      → InUse t
      → Shifted t u cur ws
      → IsGuarded low t cur x
      → IsGuarded low u cur x
  IsGuarded-on low t u cur x ws h hx old b m k =
      let early : k.via < t.next_ref = b.from_lt k.via cur k.to_cur in
      let kept : contains ws k.via ≡ false = elim (Bool-cases (contains ws k.via)) [
        | inl e ↦ absurd (omega (arith, old k.via e, k.is_new))
        | inr e ↦ e
      ] in
      record {
        via = k.via;
        is_new = k.is_new;
        is_check = rw (m.old_nodes k.via early) k.is_check;
        waits = rw (m.old_nodes k.via early, m.old_nodes x hx) k.waits;
        to_cur = ground (arith, m.own k.via early, kept, k.to_cur);
        from_p = rw (m.others k.via early (ground (arith, k.is_new))) k.from_p;
      }

  pub Shifted-trans :
      (s t u : Dfg Graph) (cur : ℕ) (ps ws : List ℕ)
      → cur < s.next_ref
      → ((w : ℕ) → contains ps w ≡ true → w < s.next_ref)
      → ((w : ℕ) → contains ws w ≡ true → w < s.next_ref)
      → Shifted s t cur ps
      → Shifted t u cur ws
      → Shifted s u cur (ps ++ ws)
  Shifted-trans s t u cur ps ws h oldp old a b = record {
    in_use = b.in_use;
    grows = omega (arith, a.grows, b.grows);
    old_nodes = λ r hr. b.old_nodes r (omega (arith, a.grows)) ∙ a.old_nodes r hr;
    keeps_nodes = λ r m. b.keeps_nodes r (a.keeps_nodes r m);
    others = λ w hw ne. b.others w (omega (arith, a.grows)) ne ∙ a.others w hw ne;
    other_data = λ v w hw ne. b.other_data v w (omega (arith, a.grows)) ne ∙ a.other_data v w hw ne;
    own = λ x hx.
        ground (arith, b.own x (omega (arith, a.grows)), a.own x hx, contains-append ps ws x);
    own_data = λ x hx out.
        b.own_data x (omega (arith, a.grows)) (ground (arith, contains-append ps ws x))
        ∙ a.own_data x hx (ground (arith, contains-append ps ws x));
    new_sources = λ x hx m. elim (dec_lt x t.next_ref) [
      | yes early ↦ rw (b.old_nodes x early) (a.new_sources x hx (ground (arith, b.own x early)))
      | no late ↦ b.new_sources x (omega arith) m
    ];
    guarded = λ x m. elim (Bool-cases (contains ps x)) [
      | inl e ↦
          IsGuarded-on s.next_ref t u cur x ws h (omega (arith, oldp x e, a.grows)) old a.in_use b
            (a.guarded x e)
      | inr e ↦
          let k = b.guarded x (ground (arith, contains-append ps ws x)) in
          record {
            via = k.via;
            is_new = omega (arith, k.is_new, a.grows);
            is_check = k.is_check;
            waits = k.waits;
            to_cur = k.to_cur;
            from_p = k.from_p;
          }
    ];
  }

  module _ (s : Dfg Graph) (cur p : ℕ) (node : BingoNode) (b : InUse s)
      (edge : contains (predecessors s.graph cur) p ≡ true) (is_check : is_dummy_check node ≡ true)
      (waits : node.dep_check_list ≡ (s.heap p).assigned_core_id ∷ []) where
    abbrev new : ℕ
    new = s.next_ref

    abbrev pub after : Dfg Graph
    after = splice nx p cur new (create nx node s).1

    cur-lt : cur < new
    cur-lt = b.to_lt p cur edge

    p-lt : p < new
    p-lt = b.from_lt p cur edge

    predecessors-after :
        (w : ℕ)
        → predecessors after.graph w ≡ (
            if cur == w
            then put new (without p (predecessors s.graph w))
            else if new == w
            then put p (predecessors s.graph w)
            else predecessors s.graph w)
    unfolding splice create
    predecessors-after w =
        simp (nx.predecessors-add_edge, nx.predecessors-remove_edge, nx.predecessors-add_node)
          (ground (arith, cur-lt))

    no_predecessors : (x : ℕ) → contains (predecessors s.graph new) x ≡ false
    no_predecessors x = elim (Bool-cases (contains (predecessors s.graph new) x)) [
      | inl e ↦ absurd (omega (arith, b.to_lt x new e))
      | inr e ↦ e
    ]

    contains-after :
        (w x : ℕ)
        → contains (predecessors after.graph w) x ≡ (
            if cur == w
            then (contains (predecessors s.graph w) x && not (x == p)) || new == x
            else if new == w
            then p == x
            else contains (predecessors s.graph w) x)
    contains-after w x = rw (predecessors-after w) (
        ground (
          arith,
          contains-put p (predecessors s.graph w) x,
          contains-put new (without p (predecessors s.graph w)) x,
          contains-without p (predecessors s.graph w) x,
          no_predecessors x,
        ))

    data-after :
        (u w : ℕ)
        → (new == u && cur == w) ≡ false
        → (p == u && new == w) ≡ false
        → (p == u && cur == w) ≡ false
        → edge_data after.graph u w ≡ edge_data s.graph u w
    unfolding splice create
    data-after u w a d e =
        simp (nx.edge_data-add_edge, nx.edge_data-remove_edge, nx.edge_data-add_node) (ground arith)

    heap-after : (r : ℕ) → r < new → after.heap r ≡ s.heap r
    unfolding splice create
    heap-after r h = ground arith

    new_type : is_dummy_check (after.heap new) ≡ true
    unfolding splice create
    new_type = ground (arith, is_check, ==_refl new)

    new_waits : (after.heap new).dep_check_list ≡ (s.heap p).assigned_core_id ∷ []
    unfolding splice create
    new_waits = rw (==_refl new) waits

    next_ref-after : after.next_ref ≡ new + 1
    unfolding splice create
    next_ref-after = refl

    contains-nodes-after :
        (r : ℕ)
        → contains (nodes after.graph) r
          ≡ contains (nodes s.graph) r || new == r || p == r || new == r || new == r || cur == r
    unfolding splice create
    contains-nodes-after r =
        simp (nx.nodes-add_edge, nx.nodes-remove_edge, nx.nodes-add_node, contains-put)
          (ground arith)

    InUse-after : InUse after
    InUse-after = record {
      nodes_lt =
          λ r m. ground (arith, next_ref-after, contains-nodes-after r, b.nodes_lt r, cur-lt, p-lt);
      from_lt = λ u v m. ground (arith, next_ref-after, contains-after v u, b.from_lt u v, p-lt);
      to_lt = λ u v m. ground (arith, next_ref-after, contains-after v u, b.to_lt u v, cur-lt);
    }

    after-new_sources :
        (x : ℕ)
        → s.next_ref ≤ x
        → contains (predecessors after.graph cur) x ≡ true
        → is_dummy_check (after.heap x) ≡ true
    after-new_sources x h m =
        let e : x ≡ new =
          ground (arith, contains-after cur x, b.from_lt x cur, cur-lt, ==_refl cur) in
        rw e new_type

    pub after-Shifted : Shifted s after cur (p ∷ [])
    after-Shifted = record {
      in_use = InUse-after;
      grows = omega (arith, next_ref-after);
      old_nodes = heap-after;
      keeps_nodes = λ r m. ground (arith, contains-nodes-after r);
      others = λ w h ne. rw (predecessors-after w) (ground arith);
      other_data = λ u w h ne. data-after u w (ground arith) (ground arith) (ground arith);
      own = λ x h. ground (arith, contains-after cur x, ==_refl cur);
      own_data = λ x h out. data-after x cur (ground arith) (ground (arith, cur-lt)) (ground arith);
      new_sources = after-new_sources;
      guarded = λ x m.
          let same : p ≡ x = ground arith in
          subst (IsGuarded s.next_ref after cur) same record {
            via = new;
            is_new = omega arith;
            is_check = new_type;
            waits = new_waits ∙ ap (λ n. n.assigned_core_id ∷ []) (sym (heap-after p p-lt));
            to_cur = ground (arith, contains-after cur new, ==_refl cur, ==_refl new);
            from_p = ground (arith, contains-after new p, cur-lt, ==_refl new, ==_refl p);
          };
    }
