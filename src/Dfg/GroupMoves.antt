-- ===== src/Dfg/GroupMoves.antt =====
-- `bingo_insert_node_after`: several successors move behind one new node at once.
use he_mai_a.Prelude.{
  ℕ, ◌+◌, ◌<◌, ◌≡◌, refl, sym, ap, subst, ◌∙◌, true, false, not, ◌&&◌, ◌||◌, List, [], ◌∷◌, arith,
  ◌==◌, ==_refl, Bool-cases, inl, inr,
}
use he_mai_a.Prelude.Members.{contains}
use he_mai_a.Node.{BingoNode, is_dummy_set}
use he_mai_a.Graph.{EdgeData, no_data, put, contains-put, contains-without, DiGraph}
use he_mai_a.Dfg.{Dfg, create, bingo_insert_node_after, remove_all, add_all, with_data}
use he_mai_a.Dfg.Moves.{IsBounded, Moved}

module _ (nx : DiGraph) where
  open nx use {Graph, nodes, successors, predecessors, edge_data, add_node, add_edge, remove_edge}

  abbrev targets : List (ℕ × EdgeData) → List ℕ
  targets [] = []
  targets ((v, d) ∷ ds) = v ∷ targets ds

  targets-with_data : (g : Graph) (cur : ℕ) (vs : List ℕ) → targets (with_data nx g cur vs) ≡ vs
  targets-with_data g cur [] = refl
  targets-with_data g cur (v ∷ vs) = ap (λ (l : List ℕ). v ∷ l) (targets-with_data g cur vs)

  module _ (cur : ℕ) where
    remove_all_other :
        (vs : List ℕ) (g : Graph) (w : ℕ)
        → (cur == w) ≡ false
        → successors (remove_all nx cur vs g) w ≡ successors g w
    remove_all_other [] g w ne = refl
    remove_all_other (v ∷ vs) g w ne =
        remove_all_other vs (remove_edge g cur v) w ne
        ∙ nx.successors-remove_edge g cur v w
        ∙ rw ne refl

    remove_all_own :
        (vs : List ℕ) (g : Graph) (x : ℕ)
        → contains (successors (remove_all nx cur vs g) cur) x
          ≡ contains (successors g cur) x && not (contains vs x)
    remove_all_own [] g x = ground arith
    remove_all_own (v ∷ vs) g x =
        remove_all_own vs (remove_edge g cur v) x
        ∙ rw (nx.successors-remove_edge g cur v cur, ==_refl cur)
            (ground (arith, contains-without v (successors g cur) x))

    remove_all_data :
        (vs : List ℕ) (g : Graph) (w x : ℕ)
        → (cur == w && contains vs x) ≡ false
        → edge_data (remove_all nx cur vs g) w x ≡ edge_data g w x
    remove_all_data [] g w x out = refl
    remove_all_data (v ∷ vs) g w x out =
        remove_all_data vs (remove_edge g cur v) w x (ground arith)
        ∙ nx.edge_data-remove_edge g cur v w x
        ∙ ground arith

    remove_all_nodes : (vs : List ℕ) (g : Graph) → nodes (remove_all nx cur vs g) ≡ nodes g
    remove_all_nodes [] g = refl
    remove_all_nodes (v ∷ vs) g =
        remove_all_nodes vs (remove_edge g cur v) ∙ nx.nodes-remove_edge g cur v

  module _ (new : ℕ) where
    add_all_other :
        (ds : List (ℕ × EdgeData)) (g : Graph) (w : ℕ)
        → (new == w) ≡ false
        → successors (add_all nx new ds g) w ≡ successors g w
    add_all_other [] g w ne = refl
    add_all_other ((v, d) ∷ ds) g w ne =
        add_all_other ds (add_edge g new v d) w ne ∙ nx.successors-add_edge g new v d w ∙ rw ne refl

    add_all_own :
        (ds : List (ℕ × EdgeData)) (g : Graph) (x : ℕ)
        → contains (successors (add_all nx new ds g) new) x
          ≡ contains (successors g new) x || contains (targets ds) x
    add_all_own [] g x = ground arith
    add_all_own ((v, d) ∷ ds) g x =
        add_all_own ds (add_edge g new v d) x
        ∙ rw (nx.successors-add_edge g new v d new, ==_refl new)
            (ground (arith, contains-put v (successors g new) x))

    add_all_data :
        (ds : List (ℕ × EdgeData)) (g : Graph) (w x : ℕ)
        → (new == w) ≡ false
        → edge_data (add_all nx new ds g) w x ≡ edge_data g w x
    add_all_data [] g w x ne = refl
    add_all_data ((v, d) ∷ ds) g w x ne =
        add_all_data ds (add_edge g new v d) w x ne
        ∙ nx.edge_data-add_edge g new v d w x
        ∙ rw ne refl

    add_all_nodes :
        (ds : List (ℕ × EdgeData)) (g : Graph) (r : ℕ)
        → contains (nodes (add_all nx new ds g)) r ≡ true
        → contains (nodes g) r || new == r || contains (targets ds) r ≡ true
    add_all_nodes [] g r m = ground arith
    add_all_nodes ((v, d) ∷ ds) g r m =
        let later = add_all_nodes ds (add_edge g new v d) r m in
        ground (
          arith,
          later,
          ap (λ l. contains l r) (nx.nodes-add_edge g new v d),
          contains-put v (put new (nodes g)) r,
          contains-put new (nodes g) r,
        )

    add_all-keeps :
        (ds : List (ℕ × EdgeData)) (g : Graph) (r : ℕ)
        → contains (nodes g) r ≡ true
        → contains (nodes (add_all nx new ds g)) r ≡ true
    add_all-keeps [] g r m = m
    add_all-keeps ((v, d) ∷ ds) g r m = add_all-keeps ds (add_edge g new v d) r (
        ground (
          arith,
          ap (λ l. contains l r) (nx.nodes-add_edge g new v d),
          contains-put v (put new (nodes g)) r,
          contains-put new (nodes g) r,
        ))

  module _ (s : Dfg Graph) (cur : ℕ) (vs : List ℕ) (node : BingoNode) (b : IsBounded nx s)
      (cur-lt : cur < s.next_ref)
      (edges : (v : ℕ) → contains vs v ≡ true → contains (successors s.graph cur) v ≡ true)
      (is_set : is_dummy_set node ≡ true) where
    abbrev new : ℕ
    new = s.next_ref

    abbrev pub group_after : Dfg Graph
    group_after = bingo_insert_node_after nx cur new vs (create nx node s).1

    v-lt : (v : ℕ) → contains vs v ≡ true → v < new
    v-lt v m = b.target_lt cur v (edges v m)

    group_others :
        (w : ℕ)
        → (new == w) ≡ false
        → (w == cur) ≡ false
        → successors group_after.graph w ≡ successors s.graph w
    unfolding bingo_insert_node_after create
    group_others w h ne =
        add_all_other new (with_data nx s.graph cur vs) _ w h
        ∙ nx.successors-add_edge _ cur new no_data w
        ∙ rw (not_cur w ne)
            (remove_all_other cur vs _ w (not_cur w ne) ∙ nx.successors-add_node s.graph new w)
      where
        not_cur : (w : ℕ) → (w == cur) ≡ false → (cur == w) ≡ false
        not_cur w ne = ground arith

    group_own :
        (x : ℕ)
        → contains (successors group_after.graph cur) x
          ≡ contains (successors s.graph cur) x && not (contains vs x) || new == x
    unfolding bingo_insert_node_after create
    group_own x =
        ap (λ l. contains l x)
          (add_all_other new (with_data nx s.graph cur vs) _ cur (ground (arith, cur-lt))
            ∙ nx.successors-add_edge _ cur new no_data cur
            ∙ rw (==_refl cur) refl)
        ∙ contains-put new _ x
        ∙ ap (λ c. c || new == x)
            (remove_all_own cur vs _ x
              ∙ ap (λ l. contains l x && not (contains vs x))
                  (nx.successors-add_node s.graph new cur))

    nothing_at_new : (x : ℕ) → contains (successors s.graph new) x ≡ false
    nothing_at_new x = elim (Bool-cases (contains (successors s.graph new) x)) [
      | inl e ↦ absurd (omega (arith, b.source_lt new x e))
      | inr e ↦ e
    ]

    group_new : (x : ℕ) → contains (successors group_after.graph new) x ≡ contains vs x
    unfolding bingo_insert_node_after create
    group_new x =
        let apart : (cur == new) ≡ false = ground (arith, cur-lt) in
        let g = remove_all nx cur vs (add_node s.graph new) in
        let before : successors (add_edge g cur new no_data) new ≡ successors s.graph new =
          nx.successors-add_edge g cur new no_data new
          ∙ (rw apart (
              remove_all_other cur vs (add_node s.graph new) new apart
              ∙ nx.successors-add_node s.graph new new)) in
        add_all_own new (with_data nx s.graph cur vs) _ x
        ∙ ap (λ l. contains l x || contains (targets (with_data nx s.graph cur vs)) x) before
        ∙ rw (nothing_at_new x) (ap (λ l. contains l x) (targets-with_data s.graph cur vs))

    group_data :
        (w x : ℕ)
        → w < new
        → (cur == w && new == x) ≡ false
        → (cur == w && contains vs x) ≡ false
        → edge_data group_after.graph w x ≡ edge_data s.graph w x
    unfolding bingo_insert_node_after create
    group_data w x h a e =
        add_all_data new (with_data nx s.graph cur vs) _ w x (ground arith)
        ∙ nx.edge_data-add_edge _ cur new no_data w x
        ∙ rw a (remove_all_data cur vs _ w x e ∙ nx.edge_data-add_node s.graph new w x)

    group_heap : (r : ℕ) → r < new → group_after.heap r ≡ s.heap r
    unfolding bingo_insert_node_after create
    group_heap r h = ground arith

    group_type : is_dummy_set (group_after.heap new) ≡ true
    unfolding bingo_insert_node_after create
    group_type = ground (arith, is_set, ==_refl new)

    group_next : group_after.next_ref ≡ new + 1
    unfolding bingo_insert_node_after create
    group_next = refl

    group_nodes :
        (r : ℕ)
        → contains (nodes group_after.graph) r ≡ true
        → contains (nodes s.graph) r || new == r || cur == r || contains vs r ≡ true
    unfolding bingo_insert_node_after create
    group_nodes r m = ground (
      arith,
      add_all_nodes new (with_data nx s.graph cur vs) _ r m,
      ap (λ l. contains l r) (targets-with_data s.graph cur vs),
      ap (λ l. contains l r)
          (nx.nodes-add_edge (remove_all nx cur vs (add_node s.graph new)) cur new no_data),
      contains-put new (put cur (nodes (remove_all nx cur vs (add_node s.graph new)))) r,
      contains-put cur (nodes (remove_all nx cur vs (add_node s.graph new))) r,
      ap (λ l. contains l r)
          (remove_all_nodes cur vs (add_node s.graph new) ∙ nx.nodes-add_node s.graph new),
      contains-put new (nodes s.graph) r,
    )

    from_cur : (w : ℕ) → contains (successors group_after.graph cur) w ≡ true → w < new + 1
    from_cur w m = ground (arith, group_own w, b.target_lt cur w)

    from_new : (w : ℕ) → contains (successors group_after.graph new) w ≡ true → w < new + 1
    from_new w m = ground (arith, group_new w, v-lt w)

    from_other :
        (u w : ℕ)
        → (new == u) ≡ false
        → (u == cur) ≡ false
        → contains (successors group_after.graph u) w ≡ true
        → (u < new + 1) × (w < new + 1)
    from_other u w a c m =
        let old : contains (successors s.graph u) w ≡ true =
          sym (ap (λ l. contains l w) (group_others u a c)) ∙ m in
        (omega (arith, b.source_lt u w old), omega (arith, b.target_lt u w old))

    group_keeps :
        (r : ℕ) → contains (nodes s.graph) r ≡ true → contains (nodes group_after.graph) r ≡ true
    unfolding bingo_insert_node_after create
    group_keeps r m = add_all-keeps new (with_data nx s.graph cur vs) _ r (
        ground (
          arith,
          ap (λ l. contains l r)
              (nx.nodes-add_edge (remove_all nx cur vs (add_node s.graph new)) cur new no_data),
          contains-put new (put cur (nodes (remove_all nx cur vs (add_node s.graph new)))) r,
          contains-put cur (nodes (remove_all nx cur vs (add_node s.graph new))) r,
          ap (λ l. contains l r)
              (remove_all_nodes cur vs (add_node s.graph new) ∙ nx.nodes-add_node s.graph new),
          contains-put new (nodes s.graph) r,
        ))

    -- An edge of the new graph joins references in use or the new one.
    group_edges_lt :
        (u w : ℕ)
        → contains (successors group_after.graph u) w ≡ true
        → (u < new + 1) × (w < new + 1)
    group_edges_lt u w m = elim (Bool-cases (u == cur)) [
      | inl e ↦
          let same : u ≡ cur = ground arith in
          let moved = subst (λ a. contains (successors group_after.graph a) w ≡ true) same m in
          (omega (arith, cur-lt), from_cur w moved)
      | inr e ↦ elim (Bool-cases (new == u)) [
        | inl a ↦
            let same : u ≡ new = ground arith in
            let moved = subst (λ a. contains (successors group_after.graph a) w ≡ true) same m in
            (omega arith, from_new w moved)
        | inr a ↦ from_other u w a e m
      ]
    ]

    pub group-Moved : Moved nx s group_after cur vs
    group-Moved = record {
      bounded = record {
        nodes_lt = λ r m. ground (arith, group_next, group_nodes r m, b.nodes_lt r, cur-lt, v-lt r);
        source_lt = λ u w m. omega (arith, group_next, (group_edges_lt u w m).0);
        target_lt = λ u w m. omega (arith, group_next, (group_edges_lt u w m).1);
      };
      grows = omega (arith, group_next);
      keeps_nodes = group_keeps;
      old_nodes = group_heap;
      others = λ w h. group_others w (ground arith);
      other_data = λ w x h ne. group_data w x h (ground arith) (ground arith);
      own = λ x h. ground (arith, group_own x);
      own_data = λ x h out. group_data cur x cur-lt (ground arith) (ground arith);
      new_targets = λ x h m.
          let e : x ≡ new = ground (arith, group_own x, b.target_lt cur x) in rw e group_type;
      carried = λ x m. record {
        via = new;
        is_new = omega arith;
        is_set = group_type;
        to_via = ground (arith, group_own new);
        from_via = group_new x ∙ m;
      };
    }
