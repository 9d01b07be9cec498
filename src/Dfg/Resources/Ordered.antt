-- ===== src/Dfg/Resources/Ordered.antt =====
-- The order of tasks on one resource after `bingo_transform_add_resource_sequencing_edges`.
use he_mai_a.Prelude.{
  ℕ, ◌≡◌, refl, sym, ap, ◌∙◌, Bool, true, false, not, ◌&&◌, ◌||◌, List, [], ◌∷◌, ◌++◌, arith, ◌==◌,
  ==_refl, if◌then◌else◌, foldl, Bool-cases, inl, inr, subst, ok,
}
use he_mai_a.Prelude.Members.{contains, contains-append}
use he_mai_a.Node.{BingoNode}
use he_mai_a.Graph.{DiGraph}
use he_mai_a.Graph.Paths.{
  Algorithms, Reaches, here, along, add_edge-Reaches, new_edge-Reaches, Reaches-trans,
}
use he_mai_a.Dfg.{Dfg, has_edge}
use he_mai_a.Dfg.Resources.{
  Place, place, same_place, add_to_place, group_by_place, pairs, all_pairs, sequence_pair,
  bingo_transform_add_resource_sequencing_edges,
}

abbrev same_pair : ℕ × ℕ → ℕ × ℕ → Bool
same_pair (a, b) (x, y) = a == x && b == y

abbrev has_pair : List (ℕ × ℕ) → ℕ × ℕ → Bool
has_pair [] p = false
has_pair (q ∷ qs) p = same_pair q p || has_pair qs p

has_pair-append :
    (xs ys : List (ℕ × ℕ)) (p : ℕ × ℕ) → has_pair (xs ++ ys) p ≡ has_pair xs p || has_pair ys p
has_pair-append [] ys p = refl
has_pair-append (x ∷ xs) ys p = ground (arith, has_pair-append xs ys p)

abbrev last_from : ℕ → List ℕ → ℕ
last_from x [] = x
last_from x (y ∷ ys) = last_from y ys

-- One more item brings one more pair.
pairs-append_one :
    (x : ℕ) (xs : List ℕ) (r : ℕ) (p : ℕ × ℕ)
    → has_pair (pairs (x ∷ xs ++ r ∷ [])) p
      ≡ has_pair (pairs (x ∷ xs)) p || same_pair (last_from x xs, r) p
pairs-append_one x [] r p = ground arith
pairs-append_one x (y ∷ ys) r p = ground (arith, pairs-append_one y ys r p)

-- The item is in the group of the place, the first one with it.
abbrev is_in_group : List (Place × List ℕ) → Place → ℕ → Bool
is_in_group [] p a = false
is_in_group ((q, group) ∷ rest) p a =
    let others = is_in_group rest p a in if same_place p q then contains group a else others

same_place_refl : (p : Place) → same_place p p ≡ true
same_place_refl (a, b, d) = ground (arith, ==_refl a, ==_refl b, ==_refl d)

same_place-swap : (p q r : Place) → same_place p q ≡ true → same_place p r ≡ same_place q r
same_place-swap (a, b, d) (a', b', d') (x, y, z) e = ground arith

-- The first item comes before the second one in the list.
pub data Before (a b : ℕ) : List ℕ → Type 0 where
  first : (xs : List ℕ) → contains xs b ≡ true → Before a b (a ∷ xs)
  later : (x : ℕ) (xs : List ℕ) → Before a b xs → Before a b (x ∷ xs)

module _ (R : ℕ → ℕ → Type 0) (refl_R : (a : ℕ) → R a a)
    (trans_R : (a b d : ℕ) → R a b → R b d → R a d) where
  -- Where all pairs are related, each item is related to the last.
  to_last :
      (x : ℕ) (xs : List ℕ) (a : ℕ)
      → ((u v : ℕ) → has_pair (pairs (x ∷ xs)) (u, v) ≡ true → R u v)
      → contains (x ∷ xs) a ≡ true
      → R a (last_from x xs)
  to_last x [] a h m = let e : x ≡ a = ground arith in subst (λ y. R y x) e (refl_R x)
  to_last x (y ∷ ys) a h m = elim (Bool-cases (x == a)) [
    | inl e ↦
        let same : x ≡ a = ground arith in
        subst (λ z. R z (last_from y ys)) same
          (trans_R x y (last_from y ys) (h x y (ground (arith, ==_refl x, ==_refl y)))
            (to_last y ys y (λ u v m2. h u v (ground arith)) (ground (arith, ==_refl y))))
    | inr e ↦ to_last y ys a (λ u v m2. h u v (ground arith)) (ground arith)
  ]

-- What adding an item to its group does to the groups.
grows_pairs :
    (p : Place) (r : ℕ) (gs : List (Place × List ℕ)) (q : ℕ × ℕ)
    → has_pair (all_pairs gs) q ≡ true
    → has_pair (all_pairs (add_to_place p r gs)) q ≡ true
unfolding add_to_place
grows_pairs p r [] q m = absurd (ground arith)
grows_pairs p r ((p', []) ∷ rest) q m = elim (Bool-cases (same_place p p')) [
  | inl e ↦ rw e m
  | inr e ↦ rw e (grows_pairs p r rest q m)
]
grows_pairs p r ((p', x ∷ xs) ∷ rest) q m =
    let split = has_pair-append (pairs (x ∷ xs)) (all_pairs rest) q in
    elim (Bool-cases (same_place p p')) [
      | inl e ↦ rw e (
          ground (
            arith,
            m,
            split,
            has_pair-append (pairs (x ∷ xs ++ r ∷ [])) (all_pairs rest) q,
            pairs-append_one x xs r q,
          ))
      | inr e ↦ rw e (
          ground (
            arith,
            m,
            split,
            has_pair-append (pairs (x ∷ xs)) (all_pairs (add_to_place p r rest)) q,
            grows_pairs p r rest q,
          ))
    ]

grows_members :
    (p : Place) (r : ℕ) (gs : List (Place × List ℕ)) (q : Place) (a : ℕ)
    → is_in_group gs q a ≡ true
    → is_in_group (add_to_place p r gs) q a ≡ true
unfolding add_to_place
grows_members p r [] q a m = absurd (ground arith)
grows_members p r ((p', group) ∷ rest) q a m =
    let inside = contains-append group (r ∷ []) a in
    elim (Bool-cases (same_place p p')) [
      | inl e ↦ rw e (ground (arith, inside, m))
      | inr e ↦ rw e (ground (arith, m, grows_members p r rest q a))
    ]

added_member :
    (p : Place) (r : ℕ) (gs : List (Place × List ℕ)) → is_in_group (add_to_place p r gs) p r ≡ true
unfolding add_to_place
added_member p r [] = ground (arith, same_place_refl p, ==_refl r)
added_member p r ((p', group) ∷ rest) = elim (Bool-cases (same_place p p')) [
  | inl e ↦ rw (e, e) (ground (arith, contains-append group (r ∷ []) r, ==_refl r))
  | inr e ↦ rw (e, e) (added_member p r rest)
]

same_group :
    (gs : List (Place × List ℕ)) (p q : Place) (a : ℕ)
    → same_place p q ≡ true
    → is_in_group gs p a ≡ is_in_group gs q a
same_group [] p q a e = refl
same_group ((p', group) ∷ rest) p q a e =
    rw (same_place-swap p q p' e, same_group rest p q a e) refl

final_pairs :
    (heap : ℕ → BingoNode) (rs : List ℕ) (gs : List (Place × List ℕ)) (q : ℕ × ℕ)
    → has_pair (all_pairs gs) q ≡ true
    → has_pair (all_pairs (group_by_place heap gs rs)) q ≡ true
unfolding group_by_place
final_pairs heap [] gs q m = m
final_pairs heap (r ∷ rs) gs q m =
    final_pairs heap rs (add_to_place (place (heap r)) r gs) q
      (grows_pairs (place (heap r)) r gs q m)

module _ (R : ℕ → ℕ → Type 0) (refl_R : (a : ℕ) → R a a)
    (trans_R : (a b d : ℕ) → R a b → R b d → R a d) where
  -- An item of a group is related to the item that is added to the group.
  added_related :
      (p : Place) (r : ℕ) (gs : List (Place × List ℕ)) (a : ℕ)
      → ((u v : ℕ) → has_pair (all_pairs (add_to_place p r gs)) (u, v) ≡ true → R u v)
      → is_in_group gs p a ≡ true
      → R a r
  unfolding add_to_place
  added_related p r [] a h m = absurd (ground arith)
  added_related p r ((p', []) ∷ rest) a h m = elim (Bool-cases (same_place p p')) [
    | inl e ↦ absurd (ground arith)
    | inr e ↦
        let whole : (add_to_place p r ((p', []) ∷ rest)) ≡ (p', []) ∷ add_to_place p r rest =
          rw e refl in
        added_related p r rest a
          (λ u v k. h u v (ap (λ gs. has_pair (all_pairs gs) (u, v)) whole ∙ k)) (ground arith)
  ]
  added_related p r ((p', x ∷ xs) ∷ rest) a h m = elim (Bool-cases (same_place p p')) [
    | inl e ↦
        let whole : (add_to_place p r ((p', x ∷ xs) ∷ rest)) ≡ (p', x ∷ xs ++ r ∷ []) ∷ rest =
          rw e refl in
        let inside : (u v : ℕ) → has_pair (pairs (x ∷ xs ++ r ∷ [])) (u, v) ≡ true → R u v =
          λ u v k. h u v (
            ap (λ gs. has_pair (all_pairs gs) (u, v)) whole
            ∙ has_pair-append (pairs (x ∷ xs ++ r ∷ [])) (all_pairs rest) (u, v)
            ∙ (rw k refl)) in
        trans_R a (last_from x xs) r
          (to_last R refl_R trans_R x xs a
            (λ u v k. inside u v (pairs-append_one x xs r (u, v) ∙ (rw k refl))) (ground arith))
          (inside (last_from x xs) r (
            pairs-append_one x xs r (last_from x xs, r)
            ∙ (rw (==_refl (last_from x xs), ==_refl r) (ground arith))))
    | inr e ↦
        let whole : (add_to_place p r ((p', x ∷ xs) ∷ rest))
            ≡ (p', x ∷ xs) ∷ add_to_place p r rest =
          rw e refl in
        added_related p r rest a
          (λ u v k. h u v (
            ap (λ gs. has_pair (all_pairs gs) (u, v)) whole
            ∙ has_pair-append (pairs (x ∷ xs)) (all_pairs (add_to_place p r rest)) (u, v)
            ∙ (rw k (ground arith))))
          (ground arith)
  ]

  module _ (heap : ℕ → BingoNode) where
    -- What is in a group already is related to what comes later.
    from_group :
        (rs : List ℕ) (gs : List (Place × List ℕ))
        → ((u v : ℕ) → has_pair (all_pairs (group_by_place heap gs rs)) (u, v) ≡ true → R u v)
        → (a b : ℕ) → contains rs b ≡ true
        → is_in_group gs (place (heap b)) a ≡ true
        → R a b
    unfolding group_by_place
    from_group [] gs h a b m k = absurd (ground arith)
    from_group (r ∷ rs) gs h a b m k =
        let gs' = add_to_place (place (heap r)) r gs in
        elim (Bool-cases (r == b)) [
          | inl e ↦
              let same : r ≡ b = ground arith in
              subst (R a) same (
                added_related (place (heap r)) r gs a
                  (λ u v q. h u v (final_pairs heap rs gs' (u, v) q))
                  (subst (λ x. is_in_group gs (place (heap x)) a ≡ true) (sym same) k))
          | inr e ↦
              from_group rs gs' h a b (ground arith)
                (grows_members (place (heap r)) r gs (place (heap b)) a k)
        ]

    pub in_order :
        (rs : List ℕ) (gs : List (Place × List ℕ))
        → ((u v : ℕ) → has_pair (all_pairs (group_by_place heap gs rs)) (u, v) ≡ true → R u v)
        → (a b : ℕ) → Before a b rs
        → same_place (place (heap a)) (place (heap b)) ≡ true
        → R a b
    unfolding group_by_place
    in_order [] gs h a b before same = elim before [ ]
    in_order (r ∷ rs) gs h a b (first _ m) same =
        from_group rs (add_to_place (place (heap r)) r gs) h r b m (
          sym (
            same_group (add_to_place (place (heap r)) r gs) (place (heap r)) (place (heap b)) r
              same)
          ∙ added_member (place (heap r)) r gs)
    in_order (r ∷ rs) gs h a b (later _ _ rest) same =
        in_order rs (add_to_place (place (heap r)) r gs) h a b rest same

module _ (nx : DiGraph) (alg : Algorithms nx) where
  open nx use {Graph, successors, add_edge}

  sequence_pair-keeps :
      (n : ℕ) (s : Dfg Graph) (prev next u v : ℕ)
      → Reaches nx s.graph u v
      → Reaches nx (sequence_pair nx alg (n, s) (prev, next)).1.graph u v
  unfolding sequence_pair
  sequence_pair-keeps n s prev next u v p =
      elim (Bool-cases
        (not (has_edge nx s.graph prev next) && not (alg.has_path s.graph prev next))) [
          | inl e ↦ rw e (add_edge-Reaches nx s.graph prev next _ u v p)
          | inr e ↦ rw e p
        ]

  sequence_pair-orders :
      (n : ℕ) (s : Dfg Graph) (prev next : ℕ)
      → Reaches nx (sequence_pair nx alg (n, s) (prev, next)).1.graph prev next
  unfolding sequence_pair
  sequence_pair-orders n s prev next =
      elim (Bool-cases
        (not (has_edge nx s.graph prev next) && not (alg.has_path s.graph prev next))) [
          | inl e ↦ rw e (new_edge-Reaches nx s.graph prev next _)
          | inr e ↦ rw e (elim (Bool-cases (has_edge nx s.graph prev next)) [
            | inl edge ↦ along prev next next edge (here next)
            | inr none_there ↦ alg.has_path-Reaches s.graph prev next (ground arith)
          ])
        ]

  loop_keeps :
      (ps : List (ℕ × ℕ)) (state : ℕ × Dfg Graph) (u v : ℕ)
      → Reaches nx state.1.graph u v
      → Reaches nx (foldl (sequence_pair nx alg) state ps).1.graph u v
  loop_keeps [] state u v p = p
  loop_keeps ((prev, next) ∷ ps) (n, s) u v p =
      loop_keeps ps (sequence_pair nx alg (n, s) (prev, next)) u v
        (sequence_pair-keeps n s prev next u v p)

  loop_orders :
      (ps : List (ℕ × ℕ)) (state : ℕ × Dfg Graph) (u v : ℕ)
      → has_pair ps (u, v) ≡ true
      → Reaches nx (foldl (sequence_pair nx alg) state ps).1.graph u v
  loop_orders [] state u v m = absurd (ground arith)
  loop_orders ((prev, next) ∷ ps) (n, s) u v m = elim (Bool-cases (same_pair (prev, next) (u, v))) [
    | inl e ↦
        let a : prev ≡ u = ground arith in
        let b : next ≡ v = ground arith in
        let t = sequence_pair nx alg (n, s) (prev, next) in
        loop_keeps ps t u v (
          subst (λ x. Reaches nx t.1.graph x v) a
            (subst (λ y. Reaches nx t.1.graph prev y) b (sequence_pair-orders n s prev next)))
    | inr e ↦ loop_orders ps (sequence_pair nx alg (n, s) (prev, next)) u v (ground arith)
  ]

  -- After the pass, of any two tasks on one core of one cluster of one chiplet, the one that comes first in
  -- the topological order leads to the other by a path; paths of the graph before the pass are kept.
  pub resource_sequencing-orders :
      (s : Dfg Graph) (order : List ℕ)
      → alg.topological_sort s.graph ≡ ok order
      → (n : ℕ) × (t : Dfg Graph) × (bingo_transform_add_resource_sequencing_edges nx alg s
          ≡ ok (n, t))
        × ((a b : ℕ)
            → Before a b order
            → same_place (place (s.heap a)) (place (s.heap b)) ≡ true
            → Reaches nx t.graph a b)
        × ((a b : ℕ) → Reaches nx s.graph a b → Reaches nx t.graph a b)
  unfolding bingo_transform_add_resource_sequencing_edges
  resource_sequencing-orders s order e =
      let start = record s { resource_sequence_successors = [] } in
      let ps = all_pairs (group_by_place s.heap [] order) in
      let end = foldl (sequence_pair nx alg) (0, start) ps in
      (
        end.0,
        end.1,
        rw e refl,
        λ a b before same.
            in_order (Reaches nx end.1.graph) (λ x. here x) (Reaches-trans nx end.1.graph) s.heap
              order [] (λ u v m. loop_orders ps (0, start) u v m) a b before same,
        λ a b p. loop_keeps ps (0, start) a b p,
      )
