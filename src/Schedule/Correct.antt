-- ===== src/Schedule/Correct.antt =====
-- What the sort promises.
use native.Mathlib.Nat.{le_antisymm, zero-add}
use he_mai_a.Prelude.{
  ℕ, zero, suc, ◌+◌, ◌≤◌, ◌<◌, ◌≡◌, ◌≢◌, refl, sym, ap, ◌∙◌, Bool, true, false, ◌&&◌, List, [], ◌∷◌,
  arith, length, keep_if, ◌==◌, ==_iff, subst, Bool-cases, ◌⊎◌, inl, inr, ok, err, Error,
}
use he_mai_a.Prelude.Members.{
  contains, IsDistinct, contains-keep_if, keep_if-IsDistinct, length-le_of_subset,
  subset_of_length-le,
}
use he_mai_a.Node.{BingoNode}
use he_mai_a.Schedule.{
  Progress, is_empty, resource, local_nodes, by_id, count_degrees, first_ready, begin, run,
  sort_local, resource_balanced_topological_sort,
}
use he_mai_a.Schedule.Sorting.{Resource, same_resource, contains-sort_by, sort_by-IsDistinct}
use he_mai_a.Schedule.Degrees.{count_degrees-edges, waiting_source}
use he_mai_a.Schedule.Invariant.{Inv, IsOrdered}
use he_mai_a.Schedule.Loop.{IsQuiet, Ends, run-Ends}

not_both : {b : Bool} → b ≡ true → b ≡ false → ⊥
not_both p q = cc

both : {a b : Bool} → (a ≡ true → b ≡ true) → (b ≡ true → a ≡ true) → a ≡ b
both {a = true} {b = true} p q = refl
both {a = true} {b = false} p q = sym (p refl)
both {a = false} {b = true} p q = q refl
both {a = false} {b = false} p q = refl

length-is_empty : (xs : List ℕ) → is_empty xs ≡ true → length xs ≡ 0
length-is_empty [] h = refl
length-is_empty (x ∷ xs) h = cc

nil_of_length : (xs : List ℕ) → length xs ≡ 0 → xs ≡ []
nil_of_length [] h = refl
nil_of_length (x ∷ xs) h = absurd (omega arith)

module _ (successors : ℕ → List ℕ) (node : ℕ → BingoNode) where
  module _ (local : List ℕ) (d : IsDistinct local) where
    first_ready-contains :
        (in_degree : ℕ → ℕ) (r : Resource) (v : ℕ)
        → contains (first_ready successors node local in_degree r) v
          ≡ same_resource (resource successors node v) r
            && (contains local v && (in_degree v == 0 && true))
    unfolding first_ready by_id
    first_ready-contains in_degree r v =
        contains-sort_by _
          (keep_if (λ n. in_degree n == 0 && same_resource (resource successors node n) r) local) v
        ∙ contains-keep_if _ local v
        ∙ ground arith

    begin-Inv : Inv successors node local (begin successors node local) []
    unfolding begin first_ready by_id
    begin-Inv = record {
      degrees = λ v m. omega (arith, count_degrees-edges successors node local (λ n. 0) local v m);
      listed = λ r v.
          unfold begin in
          first_ready-contains (count_degrees successors node local (λ n. 0) local) r v;
      distinct_ready = λ r. sort_by-IsDistinct _ _ (keep_if-IsDistinct _ local d);
      finished = λ v m. cc;
      emitted_local = λ v m. cc;
      distinct = tt;
      ordered = tt;
    }

    last : Progress
    last = run successors node local (length local) (begin successors node local)

    last-Ends : Ends successors node local (length local) (begin successors node local) last
    unfolding last
    last-Ends =
        run-Ends successors node local d (length local) (begin successors node local) begin-Inv

    last-Inv : Inv successors node local last []
    last-Inv = last-Ends.0

    -- A node that waits while nothing is ready has a source that waits.
    waiting :
        (v : ℕ)
        → IsQuiet successors node local last
        → contains local v ≡ true
        → contains last.result v ≡ false
        → (u : ℕ) × (contains local u ≡ true)
          × (contains last.result u ≡ false)
          × (contains (successors u) v ≡ true)
    waiting v quiet m waits = waiting_source successors last.result local v (λ e. ground (
      arith,
      last-Inv.listed (resource successors node v) v,
      last-Inv.degrees v m,
      ap (λ l. contains l v) (quiet v m),
    ))

    module _ (rank : ℕ → ℕ)
        (up : (u v : ℕ)
          → contains local u ≡ true
          → contains local v ≡ true
          → contains (successors u) v ≡ true
          → rank u < rank v) where
      quiet_emitted :
          IsQuiet successors node local last
          → (bound v : ℕ) → rank v < bound
          → contains local v ≡ true
          → contains last.result v ≡ true
      quiet_emitted quiet zero v lt m = elim lt [ ]
      quiet_emitted quiet (suc bound) v lt m = elim (Bool-cases (contains last.result v)) [
        | inl emitted ↦ emitted
        | inr waits ↦
            let (u, member, waits_too, edge) = waiting v quiet m waits in
            absurd (
              not_both (quiet_emitted quiet bound u (omega (arith, up u v member m edge)) member)
                waits_too)
      ]

      length-last : length last.result ≡ length local
      length-last = elim last-Ends.1 [
        | inl quiet ↦
            le_antisymm
              (length-le_of_subset last.result local last-Inv.distinct last-Inv.emitted_local)
              (length-le_of_subset local last.result d
                (λ v m. quiet_emitted quiet (rank v + 1) v (omega arith) m))
        | inr e ↦ unfold begin in (e ∙ zero-add (length local))
      ]

    emitted_le : length last.result ≤ length local
    emitted_le = length-le_of_subset last.result local last-Inv.distinct last-Inv.emitted_local

    sort_local_cases :
        (sort_local successors node local ≡ ok last.result) × (length last.result ≡ length local)
        ⊎ (sort_local successors node local ≡ err Error.cyclic_graph)
          × (length last.result ≢ length local)
    unfolding sort_local last
    sort_local_cases = elim (Bool-cases (is_empty local)) [
      | inl e ↦ inl (no_local e, omega (arith, length-is_empty local e, emitted_le))
      | inr e ↦ elim (Bool-cases (length last.result == length local)) [
        | inl f ↦ inl (rw (e, f) refl, (==_iff _ _).0 f)
        | inr f ↦ inr (rw (e, f) refl, λ same. not_both ((==_iff _ _).1 same) f)
      ]
    ]
      where
        no_local : is_empty local ≡ true → sort_local successors node local ≡ ok last.result
        no_local e = rw e (
            ap ok (
              sym (nil_of_length last.result (omega (arith, length-is_empty local e, emitted_le)))))

    sort_local-ok :
        (result : List ℕ)
        → sort_local successors node local ≡ ok result
        → IsDistinct result
          × ((v : ℕ) → contains result v ≡ contains local v)
          × IsOrdered successors node local [] result
    sort_local-ok result e = elim sort_local_cases [
      | inl (f, same) ↦
          let g : last.result ≡ result = cc in
          subst Promised g (last-Inv.distinct, all_emitted same, last-Inv.ordered)
      | inr (f, _) ↦ cc
    ]
      where
        Promised : List ℕ → Type 0
        Promised r =
            IsDistinct r
            × ((v : ℕ) → contains r v ≡ contains local v)
            × IsOrdered successors node local [] r

        all_emitted :
            length last.result ≡ length local → (v : ℕ) → contains last.result v ≡ contains local v
        all_emitted same v = both (last-Inv.emitted_local v) (
            subset_of_length-le last.result local last-Inv.distinct last-Inv.emitted_local
              (omega arith) v)

  module _ (nodes : List ℕ) (chiplet_id : ℕ) (d : IsDistinct nodes) where
    abbrev is_local : ℕ → Bool
    is_local v = contains nodes v && (node v).assigned_chiplet_id == chiplet_id

    local-contains :
        (v : ℕ) → contains (local_nodes successors node nodes chiplet_id) v ≡ is_local v
    local-contains v = contains-keep_if _ nodes v

    local-IsDistinct : IsDistinct (local_nodes successors node nodes chiplet_id)
    local-IsDistinct = keep_if-IsDistinct _ nodes d

    -- If the sort returns a list, the list holds each node of the chiplet exactly once and nothing
    -- else, and every node comes after all nodes of the chiplet that have an edge to it.
    pub topological_sort-ok :
        (result : List ℕ)
        → resource_balanced_topological_sort successors node nodes chiplet_id ≡ ok result
        → IsDistinct result
          × ((v : ℕ) → contains result v ≡ is_local v)
          × IsOrdered successors node (local_nodes successors node nodes chiplet_id) [] result
    unfolding resource_balanced_topological_sort
    topological_sort-ok result e =
        let (once, same, ordered) =
          sort_local-ok (local_nodes successors node nodes chiplet_id) local-IsDistinct result e in
        (once, λ v. same v ∙ local-contains v, ordered)

    -- Where a rank rises along every edge between nodes of the chiplet, so that these have no cycle,
    -- the sort returns a list and raises nothing.
    pub topological_sort-total :
        (rank : ℕ → ℕ)
        → ((u v : ℕ)
            → contains (local_nodes successors node nodes chiplet_id) u ≡ true
            → contains (local_nodes successors node nodes chiplet_id) v ≡ true
            → contains (successors u) v ≡ true
            → rank u < rank v)
        → (result : List ℕ) × (resource_balanced_topological_sort successors node nodes chiplet_id
            ≡ ok result)
    unfolding resource_balanced_topological_sort
    topological_sort-total rank up =
        let local = local_nodes successors node nodes chiplet_id in
        elim (sort_local_cases local local-IsDistinct) [
          | inl (e, _) ↦ ((last local local-IsDistinct).result, e)
          | inr (_, short) ↦ absurd (short (length-last local local-IsDistinct rank up))
        ]
