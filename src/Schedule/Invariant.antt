-- ===== src/Schedule/Invariant.antt =====
-- The invariant of the loops of the sort, and that each statement keeps it.
use he_mai_a.Prelude.{
  ℕ, ◌+◌, ◌<◌, ◌≡◌, refl, ◌∙◌, subst, true, false, not, ◌&&◌, ◌||◌, List, [], ◌∷◌, ◌++◌, arith,
  get_or, ◌==◌,
}
use he_mai_a.Prelude.Members.{contains, IsDistinct, contains-append, append_one-IsDistinct}
use he_mai_a.Node.{BingoNode}
use he_mai_a.Schedule.{Progress, resource, by_id, release_one, release, ready_at, resources, taken}
use he_mai_a.Schedule.Sorting.{Resource, same_resource, contains-sort_by, sort_by-IsDistinct}
use he_mai_a.Schedule.Degrees.{count, edges_into, edges_into-emit, sources-emitted}

module _ (successors : ℕ → List ℕ) (node : ℕ → BingoNode) (local : List ℕ) where
  -- Behind `seen`, each node of the list comes after all local sources of its incoming edges.
  abbrev pub IsOrdered : (seen nodes : List ℕ) → Type 0
  IsOrdered seen [] = Unit
  IsOrdered seen (x ∷ xs) =
      ((u : ℕ)
        → contains local u ≡ true
        → contains (successors u) x ≡ true
        → contains seen u ≡ true)
      × IsOrdered (seen ++ x ∷ []) xs

  IsOrdered-append_one :
      (seen xs : List ℕ) (x : ℕ)
      → IsOrdered seen xs
      → ((u : ℕ)
          → contains local u ≡ true
          → contains (successors u) x ≡ true
          → contains seen u || contains xs u ≡ true)
      → IsOrdered seen (xs ++ x ∷ [])
  IsOrdered-append_one seen [] x h k = (λ u l e. ground (arith, k u l e), tt)
  IsOrdered-append_one seen (y ∷ ys) x h k = (
    h.0,
    IsOrdered-append_one (seen ++ y ∷ []) ys x h.1
        (λ u l e. ground (arith, k u l e, contains-append seen (y ∷ []) u)),
  )

  -- `rest` holds the successors of the last node whose in-degrees are still to be lowered.
  pub record Inv (p : Progress) (rest : List ℕ) : Type 0 where
    pub degrees :
        (v : ℕ)
        → contains local v ≡ true
        → p.in_degree v ≡ edges_into successors p.result local v + count v rest
    pub listed :
        (r : Resource) (v : ℕ)
        → contains (p.ready r) v
          ≡ same_resource (resource successors node v) r
            && (contains local v && (p.in_degree v == 0 && not (contains p.result v)))
    pub distinct_ready : (r : Resource) → IsDistinct (p.ready r)
    pub finished : (v : ℕ) → contains p.result v ≡ true → p.in_degree v ≡ 0
    pub emitted_local : (v : ℕ) → contains p.result v ≡ true → contains local v ≡ true
    pub distinct : IsDistinct p.result
    pub ordered : IsOrdered [] p.result

  result-release_one :
      (p : Progress) (s : ℕ) → (release_one successors node local p s).result ≡ p.result
  unfolding release_one
  result-release_one p s = ground arith

  module _ (p : Progress) (s : ℕ) (rest : List ℕ) (h : Inv p (s ∷ rest)) where
    ready-new :
        (v : ℕ)
        → contains (by_id successors node (p.ready (resource successors node s) ++ s ∷ [])) v
          ≡ contains (p.ready (resource successors node s)) v || s == v
    unfolding by_id
    ready-new v =
        contains-sort_by _ (p.ready (resource successors node s) ++ s ∷ []) v
        ∙ contains-append (p.ready (resource successors node s)) (s ∷ []) v
        ∙ ground arith

    -- A successor still to be lowered has an edge left.
    degree_pos : contains local s ≡ true → 0 < p.in_degree s
    degree_pos l = ground (arith, h.degrees s l)

    ready_new-IsDistinct :
        contains local s ≡ true
        → IsDistinct (by_id successors node (p.ready (resource successors node s) ++ s ∷ []))
    unfolding by_id
    ready_new-IsDistinct l = sort_by-IsDistinct _ (p.ready (resource successors node s) ++ s ∷ []) (
        append_one-IsDistinct (p.ready (resource successors node s)) s
          (h.distinct_ready (resource successors node s))
          (ground (arith, h.listed (resource successors node s) s, degree_pos l)))

    release_one-degrees :
        (v : ℕ)
        → contains local v ≡ true
        → (release_one successors node local p s).in_degree v
          ≡ edges_into successors (release_one successors node local p s).result local v
            + count v rest
    unfolding release_one
    release_one-degrees v l = ground (arith, h.degrees v l)

    release_one-listed :
        (r : Resource) (v : ℕ)
        → contains ((release_one successors node local p s).ready r) v
          ≡ same_resource (resource successors node v) r
            && (contains local v
                && ((release_one successors node local p s).in_degree v == 0
                    && not (contains (release_one successors node local p s).result v)))
    unfolding release_one
    release_one-listed r v = ground (
      arith,
      h.listed r v,
      h.listed (resource successors node s) v,
      ready-new v,
      degree_pos,
      h.finished v,
    )

    release_one-IsDistinct :
        (r : Resource) → IsDistinct ((release_one successors node local p s).ready r)
    unfolding release_one
    release_one-IsDistinct r = ground (arith, h.distinct_ready r, ready_new-IsDistinct)

    release_one-finished :
        (v : ℕ)
        → contains (release_one successors node local p s).result v ≡ true
        → (release_one successors node local p s).in_degree v ≡ 0
    unfolding release_one
    release_one-finished v m = ground (arith, h.finished v, degree_pos)

    release_one-Inv : Inv (release_one successors node local p s) rest
    release_one-Inv = record {
      degrees = release_one-degrees;
      listed = release_one-listed;
      distinct_ready = release_one-IsDistinct;
      finished = release_one-finished;
      emitted_local = rw result-release_one h.emitted_local;
      distinct = rw result-release_one h.distinct;
      ordered = rw result-release_one h.ordered;
    }

  pub release-Inv :
      (p : Progress) (rest : List ℕ) → Inv p rest → Inv (release successors node local p rest) []
  unfolding release
  release-Inv p [] h = h
  release-Inv p (s ∷ rest) h =
      release-Inv (release_one successors node local p s) rest (release_one-Inv p s rest h)

  pub result-release :
      (p : Progress) (rest : List ℕ) → (release successors node local p rest).result ≡ p.result
  unfolding release
  result-release p [] = refl
  result-release p (s ∷ rest) =
      result-release (release_one successors node local p s) rest ∙ result-release_one p s

  -- A node `x` at the head of its list leaves it for the result.
  module _ (p : Progress) (i x : ℕ) (rest : List ℕ) (h : Inv p []) (d : IsDistinct local)
      (head : ready_at successors node local p i ≡ x ∷ rest) where
    at_head : contains (ready_at successors node local p i) x ≡ true
    at_head = rw head (ground arith)

    x_ready :
        (contains local x ≡ true)
        × (p.in_degree x ≡ 0)
        × (contains p.result x ≡ false)
        × (same_resource
              (resource successors node x)
              (get_or (resources successors node local) i (0, 0))
            ≡ true)
    unfolding ready_at
    x_ready =
        ground (arith, at_head, h.listed (get_or (resources successors node local) i (0, 0)) x)

    in_list :
        (v : ℕ) → contains (ready_at successors node local p i) v ≡ (x == v || contains rest v)
    in_list v = rw head refl

    head-IsDistinct : IsDistinct (x ∷ rest)
    unfolding ready_at
    head-IsDistinct =
        subst IsDistinct head (h.distinct_ready (get_or (resources successors node local) i (0, 0)))

    taken-degrees :
        (v : ℕ)
        → contains local v ≡ true
        → (taken successors node local p (i, x, rest)).in_degree v
          ≡ edges_into successors (p.result ++ x ∷ []) local v + count v (successors x)
    unfolding taken
    taken-degrees v l =
        omega (
          arith,
          h.degrees v l,
          edges_into-emit successors p.result local x v x_ready.0 d x_ready.2,
        )

    taken-listed :
        (r : Resource) (v : ℕ)
        → contains ((taken successors node local p (i, x, rest)).ready r) v
          ≡ same_resource (resource successors node v) r
            && (contains local v && (p.in_degree v == 0 && not (contains (p.result ++ x ∷ []) v)))
    unfolding taken ready_at
    taken-listed r v = ground (
      arith,
      h.listed r v,
      h.listed (get_or (resources successors node local) i (0, 0)) v,
      in_list v,
      contains-append p.result (x ∷ []) v,
      x_ready,
      head-IsDistinct,
    )

    pub taken-Inv : Inv (taken successors node local p (i, x, rest)) (successors x)
    unfolding taken
    taken-Inv = record {
      degrees = taken-degrees;
      listed = taken-listed;
      distinct_ready = λ r. ground (arith, h.distinct_ready r, head-IsDistinct);
      finished =
          λ v m. ground (arith, h.finished v, contains-append p.result (x ∷ []) v, x_ready.1);
      emitted_local =
          λ v m. ground (arith, h.emitted_local v, contains-append p.result (x ∷ []) v, x_ready.0);
      distinct = append_one-IsDistinct p.result x h.distinct x_ready.2;
      ordered = IsOrdered-append_one [] p.result x h.ordered (λ u l e.
          sources-emitted successors p.result local x u
            (ground (arith, h.degrees x x_ready.0, x_ready.1)) l e);
    }
