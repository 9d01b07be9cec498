-- ===== src/AddrMap/Sorted.antt =====
-- `routes.sort`: the sorted list holds the same routes, in the order of their lower addresses.
use he_mai_a.Prelude.{◌≤◌, List, [], ◌∷◌, arith, leb, Bool-cases, ◌⊎◌, inl, inr, All, Has, All-imp}
use he_mai_a.AddrMap.{Route, insert_route, sort_routes}

abbrev pub IsSorted : List Route → Type 0
IsSorted [] = Unit
IsSorted (r ∷ rs) = All (λ q. r.lo ≤ q.lo) rs × IsSorted rs

module _ (P : Route → Type 0) where
  insert_route-All : (r : Route) (rs : List Route) → P r → All P rs → All P (insert_route r rs)
  unfolding insert_route
  insert_route-All r [] p h = (p, tt)
  insert_route-All r (q ∷ qs) p h = elim (Bool-cases (leb r.lo q.lo)) [
    | inl e ↦ rw e (p, h)
    | inr e ↦ rw e (h.0, insert_route-All r qs p h.1)
  ]

  pub sort_routes-All : (rs : List Route) → All P rs → All P (sort_routes rs)
  unfolding sort_routes
  sort_routes-All [] h = tt
  sort_routes-All (r ∷ rs) h = insert_route-All r (sort_routes rs) h.0 (sort_routes-All rs h.1)

  All-insert_route : (r : Route) (rs : List Route) → All P (insert_route r rs) → P r × All P rs
  unfolding insert_route
  All-insert_route r [] h = h
  All-insert_route r (q ∷ qs) h = elim (Bool-cases (leb r.lo q.lo)) [
    | inl e ↦ let whole : All P (r ∷ q ∷ qs) = rw e at h in whole
    | inr e ↦
        let later : P q × All P (insert_route r qs) = rw e at h in
        let (first, rest) = All-insert_route r qs later.1 in (first, (later.0, rest))
  ]

  pub All-sort_routes : (rs : List Route) → All P (sort_routes rs) → All P rs
  unfolding sort_routes
  All-sort_routes [] h = tt
  All-sort_routes (r ∷ rs) h =
      let (first, rest) = All-insert_route r (sort_routes rs) h in (first, All-sort_routes rs rest)

  insert_route-Has : (r : Route) (rs : List Route) → P r ⊎ Has P rs → Has P (insert_route r rs)
  unfolding insert_route
  insert_route-Has r [] h = h
  insert_route-Has r (q ∷ qs) h = elim (Bool-cases (leb r.lo q.lo)) [
    | inl e ↦ rw e h
    | inr e ↦ rw e (elim h [
      | inl p ↦ inr (insert_route-Has r qs (inl p))
      | inr (inl p) ↦ inl p
      | inr (inr p) ↦ inr (insert_route-Has r qs (inr p))
    ])
  ]

  pub sort_routes-Has : (rs : List Route) → Has P rs → Has P (sort_routes rs)
  unfolding sort_routes
  sort_routes-Has [] h = absurd h
  sort_routes-Has (r ∷ rs) (inl p) = insert_route-Has r (sort_routes rs) (inl p)
  sort_routes-Has (r ∷ rs) (inr h) =
      insert_route-Has r (sort_routes rs) (inr (sort_routes-Has rs h))

  pub Has-insert_route : (r : Route) (rs : List Route) → Has P (insert_route r rs) → P r ⊎ Has P rs
  unfolding insert_route
  Has-insert_route r [] h = h
  Has-insert_route r (q ∷ qs) h = elim (Bool-cases (leb r.lo q.lo)) [
    | inl e ↦ rw e at h
    | inr e ↦
        let later : P q ⊎ Has P (insert_route r qs) = rw e at h in
        elim later [
          | inl p ↦ inr (inl p)
          | inr p ↦ elim (Has-insert_route r qs p) [
            | inl here ↦ inl here
            | inr there ↦ inr (inr there)
          ]
        ]
  ]

  pub Has-sort_routes : (rs : List Route) → Has P (sort_routes rs) → Has P rs
  unfolding sort_routes
  Has-sort_routes [] h = absurd h
  Has-sort_routes (r ∷ rs) h = elim (Has-insert_route r (sort_routes rs) h) [
    | inl p ↦ inl p
    | inr p ↦ inr (Has-sort_routes rs p)
  ]

insert_route-IsSorted : (r : Route) (rs : List Route) → IsSorted rs → IsSorted (insert_route r rs)
unfolding insert_route
insert_route-IsSorted r [] h = (tt, tt)
insert_route-IsSorted r (q ∷ qs) h = elim (Bool-cases (leb r.lo q.lo)) [
  | inl e ↦
      let first : r.lo ≤ q.lo = ground arith in
      rw e (
        (
          first,
          All-imp (λ s. q.lo ≤ s.lo) (λ s. r.lo ≤ s.lo) qs (λ s below. omega (arith, first, below))
              h.0,
        ),
        h,
      )
  | inr e ↦
      rw e (
        insert_route-All (λ s. q.lo ≤ s.lo) r qs (ground arith) h.0,
        insert_route-IsSorted r qs h.1,
      )
]

pub sort_routes-IsSorted : (rs : List Route) → IsSorted (sort_routes rs)
unfolding sort_routes
sort_routes-IsSorted [] = tt
sort_routes-IsSorted (r ∷ rs) = insert_route-IsSorted r (sort_routes rs) (sort_routes-IsSorted rs)
