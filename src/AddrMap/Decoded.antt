-- ===== src/AddrMap/Decoded.antt =====
-- What the routes of a node say of an address: through which port it leaves, and to which leaf.
use he_mai_a.Prelude.{
  ℕ, ◌≤◌, ◌<◌, ◌≡◌, refl, true, List, [], ◌∷◌, arith, ok, Bool-cases, inl, inr, All, Has, All-imp,
  Has-imp, Has-All, Has-elim, >>=-eq-ok, All-self, subst, sym, Option, none, some,
}
use he_mai_a.Prelude.Members.{contains, contains-append}
use he_mai_a.AddrMap.{
  Route, same_port, collapse_all, sort_routes, simplify, compress, compress_all, unified_with,
}
use he_mai_a.AddrMap.Sorted.{
  IsSorted, sort_routes-IsSorted, sort_routes-All, All-sort_routes, Has-sort_routes,
}
use he_mai_a.AddrMap.Collapsed.{
  IsSeparated, IsNonempty, Represents, collapse-Collapses, collapsed-IsSeparated,
  collapsed-Represents, collapsed-Has,
}

-- The address is one of the route's.
abbrev pub Contains : Route → ℕ → Type 0
Contains r a = (r.lo ≤ a) × (a < r.hi)

-- `c` sends all addresses of `d` out at the port of `d`, and names its targets.
abbrev pub Covers : Route → Route → Type 0
Covers d c =
    (c.lo ≤ d.lo)
    × (d.hi ≤ c.hi)
    × (c.port ≡ d.port)
    × ((t : ℕ) → contains d.target t ≡ true → contains c.target t ≡ true)

same_port-eq : (p q : Option ℕ) → same_port p q ≡ true → p ≡ q
same_port-eq (some p) (some q) h = ground arith
same_port-eq none none h = refl
same_port-eq (some p) none h = cc
same_port-eq none (some q) h = cc

Covers-unified_with_first : (last r d : Route) → Covers d last → Covers d (unified_with last r)
unfolding unified_with
Covers-unified_with_first last r d h = (
  omega (arith, h.0),
  omega (arith, h.1),
  h.2,
  λ t m. ground (arith, h.3 t m, contains-append last.target r.target t),
)

Covers-unified_with_second :
    (last r d : Route)
    → same_port last.port r.port ≡ true
    → Covers d r
    → Covers d (unified_with last r)
unfolding unified_with
Covers-unified_with_second last r d same h =
    let e = same_port-eq last.port r.port same in
    (
      omega (arith, h.0),
      omega (arith, h.1),
      ground (arith, h.2),
      λ t m. ground (arith, h.3 t m, contains-append last.target r.target t),
    )

Covers-refl : (d : Route) → Covers d d
Covers-refl d = (omega arith, omega arith, refl, λ t m. m)

-- What is covered by the route in work, or stands behind it, is covered in the end.
compress-Covers :
    (last : Route) (rs : List Route) (d : Route)
    → Has (Covers d) (last ∷ rs)
    → Has (Covers d) (compress last rs)
unfolding compress
compress-Covers last [] d h = h
compress-Covers last (r ∷ rs) d h = elim (Bool-cases (same_port last.port r.port)) [
  | inl same ↦
      rw (same, compress)
        (compress-Covers (unified_with last r) rs d (elim h [
          | inl first ↦ inl (Covers-unified_with_first last r d first)
          | inr (inl second) ↦ inl (Covers-unified_with_second last r d same second)
          | inr (inr later) ↦ inr later
        ]))
  | inr other ↦
      rw (other, compress)
        (elim h [ inl first ↦ inl first | inr later ↦ inr (compress-Covers r rs d later) ])
]

compress-IsSeparated :
    (last : Route) (rs : List Route)
    → IsSeparated (last ∷ rs)
    → All IsNonempty (last ∷ rs)
    → IsSeparated (compress last rs) × All (λ c. last.lo ≤ c.lo) (compress last rs)
unfolding compress unified_with
compress-IsSeparated last [] sep full = ((tt, tt), (omega arith, tt))
compress-IsSeparated last (r ∷ rs) sep full = elim (Bool-cases (same_port last.port r.port)) [
  | inl same ↦
      rw (same, compress)
        (let tail : All (λ q. (unified_with last r).hi ≤ q.lo) rs =
            All-imp (λ q. r.hi ≤ q.lo) (λ q. (unified_with last r).hi ≤ q.lo) rs
              (λ q le. omega (arith, sep.0, full.0, full.1.0, le)) sep.1.0 in
          let (apart, low) =
            compress-IsSeparated (unified_with last r) rs (tail, sep.1.1)
              (omega (arith, full, sep), full.1.1) in
          (
            apart,
            All-imp (λ c. (unified_with last r).lo ≤ c.lo) (λ c. last.lo ≤ c.lo)
                (compress (unified_with last r) rs) (λ c le. omega (arith, le, sep, full)) low,
          ))
  | inr other ↦
      rw (other, compress)
        (let (apart, low) = compress-IsSeparated r rs sep.1 full.1 in
          (
            (
              All-imp (λ c. r.lo ≤ c.lo) (λ c. last.hi ≤ c.lo) (compress r rs)
                  (λ c le. omega (arith, le, sep)) low,
              apart,
            ),
            (
              omega arith,
              All-imp (λ c. r.lo ≤ c.lo) (λ c. last.lo ≤ c.lo) (compress r rs)
                  (λ c le. omega (arith, le, sep, full)) low,
            ),
          ))
]

compress_all-Covers :
    (rs : List Route) (d : Route) → Has (Covers d) rs → Has (Covers d) (compress_all rs)
compress_all-Covers [] d h = h
compress_all-Covers (r ∷ rs) d h = compress-Covers r rs d h

compress_all-IsSeparated :
    (rs : List Route) → IsSeparated rs → All IsNonempty rs → IsSeparated (compress_all rs)
compress_all-IsSeparated [] sep full = tt
compress_all-IsSeparated (r ∷ rs) sep full = (compress-IsSeparated r rs sep full).0

-- A route of the node that stands for `r`, and the final route that takes its addresses.
abbrev pub Decodes : List Route → List Route → Route → Type 0
Decodes routes final r = Has (λ d. Represents r d × Has (Covers d) final) routes

abbrev Kept : List Route → List Route → Type 0
Kept routes kept =
    IsSeparated kept
    × All IsNonempty kept
    × All (λ r. Has (Represents r) kept) routes
    × All (λ d. Has (λ r. r ≡ d) routes) kept

collapse_all-Kept :
    (routes kept : List Route)
    → IsSorted routes
    → All IsNonempty routes
    → collapse_all routes ≡ ok kept
    → Kept routes kept
collapse_all-Kept [] kept sorted full e = cc
collapse_all-Kept (r ∷ rs) kept sorted full e =
    let run = collapse-Collapses r rs kept e in
    (
      (collapsed-IsSeparated run sorted full).0,
      collapsed-Has IsNonempty run full,
      collapsed-Represents run,
      collapsed-Has (λ d. Has (λ q. q ≡ d) (r ∷ rs)) run (All-self (r ∷ rs)),
    )

Kept-Decodes :
    (routes kept : List Route) → Kept routes kept → All (Decodes routes (compress_all kept)) routes
Kept-Decodes routes kept k =
    let final = compress_all kept in
    All-imp (λ r. Has (Represents r) kept) (Decodes routes final) routes
      (λ r rep.
        Has-elim (λ d. Has (λ q. q ≡ d) routes × (Has (λ y. y ≡ d) kept × Represents r d)) kept
          (λ d h.
            let taken = compress_all-Covers kept d (
              Has-imp (λ y. y ≡ d) (Covers d) kept (λ y e. subst (Covers d) (sym e) (Covers-refl d))
                h.1.0) in
            Has-imp (λ q. q ≡ d) (λ q. Represents r q × Has (Covers q) final) routes
              (λ q e. subst (λ z. Represents r z × Has (Covers z) final) (sym e) (h.1.1, taken))
              h.0)
          (Has-All (λ d. Has (λ q. q ≡ d) routes) (λ d. Has (λ y. y ≡ d) kept × Represents r d) kept
            k.3 (Has-All (λ d. Has (λ y. y ≡ d) kept) (Represents r) kept (All-self kept) rep)))
      k.2

-- Where the routes of a node each have an address and none collide, the final routes do not overlap,
-- and every route `r` is decoded: a route of the same range and target, of no more hops than `r`,
-- has all its addresses in one final route, which leaves at its port and names its target.
pub simplify-Decodes :
    (routes final : List Route)
    → All IsNonempty routes
    → simplify routes ≡ ok final
    → IsSeparated final × All (Decodes routes final) routes
unfolding simplify
simplify-Decodes routes final full h =
    let S = sort_routes routes in
    let (kept, run, e) = >>=-eq-ok (collapse_all S) (λ done. ok (compress_all done)) h in
    let same : compress_all kept ≡ final = ground arith in
    let k =
      collapse_all-Kept S kept (sort_routes-IsSorted routes)
        (sort_routes-All IsNonempty routes full) run in
    let found : All (Decodes S final) S =
      subst (λ f. All (Decodes S f) S) same (Kept-Decodes S kept k) in
    (
      subst IsSeparated same (compress_all-IsSeparated kept k.0 k.1),
      All-sort_routes (Decodes routes final) routes (
          All-imp (Decodes S final) (Decodes routes final) S
            (λ r. Has-sort_routes (λ d. Represents r d × Has (Covers d) final) routes) found),
    )
