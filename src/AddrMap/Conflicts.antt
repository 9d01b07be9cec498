-- ===== src/AddrMap/Conflicts.antt =====
-- Which address maps `get_routes` refuses.
use he_mai_a.Prelude.{
  ◌≤◌, ◌≡◌, true, List, [], ◌∷◌, arith, ok, err, Error, Bool-cases, Result-cases, Result, ◌⊎◌, inl,
  inr, ◌↔◌, All, Has, Has-imp, Has-All, Has-elim, ◌>>=◌,
}
use he_mai_a.AddrMap.{
  Route, is_redundant, overlaps, shorter, collapse, collapse_all, sort_routes, simplify,
  compress_all,
}
use he_mai_a.AddrMap.Sorted.{
  IsSorted, sort_routes-IsSorted, sort_routes-All, sort_routes-Has, Has-sort_routes,
}
use he_mai_a.AddrMap.Collapsed.{
  IsSeparated, IsNonempty, Represents, Conflict, HasConflict, Collapses, collapse-Collapses,
  shorter-cases, collapsed-IsSeparated, collapsed-Represents, same_list_refl,
}

-- Two routes of a separated list are one, or one of them is behind the other.
pub separated-cases :
    (P Q : Route → Type 0) (rs : List Route)
    → IsSeparated rs
    → Has P rs
    → Has Q rs
    → ((d : Route) × P d × Q d)
      ⊎ ((d : Route) × (e : Route) × P d × Q e × (d.hi ≤ e.lo ⊎ e.hi ≤ d.lo))
separated-cases P Q [] s p q = absurd p
separated-cases P Q (r ∷ rs) s (inl p) (inl q) = inl (r, p, q)
separated-cases P Q (r ∷ rs) s (inl p) (inr q) =
    Has-elim (λ e. (r.hi ≤ e.lo) × Q e) rs
      (λ e (h : (r.hi ≤ e.lo) × Q e). inr (r, e, p, h.1, inl h.0))
      (Has-All (λ e. r.hi ≤ e.lo) Q rs s.0 q)
separated-cases P Q (r ∷ rs) s (inr p) (inl q) =
    Has-elim (λ d. (r.hi ≤ d.lo) × P d) rs
      (λ d (h : (r.hi ≤ d.lo) × P d). inr (d, r, h.1, q, inr h.0))
      (Has-All (λ d. r.hi ≤ d.lo) P rs s.0 p)
separated-cases P Q (r ∷ rs) s (inr p) (inr q) = separated-cases P Q rs s.1 p q

Has-shorter :
    (P : Route → Type 0) (last r : Route) (rs : List Route)
    → Has P (shorter last r ∷ rs)
    → Has P (last ∷ r ∷ rs)
Has-shorter P last r rs (inl p) = elim (shorter-cases last r) [
  | inl e ↦ inl (rw e at p)
  | inr e ↦ inr (inl (rw e at p))
]
Has-shorter P last r rs (inr p) = inr (inr p)

grow-HasConflict :
    (xs ys : List Route)
    → ((P : Route → Type 0) → Has P xs → Has P ys)
    → HasConflict xs
    → HasConflict ys
grow-HasConflict xs ys grow h =
    grow (λ r. Has (Conflict r) ys)
      (Has-imp (λ r. Has (Conflict r) xs) (λ r. Has (Conflict r) ys) xs (λ r. grow (Conflict r)) h)

collapse-HasConflict :
    (last : Route) (rs : List Route) (e : Error)
    → collapse last rs ≡ err e
    → (e ≡ Error.address_collision) × HasConflict (last ∷ rs)
unfolding collapse
collapse-HasConflict last [] e h = cc
collapse-HasConflict last (r ∷ rs) e h = elim (Bool-cases (is_redundant last r)) [
  | inl same ↦
      let (known, deep) = collapse-HasConflict (shorter last r) rs e (ground arith) in
      (
        known,
        grow-HasConflict (shorter last r ∷ rs) (last ∷ r ∷ rs) (λ P. Has-shorter P last r rs) deep,
      )
  | inr other ↦ elim (Bool-cases (overlaps last r)) [
    | inl clash ↦ (ground arith, inl (inr (inl (clash, other))))
    | inr apart ↦
        let (known, deep) = collapse-HasConflict r rs e (ground arith) in
        (known, grow-HasConflict (r ∷ rs) (last ∷ r ∷ rs) (λ P h. inr h) deep)
  ]
]

no_conflict : (r q d : Route) → Represents r d → Represents q d → is_redundant r q ≡ true
no_conflict r q d h k =
    let t : r.target ≡ q.target = cc in rw (← t) (ground (arith, same_list_refl r.target))

apart :
    (r q d e : Route)
    → Represents r d
    → Represents q e
    → d.hi ≤ e.lo ⊎ e.hi ≤ d.lo
    → overlaps r q ≡ true
    → ⊥
apart r q d e h k (inl side) clash = ground arith
apart r q d e h k (inr side) clash = ground arith

collapsed-no_conflict :
    {last : Route} {rs kept : List Route}
    → Collapses last rs kept
    → IsSorted (last ∷ rs)
    → All IsNonempty (last ∷ rs)
    → HasConflict (last ∷ rs)
    → ⊥
collapsed-no_conflict {last} {rs} {kept} run sorted full h =
    let seen = collapsed-Represents run in
    let all = last ∷ rs in
    Has-elim (λ r. Has (Represents r) kept × Has (Conflict r) all) all
      (λ r both.
        Has-elim (λ q. Has (Represents q) kept × Conflict r q) all
          (λ q bad.
            elim (separated-cases (Represents r) (Represents q) kept
              (collapsed-IsSeparated run sorted full).0 both.0 bad.0) [
                | inl (d, p, q') ↦ cc (no_conflict r q d p q', bad.1.1)
                | inr (d, e, p, q', side) ↦ absurd (apart r q d e p q' side bad.1.0)
              ])
          (Has-All (λ q. Has (Represents q) kept) (Conflict r) all seen both.1))
      (Has-All (λ r. Has (Represents r) kept) (λ r. Has (Conflict r) all) all seen h)

refused :
    (routes : List Route)
    → IsSorted routes
    → All IsNonempty routes
    → (collapse_all routes ≡ err Error.address_collision) ↔ HasConflict routes
refused [] sorted full = (λ h. cc, λ h. absurd h)
refused (r ∷ rs) sorted full = (
  λ h. (collapse-HasConflict r rs Error.address_collision h).1,
  λ h. elim (Result-cases (collapse r rs)) [
    | inl (kept, e) ↦ absurd (collapsed-no_conflict (collapse-Collapses r rs kept e) sorted full h)
    | inr (e, failed) ↦
        let (known, deep) = collapse-HasConflict r rs e failed in rw (← known) failed
  ],
)

then_iff {ℓ κ} :
    {A : Type ℓ} {B : Type κ} (first : Result A) (f : A → B) (e : Error)
    → ((first >>= λ a. ok (f a)) ≡ err e) ↔ (first ≡ err e)
then_iff (ok a) f e = ground arith
then_iff (err e') f e = ground arith

-- Routes that each have an address are refused for a collision exactly when two of them share an
-- address and do not agree in range and target.
pub simplify-collision :
    (routes : List Route)
    → All IsNonempty routes
    → (simplify routes ≡ err Error.address_collision) ↔ HasConflict routes
unfolding simplify
simplify-collision routes full =
    let S = sort_routes routes in
    let step = then_iff (collapse_all S) compress_all Error.address_collision in
    let test = refused S (sort_routes-IsSorted routes) (sort_routes-All IsNonempty routes full) in
    (
      λ h. grow-HasConflict S routes (λ P. Has-sort_routes P routes) (test.0 (step.0 h)),
      λ h. step.1 (test.1 (grow-HasConflict routes S (λ P. sort_routes-Has P routes) h)),
    )
