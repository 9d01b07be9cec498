-- ===== src/AddrMap/Collapsed.antt =====
-- The first loop of `get_routes`: redundant routes are replaced by the shortest of them, and routes
-- that collide are refused.
use he_mai_a.Prelude.{
  ℕ, ◌≤◌, ◌<◌, ◌≡◌, refl, true, false, List, [], ◌∷◌, arith, ok, Bool-cases, ◌⊎◌, inl, inr, All,
  Has, All-imp, Has-imp, ltb, ◌>>=◌, >>=-eq-ok,
}
use he_mai_a.AddrMap.{Route, same_list, is_redundant, overlaps, shorter, collapse}
use he_mai_a.AddrMap.Sorted.{IsSorted}

-- A later route begins behind the end of an earlier one.
abbrev pub IsSeparated : List Route → Type 0
IsSeparated [] = Unit
IsSeparated (r ∷ rs) = All (λ q. r.hi ≤ q.lo) rs × IsSeparated rs

abbrev pub IsNonempty : Route → Type 0
IsNonempty r = r.lo < r.hi

-- `d` leads the addresses of `r` to the target of `r`, in no more hops.
abbrev pub Represents : Route → Route → Type 0
Represents r d = (d.lo ≡ r.lo) × (d.hi ≡ r.hi) × (d.target ≡ r.target) × (d.depth ≤ r.depth)

-- The routes share an address, and are not redundant.
abbrev pub Conflict : Route → Route → Type 0
Conflict r q = (overlaps r q ≡ true) × (is_redundant r q ≡ false)

abbrev pub HasConflict : List Route → Type 0
HasConflict rs = Has (λ r. Has (Conflict r) rs) rs

-- A run of the loop that raises nothing.
pub data Collapses : Route → List Route → List Route → Type 0 where
  done : (last : Route) → Collapses last [] (last ∷ [])
  merged :
      {last r : Route} {rs kept : List Route}
      → is_redundant last r ≡ true
      → Collapses (shorter last r) rs kept
      → Collapses last (r ∷ rs) kept
  next :
      {last r : Route} {rs kept : List Route}
      → overlaps last r ≡ false
      → Collapses r rs kept
      → Collapses last (r ∷ rs) (last ∷ kept)

pub same_list-eq : (xs ys : List ℕ) → same_list xs ys ≡ true → xs ≡ ys
same_list-eq [] [] h = refl
same_list-eq [] (y ∷ ys) h = cc
same_list-eq (x ∷ xs) [] h = cc
same_list-eq (x ∷ xs) (y ∷ ys) h = ground (arith, same_list-eq xs ys)

pub same_list_refl : (xs : List ℕ) → same_list xs xs ≡ true
same_list_refl [] = refl
same_list_refl (x ∷ xs) = ground (arith, same_list_refl xs)

pub collapse-Collapses :
    (last : Route) (rs : List Route) (kept : List Route)
    → collapse last rs ≡ ok kept
    → Collapses last rs kept
unfolding collapse
collapse-Collapses last [] kept h =
    let e : last ∷ [] ≡ kept = ground arith in rw (← e) (Collapses.done last)
collapse-Collapses last (r ∷ rs) kept h = elim (Bool-cases (is_redundant last r)) [
  | inl same ↦ Collapses.merged same (collapse-Collapses (shorter last r) rs kept (ground arith))
  | inr other ↦ elim (Bool-cases (overlaps last r)) [
    | inl clash ↦ cc
    | inr apart ↦
        let rest : (collapse r rs >>= λ done. ok (last ∷ done)) ≡ ok kept = ground arith in
        let (behind, run, e) = >>=-eq-ok (collapse r rs) (λ done. ok (last ∷ done)) rest in
        let whole : last ∷ behind ≡ kept = ground arith in
        rw (← whole) (Collapses.next apart (collapse-Collapses r rs behind run))
  ]
]

-- What the route that is kept has in common with both.
shorter_lem :
    (last r : Route)
    → is_redundant last r ≡ true
    → Represents last (shorter last r) × Represents r (shorter last r)
shorter_lem last r h = ground (arith, same_list-eq last.target r.target)

pub shorter-cases : (last r : Route) → (shorter last r ≡ last) ⊎ (shorter last r ≡ r)
shorter-cases last r = elim (Bool-cases (ltb r.depth last.depth)) [
  | inl e ↦ rw e (inr refl)
  | inr e ↦ rw e (inl refl)
]

behind :
    (last r : Route) (rs : List Route)
    → last.lo ≡ r.lo
    → All (λ q. last.lo ≤ q.lo) rs
    → All (λ q. r.lo ≤ q.lo) rs
behind last r rs e =
    All-imp (λ q. last.lo ≤ q.lo) (λ q. r.lo ≤ q.lo) rs (λ q le. omega (arith, e, le))

pub collapsed-IsSeparated :
    {last : Route} {rs kept : List Route}
    → Collapses last rs kept
    → IsSorted (last ∷ rs)
    → All IsNonempty (last ∷ rs)
    → IsSeparated kept × All (λ d. last.lo ≤ d.lo) kept
collapsed-IsSeparated (Collapses.done last) sorted full = ((tt, tt), (omega arith, tt))
collapsed-IsSeparated {last} (Collapses.merged {r = r} {rs} {kept} same run) sorted full =
    let e = shorter_lem last r same in
    let (apart, low) =
      collapsed-IsSeparated run
        (behind last (shorter last r) rs (omega (arith, e)) sorted.0.1, sorted.1.1)
        (omega (arith, e, full), full.1.1) in
    (apart, behind (shorter last r) last kept (omega (arith, e)) low)
collapsed-IsSeparated {last} (Collapses.next {r = r} {rs} {kept} apart run) sorted full =
    let (later, low) = collapsed-IsSeparated run sorted.1 full.1 in
    let first : last.lo ≤ r.lo = sorted.0.0 in
    let start : last.hi ≤ r.lo = ground (arith, full) in
    (
      (
        All-imp (λ q. r.lo ≤ q.lo) (λ q. last.hi ≤ q.lo) kept (λ q le. omega (arith, start, le))
            low,
        later,
      ),
      (
        omega arith,
        All-imp (λ q. r.lo ≤ q.lo) (λ q. last.lo ≤ q.lo) kept (λ q le. omega (arith, first, le))
            low,
      ),
    )

Represents-trans : (r q d : Route) → Represents r q → Represents q d → Represents r d
Represents-trans r q d h k = ground arith

-- Every route is represented.
pub collapsed-Represents :
    {last : Route} {rs kept : List Route}
    → Collapses last rs kept
    → All (λ r. Has (Represents r) kept) (last ∷ rs)
collapsed-Represents (Collapses.done last) = (inl (refl, refl, refl, omega arith), tt)
collapsed-Represents {last} (Collapses.merged {r = r} {rs} {kept} same run) =
    let e = shorter_lem last r same in
    let h = collapsed-Represents run in
    let through : (s : Route) → Represents s (shorter last r) → Has (Represents s) kept = λ s rep.
      Has-imp (Represents (shorter last r)) (Represents s) kept
        (λ d. Represents-trans s (shorter last r) d rep) h.0 in
    (through last e.0, (through r e.1, h.1))
collapsed-Represents {last} (Collapses.next {r = r} {rs} {kept} apart run) = (
  inl (refl, refl, refl, omega arith),
  All-imp (λ s. Has (Represents s) kept) (λ s. Has (Represents s) (last ∷ kept)) (r ∷ rs)
      (λ s h. inr h) (collapsed-Represents run),
)

-- No route is invented.
pub collapsed-Has :
    {last : Route} {rs kept : List Route}
    → (P : Route → Type 0) → Collapses last rs kept
    → All P (last ∷ rs)
    → All P kept
collapsed-Has P (Collapses.done last) h = h
collapsed-Has {last} P (Collapses.merged {r = r} same run) h =
    collapsed-Has P run
      (elim (shorter-cases last r) [ inl e ↦ rw e h.0 | inr e ↦ rw e h.1.0 ], h.1.1)
collapsed-Has P (Collapses.next apart run) h = (h.0, collapsed-Has P run h.1)
