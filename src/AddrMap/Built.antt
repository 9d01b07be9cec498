-- ===== src/AddrMap/Built.antt =====
-- The maps that the generator can build: their ids stay below the counter.
use he_mai_a.Prelude.{
  ℕ, ◌+◌, ◌<◌, ◌≡◌, refl, List, [], ◌∷◌, ◌++◌, arith, Bool-cases, inl, inr, ok, err, All, All-imp,
  All-append, none, some, String, ◌==◌, true, ◌>>=◌, >>=-eq-ok, Error, subst, sym, ap, ◌∙◌, ◌⊎◌,
  Has, ◌↔◌, ==_refl,
}
use he_mai_a.AddrMap.{
  Route, Entry, AddrMap, set_entry, new_leaf, new_node, attach, get_routes, simplify, collected,
  get_ranges,
}
use he_mai_a.Prelude.Members.{contains}
use he_mai_a.AddrMap.Reached.{children, IsClosed, Entry-cases, Reaches, route_to, closed-Reaches}

abbrev pub empty : AddrMap
empty = record {
  entries = [];
  leaves = [];
  nodes = [];
  next_id = 0;
  heap = λ x. Entry.leaf "" 0 [];
}

-- A map with the calls that built it; children are entries of the map.
pub data Built : AddrMap → Type 0 where
  start : Built empty
  leaf_added :
      {m : AddrMap} (name : String) (size : ℕ) (bases : List ℕ)
      → Built m
      → Built (new_leaf name size bases m).1
  node_added : {m : AddrMap} (name : String) → Built m → Built (new_node name m).1
  attached :
      {m m' : AddrMap} (id : ℕ) (entries : List ℕ)
      → Built m
      → All (λ c. c < m.next_id) entries
      → attach id entries m ≡ ok m'
      → Built m'
  routed :
      {m m' : AddrMap} {routes : List Route} (id : ℕ)
      → Built m
      → get_routes id m ≡ ok (routes, m')
      → Built m'

set_entry-IsClosed :
    (n id : ℕ) (heap : ℕ → Entry) (e : Entry)
    → IsClosed n heap
    → All (λ c. c < n) (children e)
    → IsClosed n (set_entry heap id e)
set_entry-IsClosed n id heap e closed h i = elim (Bool-cases (id == i)) [
  | inl same ↦ rw same h
  | inr other ↦ rw other (closed i)
]

grow-IsClosed : (n : ℕ) (heap : ℕ → Entry) → IsClosed n heap → IsClosed (n + 1) heap
grow-IsClosed n heap closed i =
    All-imp (λ c. c < n) (λ c. c < n + 1) (children (heap i)) (λ c h. omega arith) (closed i)

attach-IsClosed :
    (m m' : AddrMap) (id : ℕ) (entries : List ℕ)
    → IsClosed m.next_id m.heap
    → All (λ c. c < m.next_id) entries
    → attach id entries m ≡ ok m'
    → IsClosed m'.next_id m'.heap
unfolding attach
attach-IsClosed m m' id entries closed h e = elim (Entry-cases (m.heap id)) [
  | inl (name, size, bases, leaf) ↦
      let refused : attach id entries m ≡ err Error.no_node = rw (leaf, attach) refl in absurd (cc)
  | inr (name, old, routes, node) ↦
      let next = Entry.node name (old ++ entries) none in
      let made : attach id entries m ≡ ok (record m { heap = set_entry m.heap id next }) =
        rw (node, attach) refl in
      let same : record m { heap = set_entry m.heap id next } ≡ m' = cc in
      let known : All (λ c. c < m.next_id) old = rw node at (closed id) in
      subst (λ (t : AddrMap). IsClosed t.next_id t.heap) same
        (set_entry-IsClosed m.next_id id m.heap next closed
          (All-append (λ c. c < m.next_id) old entries known h))
]

-- What `get_routes` leaves behind: the map as it was, or with the routes in the node's cache.
pub get_routes-cases :
    (m m' : AddrMap) (id : ℕ) (found : List Route)
    → get_routes id m ≡ ok (found, m')
    → (m' ≡ m)
      ⊎ ((name : String) × (entries : List ℕ) × (m.heap id ≡ Entry.node name entries none)
          × (m' ≡ record m { heap = set_entry m.heap id (Entry.node name entries (some found)) }))
unfolding get_routes
get_routes-cases m m' id found e = elim (Entry-cases (m.heap id)) [
  | inl (name, size, bases, leaf) ↦
      let refused : get_routes id m ≡ err Error.no_node = rw (leaf, get_routes) refl in absurd (cc)
  | inr (name, entries, some routes, node) ↦
      let kept : get_routes id m ≡ ok (routes, m) = rw (node, get_routes) refl in inl (cc)
  | inr (name, entries, none, node) ↦
      let after = λ (routes : List Route). record m {
        heap = set_entry m.heap id (Entry.node name entries (some routes));
      } in
      let asked : get_routes id m ≡ (
          simplify (collected m.next_id m.heap id entries) >>= λ routes.
          ok (routes, after routes)) =
        rw (node, get_routes) refl in
      let (routes, made, last) =
        >>=-eq-ok (simplify (collected m.next_id m.heap id entries))
          (λ routes. ok (routes, after routes)) {b = (found, m')} (sym asked ∙ e) in
      let first : routes ≡ found = cc in
      let second : after routes ≡ m' = cc in inr (name, entries, node, sym second ∙ ap after first)
]

get_routes-IsClosed :
    (m m' : AddrMap) (id : ℕ) (found : List Route)
    → IsClosed m.next_id m.heap
    → get_routes id m ≡ ok (found, m')
    → IsClosed m'.next_id m'.heap
get_routes-IsClosed m m' id found closed e = elim (get_routes-cases m m' id found e) [
  | inl same ↦ subst (λ (t : AddrMap). IsClosed t.next_id t.heap) (sym same) closed
  | inr (name, entries, node, same) ↦
      let known : All (λ c. c < m.next_id) entries = rw node at (closed id) in
      subst (λ (t : AddrMap). IsClosed t.next_id t.heap) (sym same)
        (set_entry-IsClosed m.next_id id m.heap (Entry.node name entries (some found)) closed known)
]

pub Built-IsClosed : {m : AddrMap} → Built m → IsClosed m.next_id m.heap
unfolding new_leaf new_node
Built-IsClosed Built.start = λ i. tt
Built-IsClosed (Built.leaf_added {m} name size bases b) =
    set_entry-IsClosed (m.next_id + 1) m.next_id m.heap (Entry.leaf name size bases)
      (grow-IsClosed m.next_id m.heap (Built-IsClosed b)) tt
Built-IsClosed (Built.node_added {m} name b) =
    set_entry-IsClosed (m.next_id + 1) m.next_id m.heap (Entry.node name [] none)
      (grow-IsClosed m.next_id m.heap (Built-IsClosed b)) tt
Built-IsClosed (Built.attached {m} {m'} id entries b h e) =
    attach-IsClosed m m' id entries (Built-IsClosed b) h e
Built-IsClosed (Built.routed {m} {m'} {routes} id b e) =
    get_routes-IsClosed m m' id routes (Built-IsClosed b) e

-- In every map that can be built, the ranges that a node finds at an entry are the paths from the
-- entry to leaves that do not pass through the node and pass no node twice: one range for each base
-- of the leaf, with the number of nodes passed as its depth.
pub get_ranges-Reaches :
    {m : AddrMap} (origin id target size depth base : ℕ) (name : String) (bases : List ℕ)
    → Built m
    → origin < m.next_id
    → id < m.next_id
    → m.heap target ≡ Entry.leaf name size bases
    → Has (λ r. r ≡ route_to target size base depth) (get_ranges m.next_id m.heap origin id)
      ↔ (Reaches m.heap (origin ∷ []) id target depth × (contains bases base ≡ true))
get_ranges-Reaches {m} origin id target size depth base name bases b =
    closed-Reaches m.heap m.next_id origin id target size depth base name bases (Built-IsClosed b)

-- The routes of a node stay the same when they are asked for again.
pub get_routes-get_routes :
    (m m' : AddrMap) (id : ℕ) (found : List Route)
    → get_routes id m ≡ ok (found, m')
    → get_routes id m' ≡ ok (found, m')
unfolding get_routes
get_routes-get_routes m m' id found e = elim (get_routes-cases m m' id found e) [
  | inl same ↦ subst (λ (t : AddrMap). get_routes id t ≡ ok (found, m')) (sym same) e
  | inr (name, entries, node, same) ↦
      let cached : m'.heap id ≡ Entry.node name entries (some found) = rw (same, ==_refl id) refl in
      rw (cached, get_routes) refl
]
