-- ===== src/AddrMap/Routed.antt =====
-- The routes of a node against the paths of the map.
use he_mai_a.Prelude.{
  ℕ, zero, suc, ◌+◌, ◌≤◌, ◌<◌, ◌≡◌, refl, ap, sym, ◌∙◌, true, List, [], ◌∷◌, arith, Bool-cases, inl,
  inr, ok, All, All-append, Has, Has-imp, Has-elim, Has-All, none, some, map, String, ◌>>=◌,
  >>=-eq-ok, subst, All-self, ==_refl,
}
use he_mai_a.Prelude.Members.{contains}
use he_mai_a.AddrMap.{
  Route, Entry, AddrMap, leaf_route, inc_depth, with_port, concat_map, get_ranges_inner, get_ranges,
  collected, simplify, get_routes, set_entry,
}
use he_mai_a.AddrMap.Reached.{
  Reaches, route_to, closed-Reaches, Entry-cases, map-Has, Has-map, concat_map-Has, Has-concat_map,
  member-All,
}
use he_mai_a.AddrMap.Collapsed.{IsSeparated, IsNonempty, Represents}
use he_mai_a.AddrMap.Decoded.{Covers, Decodes, simplify-Decodes}
use he_mai_a.AddrMap.Built.{Built, Built-IsClosed}

module _ (P : Route → Type 0) where
  map-All :
      (f : ℕ → Route) (xs : List ℕ) → ((x : ℕ) → contains xs x ≡ true → P (f x)) → All P (map f xs)
  map-All f [] h = tt
  map-All f (x ∷ xs) h = (h x (ground (arith, ==_refl x)), map-All f xs (λ y m. h y (ground arith)))

  map-All_from :
      (Q : Route → Type 0) (f : Route → Route) (xs : List Route)
      → ((x : Route) → Q x → P (f x))
      → All Q xs
      → All P (map f xs)
  map-All_from Q f [] step h = tt
  map-All_from Q f (x ∷ xs) step h = (step x h.0, map-All_from Q f xs step h.1)

  concat_map-All :
      (f : ℕ → List Route) (xs : List ℕ) → ((x : ℕ) → All P (f x)) → All P (concat_map f xs)
  concat_map-All f [] h = tt
  concat_map-All f (x ∷ xs) h = All-append P (f x) (concat_map f xs) (h x) (concat_map-All f xs h)

-- Every range of a leaf has an address.
abbrev pub HasSizes : (ℕ → Entry) → Type 0
HasSizes heap =
    (id : ℕ) (name : String) (size base : ℕ) (bases : List ℕ)
    → heap id ≡ Entry.leaf name size bases
    → contains bases base ≡ true
    → 0 < size

-- A range of an entry has no port yet.
abbrev IsRange : Route → Type 0
IsRange r = (r.port ≡ none) × IsNonempty r

module _ (heap : ℕ → Entry) (sizes : HasSizes heap) where
  ranges-All :
      (fuel : ℕ) (seen : List ℕ) (id : ℕ) → All IsRange (get_ranges_inner fuel heap seen id)
  unfolding get_ranges_inner
  ranges-All zero seen id = tt
  ranges-All (suc fuel) seen id = elim (Entry-cases (heap id)) [
    | inl (name, size, bases, e) ↦
        rw (e, get_ranges_inner)
          (map-All IsRange (leaf_route id size) bases
            (λ b m. (refl, omega (arith, sizes id name size b bases e m))))
    | inr (name, entries, routes, e) ↦ elim (Bool-cases (contains seen id)) [
      | inl old ↦ rw (e, old, get_ranges_inner) tt
      | inr new ↦
          rw (e, new, get_ranges_inner)
            (map-All_from IsRange IsRange inc_depth
              (concat_map (get_ranges_inner fuel heap (id ∷ seen)) entries) (λ r h. h)
              (concat_map-All IsRange (get_ranges_inner fuel heap (id ∷ seen)) entries
                (ranges-All fuel (id ∷ seen))))
    ]
  ]

  collected-IsNonempty :
      (fuel id : ℕ) (ports : List ℕ) → All IsNonempty (collected fuel heap id ports)
  unfolding collected get_ranges
  collected-IsNonempty fuel id ports =
      concat_map-All IsNonempty (λ port. map (with_port port) (get_ranges fuel heap id port)) ports
        (λ port.
          map-All_from IsNonempty IsRange (with_port port)
            (get_ranges_inner fuel heap (id ∷ []) port) (λ r h. h.1)
            (ranges-All fuel (id ∷ []) port))

-- The final route takes the range of the leaf out at a port from which the leaf is reached in at
-- most `depth` hops.
abbrev pub Serves : (ℕ → Entry) → ℕ → List ℕ → (target size base depth : ℕ) → Route → Type 0
Serves heap id ports target size base depth c =
    (c.lo ≤ base)
    × (base + size ≤ c.hi)
    × (contains c.target target ≡ true)
    × ((port : ℕ) × (hops : ℕ) × (c.port ≡ some port)
        × (contains ports port ≡ true)
        × (hops ≤ depth)
        × Reaches heap (id ∷ []) port target hops)

get_routes-simplify :
    (m m' : AddrMap) (id : ℕ) (name : String) (ports : List ℕ) (final : List Route)
    → m.heap id ≡ Entry.node name ports none
    → get_routes id m ≡ ok (final, m')
    → simplify (collected m.next_id m.heap id ports) ≡ ok final
unfolding get_routes
get_routes-simplify m m' id name ports final node e =
    let after = λ (routes : List Route). record m {
      heap = set_entry m.heap id (Entry.node name ports (some routes));
    } in
    let asked : get_routes id m
        ≡ (simplify (collected m.next_id m.heap id ports) >>= λ routes. ok (routes, after routes)) =
      rw (node, get_routes) refl in
    let (routes, made, last) =
      >>=-eq-ok (simplify (collected m.next_id m.heap id ports))
        (λ routes. ok (routes, after routes)) {b = (final, m')} (sym asked ∙ e) in
    let same : routes ≡ final = cc in made ∙ ap ok same

module _ {m : AddrMap} (b : Built m) (sizes : HasSizes m.heap) (id : ℕ) (ports : List ℕ)
    (own : id < m.next_id) (inside : All (λ c. c < m.next_id) ports) {target size : ℕ}
    {name : String} {bases : List ℕ} (is_leaf : m.heap target ≡ Entry.leaf name size bases)
    (base : ℕ) where
  -- A route to the leaf has a port from which the leaf is reached.
  collected-Reaches :
      (d : Route)
      → Has (λ q. q ≡ d) (collected m.next_id m.heap id ports)
      → (d.lo ≡ base) × (d.hi ≡ base + size) × (d.target ≡ target ∷ [])
      → (port : ℕ) × (d.port ≡ some port)
        × (contains ports port ≡ true)
        × Reaches m.heap (id ∷ []) port target d.depth
  unfolding collected get_ranges
  collected-Reaches d found shape =
      let ranges = λ (port : ℕ). get_ranges m.next_id m.heap id port in
      let (port, edge, deep) =
        Has-concat_map (λ q. q ≡ d) (λ port. map (with_port port) (ranges port)) ports found in
      let under = Has-map (λ q. q ≡ d) (with_port port) (ranges port) deep in
      let full =
        Has-All IsRange (λ q. with_port port q ≡ d) (ranges port)
          (ranges-All m.heap sizes m.next_id (id ∷ []) port) under in
      let exact : Has (λ q. q ≡ route_to target size base d.depth) (ranges port) =
        Has-imp (λ q. IsRange q × (with_port port q ≡ d))
          (λ q. q ≡ route_to target size base d.depth) (ranges port) (λ q h. ground arith) full in
      let port_of : d.port ≡ some port =
        Has-elim (λ q. IsRange q × (with_port port q ≡ d)) (ranges port) (λ q h. ground arith)
          full in
      (
        port,
        port_of,
        edge,
        ((closed-Reaches m.heap m.next_id id port target size d.depth base name bases
              (Built-IsClosed b) own (member-All (λ c. c < m.next_id) ports port inside edge)
              is_leaf).0
            exact).0,
      )

  collected-Has :
      (port depth : ℕ)
      → contains ports port ≡ true
      → contains bases base ≡ true
      → Reaches m.heap (id ∷ []) port target depth
      → Has
          (λ r. r ≡ with_port port (route_to target size base depth))
          (collected m.next_id m.heap id ports)
  unfolding collected
  collected-Has port depth edge based path =
      let ranges = λ (port : ℕ). get_ranges m.next_id m.heap id port in
      let Here : Route → Type 0 = λ r. r ≡ with_port port (route_to target size base depth) in
      concat_map-Has Here (λ port. map (with_port port) (ranges port)) ports port edge
        (map-Has Here (with_port port) (ranges port) (
          Has-imp (λ r. r ≡ route_to target size base depth) (λ r. Here (with_port port r))
            (ranges port) (λ r e. ap (with_port port) e)
            ((closed-Reaches m.heap m.next_id id port target size depth base name bases
                (Built-IsClosed b) own (member-All (λ c. c < m.next_id) ports port inside edge)
                is_leaf).1
              (path, based))))

  Decodes-Serves :
      (final : List Route) (port depth : ℕ)
      → Decodes
          (collected m.next_id m.heap id ports)
          final
          (with_port port (route_to target size base depth))
      → Has (Serves m.heap id ports target size base depth) final
  Decodes-Serves final port depth h =
      let routes = collected m.next_id m.heap id ports in
      let r = with_port port (route_to target size base depth) in
      Has-elim (λ d. Has (λ q. q ≡ d) routes × (Represents r d × Has (Covers d) final)) routes
        (λ d k.
          let rep : Represents r d = k.1.0 in
          let (out, port_of, edge, path) = collected-Reaches d k.0 (rep.0, rep.1, rep.2) in
          let named : contains d.target target ≡ true = rw rep.2 (ground (arith, ==_refl target)) in
          Has-imp (Covers d) (Serves m.heap id ports target size base depth) final
            (λ c cover. (
              omega (arith, rep, cover.0),
              omega (arith, rep, cover.1),
              cover.3 target named,
              (out, d.depth, cover.2 ∙ port_of, edge, rep.3, path),
            ))
            k.1.1)
        (Has-All (λ d. Has (λ q. q ≡ d) routes) (λ d. Represents r d × Has (Covers d) final) routes
          (All-self routes) h)

-- On a map that can be built, where every range of a leaf has an address, let a node's routes be asked for the
-- first time. If a leaf is reached from one of the node's ports, then one of the final routes takes
-- the leaf's whole range, names the leaf, and leaves at a port from which the leaf is reached in no
-- more hops; the final routes do not overlap.
pub get_routes-Serves :
    {m m' : AddrMap} {final : List Route} (id : ℕ) (node_name : String) (ports : List ℕ)
    (port target size base depth : ℕ) (name : String) (bases : List ℕ)
    → Built m
    → HasSizes m.heap
    → id < m.next_id
    → m.heap id ≡ Entry.node node_name ports none
    → get_routes id m ≡ ok (final, m')
    → contains ports port ≡ true
    → m.heap target ≡ Entry.leaf name size bases
    → contains bases base ≡ true
    → Reaches m.heap (id ∷ []) port target depth
    → IsSeparated final × Has (Serves m.heap id ports target size base depth) final
get_routes-Serves {m} {m'} {final} id node_name ports port target size base depth name bases b sizes
      own node asked edge is_leaf based path =
    let routes = collected m.next_id m.heap id ports in
    let inside : All (λ c. c < m.next_id) ports = rw node at (Built-IsClosed b id) in
    let (apart, decoded) =
      simplify-Decodes routes final (collected-IsNonempty m.heap sizes m.next_id id ports)
        (get_routes-simplify m m' id node_name ports final node asked) in
    let r = with_port port (route_to target size base depth) in
    (
      apart,
      Has-elim (λ q. Decodes routes final q × (q ≡ r)) routes
          (λ q h.
            Decodes-Serves b sizes id ports own inside is_leaf base final port depth
              (subst (Decodes routes final) h.1 h.0))
          (Has-All (Decodes routes final) (λ q. q ≡ r) routes decoded
            (collected-Has b sizes id ports own inside is_leaf base port depth edge based path)),
    )
