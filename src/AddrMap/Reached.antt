-- ===== src/AddrMap/Reached.antt =====
-- The routes that `get_ranges` gathers are the paths from an entry to the leaves behind it.
use he_mai_a.Prelude.{
  ℕ, zero, suc, ◌+◌, ◌≤◌, ◌<◌, ◌≡◌, refl, true, false, List, [], ◌∷◌, ◌++◌, arith, Bool-cases, ◌⊎◌,
  inl, inr, All, Has, Has-imp, Has-elim, ◌↔◌, subst, Option, map, if◌then◌else◌, ◌==◌, String,
  ==_refl,
}
use he_mai_a.Prelude.Members.{contains}
use he_mai_a.AddrMap.{Route, Entry, leaf_route, inc_depth, concat_map, get_ranges_inner, get_ranges}

module _ (heap : ℕ → Entry) where
  -- A path from an entry to a leaf, through nodes that are not in `seen` and occur once.
  pub data Reaches : List ℕ → ℕ → ℕ → ℕ → Type 0 where
    here :
        {seen : List ℕ} {id : ℕ} {name : String} {size : ℕ} {bases : List ℕ}
        → heap id ≡ Entry.leaf name size bases
        → Reaches seen id id 0
    through :
        {seen : List ℕ} {id child target depth : ℕ} {name : String} {entries : List ℕ}
        {routes : Option (List Route)}
        → heap id ≡ Entry.node name entries routes
        → contains seen id ≡ false
        → contains entries child ≡ true
        → Reaches (id ∷ seen) child target depth
        → Reaches seen id target (suc depth)

module _ (P : Route → Type 0) where
  Has-append : (xs ys : List Route) → Has P (xs ++ ys) → Has P xs ⊎ Has P ys
  Has-append [] ys h = inr h
  Has-append (x ∷ xs) ys (inl h) = inl (inl h)
  Has-append (x ∷ xs) ys (inr h) = elim (Has-append xs ys h) [ inl l ↦ inl (inr l) | inr r ↦ inr r ]

  append-Has_left : (xs ys : List Route) → Has P xs → Has P (xs ++ ys)
  append-Has_left [] ys h = absurd h
  append-Has_left (x ∷ xs) ys (inl h) = inl h
  append-Has_left (x ∷ xs) ys (inr h) = inr (append-Has_left xs ys h)

  append-Has_right : (xs ys : List Route) → Has P ys → Has P (xs ++ ys)
  append-Has_right [] ys h = h
  append-Has_right (x ∷ xs) ys h = inr (append-Has_right xs ys h)

  pub Has-map {ℓ} :
      {A : Type ℓ} (f : A → Route) (xs : List A) → Has P (map f xs) → Has (λ x. P (f x)) xs
  Has-map f [] h = absurd h
  Has-map f (x ∷ xs) (inl h) = inl h
  Has-map f (x ∷ xs) (inr h) = inr (Has-map f xs h)

  pub map-Has {ℓ} :
      {A : Type ℓ} (f : A → Route) (xs : List A) → Has (λ x. P (f x)) xs → Has P (map f xs)
  map-Has f [] h = absurd h
  map-Has f (x ∷ xs) (inl h) = inl h
  map-Has f (x ∷ xs) (inr h) = inr (map-Has f xs h)

  pub Has-concat_map :
      (f : ℕ → List Route) (xs : List ℕ)
      → Has P (concat_map f xs)
      → (x : ℕ) × (contains xs x ≡ true) × Has P (f x)
  Has-concat_map f [] h = absurd h
  Has-concat_map f (x ∷ xs) h = elim (Has-append (f x) (concat_map f xs) h) [
    | inl first ↦ (x, ground (arith, ==_refl x), first)
    | inr later ↦ let (y, m, found) = Has-concat_map f xs later in (y, ground arith, found)
  ]

  pub concat_map-Has :
      (f : ℕ → List Route) (xs : List ℕ) (x : ℕ)
      → contains xs x ≡ true
      → Has P (f x)
      → Has P (concat_map f xs)
  concat_map-Has f [] x m h = cc
  concat_map-Has f (y ∷ ys) x m h = elim (Bool-cases (y == x)) [
    | inl same ↦ let e : x ≡ y = ground arith in append-Has_left (f y) (concat_map f ys) (rw e at h)
    | inr other ↦ append-Has_right (f y) (concat_map f ys) (concat_map-Has f ys x (ground arith) h)
  ]

pub Entry-cases :
    (e : Entry)
    → ((name : String) × (size : ℕ) × (bases : List ℕ) × (e ≡ Entry.leaf name size bases))
      ⊎ ((name : String) × (entries : List ℕ) × (routes : Option (List Route)) × (e
            ≡ Entry.node name entries routes))
Entry-cases (Entry.leaf name size bases) = inl (name, size, bases, refl)
Entry-cases (Entry.node name entries routes) = inr (name, entries, routes, refl)

-- The route to one range of a leaf, over `depth` nodes.
abbrev pub route_to : ℕ → ℕ → ℕ → ℕ → Route
route_to target size base depth = record (leaf_route target size base) { depth = depth }

module _ (heap : ℕ → Entry) {target size : ℕ} {name : String} {bases : List ℕ}
    (is_leaf : heap target ≡ Entry.leaf name size bases) (base : ℕ) where
  Has-base :
      (id size' : ℕ) (bs : List ℕ) (depth : ℕ)
      → Has (λ b. leaf_route id size' b ≡ route_to target size base depth) bs
      → (id ≡ target) × (depth ≡ 0) × (contains bs base ≡ true)
  Has-base id size' [] depth h = absurd h
  Has-base id size' (b ∷ bs) depth (inl e) = ground arith
  Has-base id size' (b ∷ bs) depth (inr h) = ground (arith, Has-base id size' bs depth h)

  inc_depth-cases :
      (rs : List Route) (depth : ℕ)
      → Has (λ r. inc_depth r ≡ route_to target size base depth) rs
      → (d : ℕ) × (depth ≡ suc d) × Has (λ r. r ≡ route_to target size base d) rs
  inc_depth-cases rs zero h =
      Has-elim (λ r. inc_depth r ≡ route_to target size base 0) rs (λ r e. absurd (ground arith)) h
  inc_depth-cases rs (suc d) h = (
    d,
    refl,
    Has-imp (λ r. inc_depth r ≡ route_to target size base (suc d))
        (λ r. r ≡ route_to target size base d) rs (λ r e. ground arith) h,
  )

  base-Has :
      (bs : List ℕ)
      → contains bs base ≡ true
      → Has (λ b. leaf_route target size b ≡ route_to target size base 0) bs
  base-Has [] m = cc
  base-Has (b ∷ bs) m = elim (Bool-cases (b == base)) [
    | inl same ↦ let e : b ≡ base = ground arith in inl (rw e refl)
    | inr other ↦ inr (base-Has bs (ground arith))
  ]

  pub Reaches-Has :
      {seen : List ℕ} {id depth : ℕ} (fuel : ℕ)
      → depth < fuel
      → contains bases base ≡ true
      → Reaches heap seen id target depth
      → Has (λ r. r ≡ route_to target size base depth) (get_ranges_inner fuel heap seen id)
  unfolding get_ranges_inner
  Reaches-Has zero low m path = absurd (omega arith)
  Reaches-Has (suc fuel) low m (Reaches.here e) =
      rw (is_leaf, get_ranges_inner)
        (map-Has (λ r. r ≡ route_to target size base 0) (leaf_route target size) bases
          (base-Has bases m))
  Reaches-Has {seen} {id} (suc fuel) low m
        (Reaches.through {child = child} {depth = depth} {entries = entries} e new edge path) =
      let inner = get_ranges_inner fuel heap (id ∷ seen) in
      let Here : Route → Type 0 = λ r. r ≡ route_to target size base depth in
      let There : Route → Type 0 = λ r. r ≡ route_to target size base (suc depth) in
      rw (e, new, get_ranges_inner)
        (map-Has There inc_depth (concat_map inner entries) (
          Has-imp Here (λ r. There (inc_depth r)) (concat_map inner entries) (λ r e. ground arith)
            (concat_map-Has Here inner entries child edge (Reaches-Has fuel (omega arith) m path))))

  Has-Reaches :
      (fuel : ℕ) (seen : List ℕ) (id depth : ℕ)
      → Has (λ r. r ≡ route_to target size base depth) (get_ranges_inner fuel heap seen id)
      → Reaches heap seen id target depth × (contains bases base ≡ true)
  unfolding get_ranges_inner
  Has-Reaches zero seen id depth h = absurd h
  Has-Reaches (suc fuel) seen id depth h = elim (Entry-cases (heap id)) [
    | inl (name', size', bases', e) ↦
        let found : Has (λ r. r ≡ route_to target size base depth)
            (map (leaf_route id size') bases') =
          rw (e, get_ranges_inner) at h in
        let (same, zero_depth, m) =
          Has-base id size' bases' depth (
            Has-map (λ r. r ≡ route_to target size base depth) (leaf_route id size') bases'
              found) in
        let e' : heap target ≡ Entry.leaf name' size' bases' = rw same at e in
        let known : bases' ≡ bases = cc in
        (rw (same, zero_depth) (Reaches.here is_leaf), rw (← known) m)
    | inr (name', entries, routes, e) ↦ elim (Bool-cases (contains seen id)) [
      | inl old ↦ absurd (let none_found : ⊥ = rw (e, old, get_ranges_inner) at h in none_found)
      | inr new ↦
          let inner = get_ranges_inner fuel heap (id ∷ seen) in
          let There : Route → Type 0 = λ r. r ≡ route_to target size base depth in
          let found : Has There (map inc_depth (concat_map inner entries)) =
            rw (e, new, get_ranges_inner) at h in
          let (child, edge, deep) =
            Has-concat_map (λ r. There (inc_depth r)) inner entries
              (Has-map There inc_depth (concat_map inner entries) found) in
          let (d, one_more, below) = inc_depth-cases (inner child) depth deep in
          let (path, m) = Has-Reaches fuel (id ∷ seen) child d below in
          (rw one_more (Reaches.through e new edge path), m)
    ]
  ]

-- Everything attached to an entry.
abbrev pub children : Entry → List ℕ
children (Entry.leaf name size bases) = []
children (Entry.node name entries routes) = entries

-- The ids in use are below `n`.
abbrev pub IsClosed : ℕ → (ℕ → Entry) → Type 0
IsClosed n heap = (i : ℕ) → All (λ c. c < n) (children (heap i))

-- How many ids below `n` are not in `seen`.
abbrev unseen : ℕ → List ℕ → ℕ
unseen zero seen = 0
unseen (suc n) seen = (if contains seen n then 0 else 1) + unseen n seen

unseen-old : (n id : ℕ) (seen : List ℕ) → n ≤ id → unseen n (id ∷ seen) ≡ unseen n seen
unseen-old zero id seen h = refl
unseen-old (suc n) id seen h = ground (arith, unseen-old n id seen)

unseen-new :
    (n id : ℕ) (seen : List ℕ)
    → id < n
    → contains seen id ≡ false
    → suc (unseen n (id ∷ seen)) ≡ unseen n seen
unseen-new zero id seen h new = absurd (omega arith)
unseen-new (suc n) id seen h new = elim (Bool-cases (id == n)) [
  | inl last ↦
      let e : id ≡ n = ground arith in
      let new' : contains seen n ≡ false = rw e at new in
      ground (arith, new', unseen-old n id seen (omega arith))
  | inr other ↦ ground (arith, unseen-new n id seen (ground arith) new)
]

unseen_none : (n : ℕ) → unseen n [] ≡ n
unseen_none zero = refl
unseen_none (suc n) = omega (arith, unseen_none n)

pub member-All : (P : ℕ → Type 0) (xs : List ℕ) (x : ℕ) → All P xs → contains xs x ≡ true → P x
member-All P [] x h m = cc
member-All P (y ∷ ys) x h m = elim (Bool-cases (y == x)) [
  | inl same ↦ let e : y ≡ x = ground arith in subst P e h.0
  | inr other ↦ member-All P ys x h.1 (ground arith)
]

depth-le-unseen :
    {heap : ℕ → Entry} {seen : List ℕ} {id target depth : ℕ} (n : ℕ)
    → IsClosed n heap
    → id < n
    → Reaches heap seen id target depth
    → depth ≤ unseen n seen
depth-le-unseen n closed h (Reaches.here e) = omega arith
depth-le-unseen {heap} {seen} {id} n closed h
      (Reaches.through {child = child} {entries = entries} e new edge path) =
    let inside : All (λ c. c < n) entries = rw e at (closed id) in
    omega (
      arith,
      unseen-new n id seen h new,
      depth-le-unseen n closed (member-All (λ c. c < n) entries child inside edge) path,
    )

-- Fuel for every id is enough.
pub closed-Reaches :
    (heap : ℕ → Entry) (n origin id target size depth base : ℕ) (name : String) (bases : List ℕ)
    → IsClosed n heap
    → origin < n
    → id < n
    → heap target ≡ Entry.leaf name size bases
    → Has (λ r. r ≡ route_to target size base depth) (get_ranges n heap origin id)
      ↔ (Reaches heap (origin ∷ []) id target depth × (contains bases base ≡ true))
unfolding get_ranges
closed-Reaches heap n origin id target size depth base name bases closed ho hid is_leaf = (
  λ h. Has-Reaches heap is_leaf base n (origin ∷ []) id depth h,
  λ h.
      Reaches-Has heap is_leaf base n
        (omega
          (arith, depth-le-unseen n closed hid h.0, unseen-new n origin [] ho refl, unseen_none n))
        h.1 h.0,
)
