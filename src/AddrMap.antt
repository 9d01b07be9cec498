-- ===== src/AddrMap.antt =====
-- The address map of the crossbar generator (util/solder/solder.py): leaves and interconnect nodes,
-- the routes that a node finds to the leaves behind it, and their simplification. An entry object is
-- referred to by its `id`.
mod Sorted
pub mod Collapsed
pub mod Conflicts
pub mod Decoded
pub mod Reached
pub mod Built
pub mod Routed
mod Samples
use he_mai_a.Prelude.{
  ℕ, zero, suc, ◌+◌, ◌<◌, Bool, true, false, ◌&&◌, Option, none, some, List, [], ◌∷◌, ◌++◌, map,
  ltb, leb, ◌==◌, if◌then◌else◌, min, max, String, Result, ok, err, Error, ◌>>=◌,
}
use he_mai_a.Prelude.Members.{contains}

-- The target is one leaf, or the list of the leaves of united routes.
pub record Route : Type 0 where
  pub lo : ℕ
  pub hi : ℕ
  pub port : Option ℕ
  pub target : List ℕ
  pub depth : ℕ

-- `routes` is the cache of a node.
pub data Entry : Type 0 where
  leaf : (name : String) → (size : ℕ) → (bases : List ℕ) → Entry
  node : (name : String) → (entries : List ℕ) → (routes : Option (List Route)) → Entry

-- The entries by id; `next_id` is the counter of the class.
pub record AddrMap : Type 0 where
  pub entries : List ℕ
  pub leaves : List ℕ
  pub nodes : List ℕ
  pub next_id : ℕ
  pub heap : ℕ → Entry

abbrev pub set_entry : (ℕ → Entry) → ℕ → Entry → ℕ → Entry
set_entry heap id entry = λ x. if id == x then entry else heap x

pub new_leaf : String → ℕ → List ℕ → AddrMap → ℕ × AddrMap
new_leaf name size bases m = (
  m.next_id,
  record m {
    entries = m.entries ++ m.next_id ∷ [];
    leaves = m.leaves ++ m.next_id ∷ [];
    next_id = m.next_id + 1;
    heap = set_entry m.heap m.next_id (Entry.leaf name size bases);
  },
)

pub new_node : String → AddrMap → ℕ × AddrMap
new_node name m = (
  m.next_id,
  record m {
    entries = m.entries ++ m.next_id ∷ [];
    nodes = m.nodes ++ m.next_id ∷ [];
    next_id = m.next_id + 1;
    heap = set_entry m.heap m.next_id (Entry.node name [] none);
  },
)

-- Only the node's own cache is dropped. A leaf has no such method.
pub attach : ℕ → List ℕ → AddrMap → Result AddrMap
attach id children m = elim (m.heap id) [
  | Entry.leaf name size bases ↦ err Error.no_node
  | Entry.node name entries routes ↦
      ok (record m { heap = set_entry m.heap id (Entry.node name (entries ++ children) none) })
]

abbrev pub leaf_route : ℕ → ℕ → ℕ → Route
leaf_route id size base = record {
  lo = base;
  hi = base + size;
  port = none;
  target = id ∷ [];
  depth = 0;
}

abbrev pub inc_depth : Route → Route
inc_depth r = record r { depth = r.depth + 1 }

abbrev pub with_port : ℕ → Route → Route
with_port port r = record r { port = some port }

abbrev pub concat_map {ℓ κ} : {A : Type ℓ} {B : Type κ} → (A → List B) → List A → List B
concat_map f [] = []
concat_map f (x ∷ xs) = f x ++ concat_map f xs

-- The recursion passes through a node at most once on each path, so as much fuel as there are nodes
-- is enough.
pub get_ranges_inner : ℕ → (ℕ → Entry) → List ℕ → ℕ → List Route
get_ranges_inner zero heap seen id = []
get_ranges_inner (suc fuel) heap seen id = elim (heap id) [
  | Entry.leaf name size bases ↦ map (leaf_route id size) bases
  | Entry.node name entries routes ↦ elim (contains seen id) [
    | true ↦ []
    | false ↦ map inc_depth (concat_map (get_ranges_inner fuel heap (id ∷ seen)) entries)
  ]
]

pub get_ranges : ℕ → (ℕ → Entry) → (origin : ℕ) → ℕ → List Route
get_ranges fuel heap origin id = get_ranges_inner fuel heap (origin ∷ []) id

pub collected : ℕ → (ℕ → Entry) → ℕ → List ℕ → List Route
collected fuel heap id ports =
    concat_map (λ port. map (with_port port) (get_ranges fuel heap id port)) ports

pub insert_route : Route → List Route → List Route
insert_route r [] = r ∷ []
insert_route r (q ∷ qs) = if leb r.lo q.lo then r ∷ q ∷ qs else q ∷ insert_route r qs

-- routes.sort(key=lambda a: a.lo), which is stable
pub sort_routes : List Route → List Route
sort_routes [] = []
sort_routes (r ∷ rs) = insert_route r (sort_routes rs)

abbrev pub same_list : List ℕ → List ℕ → Bool
same_list [] [] = true
same_list (x ∷ xs) (y ∷ ys) = x == y && same_list xs ys
same_list _ _ = false

abbrev pub same_port : Option ℕ → Option ℕ → Bool
same_port (some p) (some q) = p == q
same_port none none = true
same_port _ _ = false

-- The same addresses lead to the same target.
abbrev pub is_redundant : Route → Route → Bool
is_redundant last r = last.lo == r.lo && last.hi == r.hi && same_list last.target r.target

abbrev pub overlaps : Route → Route → Bool
overlaps last r = ltb last.lo r.hi && ltb r.lo last.hi

abbrev pub shorter : Route → Route → Route
shorter last r = if ltb r.depth last.depth then r else last

-- The loop that fills `done`, whose last item is `last`.
pub collapse : Route → List Route → Result (List Route)
collapse last [] = ok (last ∷ [])
collapse last (r ∷ rs) = elim (is_redundant last r) [
  | true ↦ collapse (shorter last r) rs
  | false ↦ elim (overlaps last r) [
    | true ↦ err Error.address_collision
    | false ↦ collapse r rs >>= λ done. ok (last ∷ done)
  ]
]

pub unified_with : Route → Route → Route
unified_with r other = record {
  lo = min r.lo other.lo;
  hi = max r.hi other.hi;
  port = r.port;
  target = r.target ++ other.target;
  depth = 0;
}

-- The loop that fills `compressed`, whose last item is `last`.
pub compress : Route → List Route → List Route
compress last [] = last ∷ []
compress last (r ∷ rs) = elim (same_port last.port r.port) [
  | true ↦ compress (unified_with last r) rs
  | false ↦ last ∷ compress r rs
]

-- A node without routes raises IndexError.
abbrev pub collapse_all : List Route → Result (List Route)
collapse_all [] = err Error.no_routes
collapse_all (r ∷ rs) = collapse r rs

abbrev pub compress_all : List Route → List Route
compress_all [] = []
compress_all (r ∷ rs) = compress r rs

pub simplify : List Route → Result (List Route)
simplify routes = collapse_all (sort_routes routes) >>= λ done. ok (compress_all done)

-- The routes of a node, and the map in which they are cached.
pub get_routes : ℕ → AddrMap → Result (List Route × AddrMap)
get_routes id m = elim (m.heap id) [
  | Entry.leaf name size bases ↦ err Error.no_node
  | Entry.node name entries (some routes) ↦ ok (routes, m)
  | Entry.node name entries none ↦ simplify (collected m.next_id m.heap id entries) >>= λ routes.
      ok (routes, record m { heap = set_entry m.heap id (Entry.node name entries (some routes)) })
]
