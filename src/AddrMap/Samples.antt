-- ===== src/AddrMap/Samples.antt =====
-- A crossbar over two memories, one of which is also behind a second crossbar, as in the generator's
-- chips; and maps that collide.
use he_mai_a.Prelude.{
  ◌≡◌, refl, true, List, [], ◌∷◌, arith, ok, err, Error, All, Has, ◌↔◌, none, some, inl, inr,
  if◌then◌else◌, ◌==◌,
}
use he_mai_a.Prelude.Members.{contains}
use he_mai_a.AddrMap.{
  Route, Entry, AddrMap, new_leaf, new_node, attach, get_routes, simplify, collected, get_ranges,
  get_ranges_inner, sort_routes, insert_route, collapse, compress, unified_with,
}
use he_mai_a.AddrMap.Collapsed.{IsSeparated, IsNonempty, HasConflict}
use he_mai_a.AddrMap.Conflicts.{simplify-collision}
use he_mai_a.AddrMap.Decoded.{Decodes, simplify-Decodes}
use he_mai_a.AddrMap.Reached.{Reaches, route_to}
use he_mai_a.AddrMap.Built.{Built, empty, get_ranges-Reaches}
use he_mai_a.AddrMap.Routed.{HasSizes, Serves, get_routes-Serves}

-- Entry 0 is a memory of 16 bytes at 32, entry 1 one of 8 bytes at 48 and at 96. Entry 2 is the narrow
-- crossbar, with both behind it; entry 3 is the wide one, with the narrow one and memory 0 behind it.
parts : AddrMap
parts =
    (new_node "wide"
      (new_node "narrow"
        (new_leaf "tcdm" 8 (48 ∷ 96 ∷ []) (new_leaf "spm" 16 (32 ∷ []) empty).1).1).1).1

abbrev narrow : AddrMap
narrow = record parts {
  heap = λ x. if 2 == x then Entry.node "narrow" (0 ∷ 1 ∷ []) none else parts.heap x;
}

abbrev chip : AddrMap
chip = record narrow {
  heap = λ x. if 3 == x then Entry.node "wide" (2 ∷ 0 ∷ []) none else narrow.heap x;
}

abbrev final : List Route
final =
    record { lo = 32; hi = 48; port = some 0; target = 0 ∷ []; depth = 0 }
    ∷ record { lo = 48; hi = 104; port = some 2; target = 1 ∷ 1 ∷ []; depth = 0 }
    ∷ []

chip_routes :
    get_routes 3 chip
    ≡ ok (
      final,
      record chip {
        heap = λ x. if 3 == x then Entry.node "wide" (2 ∷ 0 ∷ []) (some final) else chip.heap x;
      },
    )
unfolding get_routes simplify collected get_ranges get_ranges_inner sort_routes insert_route
    collapse compress unified_with parts new_node new_leaf
chip_routes = refl

chip-Built : Built chip
unfolding parts attach new_node new_leaf
chip-Built =
    Built.attached {m = narrow} 3 (2 ∷ 0 ∷ [])
      (Built.attached {m = parts} 2 (0 ∷ 1 ∷ [])
        (Built.node_added "wide" (
          Built.node_added "narrow" (
            Built.leaf_added "tcdm" 8 (48 ∷ 96 ∷ [])
              (Built.leaf_added "spm" 16 (32 ∷ []) Built.start))))
        (omega arith) refl)
      (omega arith) refl

chip-HasSizes : HasSizes chip.heap
unfolding parts new_node new_leaf
chip-HasSizes id name size base bases e m = ground arith

wide_tcdm : Reaches chip.heap (3 ∷ []) 2 1 1
unfolding parts new_node new_leaf
wide_tcdm = Reaches.through refl refl refl (Reaches.here refl)

get_routes-Serves_example : IsSeparated final × Has (Serves chip.heap 3 (2 ∷ 0 ∷ []) 1 8 96 1) final
unfolding parts new_node new_leaf
get_routes-Serves_example =
    get_routes-Serves {m = chip} 3 "wide" (2 ∷ 0 ∷ []) 2 1 8 96 1 "tcdm" (48 ∷ 96 ∷ []) chip-Built
      chip-HasSizes (omega arith) refl chip_routes refl refl refl wide_tcdm

get_ranges-Reaches_example :
    Has (λ r. r ≡ route_to 1 8 96 1) (get_ranges 4 chip.heap 3 2)
    ↔ (Reaches chip.heap (3 ∷ []) 2 1 1 × (contains (48 ∷ 96 ∷ []) 96 ≡ true))
unfolding parts new_node new_leaf
get_ranges-Reaches_example =
    get_ranges-Reaches {m = chip} 3 2 1 8 1 96 "tcdm" (48 ∷ 96 ∷ []) chip-Built (omega arith)
      (omega arith) refl

abbrev clash : List Route
clash =
    record { lo = 0; hi = 8; port = some 5; target = 0 ∷ []; depth = 0 }
    ∷ record { lo = 16; hi = 24; port = some 6; target = 1 ∷ []; depth = 1 }
    ∷ record { lo = 4; hi = 12; port = some 6; target = 2 ∷ []; depth = 1 }
    ∷ []

clash-IsNonempty : All IsNonempty clash
clash-IsNonempty = omega arith

simplify-collision_example : (simplify clash ≡ err Error.address_collision) ↔ HasConflict clash
simplify-collision_example = simplify-collision clash clash-IsNonempty

clash-HasConflict : HasConflict clash
clash-HasConflict = inl (inr (inr (inl (refl, refl))))

abbrev doubled : List Route
doubled =
    record { lo = 16; hi = 24; port = some 6; target = 1 ∷ []; depth = 2 }
    ∷ record { lo = 0; hi = 8; port = some 5; target = 0 ∷ []; depth = 0 }
    ∷ record { lo = 16; hi = 24; port = some 5; target = 1 ∷ []; depth = 1 }
    ∷ []

abbrev doubled_final : List Route
doubled_final = record { lo = 0; hi = 24; port = some 5; target = 0 ∷ 1 ∷ []; depth = 0 } ∷ []

doubled_run : simplify doubled ≡ ok doubled_final
unfolding simplify sort_routes insert_route collapse compress unified_with
doubled_run = refl

simplify-Decodes_example : IsSeparated doubled_final × All (Decodes doubled doubled_final) doubled
simplify-Decodes_example = simplify-Decodes doubled doubled_final (omega arith) doubled_run
