-- ===== src/Node/Samples.antt =====
-- A buffer of 256 bytes that is aligned to 64.
use he_mai_a.Prelude.{◌≡◌, none, some, ok, ◌↔◌}
use he_mai_a.Node.{BingoMemAlloc, new_mem_alloc}
use he_mai_a.Node.Aligned.{IsAlignment, new_mem_alloc-IsAlignment}

new_mem_alloc-IsAlignment_example :
    ((handle : BingoMemAlloc) × (new_mem_alloc "buffer" 256 "L1" 0 1 0 none (some 64) ≡ ok handle))
    ↔ IsAlignment (some 64)
new_mem_alloc-IsAlignment_example = new_mem_alloc-IsAlignment "buffer" 256 "L1" 0 1 0 none (some 64)
