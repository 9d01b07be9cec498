-- ===== src/Descriptor/Samples.antt =====
-- A platform of 4 clusters with 3 cores and the host core, and one of its tasks.
use he_mai_a.Prelude.{
  ℕ, ◌^◌, ◌≤◌, ◌<◌, ◌≡◌, ◌↔◌, refl, true, none, some, [], ◌∷◌, arith, ok, err, Error,
}
use he_mai_a.Prelude.Bits.{test_bit}
use he_mai_a.Prelude.Members.{contains}
use he_mai_a.Node.{BingoNode, new_node}
use he_mai_a.Descriptor.{
  Dimensions, idx_width, descriptor_fields, write_field, write_fields, pack_node, unpack_node,
  core_code,
}
use he_mai_a.Descriptor.Codes.{test_bit-core_code}
use he_mai_a.Descriptor.Width.{idx_width-IsLeastWidth}
use he_mai_a.Descriptor.Roundtrip.{
  IsPackable, descriptor_width, descriptor_rows, unpack-pack, pack_node-too_wide,
}

abbrev platform : Dimensions
platform = record { num_clusters_per_chiplet = 4; num_cores_per_cluster = 4 }

abbrev task : BingoNode
task = record (new_node 0x10 2 1 "gemm" (some "__snax_bingo_kernel_gemm") none) {
  node_id = 77;
  dep_check_enable = true;
  dep_check_list = 3 ∷ 0 ∷ [];
  dep_set_enable = true;
  dep_set_list = 2 ∷ [];
  dep_set_chiplet_id = 0x11;
  dep_set_cluster_id = 3;
  dep_set_tag = 9;
}

task_word : pack_node platform task ≡ ok 2679945409958287872
unfolding pack_node descriptor_fields write_fields write_field
task_word = refl

abbrev wide : Dimensions
wide = record { num_clusters_per_chiplet = 16; num_cores_per_cluster = 4 }

platform_width : descriptor_width platform ≡ 62
unfolding idx_width
platform_width = refl

task-IsPackable : IsPackable platform task
task-IsPackable = omega arith

unpack-pack_example :
    (word : ℕ) × (pack_node platform task ≡ ok word)
    × (word < 2 ^ 64)
    × (unpack_node platform word ≡ descriptor_rows task)
unpack-pack_example = unpack-pack platform task task-IsPackable (omega (arith, platform_width))

pack_node-too_wide_example :
    (pack_node wide task ≡ err Error.descriptor_too_wide) ↔ (64 < descriptor_width wide)
pack_node-too_wide_example = pack_node-too_wide wide task

idx_width-IsLeastWidth_example : (5 ≤ 2 ^ idx_width 5) × ((v : ℕ) → v < idx_width 5 → 2 ^ v < 5)
idx_width-IsLeastWidth_example = idx_width-IsLeastWidth 5 (omega arith) (omega arith)

test_bit-core_code_example : test_bit (core_code (3 ∷ 0 ∷ [])) 3 ≡ contains (3 ∷ 0 ∷ []) 3
test_bit-core_code_example = test_bit-core_code (3 ∷ 0 ∷ []) 3
