-- ===== src/Descriptor/Roundtrip.antt =====
-- Packing a descriptor and unpacking it again.
use native.Mathlib.Nat.{lt_of_lt_of_le as lt-le_trans, pow-le-pow_right}
use he_mai_a.Prelude.{
  ℕ, ◌+◌, ◌*◌, ◌^◌, ◌≤◌, ◌<◌, ◌≡◌, ◌↔◌, refl, ap, ◌∙◌, String, Bool, true, false, List, [], ◌∷◌,
  All, arith, ltb_of_le, sym, ok, err, Error,
}
use he_mai_a.Node.{NodeType, BingoNode}
use he_mai_a.Descriptor.{
  Dimensions, idx_width, core_code, flag, task_type_code, descriptor_fields, write_field,
  write_fields, unpack_layout, read_fields, in_64_bits, pack_node, unpack_node,
}
use he_mai_a.Descriptor.Words.{
  Fits, total_width, concat, concat-lt, write_fields-concat, read_fields-concat, pair_path,
}
use he_mai_a.Descriptor.Codes.{core_code-lt}
use he_mai_a.Descriptor.Width.{lt-idx_width}

-- The bits that a descriptor takes on a platform.
abbrev pub descriptor_width : Dimensions → ℕ
descriptor_width d =
    48
    + 2 * idx_width d.num_clusters_per_chiplet
    + idx_width d.num_cores_per_cluster
    + 2 * d.num_cores_per_cluster

-- Every number of a node lies in the range that its field holds.
pub record IsPackable (d : Dimensions) (node : BingoNode) : Type 0 where
  pub group : node.cond_exec_group_id < 32
  pub id : node.node_id < 4096
  pub chiplet : node.assigned_chiplet_id < 256
  pub cluster : node.assigned_cluster_id < d.num_clusters_per_chiplet
  pub core : node.assigned_core_id < d.num_cores_per_cluster
  pub check_cores : All (λ c. c < d.num_cores_per_cluster) node.dep_check_list
  pub check_tag : node.dep_check_tag < 16
  pub set_chiplet : node.dep_set_chiplet_id < 256
  pub set_cluster : node.dep_set_cluster_id < d.num_clusters_per_chiplet
  pub set_cores : All (λ c. c < d.num_cores_per_cluster) node.dep_set_list
  pub set_tag : node.dep_set_tag < 16

-- What the dictionary should hold.
abbrev pub descriptor_rows : BingoNode → List (String × ℕ)
descriptor_rows node =
    ("cond_exec_invert", flag node.cond_exec_invert)
    ∷ ("cond_exec_group_id", node.cond_exec_group_id)
    ∷ ("cond_exec_en", flag node.cond_exec_en)
    ∷ ("task_type", task_type_code node.node_type)
    ∷ ("task_id", node.node_id)
    ∷ ("assigned_chiplet_id", node.assigned_chiplet_id)
    ∷ ("assigned_cluster_id", node.assigned_cluster_id)
    ∷ ("assigned_core_id", node.assigned_core_id)
    ∷ ("dep_check_en", flag node.dep_check_enable)
    ∷ ("dep_check_code", core_code node.dep_check_list)
    ∷ ("dep_check_tag", node.dep_check_tag)
    ∷ ("dep_set_en", flag node.dep_set_enable)
    ∷ ("dep_set_all", flag node.remote_dep_set_all)
    ∷ ("dep_set_chiplet_id", node.dep_set_chiplet_id)
    ∷ ("dep_set_cluster_id", node.dep_set_cluster_id)
    ∷ ("dep_set_code", core_code node.dep_set_list)
    ∷ ("dep_set_tag", node.dep_set_tag)
    ∷ []

abbrev keys : List String
keys =
    "cond_exec_invert" ∷ "cond_exec_group_id" ∷ "cond_exec_en" ∷ "task_type" ∷ "task_id"
    ∷ "assigned_chiplet_id" ∷ "assigned_cluster_id" ∷ "assigned_core_id" ∷ "dep_check_en"
    ∷ "dep_check_code" ∷ "dep_check_tag" ∷ "dep_set_en" ∷ "dep_set_all" ∷ "dep_set_chiplet_id"
    ∷ "dep_set_cluster_id" ∷ "dep_set_code" ∷ "dep_set_tag" ∷ []

write_fields-shift : (fs : List (ℕ × ℕ)) (p s : ℕ) → (write_fields (p, s) fs).1 ≡ s + total_width fs
unfolding write_fields write_field
write_fields-shift [] p s = omega arith
write_fields-shift ((v, w) ∷ fs) p s = omega (arith, write_fields-shift fs _ (s + w))

flag-lt : (b : Bool) → flag b < 2
flag-lt true = omega arith
flag-lt false = omega arith

task_type_code-lt : (t : NodeType) → task_type_code t < 4
task_type_code-lt NodeType.normal = omega arith
task_type_code-lt NodeType.dummy = omega arith
task_type_code-lt NodeType.gating = omega arith

in_range : (word width : ℕ) → width ≤ 64 → in_64_bits (word, width) ≡ ok word
unfolding in_64_bits
in_range word width h = rw (ltb_of_le 64 width h) refl

from_bottom : (x : ℕ) → 0 + x * 2 ^ 0 ≡ x
from_bottom x = omega arith

module _ (d : Dimensions) (node : BingoNode) where
  total_width-descriptor : total_width (descriptor_fields d node) ≡ descriptor_width d
  unfolding descriptor_fields
  total_width-descriptor = omega arith

  descriptor-Fits :
      IsPackable d node → descriptor_width d ≤ 64 → All Fits (descriptor_fields d node)
  unfolding descriptor_fields
  descriptor-Fits h narrow = assumption (
    flag-lt node.cond_exec_invert,
    flag-lt node.cond_exec_en,
    flag-lt node.dep_check_enable,
    flag-lt node.dep_set_enable,
    flag-lt node.remote_dep_set_all,
    task_type_code-lt node.node_type,
    lt-idx_width d.num_clusters_per_chiplet node.assigned_cluster_id h.cluster (omega arith),
    lt-idx_width d.num_cores_per_cluster node.assigned_core_id h.core (omega arith),
    lt-idx_width d.num_clusters_per_chiplet node.dep_set_cluster_id h.set_cluster (omega arith),
    core_code-lt d.num_cores_per_cluster node.dep_check_list h.check_cores,
    core_code-lt d.num_cores_per_cluster node.dep_set_list h.set_cores,
  )

  written :
      IsPackable d node
      → descriptor_width d ≤ 64
      → write_fields (0, 0) (descriptor_fields d node)
        ≡ (concat (descriptor_fields d node), descriptor_width d)
  written h narrow =
      write_fields-concat (descriptor_fields d node) 0 0 (omega arith) (descriptor-Fits h narrow)
      ∙ pair_path (omega arith) (omega (arith, total_width-descriptor))

  read_back :
      IsPackable d node
      → descriptor_width d ≤ 64
      → unpack_node d (concat (descriptor_fields d node)) ≡ descriptor_rows node
  unfolding unpack_node unpack_layout descriptor_fields
  read_back h narrow =
      ap (λ x. read_fields x 0 (unpack_layout d))
        (sym (from_bottom (concat (descriptor_fields d node))))
      ∙ read_fields-concat keys (descriptor_fields d node) 0 0 (omega arith)
          (descriptor-Fits h narrow)

  -- A descriptor is refused exactly when the platform's dimensions need more than 64 bits, whatever
  -- the node holds.
  pub pack_node-too_wide :
      (pack_node d node ≡ err Error.descriptor_too_wide) ↔ (64 < descriptor_width d)
  unfolding pack_node
  pack_node-too_wide =
      ground (arith, write_fields-shift (descriptor_fields d node) 0 0, total_width-descriptor)

  -- A node whose numbers fit their fields, on a platform whose descriptors fit 64 bits, is packed
  -- into a 64-bit word, and unpacking the word gives every field of the node back.
  pub unpack-pack :
      IsPackable d node
      → descriptor_width d ≤ 64
      → (word : ℕ) × (pack_node d node ≡ ok word)
        × (word < 2 ^ 64)
        × (unpack_node d word ≡ descriptor_rows node)
  unfolding pack_node
  unpack-pack h fits = (
    concat (descriptor_fields d node),
    ap in_64_bits (written h fits)
        ∙ in_range (concat (descriptor_fields d node)) (descriptor_width d) fits,
    lt-le_trans
        (rw total_width-descriptor at
          (concat-lt (descriptor_fields d node) (descriptor-Fits h fits)))
        (pow-le-pow_right {n = 2} (omega arith) fits),
    read_back h fits,
  )
