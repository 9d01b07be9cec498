-- ===== src/Descriptor.antt =====
-- `bingo_pack_node` and `bingo_unpack_node` of bingo_dfg.py: the 64-bit task descriptor.
pub mod Codes
pub mod Width
pub mod Roundtrip
mod Samples
mod Words
use he_mai_a.Prelude.{
  ℕ, zero, suc, ◌+◌, ◌*◌, ◌^◌, String, Bool, true, false, List, [], ◌∷◌, ltb, leb, if◌then◌else◌,
  foldl, Result, ok, err, Error, ◌-◌, ◌/◌, ◌%◌, ◌&&◌, ◌||◌, ◌==◌,
}
use he_mai_a.Prelude.Bits.{bit_or, bit_and, ◌<<◌, ◌>>>◌, mask}
use he_mai_a.Node.{NodeType, normal, dummy, gating, BingoNode}

-- The dimensions that both methods read from the graph object.
pub record Dimensions : Type 0 where
  pub num_clusters_per_chiplet : ℕ
  pub num_cores_per_cluster : ℕ

-- The least width from `w` on whose numbers are at least n; n rounds are enough, since n ≤ 2 ^ n.
least_width : ℕ → ℕ → ℕ → ℕ
least_width zero w n = w
least_width (suc rounds) w n =
    let wider = least_width rounds (w + 1) n in if leb n (2 ^ w) then w else wider

-- The least w with n < 2 ^ w.
abbrev bit_length : ℕ → ℕ
bit_length n = least_width (n + 1) 0 (n + 1)

-- The argument of math.log2 as a float of 53 bits: the nearest one, and between two the even one.
to_double : ℕ → ℕ
unfolding least_width
to_double n =
    let unit = 2 ^ (bit_length n - 53) in
    let mantissa = n / unit in
    let rest = 2 * (n % unit) in
    if ltb unit rest || (rest == unit && mantissa % 2 == 1)
    then mantissa * unit + unit
    else mantissa * unit

-- How far above 2 ^ k the float math.log2 is k: up to half the step of the floats above k, which is
-- 2 ^ (bit_length k - 54), taken times 2 ^ k and the logarithm of 2.
log2_slack : ℕ → ℕ
unfolding least_width
log2_slack k = 693147180559945 * 2 ^ (k + bit_length k) / (10 ^ 15 * 2 ^ 54)

-- math.ceil(math.log2(x)) of a float: one less than the least width where the logarithm is rounded
-- down to a whole number.
ceil_log2 : ℕ → ℕ
unfolding least_width log2_slack
ceil_log2 x =
    let w = least_width x 0 x in if leb x (2 ^ (w - 1) + log2_slack (w - 1)) then w - 1 else w

-- get_idx_width, where n is below 2 ^ 1024 and math.log2 gives the nearest float.
unfoldable pub idx_width : ℕ → ℕ
unfolding ceil_log2 to_double
idx_width n = if ltb 1 n then ceil_log2 (to_double n) else 1

abbrev pub flag : Bool → ℕ
flag true = 1
flag false = 0

abbrev pub task_type_code : NodeType → ℕ
task_type_code normal = 0
task_type_code dummy = 1
task_type_code gating = 2

-- for core_id in cores: code |= 1 << core_id
pub core_code : List ℕ → ℕ
core_code = foldl (λ code core_id. bit_or code (1 << core_id)) 0

abbrev dep_tag_width : ℕ
dep_tag_width = 4

abbrev chip_id_width : ℕ
chip_id_width = 8

abbrev task_id_width : ℕ
task_id_width = 12

-- The fields that `bingo_pack_node` writes, lowest first: a value and the bits that the shift
-- advances by.
descriptor_fields : Dimensions → BingoNode → List (ℕ × ℕ)
unfolding idx_width core_code
descriptor_fields d node =
    (flag node.cond_exec_invert, 1)
    ∷ (node.cond_exec_group_id, 5)
    ∷ (flag node.cond_exec_en, 1)
    ∷ (task_type_code node.node_type, 2)
    ∷ (node.node_id, task_id_width)
    ∷ (node.assigned_chiplet_id, chip_id_width)
    ∷ (node.assigned_cluster_id, idx_width d.num_clusters_per_chiplet)
    ∷ (node.assigned_core_id, idx_width d.num_cores_per_cluster)
    ∷ (flag node.dep_check_enable, 1)
    ∷ (core_code node.dep_check_list, d.num_cores_per_cluster)
    ∷ (node.dep_check_tag, dep_tag_width)
    ∷ (flag node.dep_set_enable, 1)
    ∷ (flag node.remote_dep_set_all, 1)
    ∷ (node.dep_set_chiplet_id, chip_id_width)
    ∷ (node.dep_set_cluster_id, idx_width d.num_clusters_per_chiplet)
    ∷ (core_code node.dep_set_list, d.num_cores_per_cluster)
    ∷ (node.dep_set_tag, dep_tag_width)
    ∷ []

-- packed_val |= value << current_shift; current_shift += width
pub write_field : ℕ × ℕ → ℕ × ℕ → ℕ × ℕ
write_field (packed_val, current_shift) (value, width) =
    (bit_or packed_val (value << current_shift), current_shift + width)

pub write_fields : ℕ × ℕ → List (ℕ × ℕ) → ℕ × ℕ
unfolding write_field
write_fields = foldl write_field

-- if current_shift > 64: raise ValueError(…); return packed_val
in_64_bits : ℕ × ℕ → Result ℕ
in_64_bits (packed_val, current_shift) =
    if ltb 64 current_shift then err Error.descriptor_too_wide else ok packed_val

pub pack_node : Dimensions → BingoNode → Result ℕ
unfolding in_64_bits
pack_node d node = in_64_bits (write_fields (0, 0) (descriptor_fields d node))

-- The keys of the dictionary that `bingo_unpack_node` returns, with the width of each mask.
unpack_layout : Dimensions → List (String × ℕ)
unfolding idx_width
unpack_layout d =
    ("cond_exec_invert", 1)
    ∷ ("cond_exec_group_id", 5)
    ∷ ("cond_exec_en", 1)
    ∷ ("task_type", 2)
    ∷ ("task_id", task_id_width)
    ∷ ("assigned_chiplet_id", chip_id_width)
    ∷ ("assigned_cluster_id", idx_width d.num_clusters_per_chiplet)
    ∷ ("assigned_core_id", idx_width d.num_cores_per_cluster)
    ∷ ("dep_check_en", 1)
    ∷ ("dep_check_code", d.num_cores_per_cluster)
    ∷ ("dep_check_tag", dep_tag_width)
    ∷ ("dep_set_en", 1)
    ∷ ("dep_set_all", 1)
    ∷ ("dep_set_chiplet_id", chip_id_width)
    ∷ ("dep_set_cluster_id", idx_width d.num_clusters_per_chiplet)
    ∷ ("dep_set_code", d.num_cores_per_cluster)
    ∷ ("dep_set_tag", dep_tag_width)
    ∷ []

-- fields[key] = (packed_val >> current_shift) & ((1 << width) - 1); current_shift += width
pub read_fields : ℕ → ℕ → List (String × ℕ) → List (String × ℕ)
read_fields packed_val current_shift [] = []
read_fields packed_val current_shift ((key, width) ∷ rest) =
    (key, bit_and (packed_val >>> current_shift) (mask width))
    ∷ read_fields packed_val (current_shift + width) rest

pub unpack_node : Dimensions → ℕ → List (String × ℕ)
unpack_node d packed_val = read_fields packed_val 0 (unpack_layout d)
