-- ===== src/Node.antt =====
-- bingo_node.py, bingo_mem_handle.py and the part of the kernel arguments that the compiler reads
-- (target/sw/host/runtime/libbingo/mini_compiler). A node object is its fields. References between
-- nodes are the numbers under which the graph keeps them. The identifiers of chiplets, clusters
-- and cores are natural numbers: an unassigned core (-1) is not a value of the model.
pub mod Aligned
mod Samples
use he_mai_a.Prelude.{
  ℕ, ◌-◌, String, Bool, true, false, not, ◌&&◌, ◌||◌, ◌==◌, if◌then◌else◌, Option, none, some, List,
  [], Result, ok, err, Error,
}
use he_mai_a.Prelude.Bits.{bit_and}
use he_mai_a.Graph.{PolicyValue}

-- The level of a memory handle, a free string in the source.
-- BingoMemAlloc
pub record BingoMemAlloc : Type 0 where
  pub name : String
  pub size : ℕ
  pub mem_level : String
  pub chip_id : ℕ
  pub cluster_id : ℕ
  pub offset : ℕ
  pub condition : Option String
  pub alignment : Option ℕ

-- alignment is not None and (alignment <= 0 or alignment & (alignment - 1))
abbrev pub is_bad : Option ℕ → Bool
is_bad none = false
is_bad (some alignment) = alignment == 0 || not (bit_and alignment (alignment - 1) == 0)

-- BingoMemAlloc.__init__
pub new_mem_alloc :
    (name : String) (size : ℕ) (mem_level : String) (chip_id cluster_id offset : ℕ)
    → Option String
    → Option ℕ
    → Result BingoMemAlloc
new_mem_alloc name size mem_level chip_id cluster_id offset condition alignment =
    if is_bad alignment
    then err Error.bad_alignment
    else ok (record {
      name = name;
      size = size;
      mem_level = mem_level;
      chip_id = chip_id;
      cluster_id = cluster_id;
      offset = offset;
      condition = condition;
      alignment = alignment;
    })

-- What the compiler asks of a `BingoKernelArgs`: the C struct's name, and the attributes that are
-- memory handles; the other attributes that the compiler itself sets are kept by name.
pub record KernelArgs : Type 0 where
  pub struct_name : String
  pub handles : List BingoMemAlloc
  pub attributes : List (String × PolicyValue)

pub data NodeType : Type 0 where
  normal dummy gating : NodeType

pub record BingoNode : Type 0 where
  pub node_id : ℕ
  pub assigned_chiplet_id : ℕ
  pub assigned_cluster_id : ℕ
  pub assigned_core_id : ℕ
  pub node_name : String
  pub kernel_name : Option String
  pub kernel_args : Option KernelArgs
  pub node_type : NodeType
  pub dep_check_enable : Bool
  pub dep_check_list : List ℕ
  pub dep_set_enable : Bool
  pub remote_dep_set_all : Bool
  pub dep_set_list : List ℕ
  pub dep_set_chiplet_id : ℕ
  pub dep_set_cluster_id : ℕ
  pub dep_check_tag : ℕ
  pub dep_set_tag : ℕ
  pub cond_exec_en : Bool
  pub cond_exec_group_id : ℕ
  pub cond_exec_invert : Bool
  pub cerf_write_groups : List ℕ
  pub pred_source_node : Option ℕ
  pub gating_node : Option ℕ
  pub cond_node_index : Option ℕ
  pub scratchpad_c_var : Option String

-- BingoNode.__init__, for a node whose kernel name and node name are given.
abbrev pub new_node :
    (chiplet cluster core : ℕ) → String → Option String → Option KernelArgs → BingoNode
new_node chiplet cluster core name kernel args = record {
  node_id = 0;
  assigned_chiplet_id = chiplet;
  assigned_cluster_id = cluster;
  assigned_core_id = core;
  node_name = name;
  kernel_name = kernel;
  kernel_args = args;
  node_type = NodeType.normal;
  dep_check_enable = false;
  dep_check_list = [];
  dep_set_enable = false;
  remote_dep_set_all = false;
  dep_set_list = [];
  dep_set_chiplet_id = 0;
  dep_set_cluster_id = 0;
  dep_check_tag = 0;
  dep_set_tag = 0;
  cond_exec_en = false;
  cond_exec_group_id = 0;
  cond_exec_invert = false;
  cerf_write_groups = [];
  pred_source_node = none;
  gating_node = none;
  cond_node_index = none;
  scratchpad_c_var = none;
}

abbrev pub is_dummy : NodeType → Bool
is_dummy NodeType.dummy = true
is_dummy _ = false

-- node.node_type == "dummy" and node.dep_set_enable
abbrev pub is_dummy_set : BingoNode → Bool
is_dummy_set n = is_dummy n.node_type && n.dep_set_enable

-- node.node_type == "dummy" and node.dep_check_enable
abbrev pub is_dummy_check : BingoNode → Bool
is_dummy_check n = is_dummy n.node_type && n.dep_check_enable
