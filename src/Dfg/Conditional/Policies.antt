-- ===== src/Dfg/Conditional/Policies.antt =====
-- The last step of `bingo_compile_conditional_regions`: the kernel and the arguments of the inserted gating
-- nodes, by the mode of their policy. Of `HostBingoKernelCerfGatingArgs` the struct's name, the memory
-- handles and the attributes that are set here are kept.
use he_mai_a.Prelude.{
  ℕ, ◌+◌, String, Option, none, some, List, [], ◌∷◌, if◌then◌else◌, length, Result, ok, err, Error,
  ◌>>=◌,
}
use Prim.Native.String.{◌++◌ as append}
use package.text.Mathlib.Text
use he_mai_a.Prelude.Bits.{◌<<◌}
use he_mai_a.Node.{BingoMemAlloc, KernelArgs, BingoNode}
use he_mai_a.Graph.{PolicyValue, number, text}
use he_mai_a.Schedule.Sorting.{sort_by}
use he_mai_a.Dfg.{Dfg, write}
use he_mai_a.Dfg.Conditional.{Targets, targets_at, Policy, Inserted}

-- cond_dic.get(key)
abbrev pub value_at : Policy → String → Option PolicyValue
value_at [] key = none
value_at ((k, v) ∷ rest) key =
    let later = value_at rest key in if Text.◌==◌ k key then some v else later

-- cond_dic[key]: a KeyError where it is missing.
abbrev pub required : Policy → String → Result PolicyValue
required policy key = elim (value_at policy key) [
  | none ↦ err Error.missing_parameter
  | some v ↦ ok v
]

abbrev pub or_value : Option PolicyValue → PolicyValue → PolicyValue
or_value none d = d
or_value (some v) d = v

-- sum(1 << g for g in groups)
pub controlled_mask : List ℕ → ℕ
controlled_mask [] = 0
controlled_mask (g ∷ gs) = (1 << g) + controlled_mask gs

pub data Mode : Type 0 where
  top_k threshold static custom : Mode

-- cond_dic.get("mode", "static"); a mode that is not one of the four texts is refused.
abbrev pub mode_of : PolicyValue → Option Mode
mode_of (number n) = none
mode_of (text m) =
    if Text.◌==◌ m "top_k"
    then some Mode.top_k
    else (if Text.◌==◌ m "threshold"
        then some Mode.threshold
        else (if Text.◌==◌ m "static"
            then some Mode.static
            else (if Text.◌==◌ m "custom" then some Mode.custom else none)))

abbrev pub l3_buffer : String → ℕ → ℕ → BingoMemAlloc
l3_buffer name size chip = record {
  name = name;
  size = size;
  mem_level = "L3";
  chip_id = chip;
  cluster_id = 0;
  offset = 0;
  condition = none;
  alignment = none;
}

abbrev pub gating_args : ℕ → ℕ → PolicyValue → List BingoMemAlloc → KernelArgs
gating_args mode mask value handles = record {
  struct_name = "__host_bingo_kernel_cerf_gating_args_t";
  handles = handles;
  attributes =
      ("mode", number mode)
      ∷ ("cerf_controlled_mask", number mask)
      ∷ ("top_k_or_threshold", value)
      ∷ [];
}

abbrev pub host_gating : BingoNode → KernelArgs → BingoNode
host_gating gate args = record gate {
  kernel_name = some "__host_bingo_kernel_cerf_gating";
  kernel_args = some args;
}

abbrev pub text_of : PolicyValue → String
text_of (number n) = ""
text_of (text t) = t

-- `custom_args` stands for the call of the policy's own class of arguments, if it names one.
module _ (custom_args : Policy → ℕ → Option KernelArgs) where
  -- The gating node with its kernel: the source's reference and node, the node, and the number of targets.
  pub populate_mode : Mode → ℕ → BingoNode → BingoNode → ℕ → Policy → Result BingoNode
  populate_mode Mode.top_k source src gate experts policy =
      let mask = controlled_mask gate.cerf_write_groups in
      required policy "k" >>= λ k.
      ok
        (record (host_gating gate (
          gating_args 0 mask k (
            l3_buffer (append "__cerf_gids_" src.node_name) experts src.assigned_chiplet_id
            ∷ l3_buffer (append "__cond_act_" src.node_name) experts src.assigned_chiplet_id
            ∷ []))) { pred_source_node = some source })
  populate_mode Mode.threshold source src gate experts policy =
      let mask = controlled_mask gate.cerf_write_groups in
      required policy "threshold" >>= λ v.
      ok (record (host_gating gate (gating_args 1 mask v [])) { pred_source_node = some source })
  populate_mode Mode.static source src gate experts policy =
      let mask = controlled_mask gate.cerf_write_groups in
      ok (
        host_gating gate
          (gating_args 2 mask (or_value (value_at policy "write_mask") (number mask)) []))
  populate_mode Mode.custom source src gate experts policy =
      let mask = controlled_mask gate.cerf_write_groups in
      required policy "kernel_name" >>= λ name. ok (elim (custom_args policy mask) [
        | none ↦ record gate { kernel_name = some (text_of name) }
        | some args ↦ record gate { kernel_name = some (text_of name); kernel_args = some args }
      ])

  module _ {G : Type 0} (gates : Targets) where
    pub populate_gate : ℕ × ℕ × Policy → Dfg G → Result (Dfg G)
    populate_gate (source, gate, policy) s =
        elim (mode_of (or_value (value_at policy "mode") (text "static"))) [
          | none ↦ err Error.unknown_gating_mode
          | some mode ↦
              populate_mode mode source (s.heap source) (s.heap gate)
                (length (targets_at gates gate)) policy
              >>= λ node. ok (record s {
                heap = write s.heap gate node;
                gating_cerf_mappings =
                    (gate, sort_by (λ g. g) node.cerf_write_groups) ∷ s.gating_cerf_mappings;
              })
        ]

    pub populate_gates : Inserted → Dfg G → Result (Dfg G)
    populate_gates [] s = ok s
    populate_gates (item ∷ rest) s = populate_gate item s >>= populate_gates rest
