-- ===== src/Dfg/Conditional.antt =====
-- `bingo_compile_conditional_regions`: which nodes are conditional, where gating nodes are inserted, and
-- what is refused. Core numbers are natural in the model, so no node is unassigned.
pub mod Groups
pub mod Policies
pub mod Compile
use he_mai_a.Prelude.{
  ℕ, ◌+◌, String, Bool, true, false, not, ◌&&◌, ◌||◌, Option, none, some, List, [], ◌∷◌, ◌++◌, ◌==◌,
  if◌then◌else◌, keep_if, any, all, Result, ok, err, Error, ◌>>=◌, ◌>>◌, require,
}
use Prim.Native.String.{◌++◌ as append}
use he_mai_a.Prelude.Members.{contains}
use he_mai_a.Node.{BingoNode, new_node}
use he_mai_a.Graph.{EdgeData, PolicyValue, or_none, or_false, DiGraph}
use he_mai_a.Graph.Paths.{Algorithms}
use he_mai_a.Dfg.{Dfg, create, bingo_insert_node_after}

-- A dictionary from gating nodes to their targets, in insertion order.
abbrev pub Targets : Type 0
Targets = List (ℕ × List ℕ)

abbrev pub keys : Targets → List ℕ
keys [] = []
keys ((k, ts) ∷ rest) = k ∷ keys rest

abbrev pub targets_at : Targets → ℕ → List ℕ
targets_at [] key = []
targets_at ((k, ts) ∷ rest) key = let later = targets_at rest key in if k == key then ts else later

-- all_cond_targets
abbrev pub all_targets : Targets → List ℕ
all_targets [] = []
all_targets ((k, ts) ∷ rest) = ts ++ all_targets rest

-- gating_to_targets[new] = gating_to_targets.pop(old)
abbrev pub drop_key : ℕ → Targets → Targets
drop_key key [] = []
drop_key key ((k, ts) ∷ rest) =
    let later = drop_key key rest in if k == key then later else (k, ts) ∷ later

abbrev pub rename_key : ℕ → ℕ → Targets → Targets
rename_key old new gates = drop_key old gates ++ (new, targets_at gates old) ∷ []

abbrev pub Policy : Type 0
Policy = List (String × PolicyValue)

-- The inserted gating nodes: the source, the gating node, and the policy.
abbrev pub Inserted : Type 0
Inserted = List (ℕ × ℕ × Policy)

-- Targets with more than one gating node (WF2): `seen` holds the targets of the gates before.
abbrev pub has_two_gates : List ℕ → Targets → Bool
has_two_gates seen [] = false
has_two_gates seen ((k, ts) ∷ rest) = any (contains seen) ts || has_two_gates (ts ++ seen) rest

module _ (nx : DiGraph) (alg : Algorithms nx) where
  open nx use {Graph, nodes, successors, edge_data}

  abbrev pub is_conditional : Graph → ℕ → ℕ → Bool
  is_conditional g u v = or_false (or_none (edge_data g u v)).cond

  abbrev pub conditional_successors : Graph → ℕ → List ℕ
  conditional_successors g u = keep_if (is_conditional g u) (successors g u)

  -- Step 1: the nodes with conditional edges and their targets.
  abbrev pub with_targets : ℕ → List ℕ → Targets → Targets
  with_targets u [] rest = rest
  with_targets u (t ∷ ts) rest = (u, t ∷ ts) ∷ rest

  abbrev pub find_targets : Graph → List ℕ → Targets
  find_targets g [] = []
  find_targets g (u ∷ us) = with_targets u (conditional_successors g u) (find_targets g us)

  -- A conditional target that is itself a source of conditional edges.
  abbrev pub is_nested : Targets → Bool
  is_nested gates = any (contains (all_targets gates)) (keys gates)

  abbrev pub policy_of : EdgeData → Policy
  policy_of d = elim d.cond_dic [ none ↦ [] | some policy ↦ policy ]

  -- The first policy that is not empty, of the conditional edges.
  abbrev pub first_policy : List Policy → Policy
  first_policy [] = []
  first_policy ([] ∷ rest) = first_policy rest
  first_policy ((p ∷ ps) ∷ rest) = p ∷ ps

  abbrev pub policies_from : Graph → ℕ → List ℕ → List Policy
  policies_from g u [] = []
  policies_from g u (v ∷ vs) = policy_of (or_none (edge_data g u v)) ∷ policies_from g u vs

  abbrev pub policy_at : Graph → ℕ → Policy
  policy_at g u = first_policy (policies_from g u (conditional_successors g u))

  -- A gating node between a source and its conditional targets, where an edge has a policy.
  pub insert_gate : ℕ → Policy → Targets × Inserted × Dfg Graph → Targets × Inserted × Dfg Graph
  insert_gate source [] state = state
  insert_gate source (p ∷ ps) (gates, inserted, s) =
      let n = s.heap source in
      let (gate, t) =
        create nx
          (new_node n.assigned_chiplet_id n.assigned_cluster_id n.assigned_core_id
            (append "__gating_" n.node_name) none none)
          s in
      let u = bingo_insert_node_after nx source gate (conditional_successors s.graph source) t in
      (rename_key source gate gates, inserted ++ (source, gate, p ∷ ps) ∷ [], u)

  pub insert_gates : List ℕ → Targets × Inserted × Dfg Graph → Targets × Inserted × Dfg Graph
  insert_gates [] state = state
  insert_gates (source ∷ rest) (gates, inserted, s) =
      insert_gates rest (insert_gate source (policy_at s.graph source) (gates, inserted, s))

  -- WF5: a path leads from each gating node to its targets.
  abbrev pub are_ancestors : Graph → Targets → Bool
  are_ancestors g [] = true
  are_ancestors g ((k, ts) ∷ rest) = all (alg.has_path g k) ts && are_ancestors g rest

  pub check_regions : Graph → Targets → Result (Unit {0})
  check_regions g gates =
      require (alg.is_directed_acyclic_graph g) Error.cyclic_graph
      >> require (not (has_two_gates [] gates)) Error.two_gates
      >> require (are_ancestors g gates) Error.gate_is_no_ancestor
