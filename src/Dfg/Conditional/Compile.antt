-- ===== src/Dfg/Conditional/Compile.antt =====
-- `bingo_compile_conditional_regions` as a whole, and `_validate_cerf_cross_group_edges`.
use he_mai_a.Prelude.{
  ℕ, Bool, true, false, not, ◌&&◌, ◌||◌, Option, none, some, List, [], ◌∷◌, ◌==◌, Result, ok, Error,
  ◌>>=◌, ◌>>◌, require,
}
use he_mai_a.Prelude.Texts.{has_text}
use he_mai_a.Node.{NodeType, gating, KernelArgs, BingoNode}
use he_mai_a.Graph.{DiGraph}
use he_mai_a.Graph.Paths.{Algorithms}
use he_mai_a.Dfg.{Dfg}
use he_mai_a.Dfg.Resources.{lookup}
use he_mai_a.Dfg.Conditional.{
  Targets, keys, Policy, is_conditional, find_targets, is_nested, insert_gates, check_regions,
}
use he_mai_a.Dfg.Conditional.Groups.{assign_regions}
use he_mai_a.Dfg.Conditional.Policies.{populate_gates}

module _ (nx : DiGraph) (alg : Algorithms nx) (custom_args : Policy → ℕ → Option KernelArgs) where
  open nx use {Graph, nodes, successors}

  -- With at least one conditional edge.
  pub compile_regions : Targets → Dfg Graph → Result (List (ℕ × ℕ) × Dfg Graph)
  compile_regions gates s =
      let (renamed, inserted, t) = insert_gates nx alg (keys gates) (gates, [], s) in
      require (not (is_nested nx alg gates)) Error.nested_condition
      >> check_regions nx alg t.graph renamed
      >> (assign_regions nx alg renamed t >>= λ (groups, u).
          populate_gates custom_args renamed inserted (record u { node_to_cerf_group = groups })
          >>= λ v. ok (groups, v))

  pub bingo_compile_conditional_regions : Dfg Graph → Result (List (ℕ × ℕ) × Dfg Graph)
  bingo_compile_conditional_regions s = elim (find_targets nx alg s.graph (nodes s.graph)) [
    | [] ↦ ok ([], record s { node_to_cerf_group = [] })
    | gate ∷ gates ↦ compile_regions (gate ∷ gates) s
  ]

  abbrev pub is_gating : NodeType → Bool
  is_gating gating = true
  is_gating _ = false

  -- Nodes with software support: gating nodes, and those that the compiler adds at both ends.
  abbrev pub is_exempt : BingoNode → Bool
  is_exempt n = is_gating n.node_type || elim n.kernel_name [
    | none ↦ false
    | some kernel ↦ has_text kernel "exit" || has_text kernel "entry"
  ]

  abbrev pub same_group : Option ℕ → ℕ → Bool
  same_group none g = false
  same_group (some h) g = h == g

  pub crosses_group : Dfg Graph → ℕ → ℕ → Bool
  crosses_group s u v =
      not (is_conditional nx alg s.graph u v) && elim (lookup s.node_to_cerf_group u) [
        | none ↦ false
        | some g ↦ not (is_exempt (s.heap v)) && not (same_group (lookup s.node_to_cerf_group v) g)
      ]

  abbrev pub check_successors : Dfg Graph → ℕ → List ℕ → Result (Unit {0})
  check_successors s u [] = ok tt
  check_successors s u (v ∷ vs) =
      require (not (crosses_group s u v)) Error.cerf_boundary >> check_successors s u vs

  abbrev pub check_sources : Dfg Graph → List ℕ → Result (Unit {0})
  check_sources s [] = ok tt
  check_sources s (u ∷ us) = check_successors s u (successors s.graph u) >> check_sources s us

  pub validate_cerf_cross_group_edges : Dfg Graph → Result (Unit {0})
  validate_cerf_cross_group_edges s = check_sources s (nodes s.graph)
