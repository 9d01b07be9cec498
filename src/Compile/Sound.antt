-- ===== src/Compile/Sound.antt =====
-- What holds of a compilation that raises nothing.
use he_mai_a.Prelude.{
  ℕ, ◌≡◌, refl, sym, ap, ◌∙◌, List, [], ◌∷◌, All, length, Option, Result, ok, err, ◌>>=◌, suc,
  subst,
}
use he_mai_a.Node.{KernelArgs}
use he_mai_a.Graph.{DiGraph}
use he_mai_a.Graph.Paths.{Algorithms}
use he_mai_a.Dfg.{Config, Dfg}
use he_mai_a.Dfg.Conditional.{Policy}
use he_mai_a.Validate.{
  collect_memory_handles, validate_memory_handles, validate_kernel_core_assignments,
}
use he_mai_a.Validate.Correct.{IsPlaced, validate_memory_handles_lem}
use he_mai_a.Validate.Kernels.{IsAssigned, validate_kernel_core_assignments_lem}
use he_mai_a.Compile.{
  Tables, sorted_nodes, transform, chiplet_tables, all_tables, bingo_emit_offload_c_code,
  bingo_compile_dfg,
}

bind_ok {ℓ κ} :
    {A : Type ℓ} {B : Type κ} (r : Result A) (f : A → Result B) (b : B)
    → (r >>= f) ≡ ok b
    → (a : A) × (r ≡ ok a) × (f a ≡ ok b)
bind_ok (ok a) f b e = (a, refl, e)
bind_ok (err x) f b e = cc

from_ok {ℓ} : {A : Type ℓ} → A → Result A → A
from_ok d (ok a) = a
from_ok d (err e) = d

ok_injective {ℓ} : {A : Type ℓ} (a b : A) → ok a ≡ ok b → a ≡ b
unfolding from_ok
ok_injective a b e = ap (from_ok a) e

module _ (nx : DiGraph) (alg : Algorithms nx) (custom_args : Policy → ℕ → Option KernelArgs)
    (c : Config) where
  open nx use {Graph}

  all_tables-length :
      (s : Dfg Graph) (ids : List ℕ) (tables : List Tables)
      → all_tables nx alg custom_args c s ids ≡ ok tables
      → length tables ≡ length ids
  unfolding all_tables
  all_tables-length s [] tables e = ap length (sym (ok_injective [] tables e))
  all_tables-length s (i ∷ is) tables e =
      let (first, e1, rest1) = bind_ok (chiplet_tables nx alg custom_args c s i) _ tables e in
      let (others, e2, rest2) = bind_ok (all_tables nx alg custom_args c s is) _ tables rest1 in
      ap length (sym (ok_injective (first ∷ others) tables rest2))
      ∙ ap suc (all_tables-length s is others e2)

  -- A compilation that returns has checked its result: every node of the transformed graph is on an
  -- existing core that its kernel belongs on, every memory handle is placed, and there is one set of
  -- tables for each chiplet.
  pub compile_sound :
      (s t : Dfg Graph) (tables : List Tables)
      → bingo_compile_dfg nx alg custom_args c s ≡ ok (t, tables)
      → All (IsAssigned c) (sorted_nodes nx alg custom_args c t)
        × All (IsPlaced c) (collect_memory_handles (sorted_nodes nx alg custom_args c t))
        × (length tables ≡ length c.chiplet_ids)
  unfolding bingo_compile_dfg bingo_emit_offload_c_code
  compile_sound s t tables e =
      let (u, e1, rest1) = bind_ok (transform nx alg custom_args c s) _ (t, tables) e in
      let (emitted, e2, rest2) =
        bind_ok (bingo_emit_offload_c_code nx alg custom_args c u) _ (t, tables) rest1 in
      let nodes_ = sorted_nodes nx alg custom_args c u in
      let (done1, e3, rest3) = bind_ok (validate_kernel_core_assignments c nodes_) _ emitted e2 in
      let (done2, e4, rest4) =
        bind_ok (validate_memory_handles c (collect_memory_handles nodes_)) _ emitted rest3 in
      let same : (u, emitted) ≡ (t, tables) = ok_injective (u, emitted) (t, tables) rest2 in
      let same_state : u ≡ t = ap (λ p. p.0) same in
      subst
        (λ x.
          All (IsAssigned c) (sorted_nodes nx alg custom_args c x)
          × All (IsPlaced c) (collect_memory_handles (sorted_nodes nx alg custom_args c x))
          × (length tables ≡ length c.chiplet_ids))
        same_state
        (
          (validate_kernel_core_assignments_lem c nodes_).0 e3,
          (validate_memory_handles_lem c (collect_memory_handles nodes_)).0 e4,
          ap length (sym (ap (λ p. p.1) same)) ∙ all_tables-length u c.chiplet_ids emitted rest4,
        )
