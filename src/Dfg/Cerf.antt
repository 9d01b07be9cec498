-- ===== src/Dfg/Cerf.antt =====
-- `_alloc_cerf_group` and `bingo_define_conditional_region`: the groups of the conditional-execution
-- register file (CERF). A raised overflow is not caught anywhere, so the counter that it leaves
-- behind is not kept.
pub mod Alloc
use he_mai_a.Prelude.{
  ℕ, ◌+◌, Bool, true, false, List, [], ◌∷◌, ◌++◌, leb, if◌then◌else◌, Result, ok, err, Error, ◌>>=◌,
}
use he_mai_a.Node.{NodeType, gating, BingoNode}
use he_mai_a.Schedule.Sorting.{sort_by}
use he_mai_a.Dfg.{Dfg, write}
use he_mai_a.Graph.{distinct}

module _ {G : Type 0} where
  pub alloc_cerf_group : Dfg G → Result (ℕ × Dfg G)
  alloc_cerf_group s =
      if leb 32 s.next_cerf_group
      then err Error.cerf_overflow
      else ok (s.next_cerf_group, record s { next_cerf_group = s.next_cerf_group + 1 })

  -- The three fields that make a node conditional.
  abbrev pub guard : ℕ → ℕ → Bool → Dfg G → Dfg G
  guard r gid invert s = record s {
    heap = write s.heap r (record (s.heap r) {
      cond_exec_en = true;
      cond_exec_group_id = gid;
      cond_exec_invert = invert;
    });
  }

  pub guard_each : Bool → List ℕ → Dfg G → Result (List ℕ × Dfg G)
  guard_each invert [] s = ok ([], s)
  guard_each invert (r ∷ rs) s = alloc_cerf_group s >>= λ (gid, t).
      guard_each invert rs (guard r gid invert t) >>= λ (gids, u). ok (gid ∷ gids, u)

  pub guard_all : ℕ → Bool → List ℕ → Dfg G → Dfg G
  guard_all gid invert [] s = s
  guard_all gid invert (r ∷ rs) s = guard_all gid invert rs (guard r gid invert s)

  -- sorted(set(gating_node.cerf_write_groups + group_ids))
  pub write_groups : ℕ → List ℕ → Dfg G → Dfg G
  write_groups r gids s = record s {
    heap = write s.heap r (record (s.heap r) {
      cerf_write_groups = sort_by (λ g. g) (distinct ((s.heap r).cerf_write_groups ++ gids));
    });
  }

  pub set_gating : ℕ → Dfg G → Dfg G
  set_gating r s = record s { heap = write s.heap r (record (s.heap r) { node_type = gating }) }

  pub bingo_define_conditional_region :
      (gate : ℕ)
      → (guarded : List ℕ) → (group_per_node invert : Bool) → Dfg G
      → Result (List ℕ × Dfg G)
  bingo_define_conditional_region gate guarded true invert s =
      guard_each invert guarded (set_gating gate s) >>= λ (gids, t).
      ok (gids, write_groups gate gids t)
  bingo_define_conditional_region gate guarded false invert s =
      alloc_cerf_group (set_gating gate s) >>= λ (gid, t).
      ok (gid ∷ [], write_groups gate (gid ∷ []) (guard_all gid invert guarded t))
