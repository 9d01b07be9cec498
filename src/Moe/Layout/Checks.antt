-- ===== src/Moe/Layout/Checks.antt =====
-- When a list of checks passes, and when the hardware's shape is read.
use he_mai_a.Prelude.{
  ℕ, zero, suc, ◌≡◌, refl, true, some, List, [], ◌∷◌, ok, err, Error, All, ◌↔◌, require_iff, arith,
  Bool-cases, inl, inr, ap, sym, ◌∙◌, Option-cases,
}
use he_mai_a.Moe.Layout.{
  Mesh, mesh, LayoutConfig, shape_dims, item_at, same_mesh, expect_mesh, mesh_of, Check, pass_all,
}

pub pass_all-All : (checks : List Check) → (pass_all checks ≡ ok tt) ↔ All (λ c. c.0 ≡ true) checks
unfolding pass_all
pass_all-All [] = (λ h. tt, λ h. refl)
pass_all-All ((test, raised) ∷ rest) = (
  λ h.
      let (own, others) = (require_iff test raised (pass_all rest)).0 h in
      (own, (pass_all-All rest).0 others),
  λ h. (require_iff test raised (pass_all rest)).1 (h.0, (pass_all-All rest).1 h.1),
)

same_mesh-eq : (a b : Mesh) → same_mesh a b ≡ true → a ≡ b
same_mesh-eq a b h =
    let row : a.mesh_row ≡ b.mesh_row = ground arith in
    let tile : a.tile_size ≡ b.tile_size = ground arith in
    let col : a.mesh_col ≡ b.mesh_col = ground arith in rw (row, tile, col) refl

-- The hardware's first shape, which is the only one that is accepted.
abbrev pub s0_mesh : Mesh
s0_mesh = mesh 8 8 4

read_mesh-ok :
    (shape : ℕ) (found m : Mesh)
    → expect_mesh shape found (shape_dims shape) ≡ ok m
    → (shape ≡ 0) × (found ≡ s0_mesh) × (m ≡ s0_mesh)
read_mesh-ok zero found m h = elim (Bool-cases (same_mesh found s0_mesh)) [
  | inl same ↦
      let eq = same_mesh-eq found s0_mesh same in
      let own : found ≡ m = ground arith in (refl, eq, sym own ∙ eq)
  | inr other ↦ absurd (ground arith)
]
read_mesh-ok (suc zero) found m h = absurd (ground arith)
read_mesh-ok (suc (suc zero)) found m h = absurd (ground arith)
read_mesh-ok (suc (suc (suc shape))) found m h = absurd (ground arith)

pub mesh_of-ok :
    (c : LayoutConfig) (m : Mesh)
    → mesh_of c ≡ ok m
    → (c.array_shape ≡ 0) × (item_at c.spatial_unrolling 0 ≡ some s0_mesh) × (m ≡ s0_mesh)
unfolding mesh_of
mesh_of-ok c m h = elim (Option-cases (item_at c.spatial_unrolling c.array_shape)) [
  | inl missing ↦
      let refused : err Error.unknown_shape ≡ ok m = rw missing at h in absurd (ground arith)
  | inr (found, e) ↦
      let (zero_shape, eq, own) = read_mesh-ok c.array_shape found m (rw e at h) in
      (zero_shape, ap (item_at c.spatial_unrolling) (sym zero_shape) ∙ (e ∙ ap some eq), own)
]

pub mesh_of-s0 :
    (c : LayoutConfig)
    → c.array_shape ≡ 0
    → item_at c.spatial_unrolling 0 ≡ some s0_mesh
    → mesh_of c ≡ ok s0_mesh
unfolding mesh_of
mesh_of-s0 c shape item = rw (shape, item) refl
