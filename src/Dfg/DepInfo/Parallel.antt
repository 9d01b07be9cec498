-- ===== src/Dfg/DepInfo/Parallel.antt =====
-- A loop that gives each node new dependency fields: it assigns to all nodes at once.
use he_mai_a.Prelude.{
  ℕ, ◌≡◌, refl, sym, ◌∙◌, true, false, List, [], ◌∷◌, arith, ◌==◌, foldl, Bool-cases, inl, inr,
  subst, ==_refl,
}
use he_mai_a.Prelude.Members.{contains, IsDistinct}
use he_mai_a.Node.{BingoNode, is_dummy_set, is_dummy_check}
use he_mai_a.Dfg.{Dfg}

-- What the loops read of other nodes.
pub record Alike (a b : BingoNode) : Type 0 where
  pub same_chiplet : a.assigned_chiplet_id ≡ b.assigned_chiplet_id
  pub same_cluster : a.assigned_cluster_id ≡ b.assigned_cluster_id
  pub same_core : a.assigned_core_id ≡ b.assigned_core_id
  pub same_type : a.node_type ≡ b.node_type
  pub same_set : is_dummy_set a ≡ is_dummy_set b
  pub same_check : is_dummy_check a ≡ is_dummy_check b

pub Alike-refl : (a : BingoNode) → Alike a a
Alike-refl a = record {
  same_chiplet = refl;
  same_cluster = refl;
  same_core = refl;
  same_type = refl;
  same_set = refl;
  same_check = refl;
}

Alike-trans : (a b c : BingoNode) → Alike a b → Alike b c → Alike a c
Alike-trans a b c p q = record {
  same_chiplet = p.same_chiplet ∙ q.same_chiplet;
  same_cluster = p.same_cluster ∙ q.same_cluster;
  same_core = p.same_core ∙ q.same_core;
  same_type = p.same_type ∙ q.same_type;
  same_set = p.same_set ∙ q.same_set;
  same_check = p.same_check ∙ q.same_check;
}

module _ {G : Type 0} (step : Dfg G → ℕ → Dfg G) (value : Dfg G → ℕ → BingoNode)
    (same_graph : (s : Dfg G) (r : ℕ) → (step s r).graph ≡ s.graph)
    (own : (s : Dfg G) (r : ℕ) → (step s r).heap r ≡ value s r)
    (others : (s : Dfg G) (r x : ℕ) → (r == x) ≡ false → (step s r).heap x ≡ s.heap x)
    (alike : (s : Dfg G) (r : ℕ) → Alike (value s r) (s.heap r))
    (stable : (s u : Dfg G) (r : ℕ)
      → u.graph ≡ s.graph
      → ((x : ℕ) → Alike (u.heap x) (s.heap x))
      → u.heap r ≡ s.heap r
      → value u r ≡ value s r) where
  step-Alike : (s : Dfg G) (r x : ℕ) → Alike ((step s r).heap x) (s.heap x)
  step-Alike s r x = elim (Bool-cases (r == x)) [
    | inl e ↦
        let same : r ≡ x = ground arith in
        subst (λ y. Alike ((step s r).heap y) (s.heap y)) same
          (subst (λ n. Alike n (s.heap r)) (sym (own s r)) (alike s r))
    | inr e ↦ subst (λ n. Alike n (s.heap x)) (sym (others s r x e)) (Alike-refl (s.heap x))
  ]

  pub loop_assigns :
      (rs : List ℕ) (s u : Dfg G)
      → IsDistinct rs
      → u.graph ≡ s.graph
      → ((x : ℕ) → Alike (u.heap x) (s.heap x))
      → ((x : ℕ) → contains rs x ≡ true → u.heap x ≡ s.heap x)
      → ((foldl step u rs).graph ≡ s.graph)
        × ((x : ℕ) → contains rs x ≡ true → (foldl step u rs).heap x ≡ value s x)
        × ((x : ℕ) → contains rs x ≡ false → (foldl step u rs).heap x ≡ u.heap x)
  loop_assigns [] s u d g a same = (g, λ x m. absurd (ground arith), λ x m. refl)
  loop_assigns (r ∷ rs) s u d g a same =
      let t = step u r in
      let apart = λ (x : ℕ) (m : contains rs x ≡ true). others u r x (ground (arith, d.0)) in
      let (g2, new, old) =
        loop_assigns rs s t d.1 (same_graph u r ∙ g)
          (λ x. Alike-trans (t.heap x) (u.heap x) (s.heap x) (step-Alike u r x) (a x))
          (λ x m. apart x m ∙ same x (ground arith)) in
      let here : (foldl step t rs).heap r ≡ value s r =
        old r d.0 ∙ own u r ∙ stable s u r g a (same r (ground (arith, ==_refl r))) in
      (
        g2,
        λ x m. elim (Bool-cases (r == x)) [
          | inl e ↦
              let eq : r ≡ x = ground arith in
              subst (λ y. (foldl step t rs).heap y ≡ value s y) eq here
          | inr e ↦ new x (ground arith)
        ],
        λ x m. old x (ground arith) ∙ others u r x (ground arith),
      )
