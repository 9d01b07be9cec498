-- ===== src/Schedule/Degrees.antt =====
-- What the in-degrees count: the edges into a node from the nodes that are not emitted yet.
use he_mai_a.Prelude.{
  ℕ, ◌+◌, ◌<◌, ◌≡◌, ◌≢◌, refl, true, false, List, [], ◌∷◌, ◌++◌, arith, ◌==◌, if◌then◌else◌,
  Bool-cases, inl, inr,
}
use he_mai_a.Prelude.Members.{contains, IsDistinct, contains-append}
use he_mai_a.Node.{BingoNode}
use he_mai_a.Schedule.{update_degree, count_successors, count_degrees}

abbrev pub count : ℕ → List ℕ → ℕ
count v [] = 0
count v (x ∷ xs) = (if x == v then 1 else 0) + count v xs

pub count_pos : (v : ℕ) (xs : List ℕ) → contains xs v ≡ true → 0 < count v xs
count_pos v [] h = cc
count_pos v (x ∷ xs) h = ground (arith, count_pos v xs)

pub count-zero : (v : ℕ) (xs : List ℕ) → contains xs v ≡ false → count v xs ≡ 0
count-zero v [] h = refl
count-zero v (x ∷ xs) h = ground (arith, count-zero v xs)

module _ (successors : ℕ → List ℕ) where
  -- The edges into `v` from the sources that are not among the emitted nodes.
  abbrev pub edges_into : (emitted sources : List ℕ) → ℕ → ℕ
  edges_into emitted [] v = 0
  edges_into emitted (u ∷ us) v =
      (if contains emitted u then 0 else count v (successors u)) + edges_into emitted us v

  edges_into-emit_other :
      (emitted sources : List ℕ) (x v : ℕ)
      → contains sources x ≡ false
      → edges_into (emitted ++ x ∷ []) sources v ≡ edges_into emitted sources v
  edges_into-emit_other emitted [] x v h = refl
  edges_into-emit_other emitted (u ∷ us) x v h =
      ground (arith, contains-append emitted (x ∷ []) u, edges_into-emit_other emitted us x v)

  -- Emitting a node takes its edges out of the count.
  pub edges_into-emit :
      (emitted sources : List ℕ) (x v : ℕ)
      → contains sources x ≡ true
      → IsDistinct sources
      → contains emitted x ≡ false
      → edges_into emitted sources v
        ≡ edges_into (emitted ++ x ∷ []) sources v + count v (successors x)
  edges_into-emit emitted [] x v h d new = cc
  edges_into-emit emitted (u ∷ us) x v h d new = ground (
    arith,
    contains-append emitted (x ∷ []) u,
    edges_into-emit emitted us x v,
    edges_into-emit_other emitted us x v,
  )

  -- No edge is left: every source of an edge into `v` is emitted.
  pub sources-emitted :
      (emitted sources : List ℕ) (v u : ℕ)
      → edges_into emitted sources v ≡ 0
      → contains sources u ≡ true
      → contains (successors u) v ≡ true
      → contains emitted u ≡ true
  sources-emitted emitted [] v u none member edge = cc
  sources-emitted emitted (w ∷ ws) v u none member edge =
      ground (arith, count_pos v (successors u), sources-emitted emitted ws v u)

  -- An edge is left: it has a source that is not emitted.
  pub waiting_source :
      (emitted sources : List ℕ) (v : ℕ)
      → edges_into emitted sources v ≢ 0
      → (u : ℕ) × (contains sources u ≡ true)
        × (contains emitted u ≡ false)
        × (contains (successors u) v ≡ true)
  waiting_source emitted [] v some = absurd (some refl)
  waiting_source emitted (w ∷ ws) v some = elim (Bool-cases (contains emitted w)) [
    | inl done ↦ behind (waiting_source emitted ws v (λ e. some (ground arith)))
    | inr waits ↦ elim (Bool-cases (contains (successors w) v)) [
      | inl edge ↦ (w, ground arith, waits, edge)
      | inr free ↦
          behind
            (waiting_source emitted ws v (λ e. some (ground (arith, count-zero v (successors w)))))
    ]
  ]
    where
      behind :
          (u : ℕ) × (contains ws u ≡ true)
            × (contains emitted u ≡ false)
            × (contains (successors u) v ≡ true)
          → (u : ℕ) × (contains (w ∷ ws) u ≡ true)
            × (contains emitted u ≡ false)
            × (contains (successors u) v ≡ true)
      behind (u, member, waits, edge) = (u, ground arith, waits, edge)

  module _ (node : ℕ → BingoNode) (local : List ℕ) where
    count_successors-count :
        (in_degree : ℕ → ℕ) (xs : List ℕ) (v : ℕ)
        → contains local v ≡ true
        → count_successors successors node local in_degree xs v ≡ in_degree v + count v xs
    unfolding count_successors
    count_successors-count in_degree [] v h = omega arith
    count_successors-count in_degree (x ∷ xs) v h = ground (
      arith,
      count_successors-count
          (if contains local x then update_degree in_degree x (in_degree x + 1) else in_degree) xs v
          h,
    )

    pub count_degrees-edges :
        (in_degree : ℕ → ℕ) (xs : List ℕ) (v : ℕ)
        → contains local v ≡ true
        → count_degrees successors node local in_degree xs v ≡ in_degree v + edges_into [] xs v
    unfolding count_degrees
    count_degrees-edges in_degree [] v h = omega arith
    count_degrees-edges in_degree (x ∷ xs) v h = omega (
      arith,
      count_degrees-edges (count_successors successors node local in_degree (successors x)) xs v h,
      count_successors-count in_degree (successors x) v h,
    )
