-- ===== src/Graph/Paths.antt =====
-- The algorithms of networkx that the compiler calls, as a parameter with the laws that their
-- documentation states.
use he_mai_a.Prelude.{ℕ, ◌<◌, ◌≡◌, Bool, true, Option, some, List, arith, Result, ok, ==_refl}
use he_mai_a.Prelude.Members.{contains, IsDistinct}
use he_mai_a.Graph.{EdgeData, DiGraph, contains-put}

module _ (nx : DiGraph) where
  open nx use {Graph, nodes, successors, add_edge}

  -- A path along the edges, of any length.
  pub data Reaches (g : Graph) : ℕ → ℕ → Type 0 where
    here : (u : ℕ) → Reaches g u u
    along : (u v w : ℕ) → contains (successors g u) v ≡ true → Reaches g v w → Reaches g u w

  pub Reaches-trans : (g : Graph) (u v w : ℕ) → Reaches g u v → Reaches g v w → Reaches g u w
  Reaches-trans g u v w (here _) q = q
  Reaches-trans g u v w (along _ x _ e rest) q = along u x w e (Reaches-trans g x v w rest q)

  -- A new edge leaves the paths in place.
  pub add_edge-Reaches :
      (g : Graph) (a b : ℕ) (d : EdgeData) (u w : ℕ)
      → Reaches g u w
      → Reaches (add_edge g a b d) u w
  add_edge-Reaches g a b d u w (here _) = here w
  add_edge-Reaches g a b d u w (along _ v _ e rest) =
      along u v w (kept u v e) (add_edge-Reaches g a b d v w rest)
    where
      kept :
          (u v : ℕ)
          → contains (successors g u) v ≡ true
          → contains (successors (add_edge g a b d) u) v ≡ true
      kept u v e =
          rw (nx.successors-add_edge g a b d u) (ground (arith, contains-put b (successors g u) v))

  pub new_edge-Reaches : (g : Graph) (a b : ℕ) (d : EdgeData) → Reaches (add_edge g a b d) a b
  new_edge-Reaches g a b d =
      along a b b
        (rw (nx.successors-add_edge g a b d a, ==_refl a)
          (ground (arith, contains-put b (successors g a) b, ==_refl b)))
        (here b)

  pub record Algorithms : Type 0 where
    -- Raises on a cycle.
    pub topological_sort : Graph → Result (List ℕ)
    pub has_path : Graph → ℕ → ℕ → Bool
    pub is_directed_acyclic_graph : Graph → Bool
    -- The nodes that a path leads to, the node itself excepted.
    pub descendants : Graph → ℕ → List ℕ
    -- A maximum matching of `count` left with as many right nodes: the right node of a left one.
    pub hopcroft_karp_matching : (count : ℕ) → (ℕ → ℕ → Bool) → ℕ → Option ℕ
    -- The components of an undirected graph, given by its nodes and the test for an edge.
    pub connected_components : List ℕ → (ℕ → ℕ → Bool) → List (List ℕ)
    pub has_path-Reaches : (g : Graph) (u v : ℕ) → has_path g u v ≡ true → Reaches g u v
    pub topological_sort-nodes :
        (g : Graph) (order : List ℕ)
        → topological_sort g ≡ ok order
        → IsDistinct order × ((r : ℕ) → contains order r ≡ contains (nodes g) r)
    pub matching-edge :
        (count : ℕ) (edge : ℕ → ℕ → Bool) (i j : ℕ)
        → hopcroft_karp_matching count edge i ≡ some j
        → edge i j ≡ true
    pub descendants-Reaches :
        (g : Graph) (u v : ℕ) → contains (descendants g u) v ≡ true → Reaches g u v
    -- The nodes that are matched are among the `count` on each side.
    pub matching-range :
        (count : ℕ) (edge : ℕ → ℕ → Bool) (i j : ℕ)
        → hopcroft_karp_matching count edge i ≡ some j
        → (i < count) × (j < count)
    pub matching-injective :
        (count : ℕ) (edge : ℕ → ℕ → Bool) (i k j : ℕ)
        → hopcroft_karp_matching count edge i ≡ some j
        → hopcroft_karp_matching count edge k ≡ some j
        → i ≡ k
