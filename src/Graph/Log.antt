-- ===== src/Graph/Log.antt =====
-- A graph that keeps the log of its changes, newest first: the laws of `DiGraph` can be met.
use he_mai_a.Prelude.{
  ℕ, ◌≡◌, refl, ◌&&◌, Option, none, some, List, [], ◌∷◌, arith, ◌==◌, if◌then◌else◌,
}
use he_mai_a.Prelude.Members.{contains, IsDistinct}
use he_mai_a.Graph.{
  EdgeData, merge, or_none, is_present, put, without, contains-put, contains-without,
  put-IsDistinct, without-IsDistinct, DiGraph,
}

pub data Change : Type 0 where
  node : ℕ → Change
  edge : ℕ → ℕ → EdgeData → Change
  cut : ℕ → ℕ → Change

abbrev pub logged_nodes : List Change → List ℕ
logged_nodes [] = []
logged_nodes (node n ∷ g) = put n (logged_nodes g)
logged_nodes (edge u v d ∷ g) = put v (put u (logged_nodes g))
logged_nodes (cut u v ∷ g) = logged_nodes g

abbrev pub logged_successors : List Change → ℕ → List ℕ
logged_successors [] w = []
logged_successors (node n ∷ g) w = logged_successors g w
logged_successors (edge u v d ∷ g) w =
    let before = logged_successors g w in if u == w then put v before else before
logged_successors (cut u v ∷ g) w =
    let before = logged_successors g w in if u == w then without v before else before

abbrev pub logged_predecessors : List Change → ℕ → List ℕ
logged_predecessors [] w = []
logged_predecessors (node n ∷ g) w = logged_predecessors g w
logged_predecessors (edge u v d ∷ g) w =
    let before = logged_predecessors g w in if v == w then put u before else before
logged_predecessors (cut u v ∷ g) w =
    let before = logged_predecessors g w in if v == w then without u before else before

abbrev pub logged_data : List Change → ℕ → ℕ → Option EdgeData
logged_data [] a b = none
logged_data (node n ∷ g) a b = logged_data g a b
logged_data (edge u v d ∷ g) a b =
    let before = logged_data g a b in
    if u == a && v == b then some (merge (or_none before) d) else before
logged_data (cut u v ∷ g) a b =
    let before = logged_data g a b in if u == a && v == b then none else before

pub logged_nodes-IsDistinct : (g : List Change) → IsDistinct (logged_nodes g)
logged_nodes-IsDistinct [] = tt
logged_nodes-IsDistinct (node n ∷ g) = put-IsDistinct n _ (logged_nodes-IsDistinct g)
logged_nodes-IsDistinct (edge u v d ∷ g) =
    put-IsDistinct v _ (put-IsDistinct u _ (logged_nodes-IsDistinct g))
logged_nodes-IsDistinct (cut u v ∷ g) = logged_nodes-IsDistinct g

pub logged_successors-IsDistinct : (g : List Change) (w : ℕ) → IsDistinct (logged_successors g w)
logged_successors-IsDistinct [] w = tt
logged_successors-IsDistinct (node n ∷ g) w = logged_successors-IsDistinct g w
logged_successors-IsDistinct (edge u v d ∷ g) w =
    ground (arith, logged_successors-IsDistinct g w, put-IsDistinct v (logged_successors g w))
logged_successors-IsDistinct (cut u v ∷ g) w =
    ground (arith, logged_successors-IsDistinct g w, without-IsDistinct v (logged_successors g w))

pub logged_predecessors-IsDistinct :
    (g : List Change) (w : ℕ) → IsDistinct (logged_predecessors g w)
logged_predecessors-IsDistinct [] w = tt
logged_predecessors-IsDistinct (node n ∷ g) w = logged_predecessors-IsDistinct g w
logged_predecessors-IsDistinct (edge u v d ∷ g) w =
    ground (arith, logged_predecessors-IsDistinct g w, put-IsDistinct u (logged_predecessors g w))
logged_predecessors-IsDistinct (cut u v ∷ g) w =
    ground
      (arith, logged_predecessors-IsDistinct g w, without-IsDistinct u (logged_predecessors g w))

pub successors_have_data :
    (g : List Change) (u v : ℕ)
    → contains (logged_successors g u) v ≡ is_present (logged_data g u v)
successors_have_data [] u v = refl
successors_have_data (node n ∷ g) u v = successors_have_data g u v
successors_have_data (edge a b d ∷ g) u v =
    ground (arith, successors_have_data g u v, contains-put b (logged_successors g u) v)
successors_have_data (cut a b ∷ g) u v =
    ground (arith, successors_have_data g u v, contains-without b (logged_successors g u) v)

pub predecessors_have_data :
    (g : List Change) (u v : ℕ)
    → contains (logged_predecessors g v) u ≡ is_present (logged_data g u v)
predecessors_have_data [] u v = refl
predecessors_have_data (node n ∷ g) u v = predecessors_have_data g u v
predecessors_have_data (edge a b d ∷ g) u v =
    ground (arith, predecessors_have_data g u v, contains-put a (logged_predecessors g v) u)
predecessors_have_data (cut a b ∷ g) u v =
    ground (arith, predecessors_have_data g u v, contains-without a (logged_predecessors g v) u)

abbrev pub logged : DiGraph
logged = record {
  Graph = List Change;
  nodes = logged_nodes;
  successors = logged_successors;
  predecessors = logged_predecessors;
  edge_data = logged_data;
  add_node = λ g n. node n ∷ g;
  add_edge = λ g u v d. edge u v d ∷ g;
  remove_edge = λ g u v. cut u v ∷ g;
  nodes-IsDistinct = logged_nodes-IsDistinct;
  successors-IsDistinct = logged_successors-IsDistinct;
  predecessors-IsDistinct = logged_predecessors-IsDistinct;
  successors-edge_data = successors_have_data;
  predecessors-edge_data = predecessors_have_data;
  nodes-add_node = λ g n. refl;
  successors-add_node = λ g n w. refl;
  predecessors-add_node = λ g n w. refl;
  edge_data-add_node = λ g n a b. refl;
  nodes-add_edge = λ g u v d. refl;
  successors-add_edge = λ g u v d w. refl;
  predecessors-add_edge = λ g u v d w. refl;
  edge_data-add_edge = λ g u v d a b. refl;
  nodes-remove_edge = λ g u v. refl;
  successors-remove_edge = λ g u v w. refl;
  predecessors-remove_edge = λ g u v w. refl;
  edge_data-remove_edge = λ g u v a b. refl;
}
