-- ===== src/Graph.antt =====
-- The directed graph of networkx, which the compiler's `DiGraphWrapper` (bingo_utils.py) extends: a
-- parameter of the model, with the laws that its documentation states. Nodes are references to
-- node objects; nodes and neighbours are reported in the order in which they were added.
pub mod Log
pub mod Paths
pub mod Search
use he_mai_a.Prelude.{
  ℕ, ◌≡◌, refl, String, Bool, true, false, not, ◌&&◌, ◌||◌, Option, none, some, List, [], ◌∷◌, ◌++◌,
  ◌==◌, arith, if◌then◌else◌, keep_if,
}
use he_mai_a.Prelude.Members.{
  contains, IsDistinct, contains-append, contains-keep_if, append_one-IsDistinct,
  keep_if-IsDistinct,
}

-- A value of a gating policy: a number or a text.
pub data PolicyValue : Type 0 where
  number : ℕ → PolicyValue
  text : String → PolicyValue

-- The attributes of an edge; one that was not given is `none`.
pub record EdgeData : Type 0 where
  pub cond : Option Bool
  pub cond_dic : Option (List (String × PolicyValue))
  pub resource_sequence : Option Bool
  pub descriptor_sequence : Option Bool

abbrev pub no_data : EdgeData
no_data = record {
  cond = none;
  cond_dic = none;
  resource_sequence = none;
  descriptor_sequence = none;
}

abbrev pub or_old {ℓ} : {A : Type ℓ} → Option A → Option A → Option A
or_old (some new) old = some new
or_old none old = old

-- dict.update, the effect of `add_edge` on an edge that is there already.
abbrev pub merge : EdgeData → EdgeData → EdgeData
merge old new = record {
  cond = or_old new.cond old.cond;
  cond_dic = or_old new.cond_dic old.cond_dic;
  resource_sequence = or_old new.resource_sequence old.resource_sequence;
  descriptor_sequence = or_old new.descriptor_sequence old.descriptor_sequence;
}

abbrev pub or_none : Option EdgeData → EdgeData
or_none (some d) = d
or_none none = no_data

-- data.get(key, False)
abbrev pub or_false : Option Bool → Bool
or_false (some b) = b
or_false none = false

abbrev pub is_present : Option EdgeData → Bool
is_present (some d) = true
is_present none = false

-- At the end, unless it is there.
unfoldable pub put : ℕ → List ℕ → List ℕ
put a xs = if contains xs a then xs else xs ++ a ∷ []

unfoldable pub without : ℕ → List ℕ → List ℕ
without a xs = keep_if (λ x. not (x == a)) xs

-- list(set(xs)): the order is not relied on.
unfoldable pub distinct : List ℕ → List ℕ
distinct [] = []
distinct (x ∷ xs) = put x (distinct xs)

pub contains-put : (a : ℕ) (xs : List ℕ) (b : ℕ) → contains (put a xs) b ≡ contains xs b || a == b
unfolding put
contains-put a xs b = ground (arith, contains-append xs (a ∷ []) b)

pub contains-without :
    (a : ℕ) (xs : List ℕ) (b : ℕ) → contains (without a xs) b ≡ contains xs b && not (b == a)
unfolding without
contains-without a xs b = contains-keep_if (λ x. not (x == a)) xs b

pub contains-distinct : (xs : List ℕ) (a : ℕ) → contains (distinct xs) a ≡ contains xs a
unfolding distinct
contains-distinct [] a = refl
contains-distinct (x ∷ xs) a =
    ground (arith, contains-put x (distinct xs) a, contains-distinct xs a)

pub put-IsDistinct : (a : ℕ) (xs : List ℕ) → IsDistinct xs → IsDistinct (put a xs)
unfolding put
put-IsDistinct a xs h = ground (arith, append_one-IsDistinct xs a h)

pub without-IsDistinct : (a : ℕ) (xs : List ℕ) → IsDistinct xs → IsDistinct (without a xs)
unfolding without
without-IsDistinct a xs h = keep_if-IsDistinct (λ x. not (x == a)) xs h

pub record DiGraph : Type 1 where
  pub Graph : Type 0
  pub nodes : Graph → List ℕ
  pub successors : Graph → ℕ → List ℕ
  pub predecessors : Graph → ℕ → List ℕ
  pub edge_data : Graph → ℕ → ℕ → Option EdgeData
  pub add_node : Graph → ℕ → Graph
  pub add_edge : Graph → ℕ → ℕ → EdgeData → Graph
  pub remove_edge : Graph → ℕ → ℕ → Graph
  pub nodes-IsDistinct : (g : Graph) → IsDistinct (nodes g)
  pub successors-IsDistinct : (g : Graph) (w : ℕ) → IsDistinct (successors g w)
  pub predecessors-IsDistinct : (g : Graph) (w : ℕ) → IsDistinct (predecessors g w)
  pub successors-edge_data :
      (g : Graph) (u v : ℕ) → contains (successors g u) v ≡ is_present (edge_data g u v)
  pub predecessors-edge_data :
      (g : Graph) (u v : ℕ) → contains (predecessors g v) u ≡ is_present (edge_data g u v)
  pub nodes-add_node : (g : Graph) (n : ℕ) → nodes (add_node g n) ≡ put n (nodes g)
  pub successors-add_node : (g : Graph) (n w : ℕ) → successors (add_node g n) w ≡ successors g w
  pub predecessors-add_node :
      (g : Graph) (n w : ℕ) → predecessors (add_node g n) w ≡ predecessors g w
  pub edge_data-add_node : (g : Graph) (n a b : ℕ) → edge_data (add_node g n) a b ≡ edge_data g a b
  pub nodes-add_edge :
      (g : Graph) (u v : ℕ) (d : EdgeData) → nodes (add_edge g u v d) ≡ put v (put u (nodes g))
  pub successors-add_edge :
      (g : Graph) (u v : ℕ) (d : EdgeData) (w : ℕ)
      → successors (add_edge g u v d) w
        ≡ (if u == w then put v (successors g w) else successors g w)
  pub predecessors-add_edge :
      (g : Graph) (u v : ℕ) (d : EdgeData) (w : ℕ)
      → predecessors (add_edge g u v d) w
        ≡ (if v == w then put u (predecessors g w) else predecessors g w)
  pub edge_data-add_edge :
      (g : Graph) (u v : ℕ) (d : EdgeData) (a b : ℕ)
      → edge_data (add_edge g u v d) a b
        ≡ (if u == a && v == b then some (merge (or_none (edge_data g a b)) d) else edge_data g a b)
  pub nodes-remove_edge : (g : Graph) (u v : ℕ) → nodes (remove_edge g u v) ≡ nodes g
  pub successors-remove_edge :
      (g : Graph) (u v w : ℕ)
      → successors (remove_edge g u v) w
        ≡ (if u == w then without v (successors g w) else successors g w)
  pub predecessors-remove_edge :
      (g : Graph) (u v w : ℕ)
      → predecessors (remove_edge g u v) w
        ≡ (if v == w then without u (predecessors g w) else predecessors g w)
  pub edge_data-remove_edge :
      (g : Graph) (u v a b : ℕ)
      → edge_data (remove_edge g u v) a b ≡ (if u == a && v == b then none else edge_data g a b)
