-- ===== src/Graph/Search.antt =====
-- Algorithms on the logged graph: the laws of `Algorithms` can be met. Paths are searched for as far as the
-- graph has nodes; the order is that of the log, and each left node is matched with the next right
-- one at most.
use he_mai_a.Prelude.{
  ltb, if◌then◌else◌, Option, some, sym, ◌<◌, ℕ, zero, suc, ◌≡◌, refl, Bool, true, false, ◌||◌,
  ◌&&◌, not, none, List, [], ◌∷◌, arith, ◌==◌, ==_refl, length, Result, ok, err, Bool-cases, inl,
  inr, subst, keep_if, ap, map,
}
use he_mai_a.Prelude.Members.{contains, IsDistinct, contains-keep_if}
use he_mai_a.Graph.Log.{Change, logged, logged_nodes, logged_successors, logged_nodes-IsDistinct}
use he_mai_a.Graph.Paths.{Reaches, here, along, Algorithms}

-- Is one of the nodes related?
abbrev some_of : (ℕ → Bool) → List ℕ → Bool
some_of p [] = false
some_of p (x ∷ xs) = p x || some_of p xs

some_of-member :
    (p : ℕ → Bool) (xs : List ℕ)
    → some_of p xs ≡ true
    → (x : ℕ) × (contains xs x ≡ true) × (p x ≡ true)
some_of-member p [] h = absurd (ground arith)
some_of-member p (x ∷ xs) h = elim (Bool-cases (p x)) [
  | inl e ↦ (x, ground (arith, ==_refl x), e)
  | inr e ↦ let (y, m, q) = some_of-member p xs (ground arith) in (y, ground arith, q)
]

abbrev path_within : ℕ → List Change → ℕ → ℕ → Bool
path_within zero g u v = u == v
path_within (suc k) g u v = u == v || some_of (λ w. path_within k g w v) (logged_successors g u)

pub path_within-Reaches :
    (k : ℕ) (g : List Change) (u v : ℕ) → path_within k g u v ≡ true → Reaches logged g u v
path_within-Reaches zero g u v h =
    let same : u ≡ v = ground arith in subst (Reaches logged g u) same (here u)
path_within-Reaches (suc k) g u v h = elim (Bool-cases (u == v)) [
  | inl e ↦ let same : u ≡ v = ground arith in subst (Reaches logged g u) same (here u)
  | inr e ↦
      let (w, edge, rest) =
        some_of-member (λ w. path_within k g w v) (logged_successors g u) (ground arith) in
      along u w v edge (path_within-Reaches k g w v rest)
]

abbrev pub descendant : List Change → ℕ → ℕ → Bool
descendant g u v = not (u == v) && path_within (length (logged_nodes g)) g u v

pub descendant-Reaches :
    (g : List Change) (u v : ℕ)
    → contains (keep_if (descendant g u) (logged_nodes g)) v ≡ true
    → Reaches logged g u v
descendant-Reaches g u v h =
    path_within-Reaches (length (logged_nodes g)) g u v
      (ground (arith, contains-keep_if (descendant g u) (logged_nodes g) v))

abbrev pub match_next : ℕ → (ℕ → ℕ → Bool) → ℕ → Option ℕ
match_next count edge i = if ltb (suc i) count && edge i (suc i) then some (suc i) else none

pub match_next_lem :
    (count : ℕ) (edge : ℕ → ℕ → Bool) (i j : ℕ)
    → match_next count edge i ≡ some j
    → ((edge i j ≡ true) × ((i < count) × (j < count))) × (j ≡ suc i)
match_next_lem count edge i j e = elim (Bool-cases (ltb (suc i) count && edge i (suc i))) [
  | inl found ↦
      let at : suc i ≡ j = ground arith in
      ((subst (λ x. edge i x ≡ true) at (ground arith), (ground arith, ground arith)), sym at)
  | inr missing ↦ absurd (ground arith)
]

abbrev or_nothing : List ℕ → Result (List ℕ) → List ℕ
or_nothing d (ok xs) = xs
or_nothing d (err e) = d

abbrev pub searched : Algorithms logged
searched = record {
  topological_sort = λ g. ok (logged_nodes g);
  has_path = λ g u v. path_within (length (logged_nodes g)) g u v;
  is_directed_acyclic_graph = λ g. true;
  descendants = λ g u. keep_if (descendant g u) (logged_nodes g);
  hopcroft_karp_matching = match_next;
  connected_components = λ nodes edge. map (λ n. n ∷ []) nodes;
  has_path-Reaches = λ g u v h. path_within-Reaches (length (logged_nodes g)) g u v h;
  topological_sort-nodes = λ g order e.
      let same : logged_nodes g ≡ order = ap (or_nothing []) e in
      subst (λ l. IsDistinct l × ((r : ℕ) → contains l r ≡ contains (logged_nodes g) r)) same
        (logged_nodes-IsDistinct g, λ r. refl);
  matching-edge = λ count edge i j e. (match_next_lem count edge i j e).0.0;
  descendants-Reaches = descendant-Reaches;
  matching-range = λ count edge i j e. (match_next_lem count edge i j e).0.1;
  matching-injective = λ count edge i k j e f.
      omega (arith, (match_next_lem count edge i j e).1, (match_next_lem count edge k j f).1);
}
