-- ===== src/Dfg/Tags/Grouped.antt =====
-- The cells of the edges: each edge is in the cell of its key, and edges apart stay apart.
use he_mai_a.Prelude.{
  ◌≡◌, refl, true, List, [], ◌∷◌, ◌++◌, arith, if◌then◌else◌, Bool-cases, inl, inr, All, All-imp,
  All-both, Has, ap,
}
use he_mai_a.Graph.{DiGraph}
use he_mai_a.Graph.Paths.{Algorithms}
use he_mai_a.Dfg.{Config, Dfg}
use he_mai_a.Dfg.Tags.{Cell, same_cell, Edge, add_to_cell, cells, cell_of}
use he_mai_a.Dfg.Tags.Written.{IsApart, IsApart-sym, AllApart}
use he_mai_a.Dfg.Tags.Adds.{Adds, Adds-head, Adds-append, All-Adds, AllApart-Adds, Has-middle}

-- The edges of all cells.
abbrev pub members : List (Cell × List Edge) → List Edge
members [] = []
members ((k, es) ∷ rest) = es ++ members rest

append_one : (xs : List Edge) (e : Edge) (ys : List Edge) → (xs ++ e ∷ []) ++ ys ≡ xs ++ e ∷ ys
append_one [] e ys = refl
append_one (x ∷ xs) e ys = ap (λ l. x ∷ l) (append_one xs e ys)

add_to_cell-Adds :
    (cell : Cell) (e : Edge) (known : List (Cell × List Edge))
    → Adds e (members known) (members (add_to_cell cell e known))
unfolding add_to_cell
add_to_cell-Adds cell e [] = Adds-head e []
add_to_cell-Adds cell e ((k, es) ∷ rest) = elim (Bool-cases (same_cell cell k)) [
  | inl c ↦ rw c (es, members rest, refl, append_one es e (members rest))
  | inr c ↦ rw c (
      Adds-append e es (members rest) (members (add_to_cell cell e rest))
        (add_to_cell-Adds cell e rest))
]

-- The edge is in the first cell with the key.
abbrev pub IsFiled : Cell → Edge → List (Cell × List Edge) → Type 0
IsFiled cell e [] = ⊥
IsFiled cell e ((k, es) ∷ rest) =
    if same_cell cell k then Has (λ f. f ≡ e) es else IsFiled cell e rest

Has-append : (P : Edge → Type 0) (xs ys : List Edge) → Has P xs → Has P (xs ++ ys)
Has-append P [] ys h = absurd h
Has-append P (x ∷ xs) ys (inl p) = inl p
Has-append P (x ∷ xs) ys (inr h) = inr (Has-append P xs ys h)

pub same_cell_refl : (cell : Cell) → same_cell cell cell ≡ true
same_cell_refl ((a, b, c), d) = ground arith

add_to_cell-IsFiled :
    (cell : Cell) (e : Edge) (known : List (Cell × List Edge))
    → IsFiled cell e (add_to_cell cell e known)
unfolding add_to_cell
add_to_cell-IsFiled cell e [] = rw (same_cell_refl cell) (inl refl)
add_to_cell-IsFiled cell e ((k, es) ∷ rest) = elim (Bool-cases (same_cell cell k)) [
  | inl c ↦ rw (c, c) (Has-middle (λ f. f ≡ e) e es [] refl)
  | inr c ↦ rw (c, c) (add_to_cell-IsFiled cell e rest)
]

kept-IsFiled :
    (cell c : Cell) (e f : Edge) (known : List (Cell × List Edge))
    → IsFiled c f known
    → IsFiled c f (add_to_cell cell e known)
unfolding add_to_cell
kept-IsFiled cell c e f [] h = absurd h
kept-IsFiled cell c e f ((k, es) ∷ rest) h = elim (Bool-cases (same_cell cell k)) [
  | inl own ↦ elim (Bool-cases (same_cell c k)) [
    | inl same ↦ rw (own, same) (Has-append (λ g. g ≡ f) es (e ∷ []) (rw same at h))
    | inr other ↦ rw (own, other) (rw other at h)
  ]
  | inr not_own ↦ elim (Bool-cases (same_cell c k)) [
    | inl same ↦ rw (not_own, same) (rw same at h)
    | inr other ↦ rw (not_own, other) (kept-IsFiled cell c e f rest (rw other at h))
  ]
]

module _ (nx : DiGraph) (alg : Algorithms nx) (config : Config) where
  open nx use {Graph}

  pub cells-All :
      (P : Edge → Type 0) (s : Dfg Graph) (es : List Edge) (known : List (Cell × List Edge))
      → All P es
      → All P (members known)
      → All P (members (cells nx alg config s known es))
  unfolding cells
  cells-All P s [] known h k = k
  cells-All P s (e ∷ es) known h k =
      cells-All P s es (add_to_cell (cell_of nx alg config s e) e known) h.1 (
        All-Adds P e (members known) (members (add_to_cell (cell_of nx alg config s e) e known))
          (add_to_cell-Adds (cell_of nx alg config s e) e known) h.0 k)

  pub cells-AllApart :
      (s : Dfg Graph) (es : List Edge) (known : List (Cell × List Edge))
      → AllApart es
      → AllApart (members known)
      → All (λ e. All (IsApart e) (members known)) es
      → AllApart (members (cells nx alg config s known es))
  unfolding cells
  cells-AllApart s [] known apart k far = k
  cells-AllApart s (e ∷ es) known apart k far =
      let next = members (add_to_cell (cell_of nx alg config s e) e known) in
      let added = add_to_cell-Adds (cell_of nx alg config s e) e known in
      cells-AllApart s es (add_to_cell (cell_of nx alg config s e) e known) apart.1
        (AllApart-Adds e (members known) next added far.0 k)
        (All-imp (λ x. IsApart e x × All (IsApart x) (members known)) (λ x. All (IsApart x) next) es
          (λ x (near, old).
            All-Adds (IsApart x) e (members known) next added (IsApart-sym e x near) old)
          (All-both (IsApart e) (λ x. All (IsApart x) (members known)) es apart.0 far.1))

  pub cells-IsFiled-known :
      (s : Dfg Graph) (es : List Edge) (known : List (Cell × List Edge)) (c : Cell) (f : Edge)
      → IsFiled c f known
      → IsFiled c f (cells nx alg config s known es)
  unfolding cells
  cells-IsFiled-known s [] known c f h = h
  cells-IsFiled-known s (e ∷ es) known c f h =
      cells-IsFiled-known s es (add_to_cell (cell_of nx alg config s e) e known) c f
        (kept-IsFiled (cell_of nx alg config s e) c e f known h)

  pub cells-IsFiled :
      (s : Dfg Graph) (es : List Edge) (known : List (Cell × List Edge))
      → All (λ e. IsFiled (cell_of nx alg config s e) e (cells nx alg config s known es)) es
  unfolding cells
  cells-IsFiled s [] known = tt
  cells-IsFiled s (e ∷ es) known =
      let next = add_to_cell (cell_of nx alg config s e) e known in
      (
        cells-IsFiled-known s es next (cell_of nx alg config s e) e
            (add_to_cell-IsFiled (cell_of nx alg config s e) e known),
        cells-IsFiled s es next,
      )
