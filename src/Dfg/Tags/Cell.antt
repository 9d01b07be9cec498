-- ===== src/Dfg/Tags/Cell.antt =====
-- The tags of a cell: edges with one tag follow one another, so their signals cannot be mixed up.
use he_mai_a.Prelude.{
  ℕ, ◌+◌, ◌^◌, ◌<◌, ◌≤◌, ◌≡◌, refl, true, some, List, [], arith, ◌==◌, ltb, Bool-cases, inl, inr,
  ◌⊎◌, All, All-imp, length, get_or, ◌∙◌, sym, ap, subst, ok, err, Error,
}
use he_mai_a.Prelude.Bits.{◌<<◌}
use he_mai_a.Graph.{DiGraph}
use he_mai_a.Graph.Paths.{Algorithms, Reaches, here, Reaches-trans}
use he_mai_a.Dfg.{Config, Dfg}
use he_mai_a.Dfg.Tags.{Cell, Edge, sort_edges, number_chains, tag_edges, can_follow, allocate_cell}
use he_mai_a.Dfg.Tags.Chains.{Leads, stay, go, Leads-either, number_chains-IsHeaded}
use he_mai_a.Dfg.Tags.Written.{
  IsApart, AllApart, set_tag, check_tag, IsKept, tag_edges-IsKept, IsFound, tag_edges-IsFound,
}
use he_mai_a.Dfg.Tags.Apart.{unsorted-All, get_or-All}
use he_mai_a.Dfg.Tags.Adds.{sort_edges-All, sort_edges-AllApart}

module _ (nx : DiGraph) (alg : Algorithms nx) (config : Config) (tag_width : ℕ) where
  open nx use {Graph, nodes, successors, add_edge}

  -- One of the edges is the other, or is set only after the other has been checked.
  abbrev pub IsOrdered : Graph → Edge → Edge → Type 0
  IsOrdered g e f = (e ≡ f) ⊎ (Reaches nx g e.1 f.0 ⊎ Reaches nx g f.1 e.0)

  -- The tags of two edges in one cell.
  abbrev pub IsGood : Graph → Dfg Graph → Edge → Edge → Type 0
  IsGood g t e f =
      (set_tag t e ≡ check_tag t e)
      × (set_tag t e < 2 ^ tag_width)
      × (set_tag t e ≡ set_tag t f → IsOrdered g e f)

  pub IsGood-kept :
      (g : Graph) (s t : Dfg Graph) (e f : Edge)
      → IsKept s t e
      → IsKept s t f
      → IsGood g s e f
      → IsGood g t e f
  IsGood-kept g s t e f ke kf (same, low, order) =
      (ke.0 ∙ (same ∙ sym ke.1), omega (arith, ke.0), λ h. order (sym ke.0 ∙ (h ∙ kf.0)))

  can_follow-Reaches :
      (g : Graph) (edges : List Edge) (i k : ℕ)
      → can_follow nx alg config g edges i k ≡ true
      → Reaches nx g (get_or edges i (0, 0)).1 (get_or edges k (0, 0)).0
  unfolding can_follow
  can_follow-Reaches g edges i k h =
      let consumer = (get_or edges i (0, 0)).1 in
      let producer = (get_or edges k (0, 0)).0 in
      elim (Bool-cases (producer == consumer)) [
        | inl same ↦
            let at : consumer ≡ producer = ground arith in
            subst (Reaches nx g consumer) at (here consumer)
        | inr other ↦ alg.descendants-Reaches g consumer producer (ground arith)
      ]

  -- Along a chain the last edge is set after the first has been checked.
  Leads-Reaches :
      (g : Graph) (edges : List Edge) (i j : ℕ)
      → All (λ e. Reaches nx g e.0 e.1) edges
      → Leads (alg.hopcroft_karp_matching (length edges) (can_follow nx alg config g edges)) i j
      → (i ≡ j) ⊎ Reaches nx g (get_or edges i (0, 0)).1 (get_or edges j (0, 0)).0
  Leads-Reaches g edges i j paths (stay _) = inl refl
  Leads-Reaches g edges i j paths (go _ k _ e rest) =
      let count = length edges in
      let edge = can_follow nx alg config g edges in
      let first = can_follow-Reaches g edges i k (alg.matching-edge count edge i k e) in
      let own =
        get_or-All (λ f. Reaches nx g f.0 f.1) edges k (alg.matching-range count edge i k e).1
          paths in
      elim (Leads-Reaches g edges k j paths rest) [
        | inl same ↦ inr (
            subst (λ x. Reaches nx g (get_or edges i (0, 0)).1 (get_or edges x (0, 0)).0) same
              first)
        | inr later ↦ inr (
            Reaches-trans nx g (get_or edges i (0, 0)).1 (get_or edges k (0, 0)).0
              (get_or edges j (0, 0)).0 first
              (Reaches-trans nx g (get_or edges k (0, 0)).0 (get_or edges k (0, 0)).1
                (get_or edges j (0, 0)).0 own later))
      ]

  Leads-IsOrdered :
      (g : Graph) (edges : List Edge) (i j : ℕ) (e f : Edge)
      → All (λ e. Reaches nx g e.0 e.1) edges
      → get_or edges i (0, 0) ≡ e
      → get_or edges j (0, 0) ≡ f
      → let successor =
          alg.hopcroft_karp_matching (length edges) (can_follow nx alg config g edges) in
        (Leads successor i j ⊎ Leads successor j i) → IsOrdered g e f
  Leads-IsOrdered g edges i j e f paths at_i at_j (inl h) =
      elim (Leads-Reaches g edges i j paths h) [
        | inl same ↦ inl (sym at_i ∙ (ap (λ k. get_or edges k (0, 0)) same ∙ at_j))
        | inr path ↦ inr (
            inl (
              subst (λ x. Reaches nx g e.1 x.0) at_j
                (subst (λ x. Reaches nx g x.1 (get_or edges j (0, 0)).0) at_i path)))
      ]
  Leads-IsOrdered g edges i j e f paths at_i at_j (inr h) =
      elim (Leads-Reaches g edges j i paths h) [
        | inl same ↦ inl (sym at_i ∙ (ap (λ k. get_or edges k (0, 0)) (sym same) ∙ at_j))
        | inr path ↦ inr (
            inr (
              subst (λ x. Reaches nx g f.1 x.0) at_i
                (subst (λ x. Reaches nx g x.1 (get_or edges i (0, 0)).0) at_j path)))
      ]

  -- What a cell that is tagged has been through.
  allocate_cell-ok :
      (g : Graph) (order : List ℕ) (cell : Cell) (unsorted : List Edge) (s t : Dfg Graph)
      → allocate_cell nx alg config tag_width g order (cell, unsorted) s ≡ ok t
      → let edges = sort_edges order unsorted in
        let count = length edges in
        let successor = alg.hopcroft_karp_matching count (can_follow nx alg config g edges) in
        let (tags, n) = number_chains count successor count 0 ([], 0) in
        (n ≤ 2 ^ tag_width) × (tag_edges tags 0 edges s ≡ ok t)
  unfolding allocate_cell
  allocate_cell-ok g order cell unsorted s t e =
      let edges = sort_edges order unsorted in
      let count = length edges in
      let successor = alg.hopcroft_karp_matching count (can_follow nx alg config g edges) in
      let (tags, n) = number_chains count successor count 0 ([], 0) in
      elim (Bool-cases (ltb (1 << tag_width) n)) [
        | inl many ↦
            let refused : err Error.too_many_tags ≡ ok t = rw many at e in absurd (ground arith)
        | inr few ↦ (ground arith, rw few at e)
      ]

  pub allocate_cell-IsKept :
      (g : Graph) (order : List ℕ) (group : Cell × List Edge) (s t : Dfg Graph) (f : Edge)
      → allocate_cell nx alg config tag_width g order group s ≡ ok t
      → All (λ e. IsApart e f) group.1
      → IsKept s t f
  allocate_cell-IsKept g order (cell, unsorted) s t f e h =
      let edges = sort_edges order unsorted in
      let count = length edges in
      let successor = alg.hopcroft_karp_matching count (can_follow nx alg config g edges) in
      let (tags, n) = number_chains count successor count 0 ([], 0) in
      tag_edges-IsKept tags 0 edges s t f (allocate_cell-ok g order cell unsorted s t e).1
        (sort_edges-All (λ x. IsApart x f) order unsorted h)

  pub allocate_cell-IsGood :
      (g : Graph) (order : List ℕ) (group : Cell × List Edge) (s t : Dfg Graph)
      → allocate_cell nx alg config tag_width g order group s ≡ ok t
      → AllApart group.1
      → All (λ e. Reaches nx g e.0 e.1) group.1
      → All (λ e. All (IsGood g t e) group.1) group.1
  allocate_cell-IsGood g order (cell, unsorted) s t e apart paths =
      let edges = sort_edges order unsorted in
      let count = length edges in
      let successor = alg.hopcroft_karp_matching count (can_follow nx alg config g edges) in
      let (tags, n) = number_chains count successor count 0 ([], 0) in
      let (few, written) = allocate_cell-ok g order cell unsorted s t e in
      let sorted_paths = sort_edges-All (λ f. Reaches nx g f.0 f.1) order unsorted paths in
      let found : All (IsFound tags t 0 edges) unsorted =
        unsorted-All (IsFound tags t 0 edges) order unsorted
          (tag_edges-IsFound tags 0 edges s t written (sort_edges-AllApart order unsorted apart)) in
      let (head, headed) =
        number_chains-IsHeaded successor count count 0 (λ t. 0) [] 0
          (λ i t e. absurd (ground arith)) in
      All-imp (IsFound tags t 0 edges) (λ e. All (IsGood g t e) unsorted) unsorted
        (λ e (i, low_i, at_i, (tag_i, check_i)).
          All-imp (IsFound tags t 0 edges) (IsGood g t e) unsorted
            (λ f (j, low_j, at_j, (tag_j, check_j)). (
              sym check_i,
              omega (arith, few, (headed (0 + i) (set_tag t e) tag_i).0),
              λ same. Leads-IsOrdered g edges i j e f sorted_paths at_i at_j (
                  Leads-either successor (head (set_tag t e)) i j
                    (subst (Leads successor (head (set_tag t e))) (omega arith)
                      (headed (0 + i) (set_tag t e) tag_i).1)
                    (subst (Leads successor (head (set_tag t e))) (omega arith)
                      (headed (0 + j) (set_tag t e) (tag_j ∙ ap some (sym same))).1)),
            ))
            found)
        found
