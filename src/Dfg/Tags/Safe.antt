-- ===== src/Dfg/Tags/Safe.antt =====
-- The whole pass: two dependencies of one cell that share a tag never overlap.
use he_mai_a.Prelude.{
  ℕ, ◌^◌, ◌<◌, ◌≡◌, refl, true, List, [], ◌∷◌, arith, if◌then◌else◌, Bool-cases, inl, inr, ◌⊎◌, All,
  All-imp, All-append, All-both, All-self, Has, keep_if, ◌∙◌, subst, ok, err, Error, foldl,
  >>=-eq-ok,
}
use he_mai_a.Prelude.Members.{contains}
use he_mai_a.Graph.{DiGraph, no_data}
use he_mai_a.Graph.Paths.{Algorithms, Reaches, here, along, add_edge-Reaches}
use he_mai_a.Dfg.{Config, Dfg, for_each, for_each-first, for_each-done}
use he_mai_a.Dfg.Resources.{all_pairs, group_by_place}
use he_mai_a.Dfg.Tags.{
  Cell, same_cell, Edge, has_multi_endpoint, cells, cell_of, descriptor_order, edges_from,
  is_tagged, tagged_edges, happens_before, allocate_cell, bingo_transform_dfg_allocate_dep_tags,
}
use he_mai_a.Dfg.Tags.Written.{IsApart, IsApart-sym, AllApart, set_tag, check_tag, IsKept}
use he_mai_a.Dfg.Tags.Apart.{Has-at, append-All, append-AllApart, has_multi_endpoint-AllApart}
use he_mai_a.Dfg.Tags.Cell.{IsGood, IsGood-kept, allocate_cell-IsKept, allocate_cell-IsGood}
use he_mai_a.Dfg.Tags.Grouped.{
  members, same_cell_refl, IsFiled, cells-All, cells-AllApart, cells-IsFiled,
}

same_cell-eq : (c d : Cell) → same_cell c d ≡ true → d ≡ c
same_cell-eq ((a, b, n), m) ((a', b', n'), m') h =
    let x : a' ≡ a = ground arith in
    let y : b' ≡ b = ground arith in
    let z : n' ≡ n = ground arith in let w : m' ≡ m = ground arith in rw (x, y, z, w) refl

module _ (nx : DiGraph) (alg : Algorithms nx) (config : Config) (tag_width : ℕ) where
  open nx use {Graph, nodes, successors, add_edge}

  -- The loop over the cells leaves other edges as they are.
  for_each-IsKept :
      (g : Graph) (order : List ℕ) (groups : List (Cell × List Edge)) (s t : Dfg Graph) (f : Edge)
      → for_each (allocate_cell nx alg config tag_width g order) groups s ≡ ok t
      → All (λ e. IsApart e f) (members groups)
      → IsKept s t f
  for_each-IsKept g order [] s t f e h =
      let same = for_each-done (allocate_cell nx alg config tag_width g order) s t e in
      rw same (refl, refl)
  for_each-IsKept g order ((cell, es) ∷ groups) s t f e h =
      let (own, others) = append-All (λ x. IsApart x f) es (members groups) h in
      let (u, first, rest) =
        for_each-first (allocate_cell nx alg config tag_width g order) (cell, es) groups s t e in
      let one = allocate_cell-IsKept nx alg config tag_width g order (cell, es) s u f first own in
      let later = for_each-IsKept g order groups u t f rest others in
      (later.0 ∙ one.0, later.1 ∙ one.1)

  for_each-IsGood :
      (g : Graph) (order : List ℕ) (groups : List (Cell × List Edge)) (s t : Dfg Graph)
      → for_each (allocate_cell nx alg config tag_width g order) groups s ≡ ok t
      → AllApart (members groups)
      → All (λ e. Reaches nx g e.0 e.1) (members groups)
      → All (λ group. All (λ e. All (IsGood nx alg config tag_width g t e) group.1) group.1) groups
  for_each-IsGood g order [] s t e apart paths = tt
  for_each-IsGood g order ((cell, es) ∷ groups) s t e apart paths =
      let (own, others, far) = append-AllApart es (members groups) apart in
      let (own_paths, paths') = append-All (λ x. Reaches nx g x.0 x.1) es (members groups) paths in
      let (u, first, rest) =
        for_each-first (allocate_cell nx alg config tag_width g order) (cell, es) groups s t e in
      let kept : All (IsKept u t) es =
        All-imp (λ x. All (IsApart x) (members groups)) (IsKept u t) es
          (λ x away.
            for_each-IsKept g order groups u t x rest
              (All-imp (IsApart x) (λ y. IsApart y x) (members groups) (IsApart-sym x) away))
          far in
      let good =
        allocate_cell-IsGood nx alg config tag_width g order (cell, es) s u first own own_paths in
      (
        All-imp (λ x. IsKept u t x × All (IsGood nx alg config tag_width g u x) es)
            (λ x. All (IsGood nx alg config tag_width g t x) es) es
            (λ x (kx, goods).
              All-imp (λ y. IsKept u t y × IsGood nx alg config tag_width g u x y)
                (IsGood nx alg config tag_width g t x) es
                (λ y (ky, gy). IsGood-kept nx alg config tag_width g u t x y kx ky gy)
                (All-both (IsKept u t) (IsGood nx alg config tag_width g u x) es kept goods))
            (All-both (IsKept u t) (λ x. All (IsGood nx alg config tag_width g u x) es) es kept
              good),
        for_each-IsGood g order groups u t rest others paths',
      )

  -- Two edges that are filed under one key are in one group.
  filed-IsGood :
      (g : Graph) (t : Dfg Graph) (cell : Cell) (e f : Edge) (groups : List (Cell × List Edge))
      → IsFiled cell e groups
      → IsFiled cell f groups
      → All (λ group. All (λ e. All (IsGood nx alg config tag_width g t e) group.1) group.1) groups
      → IsGood nx alg config tag_width g t e f
  filed-IsGood g t cell e f [] a b h = absurd a
  filed-IsGood g t cell e f ((k, es) ∷ groups) a b h = elim (Bool-cases (same_cell cell k)) [
    | inl same ↦
        Has-at (IsGood nx alg config tag_width g t e) es f
          (Has-at (λ x. All (IsGood nx alg config tag_width g t x) es) es e h.0 (rw same at a))
          (rw same at b)
    | inr other ↦ filed-IsGood g t cell e f groups (rw other at a) (rw other at b) h.1
  ]

  -- The edges of the graph are paths of the order that the tags rely on.
  more_edges-Reaches :
      (ps : List Edge) (g : Graph) (u v : ℕ)
      → Reaches nx g u v
      → Reaches nx (foldl (λ g (a, b). add_edge g a b no_data) g ps) u v
  more_edges-Reaches [] g u v p = p
  more_edges-Reaches ((a, b) ∷ ps) g u v p =
      more_edges-Reaches ps (add_edge g a b no_data) u v (add_edge-Reaches nx g a b no_data u v p)

  edges_from-All :
      (P : Edge → Type 0) (u : ℕ) (vs : List ℕ)
      → All (λ v. P (u, v)) vs
      → All P (edges_from nx alg config u vs)
  edges_from-All P u [] h = tt
  edges_from-All P u (v ∷ vs) h = (h.0, edges_from-All P u vs h.1)

  kept_successors-All :
      (s : Dfg Graph) (u : ℕ) (vs : List ℕ)
      → All (λ v. contains (successors s.graph u) v ≡ true) vs
      → All
          (λ v. contains (successors s.graph u) v ≡ true)
          (keep_if (is_tagged nx alg config s u) vs)
  kept_successors-All s u [] h = tt
  kept_successors-All s u (v ∷ vs) h = elim (Bool-cases (is_tagged nx alg config s u v)) [
    | inl e ↦ rw e (h.0, kept_successors-All s u vs h.1)
    | inr e ↦ rw e (kept_successors-All s u vs h.1)
  ]

  members-All : (vs : List ℕ) → All (λ v. contains vs v ≡ true) vs
  members-All [] = tt
  members-All (v ∷ vs) = (
    ground arith,
    All-imp (λ x. contains vs x ≡ true) (λ x. contains (v ∷ vs) x ≡ true) vs (λ x h. ground arith)
        (members-All vs),
  )

  tagged_edges-Reaches :
      (s : Dfg Graph) (order us : List ℕ)
      → All
          (λ e. Reaches nx (happens_before nx alg config s order) e.0 e.1)
          (tagged_edges nx alg config s us)
  tagged_edges-Reaches s order [] = tt
  tagged_edges-Reaches s order (u ∷ us) =
      let g = happens_before nx alg config s order in
      All-append (λ e. Reaches nx g e.0 e.1)
        (edges_from nx alg config u (keep_if (is_tagged nx alg config s u) (successors s.graph u)))
        (tagged_edges nx alg config s us)
        (edges_from-All (λ e. Reaches nx g e.0 e.1) u
          (keep_if (is_tagged nx alg config s u) (successors s.graph u))
          (All-imp (λ v. contains (successors s.graph u) v ≡ true) (Reaches nx g u)
            (keep_if (is_tagged nx alg config s u) (successors s.graph u))
            (λ v m.
              more_edges-Reaches (all_pairs (group_by_place s.heap [] order)) s.graph u v
                (along u v v m (here v)))
            (kept_successors-All s u (successors s.graph u) (members-All (successors s.graph u)))))
        (tagged_edges-Reaches s order us)

  pub dep_tags-IsGood :
      (s t : Dfg Graph) (order : List ℕ) (e f : Edge)
      → descriptor_order nx alg config s config.chiplet_ids ≡ ok order
      → bingo_transform_dfg_allocate_dep_tags nx alg config tag_width s ≡ ok t
      → Has (λ x. x ≡ e) (tagged_edges nx alg config s (nodes s.graph))
      → Has (λ x. x ≡ f) (tagged_edges nx alg config s (nodes s.graph))
      → same_cell (cell_of nx alg config s e) (cell_of nx alg config s f) ≡ true
      → IsGood nx alg config tag_width (happens_before nx alg config s order) t e f
  unfolding bingo_transform_dfg_allocate_dep_tags
  dep_tags-IsGood s t order e f sorted run at_e at_f same =
      let edges = tagged_edges nx alg config s (nodes s.graph) in
      let g = happens_before nx alg config s order in
      let groups = cells nx alg config s [] edges in
      let loop : (if has_multi_endpoint edges
            then err Error.multi_endpoint
            else for_each (allocate_cell nx alg config tag_width g order) groups s)
          ≡ ok t =
        rw sorted at run in
      elim (Bool-cases (has_multi_endpoint edges)) [
        | inl multi ↦
            let refused : err Error.multi_endpoint ≡ ok t = rw multi at loop in
            absurd (ground arith)
        | inr single ↦
            let apart = has_multi_endpoint-AllApart edges single in
            let good =
              for_each-IsGood g order groups s t (rw single at loop)
                (cells-AllApart nx alg config s edges [] apart tt (
                  All-imp (λ x. Has (λ y. y ≡ x) edges) (λ x. Unit) edges (λ x h. tt)
                    (All-self edges)))
                (cells-All nx alg config (λ x. Reaches nx g x.0 x.1) s edges []
                  (tagged_edges-Reaches s order (nodes s.graph)) tt) in
            let filed = cells-IsFiled nx alg config s edges [] in
            let is_filed = λ (x : Edge). IsFiled (cell_of nx alg config s x) x groups in
            let one_cell : cell_of nx alg config s f ≡ cell_of nx alg config s e =
              same_cell-eq (cell_of nx alg config s e) (cell_of nx alg config s f) same in
            filed-IsGood g t (cell_of nx alg config s e) e f groups
              (Has-at is_filed edges e filed at_e)
              (subst (λ c. IsFiled c f groups) one_cell (Has-at is_filed edges f filed at_f)) good
      ]

  -- In the graph of the pass, where consecutive descriptors of a resource have an edge, two
  -- dependencies of one cell that share a tag are one, or the producer of one of them comes after the
  -- consumer of the other.
  pub dep_tags-ordered :
      (s t : Dfg Graph) (order : List ℕ) (e f : Edge)
      → descriptor_order nx alg config s config.chiplet_ids ≡ ok order
      → bingo_transform_dfg_allocate_dep_tags nx alg config tag_width s ≡ ok t
      → Has (λ x. x ≡ e) (tagged_edges nx alg config s (nodes s.graph))
      → Has (λ x. x ≡ f) (tagged_edges nx alg config s (nodes s.graph))
      → same_cell (cell_of nx alg config s e) (cell_of nx alg config s f) ≡ true
      → set_tag t e ≡ set_tag t f
      → let g = happens_before nx alg config s order in
        (e ≡ f) ⊎ (Reaches nx g e.1 f.0 ⊎ Reaches nx g f.1 e.0)
  dep_tags-ordered s t order e f sorted run at_e at_f same tags =
      (dep_tags-IsGood s t order e f sorted run at_e at_f same).2 tags

  -- When the pass raises nothing, the set and the check of a dependency have the same tag, and it fits
  -- the width.
  pub dep_tags-agree :
      (s t : Dfg Graph) (e : Edge)
      → bingo_transform_dfg_allocate_dep_tags nx alg config tag_width s ≡ ok t
      → Has (λ x. x ≡ e) (tagged_edges nx alg config s (nodes s.graph))
      → (set_tag t e ≡ check_tag t e) × (set_tag t e < 2 ^ tag_width)
  unfolding bingo_transform_dfg_allocate_dep_tags
  dep_tags-agree s t e run at_e =
      let (order, sorted, rest) =
        >>=-eq-ok (descriptor_order nx alg config s config.chiplet_ids) _ {b = t} run in
      let good =
        dep_tags-IsGood s t order e e sorted run at_e at_e
          (same_cell_refl (cell_of nx alg config s e)) in
      (good.0, good.1)
