-- ===== src/Dfg/Tags/Written.antt =====
-- The tags that the edges of a cell carry when they have been written. Two edges that have neither the
-- set nor the check in common are apart.
use he_mai_a.Prelude.{
  ℕ, suc, ◌+◌, ◌<◌, ◌≡◌, refl, false, some, List, [], ◌∷◌, arith, ◌==◌, Error, All-imp, err,
  Option-cases, inl, inr, All, get_or, length, ok, ◌∙◌, sym, ap,
}
use he_mai_a.Dfg.{Dfg}
use he_mai_a.Dfg.Resources.{lookup}
use he_mai_a.Dfg.Tags.{Edge, tag_edge, tag_edges}

abbrev pub IsApart : Edge → Edge → Type 0
IsApart (a, b) (p, q) = ((a == p) ≡ false) × ((b == q) ≡ false)

pub IsApart-sym : (e f : Edge) → IsApart e f → IsApart f e
IsApart-sym (a, b) (p, q) h = ground (arith, h.0, h.1)

abbrev pub AllApart : List Edge → Type 0
AllApart [] = Unit
AllApart (e ∷ es) = All (IsApart e) es × AllApart es

module _ {G : Type 0} where
  abbrev pub set_tag : Dfg G → Edge → ℕ
  set_tag s (p, q) = (s.heap p).dep_set_tag

  abbrev pub check_tag : Dfg G → Edge → ℕ
  check_tag s (p, q) = (s.heap q).dep_check_tag

  -- The edge has the same tags in both states.
  abbrev pub IsKept : Dfg G → Dfg G → Edge → Type 0
  IsKept s t e = (set_tag t e ≡ set_tag s e) × (check_tag t e ≡ check_tag s e)

  tag_edge-own :
      (e : Edge) (tag : ℕ) (s : Dfg G)
      → (set_tag (tag_edge e tag s) e ≡ tag) × (check_tag (tag_edge e tag s) e ≡ tag)
  tag_edge-own (p, q) tag s = ground arith

  tag_edge-IsKept :
      (e : Edge) (tag : ℕ) (s : Dfg G) (f : Edge) → IsApart e f → IsKept s (tag_edge e tag s) f
  tag_edge-IsKept (p, q) tag s (a, b) h = ground (arith, h.0, h.1)

  tag_edges-first :
      (tags : List (ℕ × ℕ)) (index : ℕ) (x : Edge) (es : List Edge) (s t : Dfg G)
      → tag_edges tags index (x ∷ es) s ≡ ok t
      → (tag : ℕ) × (lookup tags index ≡ some tag)
        × (tag_edges tags (index + 1) es (tag_edge x tag s) ≡ ok t)
  unfolding tag_edges
  tag_edges-first tags index x es s t e = elim (Option-cases (lookup tags index)) [
    | inl missing ↦
        let refused : err Error.missing_tag ≡ ok t = rw (tag_edges, missing) at e in
        absurd (ground arith)
    | inr (tag, found) ↦ (tag, found, rw (tag_edges, found) at e)
  ]

  pub tag_edges-IsKept :
      (tags : List (ℕ × ℕ)) (index : ℕ) (es : List Edge) (s t : Dfg G) (f : Edge)
      → tag_edges tags index es s ≡ ok t
      → All (λ e. IsApart e f) es
      → IsKept s t f
  unfolding tag_edges
  tag_edges-IsKept tags index [] s t f e h = let same : s ≡ t = ground arith in rw same (refl, refl)
  tag_edges-IsKept tags index (x ∷ es) s t f e h =
      let (tag, found, rest) = tag_edges-first tags index x es s t e in
      let one = tag_edge-IsKept x tag s f h.0 in
      let others = tag_edges-IsKept tags (index + 1) es (tag_edge x tag s) t f rest h.1 in
      (others.0 ∙ one.0, others.1 ∙ one.1)

  -- The edge at an index carries the tag that the index has.
  abbrev pub IsTaggedBy : List (ℕ × ℕ) → Dfg G → ℕ → Edge → Type 0
  IsTaggedBy tags t index e =
      (lookup tags index ≡ some (set_tag t e)) × (check_tag t e ≡ set_tag t e)

  -- Where an edge of the list is, with its tag.
  abbrev pub IsFound : List (ℕ × ℕ) → Dfg G → ℕ → List Edge → Edge → Type 0
  IsFound tags t index es e =
      (k : ℕ) × (k < length es) × (get_or es k (0, 0) ≡ e) × IsTaggedBy tags t (index + k) e

  pub tag_edges-IsFound :
      (tags : List (ℕ × ℕ)) (index : ℕ) (es : List Edge) (s t : Dfg G)
      → tag_edges tags index es s ≡ ok t
      → AllApart es
      → All (IsFound tags t index es) es
  tag_edges-IsFound tags index [] s t e h = tt
  tag_edges-IsFound tags index (x ∷ es) s t e h =
      let (tag, found, rest) = tag_edges-first tags index x es s t e in
      let own = tag_edge-own x tag s in
      let kept =
        tag_edges-IsKept tags (index + 1) es (tag_edge x tag s) t x rest
          (All-imp (IsApart x) (λ f. IsApart f x) es (IsApart-sym x) h.0) in
      let set_own : set_tag t x ≡ tag = kept.0 ∙ own.0 in
      let check_own : check_tag t x ≡ tag = kept.1 ∙ own.1 in
      let here : lookup tags (index + 0) ≡ some (set_tag t x) =
        ap (lookup tags) (omega arith) ∙ (found ∙ ap some (sym set_own)) in
      (
        (0, omega arith, refl, (here, check_own ∙ sym set_own)),
        All-imp (IsFound tags t (index + 1) es) (IsFound tags t index (x ∷ es)) es
            (λ f (k, low, at, (look, same)).
              (suc k, omega arith, at, (ap (lookup tags) (omega arith) ∙ look, same)))
            (tag_edges-IsFound tags (index + 1) es (tag_edge x tag s) t rest h.1),
      )
