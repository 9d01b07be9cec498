-- ===== src/Dfg/Tags/Adds.antt =====
-- Lists with one more edge somewhere, as sorting and grouping make them.
use he_mai_a.Prelude.{
  ℕ, ◌≡◌, refl, List, [], ◌∷◌, ◌++◌, Bool-cases, inl, inr, ◌⊎◌, All, Has, sym, ap, subst,
}
use he_mai_a.Dfg.Tags.{Edge, is_before, insert_edge, sort_edges}
use he_mai_a.Dfg.Tags.Written.{IsApart, IsApart-sym, AllApart}

-- The list with one more edge somewhere.
abbrev pub Adds : Edge → List Edge → List Edge → Type 0
Adds e xs ys =
    (before : List Edge) × (after : List Edge) × (xs ≡ before ++ after) × (ys ≡ before ++ e ∷ after)

pub Adds-head : (e : Edge) (xs : List Edge) → Adds e xs (e ∷ xs)
Adds-head e xs = ([], xs, refl, refl)

pub Adds-cons : (e f : Edge) (xs ys : List Edge) → Adds e xs ys → Adds e (f ∷ xs) (f ∷ ys)
Adds-cons e f xs ys (before, after, old, new) =
    (f ∷ before, after, ap (λ l. f ∷ l) old, ap (λ l. f ∷ l) new)

pub Adds-append : (e : Edge) (zs xs ys : List Edge) → Adds e xs ys → Adds e (zs ++ xs) (zs ++ ys)
Adds-append e [] xs ys h = h
Adds-append e (z ∷ zs) xs ys h = Adds-cons e z (zs ++ xs) (zs ++ ys) (Adds-append e zs xs ys h)

pub All-middle :
    (P : Edge → Type 0) (e : Edge) (before after : List Edge)
    → P e
    → All P (before ++ after)
    → All P (before ++ e ∷ after)
All-middle P e [] after p h = (p, h)
All-middle P e (x ∷ before) after p h = (h.0, All-middle P e before after p h.1)

pub AllApart-middle :
    (e : Edge) (before after : List Edge)
    → All (IsApart e) (before ++ after)
    → AllApart (before ++ after)
    → AllApart (before ++ e ∷ after)
AllApart-middle e [] after h apart = (h, apart)
AllApart-middle e (x ∷ before) after h apart = (
  All-middle (IsApart x) e before after (IsApart-sym e x h.0) apart.0,
  AllApart-middle e before after h.1 apart.1,
)

pub All-Adds :
    (P : Edge → Type 0) (e : Edge) (xs ys : List Edge) → Adds e xs ys → P e → All P xs → All P ys
All-Adds P e xs ys (before, after, old, new) p h =
    subst (All P) (sym new) (All-middle P e before after p (subst (All P) old h))

pub AllApart-Adds :
    (e : Edge) (xs ys : List Edge) → Adds e xs ys → All (IsApart e) xs → AllApart xs → AllApart ys
AllApart-Adds e xs ys (before, after, old, new) h apart =
    subst AllApart (sym new)
      (AllApart-middle e before after (subst (All (IsApart e)) old h) (subst AllApart old apart))

pub insert_edge-Adds :
    (order : List ℕ) (e : Edge) (fs : List Edge) → Adds e fs (insert_edge order e fs)
unfolding insert_edge
insert_edge-Adds order e [] = Adds-head e []
insert_edge-Adds order e (f ∷ fs) = elim (Bool-cases (is_before order f e)) [
  | inl c ↦ rw c (Adds-cons e f fs (insert_edge order e fs) (insert_edge-Adds order e fs))
  | inr c ↦ rw c (Adds-head e (f ∷ fs))
]

pub sort_edges-All :
    (P : Edge → Type 0) (order : List ℕ) (es : List Edge) → All P es → All P (sort_edges order es)
unfolding sort_edges
sort_edges-All P order [] h = tt
sort_edges-All P order (e ∷ es) h =
    All-Adds P e (sort_edges order es) (insert_edge order e (sort_edges order es))
      (insert_edge-Adds order e (sort_edges order es)) h.0 (sort_edges-All P order es h.1)

pub sort_edges-AllApart :
    (order : List ℕ) (es : List Edge) → AllApart es → AllApart (sort_edges order es)
unfolding sort_edges
sort_edges-AllApart order [] h = tt
sort_edges-AllApart order (e ∷ es) h =
    AllApart-Adds e (sort_edges order es) (insert_edge order e (sort_edges order es))
      (insert_edge-Adds order e (sort_edges order es)) (sort_edges-All (IsApart e) order es h.0)
      (sort_edges-AllApart order es h.1)

pub Has-middle :
    (P : Edge → Type 0) (e : Edge) (before after : List Edge) → P e → Has P (before ++ e ∷ after)
Has-middle P e [] after p = inl p
Has-middle P e (x ∷ before) after p = inr (Has-middle P e before after p)

pub Has-around :
    (P : Edge → Type 0) (e : Edge) (before after : List Edge)
    → Has P (before ++ after)
    → Has P (before ++ e ∷ after)
Has-around P e [] after h = inr h
Has-around P e (x ∷ before) after (inl p) = inl p
Has-around P e (x ∷ before) after (inr h) = inr (Has-around P e before after h)

pub Has-Adds :
    (P : Edge → Type 0) (e : Edge) (xs ys : List Edge) → Adds e xs ys → P e ⊎ Has P xs → Has P ys
Has-Adds P e xs ys (before, after, old, new) (inl p) =
    subst (Has P) (sym new) (Has-middle P e before after p)
Has-Adds P e xs ys (before, after, old, new) (inr h) =
    subst (Has P) (sym new) (Has-around P e before after (subst (Has P) old h))

pub sort_edges-Has :
    (P : Edge → Type 0) (order : List ℕ) (es : List Edge) → Has P es → Has P (sort_edges order es)
unfolding sort_edges
sort_edges-Has P order [] h = absurd h
sort_edges-Has P order (e ∷ es) (inl p) =
    Has-Adds P e (sort_edges order es) (insert_edge order e (sort_edges order es))
      (insert_edge-Adds order e (sort_edges order es)) (inl p)
sort_edges-Has P order (e ∷ es) (inr h) =
    Has-Adds P e (sort_edges order es) (insert_edge order e (sort_edges order es))
      (insert_edge-Adds order e (sort_edges order es)) (inr (sort_edges-Has P order es h))
