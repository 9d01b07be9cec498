-- ===== src/Dfg/Tags/Apart.antt =====
-- What the check for sets and checks with several edges leaves, and what lists of edges have in common
-- with their parts.
use he_mai_a.Prelude.{
  ℕ, zero, suc, ◌<◌, ◌≡◌, Bool, false, ◌||◌, List, [], ◌∷◌, ◌++◌, arith, ◌==◌, leb, All, All-imp,
  All-self, Has, Has-elim, Has-All, length, get_or, keep_if, any, subst,
}
use he_mai_a.Dfg.Tags.{Edge, sort_edges, has_multi_endpoint}
use he_mai_a.Dfg.Tags.Written.{IsApart, AllApart}
use he_mai_a.Dfg.Tags.Adds.{sort_edges-Has}

pub Has-at : (P : Edge → Type 0) (xs : List Edge) (e : Edge) → All P xs → Has (λ f. f ≡ e) xs → P e
Has-at P xs e h at =
    Has-elim (λ f. P f × (f ≡ e)) xs (λ f (p, same). subst P same p)
      (Has-All P (λ f. f ≡ e) xs h at)

pub unsorted-All :
    (P : Edge → Type 0) (order : List ℕ) (es : List Edge) → All P (sort_edges order es) → All P es
unsorted-All P order es h =
    All-imp (λ e. Has (λ f. f ≡ e) es) P es
      (λ e at. Has-at P (sort_edges order es) e h (sort_edges-Has (λ f. f ≡ e) order es at))
      (All-self es)

pub get_or-All :
    (P : Edge → Type 0) (xs : List Edge) (k : ℕ) → k < length xs → All P xs → P (get_or xs k (0, 0))
get_or-All P [] k low h = absurd (omega arith)
get_or-All P (x ∷ xs) zero low h = h.0
get_or-All P (x ∷ xs) (suc k) low h = get_or-All P xs k (omega arith) h.1

pub append-All : (P : Edge → Type 0) (xs ys : List Edge) → All P (xs ++ ys) → All P xs × All P ys
append-All P [] ys h = (tt, h)
append-All P (x ∷ xs) ys h = let (first, rest) = append-All P xs ys h.1 in ((h.0, first), rest)

pub append-AllApart :
    (xs ys : List Edge)
    → AllApart (xs ++ ys)
    → AllApart xs × AllApart ys × All (λ x. All (IsApart x) ys) xs
append-AllApart [] ys h = (tt, h, tt)
append-AllApart (x ∷ xs) ys h =
    let (own, rest, far) = append-AllApart xs ys h.1 in
    let (near, away) = append-All (IsApart x) xs ys h.0 in ((near, own), rest, (away, far))

-- How many of the edges have the set, and the check.
abbrev sets_at : ℕ → List Edge → ℕ
sets_at p es = length (keep_if (λ (a, b). a == p) es)

abbrev checks_at : ℕ → List Edge → ℕ
checks_at q es = length (keep_if (λ (a, b). b == q) es)

none_at-All :
    (p q : ℕ) (es : List Edge) → sets_at p es ≡ 0 → checks_at q es ≡ 0 → All (IsApart (p, q)) es
none_at-All p q [] h k = tt
none_at-All p q ((a, b) ∷ es) h k = ground (arith, none_at-All p q es)

few-AllApart :
    (es : List Edge) → All (λ (p, q). (sets_at p es < 2) × (checks_at q es < 2)) es → AllApart es
few-AllApart [] h = tt
few-AllApart ((p, q) ∷ es) h = (
  none_at-All p q es (ground (arith, h.0)) (ground (arith, h.0)),
  few-AllApart es (
      All-imp (λ (a, b). (sets_at a ((p, q) ∷ es) < 2) × (checks_at b ((p, q) ∷ es) < 2))
        (λ (a, b). (sets_at a es < 2) × (checks_at b es < 2)) es (λ (a, b) k. ground (arith, k))
        h.1),
)

any-All : (p : Edge → Bool) (es : List Edge) → any p es ≡ false → All (λ e. p e ≡ false) es
any-All p [] h = tt
any-All p (e ∷ es) h = ground (arith, any-All p es)

pub has_multi_endpoint-AllApart : (es : List Edge) → has_multi_endpoint es ≡ false → AllApart es
has_multi_endpoint-AllApart es h = few-AllApart es (
    All-imp (λ (p, q). leb 2 (sets_at p es) || leb 2 (checks_at q es) ≡ false)
      (λ (p, q). (sets_at p es < 2) × (checks_at q es < 2)) es (λ (p, q) k. ground arith)
      (any-All (λ (p, q). leb 2 (sets_at p es) || leb 2 (checks_at q es)) es h))
