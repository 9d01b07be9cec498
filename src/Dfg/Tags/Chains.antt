-- ===== src/Dfg/Tags/Chains.antt =====
-- The chains of the matching: edges with one tag follow one another.
use he_mai_a.Prelude.{
  ℕ, zero, suc, ◌+◌, ◌<◌, ◌≡◌, Bool, Option, none, some, List, ◌∷◌, arith, ◌==◌, if◌then◌else◌,
  Bool-cases, Option-cases, inl, inr, ◌⊎◌, subst, sym,
}
use he_mai_a.Dfg.Resources.{lookup}
use he_mai_a.Dfg.Tags.{has_predecessor, walk, number_chains}

-- The matching leads from one edge to the other.
pub data Leads (successor : ℕ → Option ℕ) : ℕ → ℕ → Type 0 where
  stay : (i : ℕ) → Leads successor i i
  go : (i k j : ℕ) → successor i ≡ some k → Leads successor k j → Leads successor i j

value_of : Option ℕ → ℕ
value_of none = 0
value_of (some k) = k

module _ (successor : ℕ → Option ℕ) where
  pub Leads-snoc : (i j k : ℕ) → Leads successor i j → successor j ≡ some k → Leads successor i k
  Leads-snoc i j k (stay _) e = go i k k e (stay k)
  Leads-snoc i j k (go _ m _ f rest) e = go i m k f (Leads-snoc m j k rest e)

  -- Of two edges that one edge leads to, one leads to the other.
  pub Leads-either :
      (h i j : ℕ)
      → Leads successor h i
      → Leads successor h j
      → Leads successor i j ⊎ Leads successor j i
  unfolding value_of
  Leads-either h i j (stay _) q = inl q
  Leads-either h i j (go _ k _ e rest) (stay _) = inr (go h k i e rest)
  Leads-either h i j (go _ k _ e rest) (go _ m _ f other) =
      let same : m ≡ k = ground (arith, e, f) in
      Leads-either k i j rest (subst (λ x. Leads successor x j) same other)

  -- All indices with a tag below `n` come from the head of the tag.
  abbrev pub IsHeaded : (ℕ → ℕ) → List (ℕ × ℕ) → ℕ → Type 0
  IsHeaded head tags n = (i t : ℕ) → lookup tags i ≡ some t → (t < n) × Leads successor (head t) i

  abbrev put_head : (ℕ → ℕ) → ℕ → ℕ → ℕ → ℕ
  put_head head n index = λ t. if t == n then index else head t

  tag_one-IsHeaded :
      (head : ℕ → ℕ) (tags : List (ℕ × ℕ)) (tag current : ℕ)
      → IsHeaded head tags (suc tag)
      → Leads successor (head tag) current
      → IsHeaded head ((current, tag) ∷ tags) (suc tag)
  tag_one-IsHeaded head tags tag current h path i t e = elim (Bool-cases (current == i)) [
    | inl same ↦
        let at : current ≡ i = ground arith in
        let own : tag ≡ t = ground arith in
        (
          ground arith,
          subst (λ x. Leads successor (head x) i) own
              (subst (λ x. Leads successor (head tag) x) at path),
        )
    | inr other ↦ h i t (rw other at e)
  ]

  walk-IsHeaded :
      (rounds : ℕ) (head : ℕ → ℕ) (tags : List (ℕ × ℕ)) (tag current : ℕ)
      → IsHeaded head tags (suc tag)
      → Leads successor (head tag) current
      → IsHeaded head (walk rounds successor tag current tags) (suc tag)
  unfolding walk
  walk-IsHeaded zero head tags tag current h path = h
  walk-IsHeaded (suc rounds) head tags tag current h path =
      let one = tag_one-IsHeaded head tags tag current h path in
      elim (Option-cases (successor current)) [
        | inl e ↦ rw (walk, e) one
        | inr (next, e) ↦
            rw (walk, e)
              (walk-IsHeaded rounds head ((current, tag) ∷ tags) tag next one
                (Leads-snoc (head tag) current next path e))
      ]

  widen-IsHeaded :
      (head : ℕ → ℕ) (tags : List (ℕ × ℕ)) (n index : ℕ)
      → IsHeaded head tags n
      → IsHeaded (put_head head n index) tags (suc n)
  widen-IsHeaded head tags n index h i t e =
      let (low, path) = h i t e in
      let other : (t == n) ≡ Bool.false = ground arith in (omega arith, rw other path)

  pub number_chains-IsHeaded :
      (count left index : ℕ) (head : ℕ → ℕ) (tags : List (ℕ × ℕ)) (n : ℕ)
      → IsHeaded head tags n
      → let (tags', n') = number_chains count successor left index (tags, n) in
        (head' : ℕ → ℕ) × IsHeaded head' tags' n'
  unfolding number_chains
  number_chains-IsHeaded count zero index head tags n h = (head, h)
  number_chains-IsHeaded count (suc left) index head tags n h =
      elim (Bool-cases (has_predecessor successor count index)) [
        | inl e ↦
            rw (number_chains, e) (number_chains-IsHeaded count left (index + 1) head tags n h)
        | inr e ↦
            let own : put_head head n index n ≡ index = ground arith in
            let step : suc n ≡ n + 1 = omega arith in
            let tags' = walk count successor n index tags in
            let walked =
              walk-IsHeaded count (put_head head n index) tags n index
                (widen-IsHeaded head tags n index h)
                (subst (λ x. Leads successor x index) (sym own) (stay index)) in
            rw (number_chains, e)
              (number_chains-IsHeaded count left (index + 1) (put_head head n index) tags' (n + 1)
                (subst (IsHeaded (put_head head n index) tags') step walked))
      ]
