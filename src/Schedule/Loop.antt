-- ===== src/Schedule/Loop.antt =====
-- The rounds of the loop: it ends with nothing ready, or after a round for each node.
use native.Mathlib.Nat.{add-mod-mod, mod-eq_of_lt, mod-lt, add-mul-mod_self_right, div-add-mod'}
use he_mai_a.Prelude.{
  ℕ, zero, suc, ◌+◌, ◌-◌, ◌*◌, ◌/◌, ◌%◌, ◌<◌, ◌≡◌, refl, ap, ◌∙◌, true, false, not, none, some,
  List, [], ◌∷◌, map, any, arith, length, get_or, Bool-cases, ◌⊎◌, inl, inr, length-append,
}
use he_mai_a.Prelude.Members.{contains, IsDistinct}
use he_mai_a.Node.{BingoNode}
use he_mai_a.Schedule.{
  Progress, is_empty, resource, ready_at, resources, choose, any_ready, release, taken, run,
}
use he_mai_a.Schedule.Sorting.{
  Resource, same_resource, contains_resource, contains-sorted_resources,
}
use he_mai_a.Schedule.Invariant.{Inv, release-Inv, result-release, taken-Inv}
use he_mai_a.Schedule.Rounds.{IsNext, Blank, choose-Found}

module _ (successors : ℕ → List ℕ) (node : ℕ → BingoNode) (local : List ℕ) where
  get_or-resource :
      (rs : List Resource) (r : Resource)
      → contains_resource rs r ≡ true
      → (i : ℕ) × (i < length rs) × (same_resource (get_or rs i (0, 0)) r ≡ true)
  get_or-resource [] r h = cc
  get_or-resource (q ∷ rs) r h = elim (Bool-cases (same_resource q r)) [
    | inl e ↦ (0, omega arith, e)
    | inr e ↦ let (i, lt, same) = get_or-resource rs r (ground arith) in (suc i, omega arith, same)
  ]

  -- Every index is met by a whole turn of the scan.
  whole_turn : (start i n : ℕ) → i < n → (j : ℕ) × (j < n) × ((start + j) % n ≡ i)
  whole_turn start i n h = (
    (i + (n - start % n)) % n,
    mod-lt _ (omega arith),
    add-mod-mod start (i + (n - start % n)) n
        ∙ ap (λ (t : ℕ). t % n) (whole start i n h)
        ∙ add-mul-mod_self_right i (start / n + 1) n
        ∙ mod-eq_of_lt h,
  )
    where
      whole : (start i n : ℕ) → i < n → start + (i + (n - start % n)) ≡ i + (start / n + 1) * n
      whole start i n h = omega (arith, div-add-mod' start n, mod-lt start {m = n} (omega arith))

  contains_resource-map :
      (ns : List ℕ) (v : ℕ)
      → contains ns v ≡ true
      → contains_resource (map (resource successors node) ns) (resource successors node v) ≡ true
  contains_resource-map [] v h = cc
  contains_resource-map (n ∷ ns) v h = ground (arith, contains_resource-map ns v)

  same_resource-eq : (q r : Resource) → same_resource q r ≡ true → q ≡ r
  same_resource-eq q r h = λ i. (cluster i, core i)
    where
      cluster : q.0 ≡ r.0
      cluster = ground arith

      core : q.1 ≡ r.1
      core = ground arith

  -- No node is ready.
  abbrev pub IsQuiet : Progress → Type 0
  IsQuiet p = (v : ℕ) → contains local v ≡ true → p.ready (resource successors node v) ≡ []

  resources-have :
      (v : ℕ)
      → contains local v ≡ true
      → contains_resource (resources successors node local) (resource successors node v) ≡ true
  unfolding resources
  resources-have v m =
      contains-sorted_resources (map (resource successors node) local) (resource successors node v)
      ∙ contains_resource-map local v m

  is_empty→nil : (xs : List ℕ) → is_empty xs ≡ true → xs ≡ []
  is_empty→nil [] h = refl
  is_empty→nil (x ∷ xs) h = cc

  none_of_any :
      (f : Resource → List ℕ) (rs : List Resource) (r : Resource)
      → any (λ q. not (is_empty (f q))) rs ≡ false
      → contains_resource rs r ≡ true
      → f r ≡ []
  none_of_any f [] r absent m = cc
  none_of_any f (q ∷ rs) r absent m = elim (Bool-cases (same_resource q r)) [
    | inl same ↦ rw (← same_resource-eq q r same) (is_empty→nil (f q) (ground arith))
    | inr other ↦ none_of_any f rs r (ground arith) (ground arith)
  ]

  any_ready-IsQuiet : (p : Progress) → any_ready successors node local p ≡ false → IsQuiet p
  unfolding any_ready
  any_ready-IsQuiet p absent v m = none_of_any p.ready _ _ absent (resources-have v m)

  Blank-IsQuiet :
      (p : Progress)
      → Blank successors node local p 0 (length (resources successors node local))
      → IsQuiet p
  unfolding ready_at
  Blank-IsQuiet p blank v m =
      let (i, lt, same) = get_or-resource _ (resource successors node v) (resources-have v m) in
      let (j, within, turn) = whole_turn p.start i _ lt in
      rw (← same_resource-eq _ (resource successors node v) same)
        (rw turn at (blank j (omega arith) (omega arith)))

  -- The loop ends with nothing ready, or has emitted a node in every round.
  abbrev pub Ends : ℕ → Progress → Progress → Type 0
  Ends rounds p q =
      Inv successors node local q [] × (IsQuiet q ⊎ (length q.result ≡ length p.result + rounds))

  module _ (rounds : ℕ) (p : Progress) where
    run_stop :
        any_ready successors node local p ≡ false → run successors node local (suc rounds) p ≡ p
    unfolding run
    run_stop e = rw (e, run)

    run_nothing :
        any_ready successors node local p ≡ true
        → choose successors node local p (length (resources successors node local)) 0 ≡ none
        → run successors node local (suc rounds) p ≡ p
    unfolding run
    run_nothing e f = rw (e, f, run)

    run_round :
        (c : ℕ × ℕ × List ℕ)
        → any_ready successors node local p ≡ true
        → choose successors node local p (length (resources successors node local)) 0 ≡ some c
        → run successors node local (suc rounds) p
          ≡ run successors node local rounds
              (release successors node local (taken successors node local p c) (successors c.1))
    unfolding run
    run_round c e f = rw (e, f, run)

  module _ (d : IsDistinct local) where
    one_round :
        (p : Progress) (left : ℕ) (c : ℕ × ℕ × List ℕ)
        → Inv successors node local p []
        → IsNext successors node local p left 0 c
        → Inv successors node local
            (release successors node local (taken successors node local p c) (successors c.1))
            []
    one_round p left c h next =
        release-Inv successors node local (taken successors node local p c) (successors c.1)
          (taken-Inv successors node local p c.0 c.1 c.2 h d next.head)

    round-length :
        (p : Progress) (c : ℕ × ℕ × List ℕ)
        → length
            (release successors node local
              (taken successors node local p c)
              (successors c.1)).result
          ≡ length p.result + 1
    unfolding taken
    round-length p c =
        ap length
          (result-release successors node local (taken successors node local p c) (successors c.1))
        ∙ length-append p.result (c.1 ∷ [])

    longer :
        (rounds : ℕ) (p : Progress) (c : ℕ × ℕ × List ℕ) {q : Progress}
        → Ends rounds
            (release successors node local (taken successors node local p c) (successors c.1))
            q
        → Ends (suc rounds) p q
    longer rounds p c (h, inl quiet) = (h, inl quiet)
    longer rounds p c (h, inr e) = (h, inr (omega (arith, round-length p c)))

    pub run-Ends :
        (rounds : ℕ) (p : Progress)
        → Inv successors node local p []
        → Ends rounds p (run successors node local rounds p)
    run-Ends zero p h = unfold run in (h, inr (omega arith))
    run-Ends (suc rounds) p h = elim (Bool-cases (any_ready successors node local p)) [
      | inr absent ↦ rw (run_stop rounds p absent) (h, inl (any_ready-IsQuiet p absent))
      | inl present ↦
          elim (choose-Found successors node local p (length (resources successors node local)) 0) [
            | inl (nothing, blank) ↦
                rw (run_nothing rounds p present nothing) (h, inl (Blank-IsQuiet p blank))
            | inr (c, chosen, next) ↦
                rw (run_round rounds p c present chosen)
                  (longer rounds p c (run-Ends rounds _ (one_round p _ c h next)))
          ]
    ]
