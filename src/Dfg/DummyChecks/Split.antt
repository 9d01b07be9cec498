-- ===== src/Dfg/DummyChecks/Split.antt =====
-- Which predecessors the pass leaves: the last one of each group, and the last core of all.
use he_mai_a.Prelude.{
  ℕ, ◌-◌, ◌≤◌, ◌≡◌, refl, Bool, true, false, List, [], ◌∷◌, ◌++◌, arith, leb, ◌==◌, ==_refl,
  if◌then◌else◌, length, take, map, Bool-cases, inl, inr, subst,
}
use he_mai_a.Prelude.Members.{contains, IsDistinct, contains-append}
use he_mai_a.Dfg.DummySets.{add_to_group, group_by}
use he_mai_a.Dfg.DummySets.Groups.{take-IsDistinct, contains-take, members}

-- Two items that are not among all but the last are the last.
pub only_last :
    (xs : List ℕ) (a b : ℕ)
    → contains xs a ≡ true
    → contains xs b ≡ true
    → contains (take (length xs - 1) xs) a ≡ false
    → contains (take (length xs - 1) xs) b ≡ false
    → a ≡ b
only_last [] a b ma mb na nb = absurd (ground arith)
only_last (x ∷ []) a b ma mb na nb = ground arith
only_last (x ∷ y ∷ ys) a b ma mb na nb =
    only_last (y ∷ ys) a b (ground arith) (ground arith) (ground arith) (ground arith)

-- Of one item or none, two are the same.
pub only_one :
    (xs : List ℕ) (a b : ℕ) → length xs ≤ 1 → contains xs a ≡ true → contains xs b ≡ true → a ≡ b
only_one [] a b h ma mb = absurd (ground arith)
only_one (x ∷ []) a b h ma mb = ground arith
only_one (x ∷ y ∷ ys) a b h ma mb = absurd (omega arith)

-- Distinct items that are all the same are one at most.
pub length-le_one :
    (xs : List ℕ)
    → IsDistinct xs
    → ((a b : ℕ) → contains xs a ≡ true → contains xs b ≡ true → a ≡ b)
    → length xs ≤ 1
length-le_one [] d same = omega arith
length-le_one (x ∷ []) d same = omega arith
length-le_one (x ∷ y ∷ ys) d same =
    let e : x ≡ y = same x y (ground (arith, ==_refl x)) (ground (arith, ==_refl y)) in
    absurd (ground (arith, d.0, e, ==_refl x))

pub contains-map :
    (f : ℕ → ℕ) (xs : List ℕ) (a : ℕ) → contains xs a ≡ true → contains (map f xs) (f a) ≡ true
contains-map f [] a m = absurd (ground arith)
contains-map f (x ∷ xs) a m = elim (Bool-cases (x == a)) [
  | inl e ↦
      let same : x ≡ a = ground arith in
      subst (λ y. contains (map f (x ∷ xs)) (f y) ≡ true) same (ground (arith, ==_refl (f x)))
  | inr e ↦ ground (arith, contains-map f xs a)
]

-- All but the last of each group of two or more.
abbrev pub chosen : List ℕ → List ℕ
chosen group = if leb 2 (length group) then take (length group - 1) group else []

abbrev pub all_chosen : List (ℕ × List ℕ) → List ℕ
all_chosen [] = []
all_chosen ((k, group) ∷ rest) = chosen group ++ all_chosen rest

pub contains-chosen :
    (group : List ℕ) (a : ℕ) → contains (chosen group) a ≡ true → contains group a ≡ true
contains-chosen group a m = ground (arith, contains-take (length group - 1) group a)

pub chosen-IsDistinct : (group : List ℕ) → IsDistinct group → IsDistinct (chosen group)
chosen-IsDistinct group d = elim (Bool-cases (leb 2 (length group))) [
  | inl e ↦ rw e (take-IsDistinct (length group - 1) group d)
  | inr e ↦ rw e tt
]

pub contains-all_chosen :
    (gs : List (ℕ × List ℕ)) (a : ℕ)
    → contains (all_chosen gs) a ≡ true
    → contains (members gs) a ≡ true
contains-all_chosen [] a m = m
contains-all_chosen ((k, group) ∷ rest) a m = ground (
  arith,
  contains-append (chosen group) (all_chosen rest) a,
  contains-append group (members rest) a,
  contains-chosen group a,
  contains-all_chosen rest a,
)

-- The item is in the first group of the key.
abbrev pub is_member : List (ℕ × List ℕ) → ℕ → ℕ → Bool
is_member [] k a = false
is_member ((c, group) ∷ rest) k a =
    let later = is_member rest k a in if c == k then contains group a else later

pub left_is_last :
    (gs : List (ℕ × List ℕ)) (k a b : ℕ)
    → is_member gs k a ≡ true
    → is_member gs k b ≡ true
    → contains (all_chosen gs) a ≡ false
    → contains (all_chosen gs) b ≡ false
    → a ≡ b
left_is_last [] k a b ma mb na nb = absurd (ground arith)
left_is_last ((c, group) ∷ rest) k a b ma mb na nb =
    let at_a = contains-append (chosen group) (all_chosen rest) a in
    let at_b = contains-append (chosen group) (all_chosen rest) b in
    elim (Bool-cases (c == k)) [
      | inl e ↦ elim (Bool-cases (leb 2 (length group))) [
        | inl many ↦
            let whole : chosen group ≡ take (length group - 1) group = rw many refl in
            let out_a : contains (chosen group) a ≡ false = ground arith in
            let out_b : contains (chosen group) b ≡ false = ground arith in
            only_last group a b (ground arith) (ground arith)
              (subst (λ l. contains l a ≡ false) whole out_a)
              (subst (λ l. contains l b ≡ false) whole out_b)
        | inr few ↦ only_one group a b (ground arith) (ground arith) (ground arith)
      ]
      | inr e ↦ left_is_last rest k a b (ground arith) (ground arith) (ground arith) (ground arith)
    ]

grows_member :
    (k r : ℕ) (gs : List (ℕ × List ℕ)) (q a : ℕ)
    → is_member gs q a ≡ true
    → is_member (add_to_group k r gs) q a ≡ true
unfolding add_to_group
grows_member k r [] q a m = absurd (ground arith)
grows_member k r ((c, group) ∷ rest) q a m =
    ground (arith, contains-append group (r ∷ []) a, grows_member k r rest q a)

added_member : (k r : ℕ) (gs : List (ℕ × List ℕ)) → is_member (add_to_group k r gs) k r ≡ true
unfolding add_to_group
added_member k r [] = ground (arith, ==_refl k, ==_refl r)
added_member k r ((c, group) ∷ rest) =
    ground (arith, contains-append group (r ∷ []) r, ==_refl r, added_member k r rest)

member_stays :
    (key : ℕ → ℕ) (rs : List ℕ) (gs : List (ℕ × List ℕ)) (q a : ℕ)
    → is_member gs q a ≡ true
    → is_member (group_by key gs rs) q a ≡ true
unfolding group_by
member_stays key [] gs q a m = m
member_stays key (r ∷ rs) gs q a m =
    member_stays key rs (add_to_group (key r) r gs) q a (grows_member (key r) r gs q a m)

pub in_own_group :
    (key : ℕ → ℕ) (rs : List ℕ) (gs : List (ℕ × List ℕ)) (a : ℕ)
    → contains rs a ≡ true
    → is_member (group_by key gs rs) (key a) a ≡ true
unfolding group_by
in_own_group key [] gs a m = absurd (ground arith)
in_own_group key (r ∷ rs) gs a m = elim (Bool-cases (r == a)) [
  | inl e ↦
      let same : r ≡ a = ground arith in
      subst (λ x. is_member (group_by key (add_to_group (key r) r gs) rs) (key x) x ≡ true) same
        (member_stays key rs (add_to_group (key r) r gs) (key r) r (added_member (key r) r gs))
  | inr e ↦ in_own_group key rs (add_to_group (key r) r gs) a (ground arith)
]
