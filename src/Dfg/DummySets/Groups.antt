-- ===== src/Dfg/DummySets/Groups.antt =====
-- The grouping of remote successors by core, and the choice of local targets, as lists of distinct nodes.
use he_mai_a.Prelude.{
  ℕ, zero, suc, ◌+◌, ◌-◌, ◌≤◌, ◌≡◌, refl, Bool, true, false, not, ◌||◌, List, [], ◌∷◌, ◌++◌, arith,
  ◌==◌, length, length-append, keep_if, take,
}
use he_mai_a.Prelude.Members.{
  contains, IsDistinct, contains-append, contains-keep_if, keep_if-IsDistinct,
}
use he_mai_a.Dfg.DummySets.{add_to_group, group_by}

-- The nodes of all groups.
abbrev pub members : List (ℕ × List ℕ) → List ℕ
members [] = []
members ((k, group) ∷ rest) = group ++ members rest

append-assoc_one :
    (xs ys : List ℕ) (r a : ℕ) → contains ((xs ++ r ∷ []) ++ ys) a ≡ contains (xs ++ ys) a || r == a
append-assoc_one [] ys r a = ground arith
append-assoc_one (x ∷ xs) ys r a = ground (arith, append-assoc_one xs ys r a)

insert-IsDistinct :
    (xs ys : List ℕ) (r : ℕ)
    → IsDistinct (xs ++ ys)
    → contains (xs ++ ys) r ≡ false
    → IsDistinct ((xs ++ r ∷ []) ++ ys)
insert-IsDistinct [] ys r d n = (n, d)
insert-IsDistinct (x ∷ xs) ys r d n =
    (ground (arith, append-assoc_one xs ys r x), insert-IsDistinct xs ys r d.1 (ground arith))

pub append-IsDistinct :
    (xs ys : List ℕ)
    → IsDistinct xs
    → IsDistinct ys
    → ((a : ℕ) → contains xs a ≡ true → contains ys a ≡ false)
    → IsDistinct (xs ++ ys)
append-IsDistinct [] ys dx dy apart = dy
append-IsDistinct (x ∷ xs) ys dx dy apart = (
  ground (arith, contains-append xs ys x, apart x, dx.0),
  append-IsDistinct xs ys dx.1 dy (λ a m. apart a (ground arith)),
)

pub append_left-IsDistinct : (xs ys : List ℕ) → IsDistinct (xs ++ ys) → IsDistinct xs
append_left-IsDistinct [] ys d = tt
append_left-IsDistinct (x ∷ xs) ys d =
    (ground (arith, contains-append xs ys x, d.0), append_left-IsDistinct xs ys d.1)

pub append_right-IsDistinct : (xs ys : List ℕ) → IsDistinct (xs ++ ys) → IsDistinct ys
append_right-IsDistinct [] ys d = d
append_right-IsDistinct (x ∷ xs) ys d = append_right-IsDistinct xs ys d.1

pub append_apart :
    (xs ys : List ℕ) (a : ℕ) → IsDistinct (xs ++ ys) → contains xs a ≡ true → contains ys a ≡ false
append_apart [] ys a d m = absurd (ground arith)
append_apart (x ∷ xs) ys a d m =
    ground (arith, append_apart xs ys a d.1, contains-append xs ys x, d.0)

contains-add_to_group :
    (k r : ℕ) (gs : List (ℕ × List ℕ)) (a : ℕ)
    → contains (members (add_to_group k r gs)) a ≡ contains (members gs) a || r == a
unfolding add_to_group
contains-add_to_group k r [] a = ground arith
contains-add_to_group k r ((c, group) ∷ rest) a = ground (
  arith,
  append-assoc_one group (members rest) r a,
  contains-add_to_group k r rest a,
  contains-append group (members rest) a,
  contains-append group (members (add_to_group k r rest)) a,
)

add_to_group-IsDistinct :
    (k r : ℕ) (gs : List (ℕ × List ℕ))
    → IsDistinct (members gs)
    → contains (members gs) r ≡ false
    → IsDistinct (members (add_to_group k r gs))
unfolding add_to_group
add_to_group-IsDistinct k r [] d n = (refl, tt)
add_to_group-IsDistinct k r ((c, group) ∷ rest) d n =
    let same = insert-IsDistinct group (members rest) r d n in
    let apart : contains (members rest) r ≡ false =
      ground (arith, contains-append group (members rest) r) in
    let other : IsDistinct (group ++ members (add_to_group k r rest)) =
      append-IsDistinct group (members (add_to_group k r rest))
        (append_left-IsDistinct group (members rest) d)
        (add_to_group-IsDistinct k r rest (append_right-IsDistinct group (members rest) d) apart)
        (λ a m. ground (
          arith,
          contains-add_to_group k r rest a,
          append_apart group (members rest) a d m,
          contains-append group (members rest) a,
        )) in
    ground (arith, same, other)

pub contains-group_by :
    (key : ℕ → ℕ) (gs : List (ℕ × List ℕ)) (rs : List ℕ) (a : ℕ)
    → contains (members (group_by key gs rs)) a ≡ contains (members gs) a || contains rs a
unfolding group_by
contains-group_by key gs [] a = ground arith
contains-group_by key gs (r ∷ rs) a = ground (
  arith,
  contains-group_by key (add_to_group (key r) r gs) rs a,
  contains-add_to_group (key r) r gs a,
)

pub group_by-IsDistinct :
    (key : ℕ → ℕ) (gs : List (ℕ × List ℕ)) (rs : List ℕ)
    → IsDistinct (members gs)
    → IsDistinct rs
    → ((a : ℕ) → contains rs a ≡ true → contains (members gs) a ≡ false)
    → IsDistinct (members (group_by key gs rs))
unfolding group_by
group_by-IsDistinct key gs [] d e apart = d
group_by-IsDistinct key gs (r ∷ rs) d e apart =
    group_by-IsDistinct key (add_to_group (key r) r gs) rs
      (add_to_group-IsDistinct (key r) r gs d (apart r (ground arith))) e.1
      (λ a m. ground (arith, contains-add_to_group (key r) r gs a, apart a, e.0))

pub contains-take :
    (n : ℕ) (xs : List ℕ) (a : ℕ) → contains (take n xs) a ≡ true → contains xs a ≡ true
contains-take zero xs a m = absurd (ground arith)
contains-take (suc n) [] a m = m
contains-take (suc n) (x ∷ xs) a m = ground (arith, contains-take n xs a)

pub take-IsDistinct : (n : ℕ) (xs : List ℕ) → IsDistinct xs → IsDistinct (take n xs)
take-IsDistinct zero xs d = tt
take-IsDistinct (suc n) [] d = tt
take-IsDistinct (suc n) (x ∷ xs) d =
    (ground (arith, contains-take n xs x, d.0), take-IsDistinct n xs d.1)

length-take : (n : ℕ) (xs : List ℕ) → n ≤ length xs → length (take n xs) ≡ n
length-take zero xs h = refl
length-take (suc n) [] h = absurd (omega arith)
length-take (suc n) (x ∷ xs) h = omega (arith, length-take n xs)

length-partition :
    (p : ℕ → Bool) (xs : List ℕ)
    → length (keep_if p xs) + length (keep_if (λ x. not (p x)) xs) ≡ length xs
length-partition p [] = refl
length-partition p (x ∷ xs) = ground (arith, length-partition p xs)

-- All but one of the items, those that meet the test first.
module _ (p : ℕ → Bool) (xs : List ℕ) where
  abbrev pub partition : List ℕ
  partition = keep_if p xs ++ keep_if (λ x. not (p x)) xs

  pub all_but_one-length : length (take (length xs - 1) partition) ≡ length xs - 1
  all_but_one-length = length-take (length xs - 1) partition (
      omega
        (arith, length-append (keep_if p xs) (keep_if (λ x. not (p x)) xs), length-partition p xs))

  pub all_but_one-IsDistinct : IsDistinct xs → IsDistinct (take (length xs - 1) partition)
  all_but_one-IsDistinct d = take-IsDistinct (length xs - 1) partition (
      append-IsDistinct (keep_if p xs) (keep_if (λ x. not (p x)) xs) (keep_if-IsDistinct p xs d)
        (keep_if-IsDistinct (λ x. not (p x)) xs d)
        (λ a m. ground (arith, contains-keep_if p xs a, contains-keep_if (λ x. not (p x)) xs a)))

  pub contains-all_but_one :
      (a : ℕ) → contains (take (length xs - 1) partition) a ≡ true → contains xs a ≡ true
  contains-all_but_one a m = ground (
    arith,
    contains-take (length xs - 1) partition a m,
    contains-append (keep_if p xs) (keep_if (λ x. not (p x)) xs) a,
    contains-keep_if p xs a,
    contains-keep_if (λ x. not (p x)) xs a,
  )
