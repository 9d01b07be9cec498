-- ===== src/Schedule/Sorting.antt =====
-- `sorted` and `list.sort`: stable insertion sorts, by a key and on pairs.
use he_mai_a.Prelude.{
  ℕ, ◌≡◌, refl, Bool, true, false, ◌&&◌, ◌||◌, List, [], ◌∷◌, arith, ltb, ◌==◌, if◌then◌else◌,
}
use he_mai_a.Prelude.Members.{contains, IsDistinct}

-- (cluster, core)
abbrev pub Resource : Type 0
Resource = ℕ × ℕ

abbrev pub same_resource : Resource → Resource → Bool
same_resource (cluster, core) (cluster', core') = cluster == cluster' && core == core'

-- Python's order of tuples.
abbrev before_resource : Resource → Resource → Bool
before_resource (cluster, core) (cluster', core') =
    ltb cluster cluster' || (cluster == cluster' && ltb core core')

-- One resource into a sorted list without repetitions.
insert_resource : Resource → List Resource → List Resource
insert_resource r [] = r ∷ []
insert_resource r (q ∷ qs) =
    if same_resource r q
    then q ∷ qs
    else (if before_resource r q then r ∷ q ∷ qs else q ∷ insert_resource r qs)

-- sorted({…})
unfoldable pub sorted_resources : List Resource → List Resource
unfolding insert_resource
sorted_resources [] = []
sorted_resources (r ∷ rs) = insert_resource r (sorted_resources rs)

abbrev pub contains_resource : List Resource → Resource → Bool
contains_resource [] r = false
contains_resource (q ∷ qs) r = same_resource q r || contains_resource qs r

-- Behind the items whose key is not larger.
insert_by : (ℕ → ℕ) → ℕ → List ℕ → List ℕ
insert_by key x [] = x ∷ []
insert_by key x (y ∷ ys) = if ltb (key x) (key y) then x ∷ y ∷ ys else y ∷ insert_by key x ys

sort_onto : (ℕ → ℕ) → List ℕ → List ℕ → List ℕ
sort_onto key sorted [] = sorted
sort_onto key sorted (x ∷ xs) = sort_onto key (insert_by key x sorted) xs

-- xs.sort(key=key)
unfoldable pub sort_by : (ℕ → ℕ) → List ℕ → List ℕ
unfolding insert_by sort_onto
sort_by key xs = sort_onto key [] xs

contains-insert_by :
    (key : ℕ → ℕ) (x : ℕ) (ys : List ℕ) (a : ℕ)
    → contains (insert_by key x ys) a ≡ x == a || contains ys a
unfolding insert_by
contains-insert_by key x [] a = refl
contains-insert_by key x (y ∷ ys) a = ground (arith, contains-insert_by key x ys a)

contains-sort_onto :
    (key : ℕ → ℕ) (sorted xs : List ℕ) (a : ℕ)
    → contains (sort_onto key sorted xs) a ≡ contains sorted a || contains xs a
unfolding sort_onto
contains-sort_onto key sorted [] a = ground arith
contains-sort_onto key sorted (x ∷ xs) a =
    ground (
      arith,
      contains-sort_onto key (insert_by key x sorted) xs a,
      contains-insert_by key x sorted a,
    )

pub contains-sort_by :
    (key : ℕ → ℕ) (xs : List ℕ) (a : ℕ) → contains (sort_by key xs) a ≡ contains xs a
unfolding sort_by sort_onto
contains-sort_by key xs a = contains-sort_onto key [] xs a

insert_by-IsDistinct :
    (key : ℕ → ℕ) (x : ℕ) (ys : List ℕ)
    → contains ys x ≡ false
    → IsDistinct ys
    → IsDistinct (insert_by key x ys)
unfolding insert_by
insert_by-IsDistinct key x [] new h = (refl, tt)
insert_by-IsDistinct key x (y ∷ ys) new h =
    ground (arith, insert_by-IsDistinct key x ys, contains-insert_by key x ys y)

sort_onto-IsDistinct :
    (key : ℕ → ℕ) (sorted xs : List ℕ)
    → IsDistinct sorted
    → IsDistinct xs
    → ((a : ℕ) → contains sorted a ≡ true → contains xs a ≡ false)
    → IsDistinct (sort_onto key sorted xs)
unfolding sort_onto
sort_onto-IsDistinct key sorted [] h k apart = h
sort_onto-IsDistinct key sorted (x ∷ xs) h k apart =
    sort_onto-IsDistinct key (insert_by key x sorted) xs
      (insert_by-IsDistinct key x sorted (ground (arith, apart x)) h) k.1
      (λ a. ground (arith, contains-insert_by key x sorted a, apart a, k.0))

pub sort_by-IsDistinct : (key : ℕ → ℕ) (xs : List ℕ) → IsDistinct xs → IsDistinct (sort_by key xs)
unfolding sort_by sort_onto
sort_by-IsDistinct key xs h = sort_onto-IsDistinct key [] xs tt h (λ a none. cc)

contains-insert_resource :
    (r : Resource) (qs : List Resource) (a : Resource)
    → contains_resource (insert_resource r qs) a ≡ same_resource r a || contains_resource qs a
unfolding insert_resource
contains-insert_resource r [] a = refl
contains-insert_resource r (q ∷ qs) a = ground (arith, contains-insert_resource r qs a)

pub contains-sorted_resources :
    (rs : List Resource) (a : Resource)
    → contains_resource (sorted_resources rs) a ≡ contains_resource rs a
unfolding sorted_resources
contains-sorted_resources [] a = refl
contains-sorted_resources (r ∷ rs) a =
    ground
      (arith, contains-insert_resource r (sorted_resources rs) a, contains-sorted_resources rs a)
