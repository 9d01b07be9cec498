-- ===== src/Moe/Routing.antt =====
-- moe_routing_cases.py: the expert counts of a routing case, and token pairs that realize them.
pub mod Heap
pub mod Realized
pub mod Experts
pub mod Grouped
pub mod Cases
pub mod Table
mod Samples
use he_mai_a.Prelude.{
  ℕ, zero, suc, ◌+◌, ◌-◌, ◌*◌, ◌/◌, ◌%◌, Bool, true, false, not, ◌&&◌, ◌||◌, Option, none, some,
  List, [], ◌∷◌, ◌++◌, ltb, ◌==◌, if◌then◌else◌, length, Result, ok, err, Error, ◌>>=◌, max,
}
use he_mai_a.Prelude.Members.{contains}

-- [value] * times
abbrev pub replicate {ℓ} : {A : Type ℓ} → ℕ → A → List A
replicate zero value = []
replicate (suc n) value = value ∷ replicate n value

-- range(first, first + count)
abbrev pub range : ℕ → ℕ → List ℕ
range zero first = []
range (suc count) first = first ∷ range count (first + 1)

-- EXPERT_ORDER
abbrev pub expert_order : List ℕ
expert_order = 0 ∷ 63 ∷ range 62 1

abbrev pub index_of : List ℕ → ℕ → ℕ
index_of [] e = 0
index_of (x ∷ xs) e = let later = index_of xs e in if x == e then 0 else later + 1

abbrev pub position : ℕ → ℕ
position eid = index_of expert_order eid

-- rank[eid], which raises KeyError for what is no expert.
pub rank : ℕ → Result ℕ
rank eid = if contains expert_order eid then ok (position eid) else err Error.no_rank

abbrev pub sum : List ℕ → ℕ
sum [] = 0
sum (x ∷ xs) = x + sum xs

-- max(xs, default=0)
abbrev pub largest : List ℕ → ℕ
largest [] = 0
largest (x ∷ xs) = max x (largest xs)

-- An entry of the heap, (-count, rank, eid) in the source.
pub record Item : Type 0 where
  pub count : ℕ
  pub order : ℕ
  pub eid : ℕ

-- The tuples compare by the larger count, then by the smaller rank.
abbrev pub item_before : Item → Item → Bool
item_before x y = ltb y.count x.count || (x.count == y.count && ltb x.order y.order)

-- A heap is the list of its items in the order in which they are popped.
pub push : Item → List Item → List Item
push x [] = x ∷ []
push x (y ∷ ys) = if item_before y x then y ∷ push x ys else x ∷ y ∷ ys

-- One route less, and back onto the heap if there are more.
pub push_rest : Item → List Item → List Item
push_rest x heap = if x.count == 1 then heap else push (record x { count = x.count - 1 }) heap

-- The experts with a count; each must have a rank.
pub heapify : ℕ → List ℕ → Result (List Item)
heapify eid [] = ok []
heapify eid (count ∷ counts) =
    let rest = heapify (eid + 1) counts in
    if count == 0
    then rest
    else rank eid >>= λ order.
        rest >>= λ heap. ok (push (record { count = count; order = order; eid = eid }) heap)

abbrev pub Pair : Type 0
Pair = ℕ × ℕ

-- Each round of the loop takes two routes from the heap; with two routes for each round there are
-- none left when the rounds end.
pub take_pairs : ℕ → List Item → Result (List Pair)
take_pairs zero heap = ok []
take_pairs (suc rounds) [] = ok []
take_pairs (suc rounds) (x ∷ []) = err Error.self_routing
take_pairs (suc rounds) (x ∷ (y ∷ heap)) =
    take_pairs rounds (push_rest y (push_rest x heap)) >>= λ pairs. ok ((x.eid, y.eid) ∷ pairs)

abbrev pub same_pair : Pair → Pair → Bool
same_pair (a, b) (c, d) = a == c && b == d

-- The pairs are of experts from the heap, so that all of them have a rank.
abbrev pub pair_before : Pair → Pair → Bool
pair_before (a, b) (c, d) =
    ltb (position a) (position c) || (position a == position c && ltb (position b) (position d))

-- The histogram of the pairs, in the order of the experts' ranks.
pub add_pair : Pair → List (Pair × ℕ) → List (Pair × ℕ)
add_pair p [] = (p, 1) ∷ []
add_pair p ((q, n) ∷ rest) =
    if same_pair p q
    then (q, suc n) ∷ rest
    else (if pair_before p q then (p, 1) ∷ (q, n) ∷ rest else (q, n) ∷ add_pair p rest)

pub histogram : List Pair → List (Pair × ℕ)
histogram [] = []
histogram (p ∷ ps) = add_pair p (histogram ps)

-- grouped.extend([pair] * histogram[pair])
pub expand : List (Pair × ℕ) → List Pair
expand [] = []
expand ((p, n) ∷ rest) = replicate n p ++ expand rest

pub pair_degrees : List ℕ → Result (List Pair)
pair_degrees expected_counts =
    let total_routes = sum expected_counts in
    let total_tokens = total_routes / 2 in
    if not (total_routes % 2 == 0)
    then err Error.odd_routes
    else (if ltb total_tokens (largest expected_counts)
        then err Error.too_many_routes
        else heapify 0 expected_counts >>= λ heap.
            take_pairs total_tokens heap >>= λ pairs. ok (expand (histogram pairs)))

-- counts.extend([count] * repeat) for each group
pub expand_groups : List (ℕ × ℕ) → List ℕ
expand_groups [] = []
expand_groups ((count, repeat) ∷ groups) = replicate repeat count ++ expand_groups groups

abbrev pub set_at : ℕ → ℕ → List ℕ → List ℕ
set_at i v [] = []
set_at zero v (x ∷ xs) = v ∷ xs
set_at (suc i) v (x ∷ xs) = x ∷ set_at i v xs

-- for eid, count in zip(EXPERT_ORDER, counts): by_eid[eid] = count
pub by_expert : List ℕ → List ℕ → List ℕ → List ℕ
by_expert [] counts by_eid = by_eid
by_expert (eid ∷ eids) [] by_eid = by_eid
by_expert (eid ∷ eids) (count ∷ counts) by_eid = by_expert eids counts (set_at eid count by_eid)

pub counts_in_expert_order : List (ℕ × ℕ) → Result (List ℕ)
counts_in_expert_order groups =
    let counts = expand_groups groups in
    if ltb (length expert_order) (length counts)
    then err Error.too_many_experts
    else ok (
        by_expert expert_order (counts ++ replicate (length expert_order - length counts) 0)
          (replicate (length expert_order) 0))

pub record RoutingCase : Type 0 where
  pub total_tokens : ℕ
  pub n_experts : ℕ
  pub token_major_top2 : List Pair
  pub expected_counts : List ℕ

-- actual_counts[e] += 1
abbrev pub bump : ℕ → List ℕ → List ℕ
bump i [] = []
bump zero (x ∷ xs) = (x + 1) ∷ xs
bump (suc i) (x ∷ xs) = x ∷ bump i xs

-- The loop that checks the pairs and counts their experts.
pub count_pairs : List Pair → List ℕ → Result (List ℕ)
count_pairs [] actual = ok actual
count_pairs ((a, b) ∷ top2) actual =
    if a == b || not (ltb a 64 && ltb b 64)
    then err Error.invalid_pair
    else count_pairs top2 (bump b (bump a actual))

abbrev pub same_counts : List ℕ → List ℕ → Bool
same_counts [] [] = true
same_counts (x ∷ xs) (y ∷ ys) = x == y && same_counts xs ys
same_counts _ _ = false

-- Where `explicit_pairs` is None the pairs are computed.
pub top2_of : List ℕ → Option (List (Pair × ℕ)) → Result (List Pair)
top2_of expected_counts none = pair_degrees expected_counts
top2_of expected_counts (some explicit_pairs) = ok (expand explicit_pairs)

abbrev pub compare_counts : ℕ → List ℕ → List Pair → List ℕ → Result RoutingCase
compare_counts total_tokens expected_counts top2 actual_counts =
    if same_counts actual_counts expected_counts
    then ok (record {
      total_tokens = total_tokens;
      n_experts = 64;
      token_major_top2 = top2;
      expected_counts = expected_counts;
    })
    else err Error.wrong_counts

pub check_case : ℕ → List ℕ → List Pair → Result RoutingCase
check_case total_tokens expected_counts top2 =
    if not (length top2 == total_tokens)
    then err Error.wrong_length
    else count_pairs top2 (replicate 64 0) >>= compare_counts total_tokens expected_counts top2

pub make_case : ℕ → List (ℕ × ℕ) → Option (List (Pair × ℕ)) → Result RoutingCase
make_case total_tokens count_groups explicit_pairs =
    counts_in_expert_order count_groups >>= λ expected_counts.
    if not (sum expected_counts == 2 * total_tokens)
    then err Error.wrong_sum
    else top2_of expected_counts explicit_pairs >>= check_case total_tokens expected_counts
