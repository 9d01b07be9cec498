-- ===== src/Moe/Routing/Cases.antt =====
-- What the checks of a routing case establish, and when they pass.
use he_mai_a.Prelude.{
  ℕ, zero, suc, ◌+◌, ◌-◌, ◌*◌, ◌≤◌, ◌<◌, ◌≡◌, refl, true, false, not, ◌&&◌, ◌||◌, List, [], ◌∷◌,
  ◌++◌, arith, ok, err, Error, length, All, Bool-cases, inl, inr, ◌==◌, if◌then◌else◌, ◌>>=◌,
  >>=-eq-ok, get_or, ltb, ◌∙◌, ap, sym, ◌↔◌, Option, none, subst,
}
use he_mai_a.Moe.Routing.{
  Pair, sum, largest, replicate, expert_order, expand_groups, set_at, by_expert,
  counts_in_expert_order, RoutingCase, bump, count_pairs, same_counts, top2_of, check_case,
  compare_counts, make_case, pair_degrees,
}
use he_mai_a.Moe.Routing.Realized.{degree, IsProper}
use he_mai_a.Moe.Routing.Grouped.{pair_degrees-total, pair_degrees-fits}

-- Two experts, both below 64.
abbrev pub IsValidPair : Pair → Type 0
IsValidPair (a, b) = ((a == b) ≡ false) × (a < 64) × (b < 64)

get_or-bump :
    (i e : ℕ) (xs : List ℕ)
    → i < length xs
    → get_or (bump i xs) e 0 ≡ get_or xs e 0 + (if i == e then 1 else 0)
get_or-bump i e [] h = absurd (omega arith)
get_or-bump zero zero (x ∷ xs) h = ground arith
get_or-bump zero (suc e) (x ∷ xs) h = ground arith
get_or-bump (suc i) zero (x ∷ xs) h = ground arith
get_or-bump (suc i) (suc e) (x ∷ xs) h = ground (arith, get_or-bump i e xs)

length-bump : (i : ℕ) (xs : List ℕ) → length (bump i xs) ≡ length xs
length-bump i [] = refl
length-bump zero (x ∷ xs) = refl
length-bump (suc i) (x ∷ xs) = ap suc (length-bump i xs)

count_pairs_lem :
    (top2 : List Pair) (actual found : List ℕ)
    → length actual ≡ 64
    → count_pairs top2 actual ≡ ok found
    → All IsValidPair top2
      × (length found ≡ 64)
      × ((e : ℕ) → get_or found e 0 ≡ get_or actual e 0 + degree e top2)
unfolding count_pairs
count_pairs_lem [] actual found h e =
    let same : actual ≡ found = ground arith in
    (tt, subst (λ xs. length xs ≡ 64) same h, λ i. rw same (omega arith))
count_pairs_lem ((a, b) ∷ top2) actual found h e =
    elim (Bool-cases (a == b || not (ltb a 64 && ltb b 64))) [
      | inl bad ↦ absurd (ground arith)
      | inr good ↦
          let low_a : a < 64 = ground arith in
          let low_b : b < 64 = ground arith in
          let next = bump b (bump a actual) in
          let wide : length next ≡ 64 = length-bump b (bump a actual) ∙ length-bump a actual ∙ h in
          let (valid, size, counts) = count_pairs_lem top2 next found wide (rw good at e) in
          (
            ((ground arith, low_a, low_b), valid),
            size,
            λ i. omega (
              arith,
              counts i,
              get_or-bump b i (bump a actual) (omega (arith, length-bump a actual)),
              get_or-bump a i actual (omega arith),
            ),
          )
    ]

same_counts-eq : (xs ys : List ℕ) → same_counts xs ys ≡ true → xs ≡ ys
same_counts-eq [] [] h = refl
same_counts-eq [] (y ∷ ys) h = cc
same_counts-eq (x ∷ xs) [] h = cc
same_counts-eq (x ∷ xs) (y ∷ ys) h = ground (arith, same_counts-eq xs ys)

get_or-replicate : (n e : ℕ) → get_or {A = ℕ} (replicate n 0) e 0 ≡ 0
get_or-replicate zero e = refl
get_or-replicate (suc n) zero = refl
get_or-replicate (suc n) (suc e) = get_or-replicate n e

-- What a routing case that is accepted says: one pair for each token, each of two of the 64 experts,
-- and every expert in as many pairs as its count says.
pub record IsRealized (total : ℕ) (case : RoutingCase) : Type 0 where
  pub tokens : case.total_tokens ≡ total
  pub pairs : length case.token_major_top2 ≡ total
  pub valid : All IsValidPair case.token_major_top2
  pub counts : (e : ℕ) → degree e case.token_major_top2 ≡ get_or case.expected_counts e 0
  pub routes : sum case.expected_counts ≡ 2 * total

check_case_lem :
    (total : ℕ) (expected : List ℕ) (top2 : List Pair) (case : RoutingCase)
    → sum expected ≡ 2 * total
    → check_case total expected top2 ≡ ok case
    → IsRealized total case
unfolding check_case
check_case_lem total expected top2 case routes e = elim (Bool-cases (length top2 == total)) [
  | inr wrong ↦ absurd (ground arith)
  | inl size ↦
      let last = compare_counts total expected top2 in
      let chain : (count_pairs top2 (replicate 64 0) >>= last) ≡ ok case = rw size at e in
      let (actual, counted, rest) =
        >>=-eq-ok (count_pairs top2 (replicate 64 0)) last {b = case} chain in
      elim (Bool-cases (same_counts actual expected)) [
        | inr wrong ↦ absurd (ground arith)
        | inl same ↦
            let eq = same_counts-eq actual expected same in
            let (valid, wide, counts) = count_pairs_lem top2 (replicate 64 0) actual refl counted in
            let whole : RoutingCase = record {
              total_tokens = total;
              n_experts = 64;
              token_major_top2 = top2;
              expected_counts = expected;
            } in
            let made : whole ≡ case = ground arith in
            subst (IsRealized total) made (record {
              tokens = refl;
              pairs = ground arith;
              valid = valid;
              counts = λ i.
                  omega (
                    arith,
                    ap (λ (xs : List ℕ). get_or xs i 0) eq,
                    counts i,
                    get_or-replicate 64 i,
                  );
              routes = routes;
            })
      ]
]

-- A routing case that is accepted, with given or with computed pairs, has one pair for each token,
-- each of two of the 64 experts, and every expert is in as many pairs as its count says.
pub make_case-IsRealized :
    (total : ℕ) (groups : List (ℕ × ℕ)) (explicit : Option (List (Pair × ℕ))) (case : RoutingCase)
    → make_case total groups explicit ≡ ok case
    → IsRealized total case
unfolding make_case
make_case-IsRealized total groups explicit case e =
    let body = λ (expected : List ℕ).
      if not (sum expected == 2 * total)
      then err Error.wrong_sum
      else top2_of expected explicit >>= check_case total expected in
    let (expected, counted, rest) = >>=-eq-ok (counts_in_expert_order groups) body {b = case} e in
    elim (Bool-cases (sum expected == 2 * total)) [
      | inr wrong ↦ absurd (ground arith)
      | inl routes ↦
          let (top2, found, last) =
            >>=-eq-ok (top2_of expected explicit) (check_case total expected) {b = case}
              (rw routes at rest) in
          check_case_lem total expected top2 case (ground arith) last
    ]

length-set_at : (i v : ℕ) (xs : List ℕ) → length (set_at i v xs) ≡ length xs
length-set_at i v [] = refl
length-set_at zero v (x ∷ xs) = refl
length-set_at (suc i) v (x ∷ xs) = ap suc (length-set_at i v xs)

length-by_expert :
    (eids counts by_eid : List ℕ) → length (by_expert eids counts by_eid) ≡ length by_eid
unfolding by_expert
length-by_expert [] counts by_eid = refl
length-by_expert (eid ∷ eids) [] by_eid = refl
length-by_expert (eid ∷ eids) (count ∷ counts) by_eid =
    length-by_expert eids counts (set_at eid count by_eid) ∙ length-set_at eid count by_eid

length-counts_in_expert_order :
    (groups : List (ℕ × ℕ)) (expected : List ℕ)
    → counts_in_expert_order groups ≡ ok expected
    → length expected ≡ 64
unfolding counts_in_expert_order
length-counts_in_expert_order groups expected e =
    let counts = expand_groups groups in
    elim (Bool-cases (ltb (length expert_order) (length counts))) [
      | inl many ↦ absurd (ground arith)
      | inr few ↦
          let made =
            by_expert expert_order (counts ++ replicate (length expert_order - length counts) 0)
              (replicate (length expert_order) 0) in
          let same : made ≡ expected = ground arith in
          ap length (sym same)
          ∙ length-by_expert expert_order
              (counts ++ replicate (length expert_order - length counts) 0) (replicate 64 0)
    ]

pub get_or-beyond : (xs : List ℕ) (e : ℕ) → length xs ≤ e → get_or xs e 0 ≡ 0
get_or-beyond [] e h = refl
get_or-beyond (x ∷ xs) zero h = absurd (omega arith)
get_or-beyond (x ∷ xs) (suc e) h = get_or-beyond xs e (omega arith)

valid_of_degree :
    (pairs : List Pair)
    → All IsProper pairs
    → ((e : ℕ) → 64 ≤ e → degree e pairs ≡ 0)
    → All IsValidPair pairs
valid_of_degree [] proper h = tt
valid_of_degree ((a, b) ∷ pairs) proper h =
    let low_a : a < 64 = ground (arith, h a) in
    let low_b : b < 64 = ground (arith, h b) in
    ((proper.0, low_a, low_b), valid_of_degree pairs proper.1 (λ e k. omega (arith, h e k)))

count_pairs-total :
    (top2 : List Pair) (actual : List ℕ)
    → All IsValidPair top2
    → (found : List ℕ) × (count_pairs top2 actual ≡ ok found)
unfolding count_pairs
count_pairs-total [] actual h = (actual, refl)
count_pairs-total ((a, b) ∷ top2) actual h =
    let good : (a == b || not (ltb a 64 && ltb b 64)) ≡ false = ground (arith, h.0) in
    let (found, e) = count_pairs-total top2 (bump b (bump a actual)) h.1 in (found, rw good e)

same_counts_of :
    (xs ys : List ℕ)
    → length xs ≡ length ys
    → ((e : ℕ) → get_or xs e 0 ≡ get_or ys e 0)
    → same_counts xs ys ≡ true
same_counts_of [] [] size h = refl
same_counts_of [] (y ∷ ys) size h = absurd (omega arith)
same_counts_of (x ∷ xs) [] size h = absurd (omega arith)
same_counts_of (x ∷ xs) (y ∷ ys) size h =
    ground (arith, h 0, same_counts_of xs ys (omega arith) (λ e. h (suc e)))

largest-le-sum : (xs : List ℕ) → largest xs ≤ sum xs
largest-le-sum [] = omega arith
largest-le-sum (x ∷ xs) = omega (arith, largest-le-sum xs)

computed-case :
    (total : ℕ) (expected : List ℕ)
    → length expected ≡ 64
    → sum expected ≡ 2 * total
    → largest expected ≤ total
    → (case : RoutingCase) × ((pair_degrees expected >>= check_case total expected) ≡ ok case)
unfolding check_case
computed-case total expected wide routes fits =
    let (pairs, e, size, proper, degrees) =
      pair_degrees-total expected (omega arith) (omega arith)
        (λ e high. get_or-beyond expected e (omega arith)) in
    let valid =
      valid_of_degree pairs proper (λ i k. degrees i ∙ get_or-beyond expected i (omega arith)) in
    let (actual, counted) = count_pairs-total pairs (replicate 64 0) valid in
    let (again, wide', counts) = count_pairs_lem pairs (replicate 64 0) actual refl counted in
    let same : same_counts actual expected ≡ true =
      same_counts_of actual expected (wide' ∙ sym wide)
        (λ i. omega (arith, counts i, degrees i, get_or-replicate 64 i)) in
    let right : (length pairs == total) ≡ true = ground (arith, size) in
    (
      record {
        total_tokens = total;
        n_experts = 64;
        token_major_top2 = pairs;
        expected_counts = expected;
      },
      rw (e, right, counted, same) refl,
    )

-- Where no pairs are given, the case of counts for at most 64 experts is accepted exactly when their
-- sum is twice the number of tokens and no expert has more routes than there are tokens.
pub make_case-exact :
    (total : ℕ) (groups : List (ℕ × ℕ)) (expected : List ℕ)
    → counts_in_expert_order groups ≡ ok expected
    → ((case : RoutingCase) × (make_case total groups none ≡ ok case))
      ↔ ((sum expected ≡ 2 * total) × (largest expected ≤ total))
unfolding make_case top2_of
make_case-exact total groups expected e = (
  λ (case, made).
      let body = λ (counts : List ℕ).
        if not (sum counts == 2 * total)
        then err Error.wrong_sum
        else top2_of counts none >>= check_case total counts in
      let chain : body expected ≡ ok case = rw e at made in
      elim (Bool-cases (sum expected == 2 * total)) [
        | inr wrong ↦ absurd (ground arith)
        | inl right ↦
            let routes : sum expected ≡ 2 * total = ground arith in
            let (top2, found, last) =
              >>=-eq-ok (pair_degrees expected) (check_case total expected) {b = case}
                (rw right at chain) in
            (
              routes,
              omega (arith, routes, pair_degrees-fits expected (omega (arith, routes)) top2 found),
            )
      ],
  λ (routes, fits).
      let (case, found) =
        computed-case total expected (length-counts_in_expert_order groups expected e) routes
          fits in
      let right : (sum expected == 2 * total) ≡ true = ground arith in (case, rw (e, right) found),
)
