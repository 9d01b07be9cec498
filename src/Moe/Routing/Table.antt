-- ===== src/Moe/Routing/Table.antt =====
-- ROUTING_CASES and `get_routing_case`: the cases that are kept, by their number of tokens.
use he_mai_a.Prelude.{
  ℕ, ◌-◌, ◌≡◌, refl, not, Option, none, some, List, [], ◌∷◌, ◌++◌, ◌==◌, if◌then◌else◌, length,
  Result, ok, err, Error, ◌↔◌, ◌⊎◌, inl, inr, arith, Bool-cases, ==_iff, ◌∙◌,
}
use he_mai_a.Moe.Routing.{
  Pair, RoutingCase, make_case, counts_in_expert_order, by_expert, expert_order, expand_groups,
  replicate, top2_of, expand, check_case, count_pairs,
}
use he_mai_a.Moe.Routing.Cases.{IsRealized, make_case-exact, make_case-IsRealized}

abbrev pub m8_groups : List (ℕ × ℕ)
m8_groups = (6, 2) ∷ (4, 1) ∷ []

abbrev pub m8_pairs : List (Pair × ℕ)
m8_pairs = ((0, 63), 4) ∷ ((0, 1), 2) ∷ ((63, 1), 2) ∷ []

abbrev pub m32_groups : List (ℕ × ℕ)
m32_groups = (8, 1) ∷ (6, 1) ∷ (5, 1) ∷ (4, 1) ∷ (3, 1) ∷ (2, 14) ∷ (1, 10) ∷ (0, 35) ∷ []

abbrev pub m64_groups : List (ℕ × ℕ)
m64_groups = (14, 2) ∷ (5, 1) ∷ (4, 7) ∷ (3, 12) ∷ (2, 10) ∷ (1, 11) ∷ (0, 21) ∷ []

abbrev pub m128_groups : List (ℕ × ℕ)
m128_groups =
    (29, 1)
    ∷ (27, 1)
    ∷ (11, 1)
    ∷ (9, 5)
    ∷ (7, 5)
    ∷ (6, 2)
    ∷ (5, 7)
    ∷ (4, 10)
    ∷ (2, 11)
    ∷ (0, 21)
    ∷ []

-- A key that is not there raises.
pub routing_cases : ℕ → Result RoutingCase
routing_cases total =
    if total == 8
    then make_case 8 m8_groups (some m8_pairs)
    else (if total == 32
        then make_case 32 m32_groups none
        else (if total == 64
            then make_case 64 m64_groups none
            else (if total == 128 then make_case 128 m128_groups none else err Error.no_case)))

pub get_routing_case : (total_tokens n_experts : ℕ) → Result RoutingCase
get_routing_case total_tokens n_experts =
    if not (n_experts == 64) then err Error.expert_number else routing_cases total_tokens

-- Where all experts have a count.
abbrev counts_of : List (ℕ × ℕ) → List ℕ
counts_of groups =
    by_expert expert_order
      (expand_groups groups ++ replicate (64 - length (expand_groups groups)) 0) (replicate 64 0)

m8_made : (case : RoutingCase) × (make_case 8 m8_groups (some m8_pairs) ≡ ok case)
unfolding make_case counts_in_expert_order expand_groups by_expert top2_of expand check_case
    count_pairs
m8_made = (
  record {
    total_tokens = 8;
    n_experts = 64;
    token_major_top2 = expand m8_pairs;
    expected_counts = counts_of m8_groups;
  },
  refl,
)

m32_made : (case : RoutingCase) × (make_case 32 m32_groups none ≡ ok case)
unfolding counts_in_expert_order expand_groups by_expert
m32_made = (make_case-exact 32 m32_groups (counts_of m32_groups) refl).1 (refl, ground arith)

m64_made : (case : RoutingCase) × (make_case 64 m64_groups none ≡ ok case)
unfolding counts_in_expert_order expand_groups by_expert
m64_made = (make_case-exact 64 m64_groups (counts_of m64_groups) refl).1 (refl, ground arith)

m128_made : (case : RoutingCase) × (make_case 128 m128_groups none ≡ ok case)
unfolding counts_in_expert_order expand_groups by_expert
m128_made = (make_case-exact 128 m128_groups (counts_of m128_groups) refl).1 (refl, ground arith)

abbrev pub IsKeptTotal : ℕ → Type 0
IsKeptTotal total = (total ≡ 8) ⊎ ((total ≡ 32) ⊎ ((total ≡ 64) ⊎ (total ≡ 128)))

kept_total : (total : ℕ) (case : RoutingCase) → routing_cases total ≡ ok case → IsKeptTotal total
unfolding routing_cases
kept_total total case e = elim (Bool-cases (total == 8)) [
  | inl a ↦ inl ((==_iff total 8).0 a)
  | inr a ↦ elim (Bool-cases (total == 32)) [
    | inl b ↦ inr (inl ((==_iff total 32).0 b))
    | inr b ↦ elim (Bool-cases (total == 64)) [
      | inl c ↦ inr (inr (inl ((==_iff total 64).0 c)))
      | inr c ↦ elim (Bool-cases (total == 128)) [
        | inl d ↦ inr (inr (inr ((==_iff total 128).0 d)))
        | inr d ↦
            let refused : err Error.no_case ≡ ok case = rw (a, b, c, d) at e in
            absurd (ground arith)
      ]
    ]
  ]
]

abbrev IsGiven : ℕ → Type 0
IsGiven total = (case : RoutingCase) × (routing_cases total ≡ ok case) × IsRealized total case

realized :
    (total : ℕ) (groups : List (ℕ × ℕ)) (explicit : Option (List (Pair × ℕ)))
    → routing_cases total ≡ make_case total groups explicit
    → ((case : RoutingCase) × (make_case total groups explicit ≡ ok case))
    → IsGiven total
realized total groups explicit same (case, made) =
    (case, same ∙ made, make_case-IsRealized total groups explicit case made)

kept-IsGiven : (total : ℕ) → IsKeptTotal total → IsGiven total
unfolding routing_cases
kept-IsGiven total (inl e) = rw e (realized 8 m8_groups (some m8_pairs) refl m8_made)
kept-IsGiven total (inr (inl e)) = rw e (realized 32 m32_groups none refl m32_made)
kept-IsGiven total (inr (inr (inl e))) = rw e (realized 64 m64_groups none refl m64_made)
kept-IsGiven total (inr (inr (inr e))) = rw e (realized 128 m128_groups none refl m128_made)

-- A case is returned, and its pairs realize its counts, exactly for 64 experts and for 8, 32, 64 or 128
-- tokens.
pub get_routing_case-IsRealized :
    (total n_experts : ℕ)
    → ((case : RoutingCase) × (get_routing_case total n_experts ≡ ok case) × IsRealized total case)
      ↔ ((n_experts ≡ 64) × IsKeptTotal total)
unfolding get_routing_case
get_routing_case-IsRealized total n_experts = elim (Bool-cases (n_experts == 64)) [
  | inl all_experts ↦ (
    λ (case, e, real).
        ((==_iff n_experts 64).0 all_experts, kept_total total case (rw all_experts at e)),
    λ (n, kept). rw all_experts (kept-IsGiven total kept),
  )
  | inr other ↦ (
    λ (case, e, real).
        let refused : err Error.expert_number ≡ ok case = rw other at e in absurd (ground arith),
    λ (n, kept). absurd (ground (arith, n, other)),
  )
]
