-- ===== src/Moe/Routing/Samples.antt =====
-- The routing case of eight tokens, whose pairs are given, and cases whose pairs are computed.
use he_mai_a.Prelude.{
  ℕ, ◌*◌, ◌/◌, ◌≤◌, ◌≡◌, refl, none, some, List, [], ◌∷◌, ◌++◌, arith, ok, length, All, get_or, ◌↔◌,
  err, Error,
}
use he_mai_a.Moe.Routing.{
  Pair, sum, largest, replicate, rank, heapify, push, push_rest, take_pairs, add_pair, histogram,
  expand, pair_degrees, expand_groups, by_expert, counts_in_expert_order, RoutingCase, count_pairs,
  top2_of, check_case, make_case,
}
use he_mai_a.Moe.Routing.Realized.{degree, IsProper}
use he_mai_a.Moe.Routing.Grouped.{pair_degrees-total}
use he_mai_a.Moe.Routing.Table.{
  get_routing_case, IsKeptTotal, m8_groups, m8_pairs, get_routing_case-IsRealized,
}
use he_mai_a.Moe.Routing.Cases.{IsRealized, get_or-beyond, make_case-IsRealized, make_case-exact}

abbrev few : List ℕ
few = 2 ∷ 1 ∷ 1 ∷ []

-- One route of each expert, and two of expert 64, which is none of them.
abbrev many : List ℕ
many = replicate 64 1 ++ 2 ∷ []

many_refused : pair_degrees many ≡ err Error.no_rank
unfolding pair_degrees heapify rank
many_refused = refl

few_pairs : pair_degrees few ≡ ok ((0, 1) ∷ (0, 2) ∷ [])
unfolding pair_degrees take_pairs rank heapify push push_rest histogram add_pair expand
few_pairs = refl

pair_degrees-total_example :
    (pairs : List Pair) × (pair_degrees few ≡ ok pairs)
    × (length pairs ≡ sum few / 2)
    × All IsProper pairs
    × ((e : ℕ) → degree e pairs ≡ get_or few e 0)
pair_degrees-total_example =
    pair_degrees-total few refl (ground arith) (λ e high. get_or-beyond few e (omega arith))

-- The case m8_4_2_2.
abbrev m8_counts : List ℕ
m8_counts = 6 ∷ 4 ∷ (replicate 61 0 ++ 6 ∷ [])

abbrev m8_case : RoutingCase
m8_case = record {
  total_tokens = 8;
  n_experts = 64;
  token_major_top2 = replicate 4 (0, 63) ++ (replicate 2 (0, 1) ++ replicate 2 (63, 1));
  expected_counts = m8_counts;
}

m8_made : make_case 8 m8_groups (some m8_pairs) ≡ ok m8_case
unfolding make_case counts_in_expert_order expand_groups by_expert top2_of expand check_case
    count_pairs
m8_made = refl

make_case-IsRealized_example : IsRealized 8 m8_case
make_case-IsRealized_example = make_case-IsRealized 8 m8_groups (some m8_pairs) m8_case m8_made

m8_expected : counts_in_expert_order m8_groups ≡ ok m8_counts
unfolding counts_in_expert_order expand_groups by_expert
m8_expected = refl

make_case-exact_example :
    ((case : RoutingCase) × (make_case 8 m8_groups none ≡ ok case))
    ↔ ((sum m8_counts ≡ 2 * 8) × (largest m8_counts ≤ 8))
make_case-exact_example = make_case-exact 8 m8_groups m8_counts m8_expected

get_routing_case-IsRealized_example :
    ((case : RoutingCase) × (get_routing_case 32 64 ≡ ok case) × IsRealized 32 case)
    ↔ ((◌≡◌ {A = ℕ} 64 64) × IsKeptTotal 32)
get_routing_case-IsRealized_example = get_routing_case-IsRealized 32 64
