-- ===== src/Singbox/Examples/Balancing.antt =====
-- core/singboxcore/balancer.go and the order of revivals, on short lists.
use mathlib.Core.List.{Perm}
use proxy_hub.Prelude.{
  ℕ, ◌<◌, ◌≡◌, ◌⊎◌, false, String, some, none, List, [], ◌∷◌, ◌++◌, arith, length, get_elem?, take,
  drop,
}
use proxy_hub.Prelude.Sort.{IsSorted}
use proxy_hub.Singbox.Balancer.{round_robin_from, order_nodes, int64_max}
use proxy_hub.Singbox.Balancer.Fairness.{
  order_nodes-rotates, order_nodes-perm, after_orders, order_nodes-fair, order_nodes-panics,
}
use proxy_hub.Singbox.Node.Revival.{RevivalCandidate}
use proxy_hub.Singbox.RevivalOrder.{candidate_less, sort_candidates, RevivalInput}
use proxy_hub.Singbox.RevivalOrder.Lexicographic.{
  lex_less, keys, candidate_less-eq-lex_less, sort_candidates-IsSorted,
}

abbrev names : List String
names = "a" ∷ "b" ∷ "c" ∷ []

below_limit : (next : ℕ) → round_robin_from 4 ≡ round_robin_from next → next < int64_max
below_limit next e = let q : 4 ≡ next = cc in omega (arith, q)

order_nodes-perm_example :
    (ordered : List String) × ((order_nodes (round_robin_from 4) [] names).0 ≡ some ordered)
    × Perm ordered names
order_nodes-perm_example = order_nodes-perm (round_robin_from 4) [] names below_limit

order_nodes-rotates_example :
    order_nodes (round_robin_from 4) [] names
    ≡ (some (drop 1 names ++ take 1 names), round_robin_from 5)
order_nodes-rotates_example = order_nodes-rotates 4 [] "a" "b" ("c" ∷ []) (omega arith)

order_nodes-fair_example :
    (k : ℕ) × (k < length names)
    × (ordered : List String) × ((order_nodes
          (after_orders k (round_robin_from 4) names)
          []
          names).0
        ≡ some ordered)
    × (get_elem? ordered 0 ≡ get_elem? names 2)
order_nodes-fair_example = order_nodes-fair 4 "a" "b" ("c" ∷ []) 2 (omega arith) (omega arith)

order_nodes-panics_example :
    let (first, b) = order_nodes (round_robin_from int64_max) [] names in
    (first ≡ none) ⊎ ((order_nodes b [] names).0 ≡ none)
order_nodes-panics_example =
    order_nodes-panics int64_max [] [] "a" "b" ("c" ∷ []) (omega arith) (omega arith)

abbrev candidate_at : ℕ → ℕ → RevivalCandidate
candidate_at order failures = record {
  node = order;
  order = order;
  failure_count = failures;
  has_success = false;
  last_success_at = 0;
  has_latency = false;
  latency_ms = 0;
  last_checked_at = 10;
  blacklisted_at = 10;
  blacklisted_until = 0;
}

candidate_less-eq-lex_less_example :
    candidate_less (candidate_at 0 5) (candidate_at 1 2)
    ≡ lex_less (keys (candidate_at 0 5)) (keys (candidate_at 1 2))
candidate_less-eq-lex_less_example =
    candidate_less-eq-lex_less (candidate_at 0 5) (candidate_at 1 2)

abbrev sample_candidates : List RevivalCandidate
sample_candidates = candidate_at 0 5 ∷ candidate_at 1 2 ∷ candidate_at 2 5 ∷ []

sort_candidates-IsSorted_example :
    Perm (sort_candidates sample_candidates) sample_candidates
    × IsSorted (λ a b. lex_less (keys a) (keys b)) (sort_candidates sample_candidates)
sort_candidates-IsSorted_example = sort_candidates-IsSorted sample_candidates

abbrev input_at : ℕ → ℕ → RevivalInput
input_at order failures = record {
  node_id = "a";
  order = order;
  failure_count = failures;
  has_success = false;
  last_success_at = 0;
  has_latency = false;
  latency_ms = 0;
  last_checked_at = 10;
  blacklisted_until = 0;
}

abbrev sample_inputs : List RevivalInput
sample_inputs = input_at 0 5 ∷ input_at 1 2 ∷ []
