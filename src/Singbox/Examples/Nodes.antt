-- ===== src/Singbox/Examples/Nodes.antt =====
-- core/singboxcore/node.go and the defaults of group.go, on sample nodes.
use proxy_hub.Prelude.{
  ℕ, ◌+◌, ◌≤◌, ◌≡◌, refl, ◌↔◌, true, false, some, none, List, [], ◌∷◌, arith, length, if◌then◌else◌,
}
use proxy_hub.Prelude.Int.{pos, is_positive}
use proxy_hub.Singbox.Time.{seconds, add_time}
use proxy_hub.Singbox.Policy.{unset, normalized, IsNormal, normalized-IsNormal}
use proxy_hub.Singbox.Node.State.{blacklisted, eligible, new_node_state}
use proxy_hub.Singbox.Node.Marks.{ProbeFailurePolicy, mark_failed, reaches, record_probe_success}
use proxy_hub.Singbox.Node.Revival.{RevivalCandidate, revival_candidate, revive_blacklist}
use proxy_hub.Singbox.Node.Eligibility.{eligible-mark_failed}
use proxy_hub.Singbox.Node.Blacklisting.{
  Failure, fail_all, at_threshold, reports, fail_all-health, revival_candidate_iff_not-eligible,
  revive_blacklist_of_candidate, reports_lem,
}
use proxy_hub.Singbox.Node.LatencyClass.{
  NodeCall, marks_failed, revives, call_all, IsClassified, slow_all, new_node_state-IsClassified,
  slow_all-latency_candidate,
}
use proxy_hub.Singbox.Examples.Sample.{direct_out, node_a, failed_node, with_strategy}

normalized-IsNormal_example : IsNormal (normalized (with_strategy unset))
normalized-IsNormal_example = normalized-IsNormal (with_strategy unset)

eligible-mark_failed_example :
    (eligible (mark_failed node_a (seconds 30) "timeout" 10) 20 false ≡ true)
    ↔ ((is_positive (seconds 30) ≡ true) × (add_time 10 (seconds 30) ≤ 20))
unfolding new_node_state
eligible-mark_failed_example = eligible-mark_failed node_a (seconds 30) "timeout" 10 20 refl refl

abbrev three_strikes : ProbeFailurePolicy
three_strikes = record { threshold = pos 3; ttl = pos 0 }

abbrev by_probe_at : ℕ → Failure
by_probe_at t = record { by_probe = true; reason = "timeout"; at = t }

abbrev by_traffic_at : ℕ → Failure
by_traffic_at t = record { by_probe = false; reason = "connection reset"; at = t }

abbrev strikes : List Failure
strikes = by_traffic_at 2 ∷ by_probe_at 3 ∷ by_traffic_at 4 ∷ []

fail_all-health_example :
    ((fail_all three_strikes node_a (by_probe_at 1 ∷ strikes)).failure_count
      ≡ 0 + length (by_probe_at 1 ∷ strikes))
    × ((fail_all three_strikes node_a (by_probe_at 1 ∷ strikes)).health ≡ (
        if at_threshold three_strikes (0 + length (by_probe_at 1 ∷ strikes))
        then blacklisted
        else node_a.health))
    × ((fail_all three_strikes node_a (by_probe_at 1 ∷ strikes)).latency_candidate ≡ false)
unfolding new_node_state
fail_all-health_example = fail_all-health three_strikes node_a (by_probe_at 1) strikes

abbrev two_strikes : ProbeFailurePolicy
two_strikes = record { threshold = pos 2; ttl = pos 10 }

abbrev two_later : List Failure
two_later = by_traffic_at 2 ∷ by_traffic_at 4 ∷ []

reports_lem_example : reports two_strikes node_a (by_traffic_at 1 ∷ two_later) ≡ (
    if at_threshold two_strikes (node_a.failure_count + length (by_traffic_at 1 ∷ two_later))
    then 1
    else 0)
unfolding new_node_state
reports_lem_example =
    reports_lem two_strikes node_a 1 (by_traffic_at 1) two_later refl refl
      ((omega arith, omega arith), ((omega arith, omega arith), ((omega arith, omega arith), tt)))

revival_candidate_iff_not-eligible_example :
    (eligible failed_node 20 false ≡ true) ↔ (revival_candidate 0 failed_node 20 1 ≡ none)
unfolding new_node_state mark_failed
revival_candidate_iff_not-eligible_example =
    revival_candidate_iff_not-eligible 0 failed_node 20 1 refl refl refl

abbrev failed_candidate : RevivalCandidate
failed_candidate = record {
  node = 0;
  order = 1;
  failure_count = 1;
  has_success = false;
  last_success_at = 0;
  has_latency = false;
  latency_ms = 0;
  last_checked_at = 10;
  blacklisted_at = 10;
  blacklisted_until = 30_000_000_010;
}

failed_candidate_found : revival_candidate 0 failed_node 20 1 ≡ some failed_candidate
unfolding revival_candidate new_node_state mark_failed
failed_candidate_found = refl

revive_blacklist_of_candidate_example :
    (eligible failed_node 20 false ≡ false)
    × ((revive_blacklist failed_node).1 ≡ true)
    × (eligible (revive_blacklist failed_node).0 21 false ≡ true)
    × ((revive_blacklist failed_node).0.failure_count ≡ 0)
    × ((revive_blacklist failed_node).0.slow_count ≡ 0)
    × ((revive_blacklist failed_node).0.latency_candidate ≡ true)
revive_blacklist_of_candidate_example =
    revive_blacklist_of_candidate 0 failed_node 20 1 failed_candidate 21 failed_candidate_found

abbrev some_calls : List NodeCall
some_calls = marks_failed (seconds 30) "timeout" 10 ∷ revives ∷ []

new_node_state-IsClassified_example :
    IsClassified (call_all (new_node_state "a" "out-a" direct_out) some_calls)
new_node_state-IsClassified_example = new_node_state-IsClassified "a" "out-a" direct_out some_calls

slow_all-latency_candidate_example :
    let slowed = slow_all (seconds 3) (pos 2) node_a ((seconds 4, 1) ∷ (seconds 5, 2) ∷ []) in
    (slowed.slow_count ≡ 2)
    × (slowed.latency_candidate ≡ (if reaches 2 (pos 2) then false else node_a.latency_candidate))
    × ((record_probe_success slowed (seconds 1) (seconds 3) (pos 2) 3).latency_candidate ≡ true)
    × ((record_probe_success slowed (seconds 1) (seconds 3) (pos 2) 3).slow_count ≡ 0)
unfolding new_node_state
slow_all-latency_candidate_example =
    slow_all-latency_candidate (seconds 3) (pos 2) node_a (seconds 4, 1) ((seconds 5, 2) ∷ [])
      (seconds 1) 3 refl refl (refl, (refl, tt)) refl
