-- ===== src/Singbox/Examples/Sample.antt =====
-- Nodes, a policy and groups that the runs of core/singboxcore share.
use proxy_hub.Prelude.{ℕ, true, false, [], ◌∷◌}
use proxy_hub.Prelude.Int.{pos}
use proxy_hub.Singbox.Policy.{BalanceStrategy, unset, round_robin, Policy}
use proxy_hub.Singbox.Time.{seconds}
use proxy_hub.Singbox.Node.State.{Outbound, NodeState, new_node_state}
use proxy_hub.Singbox.Node.Marks.{mark_failed}
use proxy_hub.Singbox.Group.State.{Group, Clock}
use proxy_hub.Singbox.Group.Members.{new_dynamic_group, add_node}
use proxy_hub.Singbox.Group.Dial.{Attempt, connected, dial_context}
use proxy_hub.Singbox.Group.Sound.Members.{after_call}
use proxy_hub.Singbox.Group.Sound.Reach.{Reach, here, next, adds, dials}

abbrev pub direct_out : Outbound
direct_out = record { kind = "direct"; tag = "out" }

abbrev pub node_a : NodeState
node_a = new_node_state "a" "out-a" direct_out

abbrev pub node_b : NodeState
node_b = new_node_state "b" "out-b" direct_out

-- Blacklisted from 10 on, for 30 seconds.
abbrev pub failed_node : NodeState
failed_node = mark_failed node_a (seconds 30) "timeout" 10

abbrev pub with_strategy : BalanceStrategy → Policy
with_strategy s = record {
  strategy = s;
  force_selected = false;
  failure_blacklist_ttl = pos 0;
  remove_ttl = pos 0;
  probe_url = "";
  probe_interval = pos 0;
  probe_timeout = pos 0;
  probe_test_timeout = pos 0;
  probe_concurrency = pos 0;
  max_latency = pos 0;
  slow_threshold = pos 0;
  blacklist_revival_limit = pos 0;
  fallback_strategy = unset;
  probe_result_callback = true;
  blacklist_revival_callback = true;
  traffic_failure_callback = true;
}

abbrev pub empty_group : Group
empty_group = new_dynamic_group "group" (with_strategy round_robin) false

abbrev pub tick : Clock
tick i = i

abbrev pub all_connect : ℕ → Attempt
all_connect p = record { answer = connected; elapsed = pos 1_000_000; clock = tick }

abbrev pub one_node : Group
one_node = after_call empty_group (add_node empty_group node_a)

abbrev pub two_nodes : Group
two_nodes = after_call one_node (add_node one_node node_b)

-- Two nodes and one open connection.
abbrev pub one_open : Group
one_open = (dial_context two_nodes 5 [] all_connect).0

pub one_open-Reach : Reach empty_group one_open
unfolding new_node_state
one_open-Reach =
    next
      (next (next here (adds "a" "out-a" direct_out ("out-a" ∷ [])))
        (adds "b" "out-b" direct_out ("out-b" ∷ [])))
      (dials 5 [] all_connect)
