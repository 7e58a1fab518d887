-- ===== src/Singbox/Node/Marks.antt =====
-- core/singboxcore/node.go: what a success, a failure or a probe does to a node's health.
use proxy_hub.Prelude.{ℕ, suc, ◌+◌, Bool, true, false, not, ◌&&◌, ◌||◌, String, leb, if◌then◌else◌}
use proxy_hub.Prelude.Int.{ℤ, pos, is_positive, pos_part, neg_part, ltb_ℤ}
use proxy_hub.Singbox.Time.{Time, Duration, zero_time, is_zero, is_after, add_time, milliseconds}
use proxy_hub.Singbox.Node.State.{NodeState, alive, dead, blacklisted, is_blacklisted}

unfoldable pub mark_alive : NodeState → NodeState
mark_alive n = record n {
  health = alive;
  blacklisted_at = zero_time;
  blacklisted_until = zero_time;
  blacklist_reason = "";
  last_error = "";
}

unfoldable pub mark_failed : NodeState → Duration → String → Time → NodeState
mark_failed n ttl reason now =
    let failed = record n {
      last_error = reason;
      last_checked_at = now;
      failure_count = suc n.failure_count;
      latency_candidate = false;
      stale_fallback = not (is_zero n.last_success_at);
    } in
    if is_positive ttl
    then record failed {
      health = blacklisted;
      blacklisted_at = now;
      blacklisted_until = add_time now ttl;
      blacklist_reason = reason;
    }
    else record failed { health = dead }

-- The method `blacklisted`: blacklisted without end, or until later than now.
unfoldable pub blacklisted_now : NodeState → Time → Bool
blacklisted_now n now =
    is_blacklisted n.health && (is_zero n.blacklisted_until || is_after n.blacklisted_until now)

unfoldable pub mark_tombstone : NodeState → Duration → Time → NodeState
mark_tombstone n ttl now =
    let marked = record n { enabled = false; tombstoned = true; tombstoned_at = now } in
    if is_positive ttl then record marked { remove_after = add_time now ttl } else marked

-- `n >= threshold` for a counter and a Go int.
abbrev pub reaches : ℕ → ℤ → Bool
reaches n threshold = leb (pos_part threshold) (n + neg_part threshold)

unfoldable pub record_probe_success : NodeState → Duration → Duration → ℤ → Time → NodeState
record_probe_success n latency max_latency slow_threshold now =
    let taken = if ltb_ℤ latency (pos 0) then pos 0 else latency in
    let threshold = if is_positive slow_threshold then slow_threshold else pos 1 in
    let healthy = record n {
      last_latency = milliseconds taken;
      last_checked_at = now;
      probe_running = false;
      probe_started_at = zero_time;
      last_probe_error = "";
      failure_count = 0;
      health = alive;
      blacklisted_at = zero_time;
      blacklisted_until = zero_time;
      blacklist_reason = "";
      last_error = "";
      last_success_at = now;
    } in
    let slow = record healthy { slow_count = suc n.slow_count } in
    if is_positive max_latency && ltb_ℤ max_latency taken
    then if reaches (suc n.slow_count) threshold
      then record slow { latency_candidate = false; stale_fallback = true }
      else slow
    else record healthy { slow_count = 0; latency_candidate = true; stale_fallback = false }

-- probeFailurePolicy. Without one, both fields are 0.
pub record ProbeFailurePolicy : Type 0 where
  pub threshold : ℤ
  pub ttl : Duration

abbrev pub no_failure_policy : ProbeFailurePolicy
no_failure_policy = record { threshold = pos 0; ttl = pos 0 }

-- The blacklisting that both failure records share.
unfoldable pub blacklist_at_threshold : NodeState → String → Time → ProbeFailurePolicy → NodeState
blacklist_at_threshold n reason now policy =
    if is_positive policy.threshold && reaches n.failure_count policy.threshold
    then record n {
      health = blacklisted;
      blacklisted_at = now;
      blacklisted_until = if is_positive policy.ttl then add_time now policy.ttl else zero_time;
      blacklist_reason = reason;
    }
    else n

unfoldable pub record_probe_failure : NodeState → String → Time → ProbeFailurePolicy → NodeState
unfolding blacklist_at_threshold
record_probe_failure n reason now policy =
    blacklist_at_threshold
      (record n {
        last_checked_at = now;
        probe_running = false;
        probe_started_at = zero_time;
        last_probe_error = reason;
        failure_count = suc n.failure_count;
        latency_candidate = false;
        stale_fallback = not (is_zero n.last_success_at);
        last_error = reason;
      })
      reason now policy

-- The answer says that this failure blacklisted the node.
unfoldable pub record_traffic_failure :
    NodeState → String → Time → ProbeFailurePolicy → NodeState × Bool
unfolding blacklist_at_threshold blacklisted_now
record_traffic_failure n reason now policy =
    let failed =
      blacklist_at_threshold
        (record n {
          last_checked_at = now;
          failure_count = suc n.failure_count;
          latency_candidate = false;
          stale_fallback = not (is_zero n.last_success_at);
          last_error = reason;
        })
        reason now policy in
    (failed, not (blacklisted_now n now) && blacklisted_now failed now)

unfoldable pub mark_probe_running : NodeState → Time → NodeState
mark_probe_running n now = record n { probe_running = true; probe_started_at = now }
