-- ===== src/Singbox/Node/Revival.antt =====
-- core/singboxcore/node.go: the revival of a blacklisted node, and when a tombstoned one may go.
use proxy_hub.Prelude.{
  ℕ, Bool, true, false, not, ◌&&◌, ◌||◌, Option, none, some, ltb, if◌then◌else◌,
}
use proxy_hub.Prelude.Int.{ℤ, is_positive}
use proxy_hub.Singbox.Time.{Time, zero_time, is_zero, is_after}
use proxy_hub.Singbox.Node.State.{NodeState, alive, is_blacklisted}

unfoldable pub revive_blacklist : NodeState → NodeState × Bool
revive_blacklist n =
    if not n.enabled || n.tombstoned || not (is_blacklisted n.health) then (n, false) else (
      record n {
        health = alive;
        blacklisted_at = zero_time;
        blacklisted_until = zero_time;
        blacklist_reason = "";
        last_error = "";
        last_probe_error = "";
        failure_count = 0;
        slow_count = 0;
        latency_candidate = true;
        stale_fallback = false;
      },
      true,
    )

-- blacklistRevivalCandidate. `node` is the number of the node's cell.
pub record RevivalCandidate : Type 0 where
  pub node : ℕ
  pub order : ℕ
  pub failure_count : ℕ
  pub has_success : Bool
  pub last_success_at : Time
  pub has_latency : Bool
  pub latency_ms : ℕ
  pub last_checked_at : Time
  pub blacklisted_at : Time
  pub blacklisted_until : Time

unfoldable pub revival_candidate : ℕ → NodeState → Time → ℕ → Option RevivalCandidate
revival_candidate node n now order =
    if not n.enabled || n.tombstoned || not (is_blacklisted n.health)
    then none
    else if not (is_zero n.blacklisted_until) && not (is_after n.blacklisted_until now)
    then none
    else some (record {
      node = node;
      order = order;
      failure_count = n.failure_count;
      has_success = not (is_zero n.last_success_at);
      last_success_at = n.last_success_at;
      has_latency = ltb 0 n.last_latency;
      latency_ms = n.last_latency;
      last_checked_at = n.last_checked_at;
      blacklisted_at = n.blacklisted_at;
      blacklisted_until = n.blacklisted_until;
    })

-- `activeCount <= 0`.
abbrev pub no_active : ℤ → Bool
no_active z = not (is_positive z)

unfoldable pub remove_ready : NodeState → Time → Bool
remove_ready n now =
    if not n.tombstoned
    then false
    else if no_active n.active_count
    then true
    else not (is_zero n.remove_after) && not (is_after n.remove_after now)
