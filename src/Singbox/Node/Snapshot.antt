-- ===== src/Singbox/Node/Snapshot.antt =====
-- core/singboxcore/node.go: NodeSnapshot.
use proxy_hub.Prelude.{ℕ, Bool, ◌&&◌, ◌||◌, String}
use proxy_hub.Prelude.Int.{ℤ}
use proxy_hub.Singbox.Time.{Time, is_zero, is_after}
use proxy_hub.Singbox.Node.State.{HealthState, NodeState, is_blacklisted}

pub record NodeSnapshot : Type 0 where
  pub id : String
  pub tag : String
  pub enabled : Bool
  pub health : HealthState
  pub is_listed : Bool
  pub blacklisted_until : Time
  pub blacklist_reason : String
  pub tombstoned : Bool
  pub tombstoned_at : Time
  pub remove_after : Time
  pub active_count : ℤ
  pub last_latency_ms : ℕ
  pub last_error : String
  pub last_checked_at : Time
  pub last_success_at : Time
  pub probe_started_at : Time
  pub probe_running : Bool
  pub probe_failure_count : ℕ
  pub last_probe_error : String
  pub latency_candidate : Bool
  pub latency_fallback : Bool
  pub latency_slow_count : ℕ

unfoldable pub snapshot_node : NodeState → Time → NodeSnapshot
snapshot_node n now = record {
  id = n.id;
  tag = n.tag;
  enabled = n.enabled;
  health = n.health;
  is_listed =
      is_blacklisted n.health && (is_zero n.blacklisted_until || is_after n.blacklisted_until now);
  blacklisted_until = n.blacklisted_until;
  blacklist_reason = n.blacklist_reason;
  tombstoned = n.tombstoned;
  tombstoned_at = n.tombstoned_at;
  remove_after = n.remove_after;
  active_count = n.active_count;
  last_latency_ms = n.last_latency;
  last_error = n.last_error;
  last_checked_at = n.last_checked_at;
  last_success_at = n.last_success_at;
  probe_started_at = n.probe_started_at;
  probe_running = n.probe_running;
  probe_failure_count = n.failure_count;
  last_probe_error = n.last_probe_error;
  latency_candidate = n.latency_candidate;
  latency_fallback = n.stale_fallback;
  latency_slow_count = n.slow_count;
}
