-- ===== src/Singbox/Node/State.antt =====
-- core/singboxcore/node.go: NodeState, the record of one proxy node of a group, whether it may be
-- chosen, and its open connections. A method that changes the node returns the new record. The nil
-- receivers that the methods answer by a zero value do not arise: a node here is always there.
use proxy_hub.Prelude.{
  ℕ, Bool, true, false, not, ◌&&◌, ◌||◌, String, List, [], ◌∷◌, ◌==◌, if◌then◌else◌,
}
use proxy_hub.Prelude.Int.{ℤ, pos, incr, decr, ltb_ℤ}
use proxy_hub.Singbox.Time.{Time, Duration, zero_time, is_zero, is_after, milliseconds}

-- HealthState. `unset` is the empty text.
pub data HealthState : Type 0 where
  unset alive dead blacklisted : HealthState

abbrev pub is_dead : HealthState → Bool
is_dead dead = true
is_dead _ = false

abbrev pub is_blacklisted : HealthState → Bool
is_blacklisted blacklisted = true
is_blacklisted _ = false

abbrev pub health_or_alive : HealthState → HealthState
health_or_alive unset = alive
health_or_alive h = h

-- The two fields of sing-box's option.Outbound that the code reads.
pub record Outbound : Type 0 where
  pub kind : String
  pub tag : String

-- `active_count` and `last_latency` are the two atomics. A connection is known by its number.
-- Counters of failures are unbounded here, and int in the source.
pub record NodeState : Type 0 where
  pub id : String
  pub tag : String
  pub option : Outbound
  pub tags : List String
  pub active_count : ℤ
  pub last_latency : ℕ
  pub enabled : Bool
  pub health : HealthState
  pub blacklisted_at : Time
  pub blacklisted_until : Time
  pub blacklist_reason : String
  pub tombstoned : Bool
  pub tombstoned_at : Time
  pub remove_after : Time
  pub last_error : String
  pub active_connections : List ℕ
  pub latency_candidate : Bool
  pub slow_count : ℕ
  pub failure_count : ℕ
  pub last_success_at : Time
  pub last_checked_at : Time
  pub probe_started_at : Time
  pub probe_running : Bool
  pub stale_fallback : Bool
  pub last_probe_error : String

unfoldable pub new_node_state : String → String → Outbound → NodeState
new_node_state id tag outbound = record {
  id = id;
  tag = tag;
  option = outbound;
  tags = tag ∷ [];
  active_count = pos 0;
  last_latency = 0;
  enabled = true;
  health = alive;
  blacklisted_at = zero_time;
  blacklisted_until = zero_time;
  blacklist_reason = "";
  tombstoned = false;
  tombstoned_at = zero_time;
  remove_after = zero_time;
  last_error = "";
  active_connections = [];
  latency_candidate = false;
  slow_count = 0;
  failure_count = 0;
  last_success_at = zero_time;
  last_checked_at = zero_time;
  probe_started_at = zero_time;
  probe_running = false;
  stale_fallback = false;
  last_probe_error = "";
}

-- LeastLatencyFallback.
unfoldable pub least_latency_fallback : NodeState → Bool
least_latency_fallback n = not n.latency_candidate && not (is_zero n.last_success_at)

-- `latency < 0` is refused.
unfoldable pub set_latency : NodeState → Duration → NodeState
set_latency n latency =
    if ltb_ℤ latency (pos 0) then n else record n { last_latency = milliseconds latency }

unfoldable pub dec_active : NodeState → NodeState
dec_active n = record n { active_count = decr n.active_count }

-- The branch of eligibleLocked on the health.
unfoldable pub eligible_health : HealthState → Time → Time → Bool
eligible_health dead until now = false
eligible_health blacklisted until now = not (is_zero until) && not (is_after until now)
eligible_health _ until now = true

-- eligible and eligibleLocked.
unfoldable pub eligible : NodeState → Time → Bool → Bool
unfolding eligible_health
eligible n now ignore_health =
    if not n.enabled || n.tombstoned
    then false
    else if ignore_health
    then true
    else eligible_health n.health n.blacklisted_until now

-- A map used as a set: adding twice is adding once.
unfoldable pub has_connection : ℕ → List ℕ → Bool
has_connection c [] = false
has_connection c (d ∷ ds) = d == c || has_connection c ds

unfoldable pub add_connection : ℕ → List ℕ → List ℕ
unfolding has_connection
add_connection c cs = if has_connection c cs then cs else c ∷ cs

unfoldable pub remove_connection : ℕ → List ℕ → List ℕ
remove_connection c [] = []
remove_connection c (d ∷ ds) =
    let rest = remove_connection c ds in if d == c then rest else d ∷ rest

-- The connection is counted only if the node is eligible.
unfoldable pub register_connection : NodeState → ℕ → Bool → Time → NodeState × Bool
unfolding eligible add_connection
register_connection n conn ignore_health now =
    if eligible n now ignore_health
    then (
      record n {
        active_connections = add_connection conn n.active_connections;
        active_count = incr n.active_count;
      },
      true,
    )
    else (n, false)

unfoldable pub unregister_connection : NodeState → ℕ → NodeState
unfolding remove_connection
unregister_connection n conn = record n {
  active_connections = remove_connection conn n.active_connections;
}

unfoldable pub disable : NodeState → NodeState
disable n = record n { enabled = false }

unfoldable pub enable : NodeState → NodeState
enable n = record n { enabled = true; health = health_or_alive n.health }
