-- ===== src/Service/Health/State.antt =====
-- The data of health_batcher.go and health.go: the rows of the database, the state in memory, the
-- configuration with its defaults.
use proxy_hub.Prelude.{
  ℕ, ◌+◌, ◌%◌, ◌^◌, Bool, false, not, ◌&&◌, String, List, [], Option, none, some, if◌then◌else◌,
}
use proxy_hub.Prelude.Int.{ℤ, pos, is_positive}
use proxy_hub.Prelude.Maps.{Map}
use proxy_hub.Prelude.Text.{is_empty}
use proxy_hub.Singbox.Time.{Time, Duration, zero_time, is_after, seconds}

abbrev pub history_limit : ℕ
history_limit = 30

-- nodeHealthRuntimeTrafficDedupWindow, in nanoseconds.
abbrev pub dedup_window : ℕ
dedup_window = 2_000_000_000

abbrev pub source_node_probe : String
source_node_probe = "node-probe"

abbrev pub source_mapping_test : String
source_mapping_test = "mapping-test"

abbrev pub source_runtime_traffic : String
source_runtime_traffic = "runtime-traffic"

-- A probe's result. The entries of the history have the same fields.
pub record ResultRecord : Type 0 where
  pub source : String
  pub target_id : String
  pub probe_url : String
  pub available : Bool
  pub latency_ms : ℤ
  pub error : String
  pub checked_at : Time

abbrev pub HistoryEntry : Type 0
HistoryEntry = ResultRecord

-- A row of the table proxy_node_health.
pub record Snapshot : Type 0 where
  pub id : String
  pub created_at : Time
  pub updated_at : Time
  pub node_id : String
  pub available : Bool
  pub failure_count : ℕ
  pub success_count : ℕ
  pub consecutive_failure_count : ℕ
  pub blacklisted : Bool
  pub blacklisted_until : Option Time
  pub last_latency_ms : ℤ
  pub last_error : String
  pub last_checked_at : Option Time
  pub last_success_at : Option Time
  pub last_failure_at : Option Time

-- &ProxyNodeHealthTable{NodeID: nodeID}.
abbrev pub empty_snapshot : String → Snapshot
empty_snapshot node = record {
  id = "";
  created_at = zero_time;
  updated_at = zero_time;
  node_id = node;
  available = false;
  failure_count = 0;
  success_count = 0;
  consecutive_failure_count = 0;
  blacklisted = false;
  blacklisted_until = none;
  last_latency_ms = pos 0;
  last_error = "";
  last_checked_at = none;
  last_success_at = none;
  last_failure_at = none;
}

-- A row of the table proxy_node_health_history, without the keys that the database gives it.
pub record HistoryRow : Type 0 where
  pub node_id : String
  pub entry : HistoryEntry

-- The revision is a uint64.
pub record MemoryState : Type 0 where
  pub snapshot : Option Snapshot
  pub history : List HistoryEntry
  pub dirty : Bool
  pub revision : ℕ

abbrev pub next_revision : ℕ → ℕ
next_revision r = (r + 1) % 2 ^ 64

-- A state with no history yet, as the code makes it for a node that it has not met.
abbrev pub fresh_state : Snapshot → MemoryState
fresh_state s = record { snapshot = some s; history = []; dirty = false; revision = 0 }

pub record Batcher : Type 0 where
  pub started : Bool
  pub loaded : Bool
  pub flush_on_stop : Bool
  pub states : Map MemoryState

-- globalNodeHealthBatcher at the start of the program.
abbrev pub new_batcher : Batcher
new_batcher = record { started = false; loaded = false; flush_on_stop = false; states = [] }

pub record HealthConfig : Type 0 where
  pub enabled : Bool
  pub probe_url : String
  pub interval : Duration
  pub timeout : Duration
  pub failure_threshold : ℤ
  pub blacklist_duration : Duration
  pub max_concurrency : ℤ

abbrev pub default_health_config : HealthConfig
default_health_config = record {
  enabled = Bool.true;
  probe_url = "https://www.gstatic.com/generate_204";
  interval = seconds 180;
  timeout = seconds 5;
  failure_threshold = pos 3;
  blacklist_duration = seconds 1800;
  max_concurrency = pos 20;
}

-- `if value <= 0 { value = fallback }`.
abbrev pub positive_or : ℤ → ℤ → ℤ
positive_or value fallback = if is_positive value then value else fallback

unfoldable pub normalize_health_config : HealthConfig → HealthConfig
normalize_health_config cfg =
    let d = default_health_config in
    record cfg {
      probe_url = if is_empty cfg.probe_url then d.probe_url else cfg.probe_url;
      interval = positive_or cfg.interval d.interval;
      timeout = positive_or cfg.timeout d.timeout;
      failure_threshold = positive_or cfg.failure_threshold d.failure_threshold;
      blacklist_duration = positive_or cfg.blacklist_duration d.blacklist_duration;
      max_concurrency = positive_or cfg.max_concurrency d.max_concurrency;
    }

abbrev pub until_is_after : Option Time → Time → Bool
until_is_after none now = Bool.true
until_is_after (some t) now = is_after t now

unfoldable pub is_health_blacklisted : Option Snapshot → Time → Bool
is_health_blacklisted none now = false
is_health_blacklisted (some row) now = row.blacklisted && until_is_after row.blacklisted_until now

-- A copy for a reader, in which a blacklisting that is over has ended.
unfoldable pub read_snapshot : Time → Snapshot → Snapshot
read_snapshot now s =
    if s.blacklisted && not (until_is_after s.blacklisted_until now)
    then record s { blacklisted = false; blacklisted_until = none }
    else s
