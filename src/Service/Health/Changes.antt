-- ===== src/Service/Health/Changes.antt =====
-- health.go: the calls that change a node's health by hand, and the changes that the batcher sees.
use proxy_hub.Prelude.{ℕ, ◌+◌, true, false, String, List, [], ◌∷◌, none, some, length}
use proxy_hub.Singbox.Time.{Time, Duration, add_time}
use proxy_hub.ProxyUri.Unique.{unique_non_empty}
use proxy_hub.Service.Health.State.{
  ResultRecord, Snapshot, Batcher, HealthConfig, normalize_health_config,
}
use proxy_hub.Service.Health.Batcher.{record_result, update_state, revive_states}

-- NodeRelease.
abbrev pub release_snapshot : Snapshot → Snapshot
release_snapshot s = record s {
  blacklisted = false;
  blacklisted_until = none;
  consecutive_failure_count = 0;
  last_error = "";
}

-- NodeBlacklist, for a duration that is positive.
abbrev pub blacklist_snapshot : Time → Duration → Snapshot → Snapshot
blacklist_snapshot now duration s = record s {
  available = false;
  blacklisted = true;
  blacklisted_until = some (add_time now duration);
  consecutive_failure_count = 0;
  last_error = "manually blacklisted";
}

-- blacklistRuntimeExcludedNode, with the text of the error.
abbrev pub exclude_snapshot : Time → HealthConfig → String → Snapshot → Snapshot
exclude_snapshot now cfg error s = record s {
  available = false;
  blacklisted = true;
  blacklisted_until = some (add_time now (normalize_health_config cfg).blacklist_duration);
  consecutive_failure_count = 0;
  last_error = error;
  last_failure_at = some now;
}

-- What a call does to the loaded batcher.
pub data Change : Type 0 where
  recorded : HealthConfig → String → ResultRecord → Change
  released : String → Change
  blacklisted : Duration → String → Change
  excluded : HealthConfig → String → String → Change
  revived : List String → Change

unfoldable pub apply_change : Time → Change → Batcher → Batcher
unfolding record_result update_state revive_states normalize_health_config
apply_change now (recorded cfg node r) b = record_result now cfg node r b
apply_change now (released node) b = update_state now release_snapshot node b
apply_change now (blacklisted duration node) b =
    update_state now (blacklist_snapshot now duration) node b
apply_change now (excluded cfg error node) b =
    update_state now (exclude_snapshot now cfg error) node b
apply_change now (revived nodes) b = revive_states now nodes b

-- Changes one after the other, each at its time.
unfoldable pub apply_changes : List (Time × Change) → Batcher → Batcher
unfolding apply_change
apply_changes [] b = b
apply_changes ((now, c) ∷ cs) b = apply_changes cs (apply_change now c b)

-- How many states the changes write, at most.
unfoldable pub change_writes : Change → ℕ
unfolding unique_non_empty
change_writes (recorded cfg node r) = 1
change_writes (released node) = 1
change_writes (blacklisted duration node) = 1
change_writes (excluded cfg error node) = 1
change_writes (revived nodes) = length (unique_non_empty nodes)

unfoldable pub writes : List (Time × Change) → ℕ
unfolding change_writes
writes [] = 0
writes ((now, c) ∷ cs) = change_writes c + writes cs
