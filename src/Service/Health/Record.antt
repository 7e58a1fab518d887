-- ===== src/Service/Health/Record.antt =====
-- health_batcher.go, applyNodeHealthProbeRecord and its helpers: what one result does to the state
-- of a node.
use proxy_hub.Prelude.{
  ℕ, ◌+◌, ◌-◌, ◌^◌, Bool, true, false, not, ◌&&◌, ◌||◌, String, List, [], ◌∷◌, ◌++◌, Option, none,
  some, if◌then◌else◌, leb, length, drop,
}
use proxy_hub.Prelude.Int.{pos_part, is_positive}
use proxy_hub.Prelude.Text.{str_eq, is_empty}
use proxy_hub.Singbox.Time.{Time, add_time, is_zero}
use proxy_hub.Service.Health.State.{
  history_limit, dedup_window, source_mapping_test, source_runtime_traffic, ResultRecord,
  HistoryEntry, Snapshot, empty_snapshot, MemoryState, next_revision, HealthConfig, until_is_after,
}

-- The last entries of the history, as many as the limit.
unfoldable pub trim_history : List HistoryEntry → List HistoryEntry
trim_history h = drop (length h - history_limit) h

-- The first choice, or else the second.
abbrev pub or_else {ℓ} : {A : Type ℓ} → Option A → Option A → Option A
or_else none o = o
or_else (some a) o = some a

-- The successes, the failures, and when the last of each was. The recursion meets the entries as
-- the loop does, from the last one to the first.
pub record Summary : Type 0 where
  pub successes : ℕ
  pub failures : ℕ
  pub last_success : Option Time
  pub last_failure : Option Time

abbrev pub summary_step : HistoryEntry → Summary → Summary
summary_step e s =
    if e.available
    then record s {
      successes = s.successes + 1;
      last_success = or_else s.last_success (some e.checked_at);
    }
    else record s {
      failures = s.failures + 1;
      last_failure = or_else s.last_failure (some e.checked_at);
    }

unfoldable pub summarize_history : List HistoryEntry → Summary
summarize_history [] = record {
  successes = 0;
  failures = 0;
  last_success = none;
  last_failure = none;
}
summarize_history (e ∷ es) = summary_step e (summarize_history es)

abbrev pub is_traffic_failure_source : String → Bool
is_traffic_failure_source source =
    str_eq source source_runtime_traffic || str_eq source source_mapping_test

-- absDuration(t.Sub(u)) <= nodeHealthRuntimeTrafficDedupWindow. A difference below the range of
-- Duration is its least value, and the negation of that wraps to itself.
abbrev pub close_in_time : Time → Time → Bool
close_in_time t u = leb ((t - u) + (u - t)) dedup_window || leb (2 ^ 63) (u - t)

abbrev pub repeats : ResultRecord → HistoryEntry → Bool
repeats r e =
    not e.available
    && not (str_eq e.source r.source)
    && is_traffic_failure_source e.source
    && close_in_time r.checked_at e.checked_at

unfoldable pub some_repeats : ResultRecord → List HistoryEntry → Bool
some_repeats r [] = false
some_repeats r (e ∷ es) = repeats r e || some_repeats r es

-- The other of the two reports of one failure has been seen.
unfoldable pub is_duplicate_failure : List HistoryEntry → ResultRecord → Bool
unfolding some_repeats
is_duplicate_failure history r =
    if r.available || not (is_traffic_failure_source r.source)
    then false
    else some_repeats r history

abbrev pub snapshot_or_empty : String → Option Snapshot → Snapshot
snapshot_or_empty node none = empty_snapshot node
snapshot_or_empty node (some s) = s

abbrev pub with_created : Time → Snapshot → Snapshot
with_created now s = record s { created_at = if is_zero s.created_at then now else s.created_at }

-- The snapshot with its node and its creation filled in.
unfoldable pub prepare_snapshot : Time → String → Option Snapshot → Snapshot
prepare_snapshot now node o =
    let s = snapshot_or_empty node o in
    with_created now (record s { node_id = if is_empty s.node_id then node else s.node_id })

-- The blacklisting after a result: none after a success; from the threshold on until a new
-- instant; otherwise what is left of an earlier one.
unfoldable pub blacklist_after : ResultRecord → HealthConfig → ℕ → Snapshot → Bool × Option Time
blacklist_after r cfg failures prev =
    if r.available
    then (false, none)
    else if is_positive cfg.failure_threshold && leb (pos_part cfg.failure_threshold) failures
    then (true, some (add_time r.checked_at cfg.blacklist_duration))
    else if prev.blacklisted && until_is_after prev.blacklisted_until r.checked_at
    then (true, prev.blacklisted_until)
    else (false, none)

abbrev pub failures_after : ResultRecord → Snapshot → ℕ
failures_after r prev = if r.available then 0 else prev.consecutive_failure_count + 1

-- The snapshot after a result, with the history that holds it.
unfoldable pub snapshot_after :
    Time → ResultRecord → HealthConfig → List HistoryEntry → Snapshot → Snapshot
unfolding blacklist_after summarize_history
snapshot_after now r cfg history s =
    let summary = summarize_history history in
    let failures = failures_after r s in
    record s {
      available = r.available;
      failure_count = summary.failures;
      success_count = summary.successes;
      consecutive_failure_count = failures;
      last_checked_at = some r.checked_at;
      last_latency_ms = r.latency_ms;
      last_success_at = summary.last_success;
      last_failure_at = summary.last_failure;
      updated_at = now;
      blacklisted = (blacklist_after r cfg failures s).0;
      blacklisted_until = (blacklist_after r cfg failures s).1;
      last_error = if r.available then "" else r.error;
    }

unfoldable pub apply_probe_record :
    Time → String → ResultRecord → HealthConfig → MemoryState → MemoryState
unfolding prepare_snapshot is_duplicate_failure trim_history snapshot_after
apply_probe_record now node r cfg m =
    let s = prepare_snapshot now node m.snapshot in
    let history = trim_history (m.history ++ r ∷ []) in
    if is_duplicate_failure m.history r then record m { snapshot = some s } else record {
      snapshot = some (snapshot_after now r cfg history s);
      history = history;
      dirty = true;
      revision = next_revision m.revision;
    }
