-- ===== src/Service/Health/Blacklisting.antt =====
-- How results blacklist a node, and what its readers see of it (health_batcher.go).
use proxy_hub.Prelude.{
  ℕ, ◌+◌, ◌≤◌, ◌≡◌, refl, ap, true, false, String, List, [], ◌∷◌, Option, none, some, arith, length,
  All, leb,
}
use proxy_hub.Prelude.Int.{pos_part, is_positive}
use proxy_hub.Singbox.Time.{Time, add_time}
use proxy_hub.Service.Health.State.{Snapshot, MemoryState, ResultRecord, HealthConfig}
use proxy_hub.Service.Health.Record.{
  apply_probe_record, snapshot_after, prepare_snapshot, blacklist_after, is_traffic_failure_source,
  snapshot_or_empty,
}

-- Results in order, each at its time.
unfoldable pub apply_all :
    List (Time × ResultRecord) → String → HealthConfig → MemoryState → MemoryState
unfolding apply_probe_record
apply_all [] node cfg m = m
apply_all ((now, r) ∷ rs) node cfg m = apply_all rs node cfg (apply_probe_record now node r cfg m)

abbrev pub consecutive : String → MemoryState → ℕ
consecutive node m = (snapshot_or_empty node m.snapshot).consecutive_failure_count

-- A failure that only a probe reports.
abbrev pub IsProbeFailure : Time × ResultRecord → Type 0
IsProbeFailure e = (e.1.available ≡ false) × (is_traffic_failure_source e.1.source ≡ false)

abbrev pub last_checked : Time → List (Time × ResultRecord) → Time
last_checked t [] = t
last_checked t ((now, r) ∷ rs) = last_checked r.checked_at rs

prepare_snapshot-consecutive :
    (now : Time) (node : String) (o : Option Snapshot)
    → (prepare_snapshot now node o).consecutive_failure_count
      ≡ (snapshot_or_empty node o).consecutive_failure_count
unfolding prepare_snapshot
prepare_snapshot-consecutive now node none = refl
prepare_snapshot-consecutive now node (some s) = refl

-- Blacklisted until a time.
abbrev pub IsBlacklistedUntil : Time → Option Snapshot → Type 0
IsBlacklistedUntil t none = ⊥
IsBlacklistedUntil t (some s) = (s.blacklisted ≡ true) × (s.blacklisted_until ≡ some t)

-- One failure of a probe is counted, and blacklists from the threshold on.
probe_failure-consecutive :
    (now : Time) (node : String) (r : ResultRecord) (cfg : HealthConfig) (m : MemoryState)
    → IsProbeFailure (now, r)
    → consecutive node (apply_probe_record now node r cfg m) ≡ consecutive node m + 1
unfolding apply_probe_record snapshot_after
probe_failure-consecutive now node r cfg m f =
    simp (f.0, f.1) (ap (λ n. n + 1) (prepare_snapshot-consecutive now node m.snapshot))

probe_failure-IsBlacklistedUntil :
    (now : Time) (node : String) (r : ResultRecord) (cfg : HealthConfig) (m : MemoryState)
    → IsProbeFailure (now, r)
    → is_positive cfg.failure_threshold ≡ true
    → pos_part cfg.failure_threshold ≤ consecutive node m + 1
    → IsBlacklistedUntil
        (add_time r.checked_at cfg.blacklist_duration)
        (apply_probe_record now node r cfg m).snapshot
unfolding apply_probe_record snapshot_after blacklist_after
probe_failure-IsBlacklistedUntil now node r cfg m f positive reached =
    let c = prepare_snapshot-consecutive now node m.snapshot in
    let high : leb (pos_part cfg.failure_threshold) (consecutive node m + 1) ≡ true =
      ground arith in
    simp (f.0, f.1, positive, c, high) (refl, refl)

-- Failures of probes in a row, as many as the threshold asks for on top of those before, blacklist
-- the node for the configured duration after the last of them, and each is counted.
pub probe_failures-blacklist :
    (rs : List (Time × ResultRecord)) (now : Time) (r : ResultRecord) (node : String)
    (cfg : HealthConfig) (m : MemoryState)
    → All IsProbeFailure ((now, r) ∷ rs)
    → is_positive cfg.failure_threshold ≡ true
    → pos_part cfg.failure_threshold ≤ consecutive node m + length ((now, r) ∷ rs)
    → (consecutive node (apply_all ((now, r) ∷ rs) node cfg m)
        ≡ consecutive node m + length ((now, r) ∷ rs))
      × IsBlacklistedUntil
          (add_time (last_checked r.checked_at rs) cfg.blacklist_duration)
          (apply_all ((now, r) ∷ rs) node cfg m).snapshot
unfolding apply_all
probe_failures-blacklist [] now r node cfg m f positive reached =
    let c = probe_failure-consecutive now node r cfg m f.0 in
    (omega arith, probe_failure-IsBlacklistedUntil now node r cfg m f.0 positive (omega arith))
probe_failures-blacklist ((at, q) ∷ rs) now r node cfg m f positive reached =
    let c = probe_failure-consecutive now node r cfg m f.0 in
    let m' = apply_probe_record now node r cfg m in
    let later = probe_failures-blacklist rs at q node cfg m' f.1 positive (omega arith) in
    (omega arith, later.1)
