-- ===== src/Service/Health/Window.antt =====
-- The window of results that a node's state keeps (health_batcher.go, applyNodeHealthProbeRecord).
use proxy_hub.Prelude.{
  ℕ, ◌+◌, ◌-◌, ◌≤◌, ◌≡◌, refl, inl, inr, String, List, [], ◌∷◌, ◌++◌, Option, none, some,
  Bool-cases, arith, length, drop, suc, zero,
}
use proxy_hub.Singbox.Time.{Time}
use proxy_hub.Service.Health.State.{
  Snapshot, MemoryState, ResultRecord, HealthConfig, HistoryEntry, history_limit,
}
use proxy_hub.Service.Health.Record.{
  summarize_history, apply_probe_record, prepare_snapshot, is_duplicate_failure, snapshot_or_empty,
  snapshot_after, trim_history,
}
use proxy_hub.Service.Health.Batcher.{updated_state, revived_state}

length-drop {ℓ} : {A : Type ℓ} (n : ℕ) (xs : List A) → length (drop n xs) ≡ length xs - n
length-drop zero xs = omega arith
length-drop (suc n) [] = omega arith
length-drop (suc n) (x ∷ xs) = omega (arith, length-drop n xs)

-- The window holds the last entries, and no more than the limit.
pub length-trim_history : (h : List HistoryEntry) → length (trim_history h) ≤ history_limit
unfolding trim_history
length-trim_history h = omega (arith, length-drop (length h - history_limit) h)

pub trim_history-le : (h : List HistoryEntry) → length h ≤ history_limit → trim_history h ≡ h
unfolding trim_history
trim_history-le h l = let e : length h - history_limit ≡ 0 = omega arith in rw e

pub summarize_history-length :
    (h : List HistoryEntry)
    → (summarize_history h).successes + (summarize_history h).failures ≡ length h
unfolding summarize_history
summarize_history-length [] = refl
summarize_history-length (e ∷ es) = ground (arith, summarize_history-length es)

-- The counts of the row are those of the history.
abbrev pub Counted : Snapshot → List HistoryEntry → Type 0
Counted s h =
    (s.success_count ≡ (summarize_history h).successes)
    × (s.failure_count ≡ (summarize_history h).failures)

abbrev pub IsWindowed : String → MemoryState → Type 0
IsWindowed node m =
    (length m.history ≤ history_limit) × Counted (snapshot_or_empty node m.snapshot) m.history

prepare_snapshot-Counted :
    (now : Time) (node : String) (o : Option Snapshot) (h : List HistoryEntry)
    → Counted (snapshot_or_empty node o) h
    → Counted (prepare_snapshot now node o) h
unfolding prepare_snapshot
prepare_snapshot-Counted now node none h c = c
prepare_snapshot-Counted now node (some s) h c = c

pub apply_probe_record-IsWindowed :
    (now : Time) (node : String) (r : ResultRecord) (cfg : HealthConfig) (m : MemoryState)
    → IsWindowed node m
    → IsWindowed node (apply_probe_record now node r cfg m)
unfolding apply_probe_record snapshot_after
apply_probe_record-IsWindowed now node r cfg m (l, c) =
    elim (Bool-cases (is_duplicate_failure m.history r)) [
      | inl d ↦ rw d (l, prepare_snapshot-Counted now node m.snapshot m.history c)
      | inr d ↦ rw d (length-trim_history (m.history ++ r ∷ []), (refl, refl))
    ]

pub updated_state-IsWindowed :
    (now : Time) (node : String) (f : Snapshot → Snapshot) (m : MemoryState)
    → ((s : Snapshot) (h : List HistoryEntry) → Counted s h → Counted (f s) h)
    → IsWindowed node m
    → IsWindowed node (updated_state now node f m)
updated_state-IsWindowed now node f m keeps (l, c) = (
  l,
  keeps (prepare_snapshot now node m.snapshot) m.history
      (prepare_snapshot-Counted now node m.snapshot m.history c),
)

pub revived_state-IsWindowed :
    (now : Time) (node : String) (m : MemoryState)
    → IsWindowed node m
    → IsWindowed node (revived_state now node m)
revived_state-IsWindowed now node m w = w
