-- ===== src/Service/Examples/HealthRuns.antt =====
-- Runs of the health batcher on tables in memory.
use proxy_hub.Prelude.{
  ℕ, ◌≡◌, refl, true, false, String, List, [], ◌∷◌, Option, none, some, arith, keep_if,
}
use mathlib.Core.List.{Perm}
use proxy_hub.Prelude.Int.{pos}
use proxy_hub.Prelude.Maps.{lookup, insert}
use proxy_hub.Prelude.Text.{trim_space}
use proxy_hub.ProxyUri.Unique.{has_text}
use proxy_hub.Singbox.Time.{Time}
use proxy_hub.Service.Errors.{Result, ok, err}
use proxy_hub.Service.Health.State.{
  MemoryState, Batcher, new_batcher, ResultRecord, default_health_config, Snapshot, fresh_state,
  empty_snapshot,
}
use proxy_hub.Service.Health.Store.{Database, facts}
use proxy_hub.Service.Health.Batcher.{ensure_loaded, get_health, blacklisted_ids}
use proxy_hub.Service.Health.Flush.{flush, shutdown}
use proxy_hub.Service.Health.Changes.{Change, recorded, released, apply_changes, writes}
use proxy_hub.Service.Health.Coherence.{IsCoherent, apply_changes-IsCoherent}
use proxy_hub.Service.Health.FlushLaws.{flush-IsCoherent}
use proxy_hub.Service.Health.Restart.{shutdown-reload, stopping}
use proxy_hub.Service.Health.LoadLaws.{content_of}
use proxy_hub.Service.Health.Blacklisting.{
  probe_failures-blacklist, apply_all, consecutive, IsBlacklistedUntil,
}
use proxy_hub.Service.Health.Readers.{blacklisted_ids-get_health, shows_blacklisted}
use proxy_hub.Service.Examples.Tables.{Tables, tables, tables-IsHealthStore, empty-IsSoundRow}

abbrev failure : ResultRecord
failure = record {
  source = "node-probe";
  target_id = "";
  probe_url = "http://a";
  available = false;
  latency_ms = pos 0;
  error = "timeout";
  checked_at = 100;
}

abbrev empty_tables : Tables
empty_tables = record { health = []; history = []; nodes = "n1" ∷ "n2" ∷ [] }

abbrev loaded_empty : Batcher
loaded_empty = record new_batcher { loaded = true }

loaded_empty-IsCoherent : IsCoherent tables tables-IsHealthStore loaded_empty empty_tables
unfolding lookup
loaded_empty-IsCoherent = record {
  keys = tt;
  kept = λ node m e. absurd (cc);
  clean = λ node m e c. absurd (cc);
  sound = λ node. empty-IsSoundRow ("n1" ∷ "n2" ∷ []) node;
}

-- A failure of the first node is in memory only.
abbrev with_failure : Batcher
with_failure = apply_changes ((1, recorded default_health_config "n1" failure) ∷ []) loaded_empty

with_failure-IsCoherent : IsCoherent tables tables-IsHealthStore with_failure empty_tables
with_failure-IsCoherent =
    apply_changes-IsCoherent tables tables-IsHealthStore
      ((1, recorded default_health_config "n1" failure) ∷ []) loaded_empty empty_tables
      loaded_empty-IsCoherent

abbrev same_id : ℕ → String
same_id k = "id"

-- While the flush writes, the first node is released.
abbrev release_first : List (Time × Change)
release_first = (2, released "n1") ∷ []

flush-IsCoherent_example :
    IsCoherent tables tables-IsHealthStore
      (flush tables same_id 3 (apply_changes release_first) with_failure empty_tables).0
      (flush tables same_id 3 (apply_changes release_first) with_failure empty_tables).1
unfolding writes apply_changes
flush-IsCoherent_example =
    flush-IsCoherent tables tables-IsHealthStore release_first (omega arith) with_failure
      empty_tables same_id 3 refl with_failure-IsCoherent

abbrev state_or : MemoryState → Option MemoryState → MemoryState
state_or m none = m
state_or m (some n) = n

-- What the last flush leaves of the first node, and the batcher that is loaded after it.
abbrev first_left : MemoryState
first_left =
    state_or (fresh_state (empty_snapshot ""))
      (lookup "n1" (flush tables same_id 3 (λ c. c) (stopping with_failure) empty_tables).0.states)

abbrev batcher_or : Result Batcher → Batcher
batcher_or (ok b) = b
batcher_or (err e) = new_batcher

abbrev reloaded : Batcher
reloaded = batcher_or (
    ensure_loaded tables (shutdown tables same_id 3 true with_failure empty_tables).0
      (shutdown tables same_id 3 true with_failure empty_tables).1)

shutdown-reload_example :
    (facts (content_of "n1" (lookup "n1" reloaded.states)).0
      ≡ facts (content_of "n1" (some first_left)).0)
    × Perm (content_of "n1" (lookup "n1" reloaded.states)).1 first_left.history
unfolding shutdown flush ensure_loaded apply_changes trim_space insert keep_if lookup
shutdown-reload_example =
    shutdown-reload tables tables-IsHealthStore same_id 3 with_failure reloaded empty_tables "n1"
      first_left with_failure-IsCoherent refl refl refl refl refl

-- A database that is not there.
abbrev no_tables : Database
no_tables = record tables { is_ready = λ t. false }

abbrev three_failures : List (Time × ResultRecord)
three_failures =
    (2, record failure { checked_at = 200 }) ∷ (3, record failure { checked_at = 300 }) ∷ []

probe_failures-blacklist_example :
    (consecutive "n1" (
        apply_all
          ((1, failure) ∷ three_failures)
          "n1"
          default_health_config
          (fresh_state (empty_snapshot "n1")))
      ≡ 3)
    × IsBlacklistedUntil 1_800_000_000_300
        (apply_all
          ((1, failure) ∷ three_failures)
          "n1"
          default_health_config
          (fresh_state (empty_snapshot "n1"))).snapshot
probe_failures-blacklist_example =
    probe_failures-blacklist three_failures 1 failure "n1" default_health_config
      (fresh_state (empty_snapshot "n1")) ((refl, refl), ((refl, refl), ((refl, refl), tt))) refl
      (omega arith)

abbrev fail_at : Time → Time × Change
fail_at t = (t, recorded default_health_config "n1" (record failure { checked_at = t }))

abbrev blacklisted_first : Batcher
blacklisted_first = apply_changes (fail_at 1 ∷ fail_at 2 ∷ fail_at 3 ∷ []) loaded_empty

abbrev listed : List String
listed = "n1" ∷ []

abbrev ok_or {ℓ} : {A : Type ℓ} → A → Result A → A
ok_or a (ok b) = b
ok_or a (err e) = a

abbrev shown_node : Option Snapshot
shown_node = ok_or none (get_health tables 4 "n1" blacklisted_first empty_tables).1

blacklisted_ids-get_health_example : has_text "n1" listed ≡ shows_blacklisted shown_node
unfolding blacklisted_ids get_health ensure_loaded apply_changes trim_space insert lookup
blacklisted_ids-get_health_example =
    blacklisted_ids-get_health tables 4 "n1" blacklisted_first empty_tables listed shown_node refl
      (refl, tt) refl refl
