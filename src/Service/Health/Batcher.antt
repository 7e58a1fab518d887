-- ===== src/Service/Health/Batcher.antt =====
-- health_batcher.go: the batcher, its loading, the calls that read it and those that change it.
use proxy_hub.Prelude.{
  Bool, true, false, not, String, List, [], ◌∷◌, ◌++◌, map, Option, none, some, if◌then◌else◌,
  keep_if,
}
use proxy_hub.Prelude.Int.{pos, negsuc}
use proxy_hub.Prelude.Maps.{Map, lookup, insert}
use proxy_hub.Prelude.Sort.{stable_sort}
use proxy_hub.Prelude.Text.{is_empty, trim_space}
use proxy_hub.ProxyUri.Unique.{has_text, unique_non_empty}
use proxy_hub.Singbox.Time.{Time, is_zero, is_after}
use proxy_hub.Service.Errors.{Result, ok, err, ◌>>=◌, db_not_ready}
use proxy_hub.Service.Health.State.{
  history_limit, source_node_probe, ResultRecord, Snapshot, empty_snapshot, HistoryRow, MemoryState,
  fresh_state, next_revision, Batcher, HealthConfig, normalize_health_config, is_health_blacklisted,
  read_snapshot,
}
use proxy_hub.Service.Health.Record.{
  trim_history, snapshot_or_empty, prepare_snapshot, with_created, apply_probe_record,
}
use proxy_hub.Service.Health.Store.{Database}

abbrev pub is_blank : String → Bool
is_blank s = is_empty (trim_space s)

-- A state for each row of the health table, then the history of each node, trimmed.
unfoldable pub load_snapshots : List Snapshot → Map MemoryState → Map MemoryState
load_snapshots [] states = states
load_snapshots (s ∷ ss) states =
    load_snapshots ss
      (if is_blank s.node_id then states else insert s.node_id (fresh_state s) states)

abbrev pub loaded_state : String → Option MemoryState → MemoryState
loaded_state node none = fresh_state (empty_snapshot node)
loaded_state node (some m) = m

abbrev pub load_row : HistoryRow → Map MemoryState → Map MemoryState
load_row row states =
    let m = loaded_state row.node_id (lookup row.node_id states) in
    insert row.node_id (record m { history = trim_history (m.history ++ row.entry ∷ []) }) states

unfoldable pub load_history : List HistoryRow → Map MemoryState → Map MemoryState
load_history [] states = states
load_history (r ∷ rs) states =
    load_history rs (if is_blank r.node_id then states else load_row r states)

-- The state of a node that a call is about to change; a node that is not known gets an empty one.
abbrev pub ensure_snapshot : String → MemoryState → MemoryState
ensure_snapshot node m = record m { snapshot = some (snapshot_or_empty node m.snapshot) }

unfoldable pub ensure_memory_state : Map MemoryState → String → MemoryState
ensure_memory_state states node = ensure_snapshot node (loaded_state node (lookup node states))

abbrev pub ensure_started : Batcher → Batcher
ensure_started b = if b.started then b else record b { started = true; flush_on_stop = true }

-- The clean-up of a record on its arrival.
unfoldable pub clean_record : Time → ResultRecord → ResultRecord
clean_record now r = record {
  source = if is_blank r.source then source_node_probe else trim_space r.source;
  target_id = trim_space r.target_id;
  probe_url = trim_space r.probe_url;
  available = r.available;
  latency_ms = elim r.latency_ms [ pos n ↦ pos n | negsuc n ↦ pos 0 ];
  error = trim_space r.error;
  checked_at = if is_zero r.checked_at then now else r.checked_at;
}

-- The change of a loaded batcher, under its lock.
unfoldable pub record_result : Time → HealthConfig → String → ResultRecord → Batcher → Batcher
unfolding ensure_memory_state clean_record apply_probe_record normalize_health_config
record_result now cfg node r b =
    let m = ensure_memory_state b.states node in
    let r' = clean_record now r in
    record b {
      states =
          insert node (apply_probe_record now node r' (normalize_health_config cfg) m) b.states;
    }

abbrev pub updated_state : Time → String → (Snapshot → Snapshot) → MemoryState → MemoryState
updated_state now node f m =
    let s = f (prepare_snapshot now node m.snapshot) in
    record m {
      snapshot = some (record s { updated_at = now });
      dirty = true;
      revision = next_revision m.revision;
    }

unfoldable pub update_state : Time → (Snapshot → Snapshot) → String → Batcher → Batcher
unfolding ensure_memory_state prepare_snapshot
update_state now f node b =
    let m = ensure_memory_state b.states node in
    record b { states = insert node (updated_state now node f m) b.states }

-- The snapshot of a node that is revived.
abbrev pub revive_snapshot : Time → String → Snapshot → Snapshot
revive_snapshot now node s = record (with_created now s) {
  node_id = node;
  available = true;
  blacklisted = false;
  blacklisted_until = none;
  consecutive_failure_count = 0;
  last_error = "";
  updated_at = now;
}

abbrev pub revived_state : Time → String → MemoryState → MemoryState
revived_state now node m = record m {
  snapshot = some (revive_snapshot now node (snapshot_or_empty node m.snapshot));
  dirty = true;
  revision = next_revision m.revision;
}

unfoldable pub revive_each : Time → List String → Map MemoryState → Map MemoryState
unfolding ensure_memory_state
revive_each now [] states = states
revive_each now (node ∷ nodes) states =
    let m = ensure_memory_state states node in
    revive_each now nodes (insert node (revived_state now node m) states)

unfoldable pub revive_states : Time → List String → Batcher → Batcher
unfolding revive_each unique_non_empty
revive_states now nodes b = record b { states = revive_each now (unique_non_empty nodes) b.states }

abbrev pub add_known : String → Option Snapshot → Map Snapshot → Map Snapshot
add_known node none known = known
add_known node (some s) known = (node, s) ∷ known

-- The snapshots of the states, with the names of their nodes.
unfoldable pub known_snapshots : Map MemoryState → Map Snapshot
known_snapshots [] = []
known_snapshots ((node, m) ∷ states) = add_known node m.snapshot (known_snapshots states)

abbrev pub node_names {ℓ} : {V : Type ℓ} → Map V → List String
node_names states = map (λ e. e.0) states

abbrev pub updated_later : Snapshot → Snapshot → Bool
updated_later s t = is_after s.updated_at t.updated_at

abbrev pub snapshot_in : Option MemoryState → Option Snapshot
snapshot_in none = none
snapshot_in (some m) = m.snapshot

unfoldable pub read_known : Time → Option Snapshot → Option Snapshot
unfolding read_snapshot
read_known now none = none
read_known now (some s) = some (read_snapshot now s)

unfoldable pub map_known : Time → List String → Map MemoryState → Map Snapshot
unfolding read_known
map_known now [] states = []
map_known now (node ∷ nodes) states =
    let rest = map_known now nodes states in
    elim (read_known now (snapshot_in (lookup node states))) [
      | none ↦ rest
      | some s ↦ insert node s rest
    ]

unfoldable pub blacklisted_in : Time → Map Snapshot → List String
unfolding is_health_blacklisted
blacklisted_in now [] = []
blacklisted_in now ((node, s) ∷ known) =
    let rest = blacklisted_in now known in
    if is_health_blacklisted (some s) now then node ∷ rest else rest

module _ (d : Database) where
  open d use {Db, is_ready, find_health, recent_history, existing_nodes}

  unfoldable pub ensure_loaded : Batcher → Db → Result Batcher
  unfolding load_snapshots load_history
  ensure_loaded b db =
      if b.loaded
      then ok b
      else if not (is_ready db)
      then err db_not_ready
      else find_health db >>= λ snapshots. recent_history history_limit db >>= λ rows.
          ok (record b { loaded = true; states = load_history rows (load_snapshots snapshots []) })

  -- A call on the loaded batcher. If the loading fails, the batcher stays as it is.
  abbrev pub when_loaded {ℓ} :
      {A : Type ℓ} → Batcher → Result Batcher → (Batcher → Batcher × Result A) → Batcher × Result A
  when_loaded b (ok b') call = call b'
  when_loaded b (err e) call = (b, err e)

  unfoldable pub existing_node_set : List String → Db → Result (List String)
  unfolding unique_non_empty
  existing_node_set nodes db = elim (unique_non_empty nodes) [
    | [] ↦ ok []
    | n ∷ ns ↦
        if not (is_ready db)
        then err db_not_ready
        else existing_nodes (n ∷ ns) db >>= λ found. ok (keep_if (λ s. not (is_blank s)) found)
  ]

  unfoldable pub record_probe_result :
      Time
      → HealthConfig
      → String
      → ResultRecord
      → Batcher
      → Db
      → Batcher × Result (Option Snapshot)
  unfolding ensure_loaded record_result read_known
  record_probe_result now cfg node r b db = when_loaded b (ensure_loaded b db) λ b'.
      let after = record_result now cfg node r (ensure_started b') in
      (after, ok (read_known now (snapshot_in (lookup node after.states))))

  unfoldable pub update_snapshot :
      Time → String → (Snapshot → Snapshot) → Batcher → Db → Batcher × Result (Option Snapshot)
  unfolding ensure_loaded update_state read_known
  update_snapshot now node f b db = when_loaded b (ensure_loaded b db) λ b'.
      let after = update_state now f node (ensure_started b') in
      (after, ok (read_known now (snapshot_in (lookup node after.states))))

  unfoldable pub revive_nodes : Time → List String → Batcher → Db → Batcher × Result (Unit {0})
  unfolding ensure_loaded revive_states
  revive_nodes now nodes b db =
      when_loaded b (ensure_loaded b db) λ b'. (revive_states now nodes (ensure_started b'), ok tt)

  unfoldable pub list_health : Time → Batcher → Db → Batcher × Result (List Snapshot)
  unfolding ensure_loaded known_snapshots existing_node_set read_snapshot
  list_health now b db = when_loaded b (ensure_loaded b db) λ b'.
      let known =
        keep_if (λ (e : String × Snapshot). not (is_blank e.0)) (known_snapshots b'.states) in
      let rows = map (λ (e : String × Snapshot). read_snapshot now e.1) known in
      (
        b',
        existing_node_set (node_names known) db >>= λ existing.
            ok (stable_sort updated_later (keep_if (λ s. has_text s.node_id existing) rows)),
      )

  unfoldable pub map_by_nodes : Time → List String → Batcher → Db → Batcher × Result (Map Snapshot)
  unfolding ensure_loaded map_known
  map_by_nodes now nodes b db =
      when_loaded b (ensure_loaded b db) λ b'. (b', ok (map_known now nodes b'.states))

  unfoldable pub get_health : Time → String → Batcher → Db → Batcher × Result (Option Snapshot)
  unfolding ensure_loaded read_known
  get_health now node b db =
      when_loaded b (ensure_loaded b db)
        λ b'. (b', ok (read_known now (snapshot_in (lookup node b'.states))))

  unfoldable pub blacklisted_ids : Time → Batcher → Db → Batcher × Result (List String)
  unfolding ensure_loaded blacklisted_in known_snapshots
  blacklisted_ids now b db =
      when_loaded b (ensure_loaded b db)
        λ b'. (b', ok (blacklisted_in now (known_snapshots b'.states)))
