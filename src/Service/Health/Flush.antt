-- ===== src/Service/Health/Flush.antt =====
-- health_batcher.go: flush, the loop that calls it, and shutdown.
use proxy_hub.Prelude.{
  ℕ, suc, ◌==◌, Bool, false, not, ◌||◌, String, List, [], ◌∷◌, ◌++◌, map, Option, none, some,
  if◌then◌else◌, keep_if,
}
use proxy_hub.Prelude.Maps.{Map, lookup, insert, delete}
use proxy_hub.ProxyUri.Unique.{has_text}
use proxy_hub.Singbox.Time.{Time}
use proxy_hub.Service.Errors.{Result, ok, err, ◌>>=◌}
use proxy_hub.Service.Health.State.{Snapshot, HistoryEntry, HistoryRow, MemoryState, Batcher}
use proxy_hub.Service.Health.Store.{Database, transaction, before_create}
use proxy_hub.Service.Health.Batcher.{is_blank, ensure_loaded, existing_node_set}

pub record Payload : Type 0 where
  pub node_id : String
  pub revision : ℕ
  pub snapshot : Snapshot
  pub history : List HistoryRow
  pub exists : Bool

abbrev pub history_to_rows : String → List HistoryEntry → List HistoryRow
history_to_rows node history = map (λ e. record { node_id = node; entry = e }) history

abbrev pub payload_of : String → MemoryState → Snapshot → Payload
payload_of node m s = record {
  node_id = node;
  revision = m.revision;
  snapshot = s;
  history = history_to_rows node m.history;
  exists = false;
}

-- A payload for a state that is dirty.
abbrev pub payload_if_dirty : String → MemoryState → Option Snapshot → List Payload
payload_if_dirty node m none = []
payload_if_dirty node m (some s) =
    if not m.dirty || is_blank node then [] else payload_of node m s ∷ []

unfoldable pub collect_payloads : Map MemoryState → List Payload
collect_payloads [] = []
collect_payloads ((node, m) ∷ states) =
    payload_if_dirty node m m.snapshot ++ collect_payloads states

abbrev pub mark_existing : List String → Payload → Payload
mark_existing existing p = record p { exists = has_text p.node_id existing }

abbrev pub payload_exists : Payload → Bool
payload_exists p = p.exists

abbrev pub payload_names : List Payload → List String
payload_names ps = map (λ (p : Payload). p.node_id) ps

-- The rows as the hook leaves them: the row at a position gets the identity made for it.
unfoldable pub created_rows : (ℕ → String) → Time → List Payload → List Snapshot
unfolding before_create
created_rows new_id now [] = []
created_rows new_id now (p ∷ ps) =
    before_create (new_id 0) now p.snapshot ∷ created_rows (λ k. new_id (suc k)) now ps

unfoldable pub payload_rows : List Payload → List HistoryRow
payload_rows [] = []
payload_rows (p ∷ ps) = p.history ++ payload_rows ps

abbrev pub settle_payload : Payload → Map MemoryState → Option MemoryState → Map MemoryState
settle_payload p states none = states
settle_payload p states (some m) =
    if not (m.revision == p.revision)
    then states
    else if not p.exists
    then delete p.node_id states
    else insert p.node_id (record m { dirty = false }) states

-- What is written is clean, unless it has changed since it was read.
unfoldable pub settle_payloads : List Payload → Map MemoryState → Map MemoryState
settle_payloads [] states = states
settle_payloads (p ∷ ps) states =
    settle_payloads ps (settle_payload p states (lookup p.node_id states))

module _ (d : Database) where
  open d use {Db, upsert_health, delete_history, insert_history}

  abbrev pub insert_if_any : List HistoryRow → Db → Result Db
  insert_if_any [] tx = ok tx
  insert_if_any (r ∷ rs) tx = insert_history (r ∷ rs) tx

  -- The body of the transaction, for the payloads whose nodes exist.
  unfoldable pub write_payloads : (ℕ → String) → Time → List Payload → Db → Result Db
  unfolding created_rows payload_rows
  write_payloads new_id now kept tx =
      upsert_health (created_rows new_id now kept) tx
      >>= delete_history (payload_names kept)
      >>= insert_if_any (payload_rows kept)

  unfoldable pub persist : (ℕ → String) → Time → List Payload → Db → Result Db
  unfolding transaction write_payloads
  persist new_id now [] db = ok db
  persist new_id now (p ∷ ps) db = transaction d (write_payloads new_id now (p ∷ ps)) db

  -- The batcher that others left between the two locks, with the payloads settled if the database
  -- took them.
  abbrev pub finish_flush :
      List Payload → Batcher → Db → Result Db → Batcher × Db × Result (Unit {0})
  finish_flush payloads b db (ok db') =
      (record b { states = settle_payloads payloads b.states }, db', ok tt)
  finish_flush payloads b db (err e) = (b, db, err e)

  abbrev pub marked : List String → List Payload → List Payload
  marked existing payloads = map (mark_existing existing) payloads

  abbrev pub flush_marked :
      (ℕ → String)
      → Time
      → List Payload
      → Batcher
      → Db
      → Result (List String)
      → Batcher × Db × Result (Unit {0})
  flush_marked new_id now payloads b db (ok existing) =
      let ps = marked existing payloads in
      finish_flush ps b db (persist new_id now (keep_if payload_exists ps) db)
  flush_marked new_id now payloads b db (err e) = (b, db, err e)

  -- `others` is what other calls do to the batcher between the two locks.
  unfoldable pub flush_payloads :
      (ℕ → String)
      → Time
      → (Batcher → Batcher)
      → List Payload
      → Batcher
      → Db
      → Batcher × Db × Result (Unit {0})
  unfolding existing_node_set persist settle_payloads
  flush_payloads new_id now others [] b db = (b, db, ok tt)
  flush_payloads new_id now others (p ∷ ps) b db =
      flush_marked new_id now (p ∷ ps) (others b) db
        (existing_node_set d (payload_names (p ∷ ps)) db)

  abbrev pub flush_loaded :
      (ℕ → String)
      → Time
      → (Batcher → Batcher)
      → Batcher
      → Db
      → Result Batcher
      → Batcher × Db × Result (Unit {0})
  flush_loaded new_id now others b db (ok b') =
      flush_payloads new_id now others (collect_payloads b'.states) b' db
  flush_loaded new_id now others b db (err e) = (b, db, err e)

  unfoldable pub flush :
      (ℕ → String) → Time → (Batcher → Batcher) → Batcher → Db → Batcher × Db × Result (Unit {0})
  unfolding ensure_loaded collect_payloads flush_payloads
  flush new_id now others b db = flush_loaded new_id now others b db (ensure_loaded d b db)

  -- One turn of the loop in the background: the ticker flushes, and the end of the context flushes
  -- if the batcher was told to. The errors are dropped.
  pub data RunEvent : Type 0 where
    ticked cancelled : RunEvent

  unfoldable pub run_turn : (ℕ → String) → Time → RunEvent → Batcher → Db → Batcher × Db
  unfolding flush
  run_turn new_id now ticked b db = let (b', db', r) = flush new_id now (λ c. c) b db in (b', db')
  run_turn new_id now cancelled b db =
      let (b', db', r) = flush new_id now (λ c. c) b db in
      if b.flush_on_stop then (b', db') else (b, db)

  -- A shutdown waits for the loop, which makes the last flush; with no loop it flushes itself.
  unfoldable pub shutdown : (ℕ → String) → Time → Bool → Batcher → Db → Batcher × Db
  unfolding flush run_turn
  shutdown new_id now want b db =
      let stopped = record b { flush_on_stop = want; started = false } in
      let (flushed, db', r) = flush new_id now (λ c. c) stopped db in
      let ended =
        if b.started
        then run_turn new_id now cancelled stopped db
        else if want
        then (flushed, db')
        else (stopped, db) in
      (record ended.0 { loaded = false; states = [] }, ended.1)
