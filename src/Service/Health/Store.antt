-- ===== src/Service/Health/Store.antt =====
-- The database as health_batcher.go uses it (gorm over SQLite), and model.Transaction.
use proxy_hub.Prelude.{
  ℕ, ◌≡◌, Bool, String, List, [], ◌∷◌, ◌++◌, Option, none, some, ◌≤◌, length, if◌then◌else◌,
}
use mathlib.Core.List.{Perm}
use proxy_hub.Prelude.Text.{str_eq, is_empty}
use proxy_hub.ProxyUri.Unique.{has_text}
use proxy_hub.Singbox.Time.{Time, zero_time}
use proxy_hub.Service.Errors.{Result, ok, err, ◌>>=◌, db_not_ready}
use proxy_hub.Service.Health.State.{Snapshot, HistoryRow, HistoryEntry}

-- `Db` is what the database holds, together with all that decides whether a call fails. A write
-- returns the database after it.
pub record Database : Type 1 where
  pub Db : Type 0
  pub is_ready : Db → Bool
  pub find_health : Db → Result (List Snapshot)
  pub recent_history : ℕ → Db → Result (List HistoryRow)
  pub existing_nodes : List String → Db → Result (List String)
  pub upsert_health : List Snapshot → Db → Result Db
  pub delete_history : List String → Db → Result Db
  pub insert_history : List HistoryRow → Db → Result Db
  pub commit : Db → Result Db

-- A failed body, or a failed commit, leaves the database as it was: the caller keeps it.
unfoldable pub transaction : (d : Database) → (d.Db → Result d.Db) → d.Db → Result d.Db
transaction d body db = if d.is_ready db then body db >>= d.commit else err db_not_ready

-- The hook of model_base before an insertion: a row without an identity gets one, and its times.
unfoldable pub before_create : String → Time → Snapshot → Snapshot
before_create new_id now s =
    if is_empty s.id then record s { id = new_id; created_at = now; updated_at = now } else s

-- What the columns say that an upsert assigns, apart from the time of the last update, which the
-- hook above may replace.
abbrev pub facts : Snapshot → Snapshot
facts s = record s { id = ""; node_id = ""; created_at = zero_time; updated_at = zero_time }

-- The entries that the rows hold for a node.
unfoldable pub entries_of : String → List HistoryRow → List HistoryEntry
entries_of node [] = []
entries_of node (r ∷ rs) =
    let rest = entries_of node rs in if str_eq r.node_id node then r.entry ∷ rest else rest

unfoldable pub row_of : String → List Snapshot → Option Snapshot
row_of node [] = none
row_of node (s ∷ ss) = let rest = row_of node ss in if str_eq s.node_id node then some s else rest

-- No two rows of one node: node_id is a unique index.
abbrev pub DistinctRows : List Snapshot → Type 0
DistinctRows [] = Unit {0}
DistinctRows (s ∷ ss) = (row_of s.node_id ss ≡ none) × DistinctRows ss

-- What is relied on: what a successful write changes, seen through a node's row and its history, and
-- what a query finds of them.
pub record IsHealthStore (d : Database) : Type 0 where
  pub health_row : d.Db → String → Option Snapshot
  pub history_rows : d.Db → String → List HistoryEntry
  pub upsert_row :
      (rows : List Snapshot) (db db' : d.Db) (node : String) (s : Snapshot)
      → d.upsert_health rows db ≡ ok db'
      → row_of node rows ≡ some s
      → (r : Snapshot) × (health_row db' node ≡ some r) × (facts r ≡ facts s)
  pub upsert_other :
      (rows : List Snapshot) (db db' : d.Db) (node : String)
      → d.upsert_health rows db ≡ ok db'
      → row_of node rows ≡ none
      → health_row db' node ≡ health_row db node
  pub upsert_history :
      (rows : List Snapshot) (db db' : d.Db) (node : String)
      → d.upsert_health rows db ≡ ok db'
      → history_rows db' node ≡ history_rows db node
  pub delete_rows :
      (nodes : List String) (db db' : d.Db) (node : String)
      → d.delete_history nodes db ≡ ok db'
      → history_rows db' node ≡ (if has_text node nodes then [] else history_rows db node)
  pub delete_row :
      (nodes : List String) (db db' : d.Db) (node : String)
      → d.delete_history nodes db ≡ ok db'
      → health_row db' node ≡ health_row db node
  pub insert_rows :
      (rows : List HistoryRow) (db db' : d.Db) (node : String)
      → d.insert_history rows db ≡ ok db'
      → history_rows db' node ≡ history_rows db node ++ entries_of node rows
  pub insert_row :
      (rows : List HistoryRow) (db db' : d.Db) (node : String)
      → d.insert_history rows db ≡ ok db'
      → health_row db' node ≡ health_row db node
  pub commit_rows :
      (db db' : d.Db) (node : String)
      → d.commit db ≡ ok db'
      → (health_row db' node ≡ health_row db node) × (history_rows db' node ≡ history_rows db node)
  pub find_rows :
      (rows : List Snapshot) (db : d.Db)
      → d.find_health db ≡ ok rows
      → DistinctRows rows × ((node : String) → row_of node rows ≡ health_row db node)
  pub recent_rows :
      (n : ℕ) (rows : List HistoryRow) (db : d.Db) (node : String)
      → d.recent_history n db ≡ ok rows
      → length (history_rows db node) ≤ n
      → Perm (entries_of node rows) (history_rows db node)
