-- ===== src/Service/Examples/Tables.antt =====
-- Tables in memory, as a database for the tests of the health batcher.
use proxy_hub.Prelude.{
  ◌≡◌, refl, sym, ap, ◌∙◌, true, String, List, [], ◌∷◌, ◌++◌, none, some, if◌then◌else◌, keep_if,
  inl, inr, Bool-cases, arith,
}
use mathlib.Core.List.{Perm}
use mathlib.Core.List.Perm
use mathlib.Core.Path.{subst}
use proxy_hub.Prelude.Text.{str_eq, str_eq_iff, str_eq_refl}
use proxy_hub.ProxyUri.Unique.{has_text}
use proxy_hub.Service.Errors.{ok}
use proxy_hub.Service.Health.State.{Snapshot, HistoryRow}
use proxy_hub.Service.Health.Store.{Database, IsHealthStore, row_of, entries_of, DistinctRows}
use proxy_hub.Service.Health.Coherence.{IsSoundRow}
use proxy_hub.Service.Health.Record.{summarize_history}
use proxy_hub.Service.Health.Writing.{entries_of-append}

-- Newer rows stand before the older ones of the same node.
pub record Tables : Type 0 where
  pub health : List Snapshot
  pub history : List HistoryRow
  pub nodes : List String

unfoldable pub remove_rows : String → List Snapshot → List Snapshot
remove_rows node [] = []
remove_rows node (s ∷ ss) =
    let rest = remove_rows node ss in if str_eq s.node_id node then rest else s ∷ rest

unfoldable pub current_rows : List Snapshot → List Snapshot
unfolding remove_rows
current_rows [] = []
current_rows (s ∷ ss) = s ∷ remove_rows s.node_id (current_rows ss)

unfoldable pub remove_history : List String → List HistoryRow → List HistoryRow
remove_history nodes [] = []
remove_history nodes (r ∷ rs) =
    let rest = remove_history nodes rs in if has_text r.node_id nodes then rest else r ∷ rest

abbrev pub tables : Database
tables = record {
  Db = Tables;
  is_ready = λ t. true;
  find_health = λ t. ok (current_rows t.health);
  recent_history = λ n t. ok t.history;
  existing_nodes = λ nodes t. ok (keep_if (λ node. has_text node t.nodes) nodes);
  upsert_health = λ rows t. ok (record t { health = rows ++ t.health });
  delete_history = λ nodes t. ok (record t { history = remove_history nodes t.history });
  insert_history = λ rows t. ok (record t { history = t.history ++ rows });
  commit = λ t. ok t;
}

row_of-append :
    (node : String) (xs ys : List Snapshot)
    → row_of node (xs ++ ys) ≡ elim (row_of node xs) [ none ↦ row_of node ys | some s ↦ some s ]
unfolding row_of
row_of-append node [] ys = refl
row_of-append node (x ∷ xs) ys = ground (arith, row_of-append node xs ys)

row_of-remove_rows :
    (node name : String) (rows : List Snapshot)
    → row_of node (remove_rows name rows) ≡ (if str_eq name node then none else row_of node rows)
unfolding row_of remove_rows
row_of-remove_rows node name [] = ground arith
row_of-remove_rows node name (s ∷ ss) = ground (
  arith,
  row_of-remove_rows node name ss,
  str_eq_iff s.node_id node,
  str_eq_iff s.node_id name,
  str_eq_iff name node,
)

row_of-current_rows :
    (node : String) (rows : List Snapshot) → row_of node (current_rows rows) ≡ row_of node rows
unfolding row_of current_rows
row_of-current_rows node [] = refl
row_of-current_rows node (s ∷ ss) =
    ground (arith, row_of-remove_rows node s.node_id (current_rows ss), row_of-current_rows node ss)

remove_rows-DistinctRows :
    (name : String) (rows : List Snapshot)
    → DistinctRows rows
    → DistinctRows (remove_rows name rows)
unfolding remove_rows
remove_rows-DistinctRows name [] d = tt
remove_rows-DistinctRows name (s ∷ ss) d = elim (Bool-cases (str_eq s.node_id name)) [
  | inl e ↦ simp e (remove_rows-DistinctRows name ss d.1)
  | inr e ↦ simp e (
    ground (arith, row_of-remove_rows s.node_id name ss, d.0),
    remove_rows-DistinctRows name ss d.1,
  )
]

current_rows-DistinctRows : (rows : List Snapshot) → DistinctRows (current_rows rows)
unfolding current_rows
current_rows-DistinctRows [] = tt
current_rows-DistinctRows (s ∷ ss) = (
  row_of-remove_rows s.node_id s.node_id (current_rows ss) ∙ simp (str_eq_refl s.node_id),
  remove_rows-DistinctRows s.node_id (current_rows ss) (current_rows-DistinctRows ss),
)

entries_of-remove_history :
    (node : String) (nodes : List String) (rows : List HistoryRow)
    → entries_of node (remove_history nodes rows)
      ≡ (if has_text node nodes then [] else entries_of node rows)
unfolding entries_of remove_history
entries_of-remove_history node nodes [] = ground arith
entries_of-remove_history node nodes (r ∷ rs) =
    let rest = entries_of-remove_history node nodes rs in
    elim (Bool-cases (str_eq r.node_id node)) [
      | inl e ↦
          let same : has_text r.node_id nodes ≡ has_text node nodes =
            ap (λ k. has_text k nodes) ((str_eq_iff r.node_id node).0 e) in
          ground arith
      | inr e ↦ ground arith
    ]

written : (t t' : Tables) → ok t ≡ ok t' → t ≡ t'
written t t' e = cc

pub tables-IsHealthStore : IsHealthStore tables
tables-IsHealthStore = record {
  health_row = λ t node. row_of node t.health;
  history_rows = λ t node. entries_of node t.history;
  upsert_row = λ rows db db' node s e r. (
    s,
    ap (λ (t : Tables). row_of node t.health) (sym (written _ db' e))
        ∙ (row_of-append node rows db.health ∙ simp r),
    refl,
  );
  upsert_other = λ rows db db' node e r.
      ap (λ (t : Tables). row_of node t.health) (sym (written _ db' e))
      ∙ (row_of-append node rows db.health ∙ simp r);
  upsert_history =
      λ rows db db' node e. ap (λ (t : Tables). entries_of node t.history) (sym (written _ db' e));
  delete_rows = λ nodes db db' node e.
      ap (λ (t : Tables). entries_of node t.history) (sym (written _ db' e))
      ∙ entries_of-remove_history node nodes db.history;
  delete_row =
      λ nodes db db' node e. ap (λ (t : Tables). row_of node t.health) (sym (written _ db' e));
  insert_rows = λ rows db db' node e.
      ap (λ (t : Tables). entries_of node t.history) (sym (written _ db' e))
      ∙ entries_of-append node db.history rows;
  insert_row =
      λ rows db db' node e. ap (λ (t : Tables). row_of node t.health) (sym (written _ db' e));
  commit_rows = λ db db' node e. (
    ap (λ (t : Tables). row_of node t.health) (sym (written _ db' e)),
    ap (λ (t : Tables). entries_of node t.history) (sym (written _ db' e)),
  );
  find_rows = λ rows db e.
      let q : current_rows db.health ≡ rows = cc in
      (
        subst DistinctRows q (current_rows-DistinctRows db.health),
        λ node. ap (row_of node) (sym q) ∙ row_of-current_rows node db.health,
      );
  recent_rows = λ n rows db node e l.
      let q : db.history ≡ rows = cc in
      subst (λ h. Perm (entries_of node h) (entries_of node db.history)) q (Perm.refl _);
}

pub empty-IsSoundRow :
    (nodes : List String) (node : String)
    → IsSoundRow tables tables-IsHealthStore
        (record { health = []; history = []; nodes = nodes })
        node
unfolding tables-IsHealthStore row_of entries_of summarize_history
empty-IsSoundRow nodes node = (omega arith, (refl, refl))
