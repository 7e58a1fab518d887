-- ===== src/Service/Health/Writing.antt =====
-- The rows of a flush and what its transaction makes of the database (health_batcher.go).
use proxy_hub.Prelude.{
  ℕ, suc, ◌≡◌, refl, sym, ap, ◌∙◌, Bool, true, false, String, List, [], ◌∷◌, ◌++◌, Option, none,
  some, if◌then◌else◌, All, inl, inr, Bool-cases, arith,
}
use mathlib.Core.List.{append-nil}
use mathlib.Core.Path.{subst}
use proxy_hub.Prelude.Text.{str_eq, str_eq_iff}
use proxy_hub.ProxyUri.Unique.{has_text}
use proxy_hub.Singbox.Time.{Time}
use proxy_hub.Service.Errors.{ok, err, ◌>>=◌, chained, db_not_ready}
use proxy_hub.Service.Health.State.{Snapshot, HistoryEntry, HistoryRow}
use proxy_hub.Service.Health.Record.{snapshot_or_empty}
use proxy_hub.Service.Health.Store.{
  Database, IsHealthStore, transaction, facts, row_of, entries_of, before_create,
}
use proxy_hub.Service.Health.Flush.{
  Payload, payload_names, created_rows, payload_rows, history_to_rows, insert_if_any,
  write_payloads, persist,
}
use proxy_hub.Service.Health.Payloads.{payload_for, DistinctPayloads, IsOfNode}

before_create-facts :
    (id : String) (now : Time) (s : Snapshot) → facts (before_create id now s) ≡ facts s
unfolding before_create
before_create-facts id now s = ground arith

before_create-node_id :
    (id : String) (now : Time) (s : Snapshot) → (before_create id now s).node_id ≡ s.node_id
unfolding before_create
before_create-node_id id now s = ground arith

-- The row that is written for a node, if one is.
abbrev RowFor : Option Payload → Option Snapshot → Type 0
RowFor none o = o ≡ none
RowFor (some p) o = (r : Snapshot) × (o ≡ some r) × (facts r ≡ facts p.snapshot)

created_rows-RowFor :
    (new_id : ℕ → String) (now : Time) (node : String) (ps : List Payload)
    → All IsOfNode ps
    → RowFor (payload_for node ps) (row_of node (created_rows new_id now ps))
unfolding payload_for row_of created_rows
created_rows-RowFor new_id now node [] h = refl
created_rows-RowFor new_id now node (p ∷ ps) h =
    let n = before_create-node_id (new_id 0) now p.snapshot ∙ h.0.0 in
    elim (Bool-cases (str_eq p.node_id node)) [
      | inl e ↦
          simp (n, e)
            (
              before_create (new_id 0) now p.snapshot,
              refl,
              before_create-facts (new_id 0) now p.snapshot,
            )
      | inr e ↦ simp (n, e) (created_rows-RowFor (λ k. new_id (suc k)) now node ps h.1)
    ]

pub entries_of-append :
    (node : String) (xs ys : List HistoryRow)
    → entries_of node (xs ++ ys) ≡ entries_of node xs ++ entries_of node ys
unfolding entries_of
entries_of-append node [] ys = refl
entries_of-append node (x ∷ xs) ys = ground (arith, entries_of-append node xs ys)

pub entries_of-history_to_rows :
    (name node : String) (h : List HistoryEntry)
    → entries_of node (history_to_rows name h) ≡ (if str_eq name node then h else [])
unfolding entries_of
entries_of-history_to_rows name node [] = ground arith
entries_of-history_to_rows name node (e ∷ es) =
    ground (arith, entries_of-history_to_rows name node es)

abbrev entries_for : String → Option Payload → List HistoryEntry
entries_for node none = []
entries_for node (some p) = entries_of node p.history

payload_rows-entries_for :
    (node : String) (ps : List Payload)
    → DistinctPayloads ps
    → All IsOfNode ps
    → entries_of node (payload_rows ps) ≡ entries_for node (payload_for node ps)
unfolding payload_for payload_rows entries_of
payload_rows-entries_for node [] d h = refl
payload_rows-entries_for node (p ∷ ps) d h =
    let rest = payload_rows-entries_for node ps d.1 h.1 in
    let all = entries_of-append node p.history (payload_rows ps) in
    elim (Bool-cases (str_eq p.node_id node)) [
      | inl e ↦
          let same : p.node_id ≡ node = (str_eq_iff p.node_id node).0 e in
          let gone : payload_for node ps ≡ none = rw same at d.0 in
          let last : entries_of node (payload_rows ps) ≡ [] = rest ∙ ap (entries_for node) gone in
          all ∙ simp (last, e, append-nil)
      | inr e ↦
          let rows = entries_of-history_to_rows p.node_id node h.0.1.0 in
          let here : entries_of node p.history ≡ [] =
            ap (entries_of node) h.0.1.1 ∙ (rows ∙ simp e) in
          all ∙ simp (here, e, rest)
    ]

is_some_payload : Option Payload → Bool
is_some_payload none = false
is_some_payload (some p) = true

has_text-payload_names :
    (node : String) (ps : List Payload)
    → has_text node (payload_names ps) ≡ is_some_payload (payload_for node ps)
unfolding has_text payload_for is_some_payload
has_text-payload_names node [] = refl
has_text-payload_names node (p ∷ ps) = ground (arith, has_text-payload_names node ps)

module _ (d : Database) (st : IsHealthStore d) where
  open d use {Db}
  open st use {
    health_row, history_rows, upsert_row, upsert_other, upsert_history, delete_rows, delete_row,
    insert_rows, insert_row, commit_rows,
  }

  -- What a flush makes of the rows of a node: those of its payload, if it has one.
  abbrev pub WrittenAs : String → Option Payload → Db → Db → Type 0
  WrittenAs node none db db' =
      (health_row db' node ≡ health_row db node) × (history_rows db' node ≡ history_rows db node)
  WrittenAs node (some p) db db' =
      (facts (snapshot_or_empty node (health_row db' node)) ≡ facts p.snapshot)
      × (history_rows db' node ≡ entries_of node p.history)

  insert_if_any_rows :
      (rows : List HistoryRow) (db db' : Db) (node : String)
      → insert_if_any d rows db ≡ ok db'
      → (history_rows db' node ≡ history_rows db node ++ entries_of node rows)
        × (health_row db' node ≡ health_row db node)
  unfolding entries_of
  insert_if_any_rows [] db db' node e =
      let same : db ≡ db' = cc in
      (rw (← same) (sym (append-nil (history_rows db node))), rw (← same) refl)
  insert_if_any_rows (r ∷ rs) db db' node e =
      (insert_rows (r ∷ rs) db db' node e, insert_row (r ∷ rs) db db' node e)

  upserted :
      (node : String) (o : Option Payload) (rows : List Snapshot) (db db' : Db)
      → d.upsert_health rows db ≡ ok db'
      → RowFor o (row_of node rows)
      → elim o as (λ _. Type 0) [
        | none ↦ health_row db' node ≡ health_row db node
        | some p ↦ facts (snapshot_or_empty node (health_row db' node)) ≡ facts p.snapshot
      ]
  upserted node none rows db db' e r = upsert_other rows db db' node e r
  upserted node (some p) rows db db' e (s, f, g) =
      let (r, h, k) = upsert_row rows db db' node s e f in
      ap (λ o. facts (snapshot_or_empty node o)) h ∙ (k ∙ g)

  -- The four writes, each at its database.
  record Writing (new_id : ℕ → String) (now : Time) (kept : List Payload) (db db' : Db)
      : Type 0 where
    first : Db
    second : Db
    third : Db
    upserts : d.upsert_health (created_rows new_id now kept) db ≡ ok first
    deletes : d.delete_history (payload_names kept) first ≡ ok second
    inserts : insert_if_any d (payload_rows kept) second ≡ ok third
    commits : d.commit third ≡ ok db'

  persist-Writing :
      (new_id : ℕ → String) (now : Time) (p : Payload) (ps : List Payload) (db db' : Db)
      → persist d new_id now (p ∷ ps) db ≡ ok db'
      → Writing new_id now (p ∷ ps) db db'
  unfolding persist transaction write_payloads
  persist-Writing new_id now p ps db db' e = elim (Bool-cases (d.is_ready db)) [
    | inl r ↦
        let run : write_payloads d new_id now (p ∷ ps) db >>= d.commit ≡ ok db' = rw r at e in
        let last = chained d.commit _ db' run in
        let middle = chained (insert_if_any d (payload_rows (p ∷ ps))) _ last.value last.returned in
        let front =
          chained (d.delete_history (payload_names (p ∷ ps))) _ middle.value middle.returned in
        record {
          first = front.value;
          second = middle.value;
          third = last.value;
          upserts = front.returned;
          deletes = front.went_on;
          inserts = middle.went_on;
          commits = last.went_on;
        }
    | inr r ↦ let stopped : err db_not_ready ≡ ok db' = rw r at e in absurd (cc)
  ]

  module _ {new_id : ℕ → String} {now : Time} {kept : List Payload} {db db' : Db}
      (w : Writing new_id now kept db db') (node : String) (distinct : DistinctPayloads kept)
      (of_node : All IsOfNode kept) where
    row_after : health_row db' node ≡ health_row w.first node
    row_after =
        (commit_rows w.third db' node w.commits).0
        ∙ ((insert_if_any_rows (payload_rows kept) w.second w.third node w.inserts).1
            ∙ delete_row (payload_names kept) w.first w.second node w.deletes)

    rows_after :
        (o : Option Payload)
        → payload_for node kept ≡ o
        → history_rows db' node
          ≡ (if is_some_payload o then [] else history_rows db node) ++ entries_for node o
    rows_after o e =
        let names = has_text-payload_names node kept ∙ ap is_some_payload e in
        let entries =
          payload_rows-entries_for node kept distinct of_node ∙ ap (entries_for node) e in
        let deleted = delete_rows (payload_names kept) w.first w.second node w.deletes in
        let before = upsert_history (created_rows new_id now kept) db w.first node w.upserts in
        let inserted = insert_if_any_rows (payload_rows kept) w.second w.third node w.inserts in
        (commit_rows w.third db' node w.commits).1
        ∙ (inserted.0 ∙ simp (deleted, names, before, entries))

    Writing-WrittenAs : (o : Option Payload) → payload_for node kept ≡ o → WrittenAs node o db db'
    unfolding is_some_payload
    Writing-WrittenAs none e =
        let row =
          subst (λ o. RowFor o (row_of node (created_rows new_id now kept))) e
            (created_rows-RowFor new_id now node kept of_node) in
        (
          row_after ∙ upserted node none (created_rows new_id now kept) db w.first w.upserts row,
          rows_after none e ∙ append-nil (history_rows db node),
        )
    Writing-WrittenAs (some p) e =
        let row =
          subst (λ o. RowFor o (row_of node (created_rows new_id now kept))) e
            (created_rows-RowFor new_id now node kept of_node) in
        (
          ap (λ o. facts (snapshot_or_empty node o)) row_after
              ∙ upserted node (some p) (created_rows new_id now kept) db w.first w.upserts row,
          rows_after (some p) e,
        )

  -- What a successful transaction makes of the rows of every node.
  pub persist-WrittenAs :
      (new_id : ℕ → String) (now : Time) (kept : List Payload) (db db' : Db) (node : String)
      → persist d new_id now kept db ≡ ok db'
      → DistinctPayloads kept
      → All IsOfNode kept
      → WrittenAs node (payload_for node kept) db db'
  unfolding persist payload_for
  persist-WrittenAs new_id now [] db db' node e distinct of_node =
      let same : db ≡ db' = cc in rw (← same) (refl, refl)
  persist-WrittenAs new_id now (p ∷ ps) db db' node e distinct of_node =
      Writing-WrittenAs (persist-Writing new_id now p ps db db' e) node distinct of_node
        (payload_for node (p ∷ ps)) refl
