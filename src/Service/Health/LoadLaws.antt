-- ===== src/Service/Health/LoadLaws.antt =====
-- ensureLoaded of health_batcher.go: a batcher that is loaded is coherent with the database, and
-- has what was written before.
use proxy_hub.Prelude.{
  ◌≤◌, ◌≡◌, refl, sym, ap, ◌∙◌, true, false, not, String, List, [], ◌∷◌, Option, none, some, inl,
  inr, Bool-cases, arith, length,
}
use mathlib.Core.List.{Perm}
use mathlib.Core.List.Perm
use mathlib.Core.Path.{subst}
use proxy_hub.Prelude.Maps.{lookup, DistinctKeys}
use proxy_hub.Prelude.Text.{str_eq, str_eq_iff}
use proxy_hub.Service.Errors.{ok, err, ◌>>=◌, chained, db_not_ready}
use proxy_hub.Service.Health.State.{
  Snapshot, MemoryState, HistoryEntry, HistoryRow, Batcher, history_limit, fresh_state,
  empty_snapshot,
}
use proxy_hub.Service.Health.Record.{snapshot_or_empty}
use proxy_hub.Service.Health.Store.{Database, IsHealthStore, row_of, entries_of, facts}
use proxy_hub.Service.Health.Batcher.{is_blank, ensure_loaded}
use proxy_hub.Service.Health.Window.{Counted}
use proxy_hub.Service.Health.Loading.{
  load_states, load_states-lookup, load_states-DistinctKeys, load_states-blank, loaded_from,
  perm-summarize_history,
}
use proxy_hub.Service.Health.ChangeLaws.{IsKept}
use proxy_hub.Service.Health.Coherence.{Agrees, IsCoherent, IsSoundRow}

row_of-node_id :
    (node : String) (rows : List Snapshot) (s : Snapshot)
    → row_of node rows ≡ some s
    → s.node_id ≡ node
unfolding row_of
row_of-node_id node [] s e = cc
row_of-node_id node (r ∷ rs) s e = elim (Bool-cases (str_eq r.node_id node)) [
  | inl same ↦
      let q : some r ≡ some s = simp same at e in
      let p : r ≡ s = cc in
      ap (λ (s : Snapshot). s.node_id) (sym p) ∙ (str_eq_iff r.node_id node).0 same
  | inr apart ↦ row_of-node_id node rs s (simp apart at e)
]

loaded_from-fields :
    (node : String) (o : Option Snapshot) (es : List HistoryEntry) (m : MemoryState)
    → loaded_from node o es ≡ some m
    → (m.snapshot ≡ some (snapshot_or_empty node o)) × (m.history ≡ es)
loaded_from-fields node none [] m e = cc
loaded_from-fields node (some s) [] m e =
    let q : fresh_state s ≡ m = cc in
    (sym (ap (λ (m : MemoryState). m.snapshot) q), sym (ap (λ (m : MemoryState). m.history) q))
loaded_from-fields node o (x ∷ es) m e =
    let q : record (fresh_state (snapshot_or_empty node o)) { history = x ∷ es } ≡ m = cc in
    (sym (ap (λ (m : MemoryState). m.snapshot) q), sym (ap (λ (m : MemoryState). m.history) q))

snapshot_or_empty-node_id :
    (node : String) (o : Option Snapshot)
    → ((s : Snapshot) → o ≡ some s → s.node_id ≡ node)
    → (snapshot_or_empty node o).node_id ≡ node
snapshot_or_empty-node_id node none h = refl
snapshot_or_empty-node_id node (some s) h = h s refl

-- What a state reads as: its snapshot or an empty one, and its history.
abbrev pub content_of : String → Option MemoryState → Snapshot × List HistoryEntry
content_of node none = (empty_snapshot node, [])
content_of node (some m) = (snapshot_or_empty node m.snapshot, m.history)

content_of-loaded_from :
    (node : String) (o : Option Snapshot) (es : List HistoryEntry)
    → content_of node (loaded_from node o es) ≡ (snapshot_or_empty node o, es)
content_of-loaded_from node none [] = refl
content_of-loaded_from node (some s) [] = refl
content_of-loaded_from node none (e ∷ es) = refl
content_of-loaded_from node (some s) (e ∷ es) = refl

module _ (d : Database) (st : IsHealthStore d) where
  open d use {Db, find_health, recent_history}
  open st use {health_row, history_rows, find_rows, recent_rows}

  -- What was read, and the batcher made of it.
  record Reading (b b' : Batcher) (db : Db) : Type 0 where
    rows : List Snapshot
    history : List HistoryRow
    found : find_health db ≡ ok rows
    recent : recent_history history_limit db ≡ ok history
    made : b' ≡ record b { loaded = true; states = load_states rows history }

  ensure_loaded-Reading :
      (b b' : Batcher) (db : Db) → b.loaded ≡ false → ensure_loaded d b db ≡ ok b' → Reading b b' db
  unfolding ensure_loaded
  ensure_loaded-Reading b b' db l e = elim (Bool-cases (not (d.is_ready db))) [
    | inl x ↦ let q : err db_not_ready ≡ ok b' = simp (l, x) at e in absurd (cc)
    | inr x ↦
        let q : (find_health db >>= λ snapshots. recent_history history_limit db >>= λ rows.
        ok (record b { loaded = true; states = load_states snapshots rows }))
            ≡ ok b' =
          simp (l, x) at e in
        let all = chained _ (find_health db) b' q in
        let rest = chained _ (recent_history history_limit db) b' all.went_on in
        let last = rest.went_on in
        record {
          rows = all.value;
          history = rest.value;
          found = all.returned;
          recent = rest.returned;
          made = cc;
        }
  ]

  module _ (b b' : Batcher) (db : Db) (r : Reading b b' db)
      (sound : (node : String) → IsSoundRow d st db node) (node : String) where
    entries : List HistoryEntry
    entries = entries_of node r.history

    entries-perm : Perm entries (history_rows db node)
    unfolding entries
    entries-perm = recent_rows history_limit r.history db node r.recent (sound node).0

    entries_bounded : length entries ≤ history_limit
    entries_bounded = omega (
      arith,
      (perm-summarize_history entries (history_rows db node) entries-perm).0,
      (sound node).0,
    )

    Reading-lookup :
        is_blank node ≡ false
        → lookup node b'.states ≡ loaded_from node (health_row db node) entries
    unfolding entries
    Reading-lookup blank =
        let states : b'.states ≡ load_states r.rows r.history =
          ap (λ (b : Batcher). b.states) r.made in
        ap (lookup node) states
        ∙ (load_states-lookup node r.rows r.history blank (find_rows r.rows db r.found).0
              entries_bounded
            ∙ ap (λ o. loaded_from node o (entries_of node r.history))
                ((find_rows r.rows db r.found).1 node))

    entries-Counted : Counted (snapshot_or_empty node (health_row db node)) entries
    entries-Counted =
        let same = perm-summarize_history entries (history_rows db node) entries-perm in
        ((sound node).1.0 ∙ sym same.1, (sound node).1.1 ∙ sym same.2)

    row_names : (s : Snapshot) → health_row db node ≡ some s → s.node_id ≡ node
    row_names s e = row_of-node_id node r.rows s ((find_rows r.rows db r.found).1 node ∙ e)

    not_blank : (m : MemoryState) → lookup node b'.states ≡ some m → is_blank node ≡ false
    not_blank m l = elim (Bool-cases (is_blank node)) [
      | inl x ↦
          let states : b'.states ≡ load_states r.rows r.history =
            ap (λ (b : Batcher). b.states) r.made in
          let gone : lookup node b'.states ≡ none =
            ap (lookup node) states ∙ load_states-blank node r.rows r.history x in
          absurd (cc)
      | inr x ↦ x
    ]

    Reading-state :
        (m : MemoryState)
        → lookup node b'.states ≡ some m
        → (IsKept node m) × (Agrees d st db node m)
    Reading-state m l =
        let from = sym (Reading-lookup (not_blank m l)) ∙ l in
        let (row, history) = loaded_from-fields node (health_row db node) entries m from in
        let whole : snapshot_or_empty node m.snapshot
            ≡ snapshot_or_empty node (health_row db node) =
          ap (snapshot_or_empty node) row in
        (
          (
            (_, row, snapshot_or_empty-node_id node (health_row db node) row_names),
            subst (λ h. (length h ≤ history_limit) × Counted (snapshot_or_empty node m.snapshot) h)
                (sym history)
                (entries_bounded, subst (λ s. Counted s entries) (sym whole) entries-Counted),
          ),
          (
            _,
            row,
            refl,
            subst (λ h. Perm (history_rows db node) h) (sym history) (Perm.symm entries-perm),
          ),
        )

  -- A load from a database with sound rows makes a coherent batcher.
  pub ensure_loaded-IsCoherent :
      (b b' : Batcher) (db : Db)
      → b.loaded ≡ false
      → ((node : String) → IsSoundRow d st db node)
      → ensure_loaded d b db ≡ ok b'
      → IsCoherent d st b' db
  ensure_loaded-IsCoherent b b' db l sound e =
      let r = ensure_loaded-Reading b b' db l e in
      let states : b'.states ≡ load_states r.rows r.history =
        ap (λ (b : Batcher). b.states) r.made in
      record {
        keys = subst DistinctKeys (sym states) (load_states-DistinctKeys r.rows r.history);
        kept = λ node m f. (Reading-state b b' db r sound node m f).0;
        clean = λ node m f c. (Reading-state b b' db r sound node m f).1;
        sound = sound;
      }

  -- What a coherent batcher has of a clean state, a batcher loaded later has again.
  pub reload-content :
      (b c c' : Batcher) (db : Db) (node : String) (m : MemoryState)
      → IsCoherent d st b db
      → lookup node b.states ≡ some m
      → m.dirty ≡ false
      → is_blank node ≡ false
      → c.loaded ≡ false
      → ensure_loaded d c db ≡ ok c'
      → (facts (content_of node (lookup node c'.states)).0 ≡ facts (content_of node (some m)).0)
        × Perm (content_of node (lookup node c'.states)).1 m.history
  reload-content b c c' db node m coherent l clean blank unloaded e =
      let r = ensure_loaded-Reading c c' db unloaded e in
      let (s, is_s, row, history) = coherent.clean node m l clean in
      let es = entries c c' db r coherent.sound node in
      let at : content_of node (lookup node c'.states)
          ≡ (snapshot_or_empty node (health_row db node), es) =
        ap (content_of node) (Reading-lookup c c' db r coherent.sound node blank)
        ∙ content_of-loaded_from node (health_row db node) es in
      (
        ap (λ (p : Snapshot × List HistoryEntry). facts p.0) at
            ∙ (row ∙ sym (ap (λ o. facts (snapshot_or_empty node o)) is_s)),
        subst (λ (p : Snapshot × List HistoryEntry). Perm p.1 m.history) (sym at)
            (Perm.trans (entries-perm c c' db r coherent.sound node) history),
      )
