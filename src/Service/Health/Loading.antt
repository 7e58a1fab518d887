-- ===== src/Service/Health/Loading.antt =====
-- ensureLoaded of health_batcher.go: the states that it makes of the rows.
use proxy_hub.Prelude.{
  ℕ, suc, ◌+◌, ◌≤◌, ◌≡◌, refl, sym, ap, ◌∙◌, true, false, String, List, [], ◌∷◌, ◌++◌, Option, none,
  some, if◌then◌else◌, inl, inr, Bool-cases, arith, length, length-append, if_both,
}
use mathlib.Core.List.{foldr, append_assoc, Perm}
use mathlib.Core.List.Perm
use mathlib.Core.Path.{subst}
use native.Mathlib.Nat.{ℕ_set}
use proxy_hub.Prelude.Maps.{Map, lookup, insert, lookup-insert, DistinctKeys, insert-DistinctKeys}
use proxy_hub.Prelude.Text.{str_eq, str_eq_iff}
use proxy_hub.Service.Health.State.{
  Snapshot, MemoryState, HistoryEntry, HistoryRow, fresh_state, history_limit,
}
use proxy_hub.Service.Health.Record.{summarize_history, snapshot_or_empty, or_else, trim_history}
use proxy_hub.Service.Health.Store.{row_of, entries_of, DistinctRows}
use proxy_hub.Service.Health.Batcher.{
  is_blank, load_snapshots, load_history, load_row, loaded_state,
}
use proxy_hub.Service.Health.Window.{trim_history-le, summarize_history-length}

abbrev fresh_of : Option Snapshot → Option MemoryState
fresh_of none = none
fresh_of (some s) = some (fresh_state s)

load_snapshots-lookup :
    (node : String) (rows : List Snapshot) (states : Map MemoryState)
    → is_blank node ≡ false
    → DistinctRows rows
    → lookup node (load_snapshots rows states)
      ≡ or_else (fresh_of (row_of node rows)) (lookup node states)
unfolding load_snapshots row_of
load_snapshots-lookup node [] states b d = refl
load_snapshots-lookup node (s ∷ ss) states b d =
    let next = if is_blank s.node_id then states else insert s.node_id (fresh_state s) states in
    let rest = load_snapshots-lookup node ss next b d.1 in
    elim (Bool-cases (str_eq s.node_id node)) [
      | inl e ↦
          let same : s.node_id ≡ node = (str_eq_iff s.node_id node).0 e in
          let gone : row_of node ss ≡ none = subst (λ k. row_of k ss ≡ none) same d.0 in
          let full : is_blank s.node_id ≡ false = ap is_blank same ∙ b in
          rest ∙ simp (gone, full, lookup-insert s.node_id node (fresh_state s) states, e)
      | inr e ↦ elim (Bool-cases (is_blank s.node_id)) [
        | inl x ↦ rest ∙ simp (x, e)
        | inr x ↦ rest ∙ simp (x, e, lookup-insert s.node_id node (fresh_state s) states)
      ]
    ]

-- A state with entries added to its history.
abbrev with_entries : String → Option MemoryState → List HistoryEntry → Option MemoryState
with_entries node o [] = o
with_entries node o (e ∷ es) =
    let m = loaded_state node o in some (record m { history = m.history ++ (e ∷ es) })

with_entries-cons :
    (node : String) (m : MemoryState) (e : HistoryEntry) (es : List HistoryEntry)
    → with_entries node (some (record m { history = m.history ++ e ∷ [] })) es
      ≡ with_entries node (some m) (e ∷ es)
with_entries-cons node m e [] = refl
with_entries-cons node m e (x ∷ xs) =
    ap (λ h. some (record m { history = h })) (append_assoc m.history (e ∷ []) (x ∷ xs))

load_row-lookup :
    (node : String) (r : HistoryRow) (states : Map MemoryState) (o : Option MemoryState)
    → r.node_id ≡ node
    → lookup node states ≡ o
    → length (loaded_state node o).history + 1 ≤ history_limit
    → lookup node (load_row r states)
      ≡ some
          (record (loaded_state node o) { history = (loaded_state node o).history ++ r.entry ∷ [] })
load_row-lookup node r states o same l h =
    let m = loaded_state node o in
    let n = loaded_state r.node_id (lookup r.node_id states) in
    let eq : n ≡ m = ap (λ k. loaded_state k (lookup k states)) same ∙ ap (loaded_state node) l in
    let long : length (m.history ++ r.entry ∷ []) ≤ history_limit =
      omega (arith, length-append m.history (r.entry ∷ [])) in
    let key : str_eq r.node_id node ≡ true = (str_eq_iff r.node_id node).1 same in
    let whole =
      λ (m : MemoryState). record m { history = trim_history (m.history ++ r.entry ∷ []) } in
    let test : (if str_eq r.node_id node then some (whole n) else lookup node states)
        ≡ some (whole n) =
      simp key in
    lookup-insert r.node_id node (whole n) states
    ∙ (test
        ∙ (ap (λ m. some (whole m)) eq
            ∙ ap (λ h. some (record m { history = h }))
                (trim_history-le (m.history ++ r.entry ∷ []) long)))

load_history-lookup :
    (node : String) (rows : List HistoryRow) (states : Map MemoryState) (o : Option MemoryState)
    → is_blank node ≡ false
    → lookup node states ≡ o
    → length (loaded_state node o).history + length (entries_of node rows) ≤ history_limit
    → lookup node (load_history rows states) ≡ with_entries node o (entries_of node rows)
unfolding load_history entries_of
load_history-lookup node [] states o b l h = l
load_history-lookup node (r ∷ rs) states o b l h =
    let next = if is_blank r.node_id then states else load_row r states in
    elim (Bool-cases (str_eq r.node_id node)) [
      | inl e ↦
          let same : r.node_id ≡ node = (str_eq_iff r.node_id node).0 e in
          let full : is_blank r.node_id ≡ false = ap is_blank same ∙ b in
          let m = loaded_state node o in
          let n = record m { history = m.history ++ r.entry ∷ [] } in
          let entries : entries_of node (r ∷ rs) ≡ r.entry ∷ entries_of node rs = simp e in
          let long : length m.history + suc (length (entries_of node rs)) ≤ history_limit =
            simp e at h in
          let l' : lookup node next ≡ some n =
            simp full (load_row-lookup node r states o same l (omega arith)) in
          load_history-lookup node rs next (some n) b l'
            (omega (arith, length-append m.history (r.entry ∷ [])))
          ∙ (with_entries-cons node m r.entry (entries_of node rs)
              ∙ ap (with_entries node o) (sym entries))
      | inr e ↦
          let h' : length (loaded_state node o).history + length (entries_of node rs)
              ≤ history_limit =
            simp e at h in
          let l' : lookup node next ≡ o =
            if_both (λ x. lookup node x ≡ o) (is_blank r.node_id) l
              (lookup-insert r.node_id node _ states ∙ simp (e, l)) in
          load_history-lookup node rs next o b l' h' ∙ simp e
    ]

step : HistoryEntry → ℕ → ℕ
step e n = if e.available then n + 1 else n

summarize_history-foldr : (h : List HistoryEntry) → (summarize_history h).successes ≡ foldr step 0 h
unfolding summarize_history step
summarize_history-foldr [] = refl
summarize_history-foldr (e ∷ es) = ground (arith, summarize_history-foldr es)

step_comm : (a b : HistoryEntry) (n : ℕ) → step a (step b n) ≡ step b (step a n)
unfolding step
step_comm a b n = ground arith

-- Reordered entries are counted alike.
pub perm-summarize_history :
    (g h : List HistoryEntry)
    → Perm g h
    → (length g ≡ length h)
      × ((summarize_history g).successes ≡ (summarize_history h).successes)
      × ((summarize_history g).failures ≡ (summarize_history h).failures)
perm-summarize_history g h p =
    let s : foldr step 0 g ≡ foldr step 0 h = Perm.foldr-eq ℕ_set step step_comm p 0 in
    let won = summarize_history-foldr g ∙ (s ∙ sym (summarize_history-foldr h)) in
    let l =
      length-foldr g
      ∙ (Perm.foldr-eq ℕ_set (λ e n. n + 1) (λ a b n. refl) p 0 ∙ sym (length-foldr h)) in
    (l, won, omega (arith, summarize_history-length g, summarize_history-length h))
  where
    length-foldr : (h : List HistoryEntry) → length h ≡ foldr (λ e n. n + 1) 0 h
    length-foldr [] = refl
    length-foldr (e ∷ es) = omega (arith, length-foldr es)

load_snapshots-DistinctKeys :
    (rows : List Snapshot) (states : Map MemoryState)
    → DistinctKeys states
    → DistinctKeys (load_snapshots rows states)
unfolding load_snapshots
load_snapshots-DistinctKeys [] states d = d
load_snapshots-DistinctKeys (s ∷ ss) states d =
    load_snapshots-DistinctKeys ss _
      (if_both DistinctKeys (is_blank s.node_id) d (insert-DistinctKeys s.node_id _ states d))

load_history-DistinctKeys :
    (rows : List HistoryRow) (states : Map MemoryState)
    → DistinctKeys states
    → DistinctKeys (load_history rows states)
unfolding load_history
load_history-DistinctKeys [] states d = d
load_history-DistinctKeys (r ∷ rs) states d =
    load_history-DistinctKeys rs _
      (if_both DistinctKeys (is_blank r.node_id) d (insert-DistinctKeys r.node_id _ states d))

abbrev pub load_states : List Snapshot → List HistoryRow → Map MemoryState
load_states rows history = load_history history (load_snapshots rows [])

pub load_states-DistinctKeys :
    (rows : List Snapshot) (history : List HistoryRow) → DistinctKeys (load_states rows history)
load_states-DistinctKeys rows history =
    load_history-DistinctKeys history _ (load_snapshots-DistinctKeys rows [] tt)

-- The state of a node with a row or an entry.
abbrev pub loaded_from : String → Option Snapshot → List HistoryEntry → Option MemoryState
loaded_from node none [] = none
loaded_from node (some s) [] = some (fresh_state s)
loaded_from node o (e ∷ es) =
    some (record (fresh_state (snapshot_or_empty node o)) { history = e ∷ es })

with_entries-loaded_from :
    (node : String) (o : Option Snapshot) (es : List HistoryEntry)
    → with_entries node (or_else (fresh_of o) none) es ≡ loaded_from node o es
with_entries-loaded_from node none [] = refl
with_entries-loaded_from node (some s) [] = refl
with_entries-loaded_from node none (e ∷ es) = refl
with_entries-loaded_from node (some s) (e ∷ es) = refl

fresh_has_no_history :
    (node : String) (o : Option Snapshot)
    → (loaded_state node (or_else (fresh_of o) none)).history ≡ []
fresh_has_no_history node none = refl
fresh_has_no_history node (some s) = refl

pub load_states-lookup :
    (node : String) (rows : List Snapshot) (history : List HistoryRow)
    → is_blank node ≡ false
    → DistinctRows rows
    → length (entries_of node history) ≤ history_limit
    → lookup node (load_states rows history)
      ≡ loaded_from node (row_of node rows) (entries_of node history)
unfolding lookup
load_states-lookup node rows history b d l =
    let o = or_else (fresh_of (row_of node rows)) none in
    let first : lookup node (load_snapshots rows []) ≡ o = load_snapshots-lookup node rows [] b d in
    let empty : length (loaded_state node o).history ≡ 0 =
      ap length (fresh_has_no_history node (row_of node rows)) in
    load_history-lookup node history (load_snapshots rows []) o b first (omega arith)
    ∙ with_entries-loaded_from node (row_of node rows) (entries_of node history)

-- A blank name has no state.
pub load_states-blank :
    (node : String) (rows : List Snapshot) (history : List HistoryRow)
    → is_blank node ≡ true
    → lookup node (load_states rows history) ≡ none
unfolding load_snapshots load_history lookup
load_states-blank node rows history b = later history _ (earlier rows [] refl)
  where
    apart : (name : String) → is_blank name ≡ false → str_eq name node ≡ false
    apart name c = elim (Bool-cases (str_eq name node)) [
      | inl e ↦
          let q : is_blank name ≡ is_blank node = ap is_blank ((str_eq_iff name node).0 e) in
          absurd (cc)
      | inr e ↦ e
    ]

    unless_blank :
        (name : String) (m : MemoryState) (states : Map MemoryState)
        → lookup node states ≡ none
        → lookup node (if is_blank name then states else insert name m states) ≡ none
    unless_blank name m states l = elim (Bool-cases (is_blank name)) [
      | inl e ↦ simp e l
      | inr e ↦ simp e (lookup-insert name node m states ∙ simp (apart name e, l))
    ]

    earlier :
        (rows : List Snapshot) (states : Map MemoryState)
        → lookup node states ≡ none
        → lookup node (load_snapshots rows states) ≡ none
    earlier [] states l = l
    earlier (s ∷ ss) states l = earlier ss _ (unless_blank s.node_id _ states l)

    later :
        (rows : List HistoryRow) (states : Map MemoryState)
        → lookup node states ≡ none
        → lookup node (load_history rows states) ≡ none
    later [] states l = l
    later (r ∷ rs) states l = later rs _ (unless_blank r.node_id _ states l)
