-- ===== src/Service/Health/Coherence.antt =====
-- The batcher as a write-back cache of the database (health_batcher.go, flush).
use proxy_hub.Prelude.{
  ℕ, ◌≡◌, refl, sym, ap, ◌∙◌, false, String, List, Option, none, some, inl, inr, length, ◌≤◌,
}
use proxy_hub.Prelude.Maps.{lookup, DistinctKeys}
use mathlib.Core.List.{Perm}
use mathlib.Core.Path.{subst}
use proxy_hub.Singbox.Time.{Time}
use proxy_hub.Service.Health.Window.{Counted}
use proxy_hub.Service.Health.State.{history_limit, Snapshot, MemoryState, Batcher}
use proxy_hub.Service.Health.Record.{snapshot_or_empty}
use proxy_hub.Service.Health.Store.{Database, IsHealthStore, facts}
use proxy_hub.Service.Health.Changes.{Change, apply_changes, writes}
use proxy_hub.Service.Health.Evolution.{Evolves, content, IsNamed, facts_of}
use proxy_hub.Service.Health.ChangeLaws.{AllKept, apply_changes-Evolution}

module _ (d : Database) (st : IsHealthStore d) where
  open d use {Db}
  open st use {health_row, history_rows}

  -- The database holds the state of a node.
  abbrev pub Agrees : Db → String → MemoryState → Type 0
  Agrees db node m =
      (s : Snapshot) × (m.snapshot ≡ some s)
      × (facts (snapshot_or_empty node (health_row db node)) ≡ facts s)
      × Perm (history_rows db node) m.history

  -- The rows of a node: a window of results, and their counts.
  abbrev pub IsSoundRow : Db → String → Type 0
  IsSoundRow db node =
      (length (history_rows db node) ≤ history_limit)
      × Counted (snapshot_or_empty node (health_row db node)) (history_rows db node)

  -- Each node has one state, which names it and counts its window, whatever is not dirty is in the
  -- database, and the database has such windows only.
  pub record IsCoherent (b : Batcher) (db : Db) : Type 0 where
    pub keys : DistinctKeys b.states
    pub kept : AllKept b.states
    pub clean :
        (node : String) (m : MemoryState)
        → lookup node b.states ≡ some m
        → m.dirty ≡ false
        → Agrees db node m
    pub sound : (node : String) → IsSoundRow db node

  -- A state with the content of one that agrees.
  content-Agrees :
      (db : Db) (node : String) (m m' : MemoryState)
      → content m' ≡ content m
      → IsNamed node m'
      → Agrees db node m
      → Agrees db node m'
  content-Agrees db node m m' e (s', f, n) (s, g, row, rows) =
      let same : facts_of m'.snapshot ≡ facts_of m.snapshot =
        ap (λ (c : MemoryState). c.snapshot) e in
      let there : some (facts s') ≡ some (facts s) = rw (f, g) at same in
      let equal : facts s' ≡ facts s = cc in
      let history : m'.history ≡ m.history = ap (λ (c : MemoryState). c.history) e in
      (s', f, row ∙ sym equal, subst (λ h. Perm (history_rows db node) h) (sym history) rows)

  -- Where nothing of a node is written, its states that are clean still agree.
  pub clean_after :
      (k : ℕ) (node : String) (db : Db) (o : Option MemoryState) (m' : MemoryState)
      → ((m : MemoryState) → o ≡ some m → m.dirty ≡ false → Agrees db node m)
      → Evolves k o (some m')
      → IsNamed node m'
      → m'.dirty ≡ false
      → Agrees db node m'
  clean_after k node db none m' before ev n c = absurd (cc)
  clean_after k node db (some m) m' before (inl e) n c =
      let dirt : m'.dirty ≡ m.dirty = ap (λ (c : MemoryState). c.dirty) e in
      content-Agrees db node m m' e n (before m refl (sym dirt ∙ c))
  clean_after k node db (some m) m' before (inr (t, j, l, h, r)) n c = absurd (cc)

  -- Changes dirty what they write, so the batcher stays coherent.
  pub apply_changes-IsCoherent :
      (cs : List (Time × Change)) (b : Batcher) (db : Db)
      → IsCoherent b db
      → IsCoherent (apply_changes cs b) db
  apply_changes-IsCoherent cs b db coherent =
      let ev = apply_changes-Evolution cs b coherent.kept in
      record {
        keys = ev.keys coherent.keys;
        kept = ev.kept;
        clean = λ node m e c.
            clean_after (writes cs) node db (lookup node b.states) m (coherent.clean node)
              (subst (λ o. Evolves (writes cs) (lookup node b.states) o) e (ev.evolves node))
              (ev.kept node m e).0 c;
        sound = coherent.sound;
      }
