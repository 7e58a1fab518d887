-- ===== src/Service/Health/Flushing.antt =====
-- flush of health_batcher.go with other calls between its two locks, one node at a time.
use proxy_hub.Prelude.{
  ℕ, ◌+◌, ◌%◌, ◌^◌, ◌<◌, ◌≤◌, ◌==◌, ◌≡◌, refl, sym, ap, ◌∙◌, Bool, true, false, not, ◌||◌, String,
  List, Option, none, some, inl, inr, Bool-cases, arith,
}
use mathlib.Core.List.{Perm}
use mathlib.Core.List.Perm
use mathlib.Core.Path.{subst}
use proxy_hub.Prelude.Text.{str_eq_refl}
use proxy_hub.Service.Health.State.{Snapshot, MemoryState}
use proxy_hub.Service.Health.Record.{snapshot_or_empty}
use proxy_hub.Service.Health.Store.{Database, IsHealthStore, facts}
use proxy_hub.Service.Health.Batcher.{is_blank}
use proxy_hub.Service.Health.Flush.{Payload, payload_of, mark_existing}
use proxy_hub.Service.Health.Payloads.{payload_in, payload_by_snapshot}
use proxy_hub.Service.Health.Settling.{settled, marked_payload, kept_payload}
use proxy_hub.Service.Health.Writing.{WrittenAs, entries_of-history_to_rows}
use proxy_hub.Service.Health.Evolution.{Evolves, content, IsNamed, facts_of}
use proxy_hub.Service.Health.Coherence.{Agrees, clean_after, IsSoundRow}
use proxy_hub.Service.Health.Window.{IsWindowed}

-- A payload is the dirty state of its node.
abbrev IsPayloadOf : String → Option MemoryState → Payload → Type 0
IsPayloadOf node o p =
    (m : MemoryState) × (s : Snapshot) × (o ≡ some m)
    × (m.dirty ≡ true)
    × (m.snapshot ≡ some s)
    × (p ≡ payload_of node m s)

payload_by_snapshot-IsPayloadOf :
    (node : String) (m : MemoryState) (t : Option Snapshot) (p : Payload)
    → m.snapshot ≡ t
    → payload_by_snapshot node m t ≡ some p
    → IsPayloadOf node (some m) p
payload_by_snapshot-IsPayloadOf node m none p e h = absurd (cc)
payload_by_snapshot-IsPayloadOf node m (some s) p e h =
    elim (Bool-cases (not m.dirty || is_blank node)) [
      | inl b ↦ let gone : none ≡ some p = simp b at h in absurd (cc)
      | inr b ↦
          let made : some (payload_of node m s) ≡ some p = simp b at h in
          (m, s, refl, ground arith, e, cc)
    ]

payload_in-IsPayloadOf :
    (node : String) (o : Option MemoryState) (p : Payload)
    → payload_in node o ≡ some p
    → IsPayloadOf node o p
payload_in-IsPayloadOf node none p h = absurd (cc)
payload_in-IsPayloadOf node (some m) p h =
    payload_by_snapshot-IsPayloadOf node m m.snapshot p refl h

-- A dirty state has a payload.
payload_in-dirty :
    (node : String) (m : MemoryState) (o : Option Snapshot) (s : Snapshot)
    → o ≡ some s
    → m.dirty ≡ true
    → is_blank node ≡ false
    → payload_by_snapshot node m o ≡ none
    → ⊥
payload_in-dirty node m none s e d b h = cc
payload_in-dirty node m (some t) s e d b h =
    let q : some (payload_of node m t) ≡ none = simp (d, b) at h in cc

-- With no change between the locks, what is left after a flush is clean.
pub settled-clean :
    (node : String) (existing : List String) (o : Option MemoryState) (m' : MemoryState)
    → ((m : MemoryState) → o ≡ some m → IsNamed node m)
    → is_blank node ≡ false
    → (q : Option Payload) → payload_in node o ≡ q
    → settled (marked_payload existing q) o ≡ some m'
    → m'.dirty ≡ false
settled-clean node existing none m' named b none h fin = cc
settled-clean node existing none m' named b (some p) h fin = cc
settled-clean node existing (some m) m' named b none h fin =
    let q : m ≡ m' = cc in
    elim (Bool-cases m.dirty) [
      | inl d ↦
          let (s, e, n) = named m refl in absurd (payload_in-dirty node m m.snapshot s e d b h)
      | inr c ↦ ap (λ (m : MemoryState). m.dirty) (sym q) ∙ c
    ]
settled-clean node existing (some m) m' named b (some p) h fin =
    let (n, s, is_n, d, e, made) = payload_in-IsPayloadOf node (some m) p h in
    let same : m ≡ n = cc in
    let revisions : p.revision ≡ m.revision =
      ap (λ (p : Payload). p.revision) made ∙ ap (λ (m : MemoryState). m.revision) (sym same) in
    let equal : m.revision == p.revision ≡ true = ground arith in
    elim (Bool-cases (mark_existing existing p).exists) [
      | inl there ↦
          let r : some (record m { dirty = false }) ≡ some m' = simp (equal, there) at fin in
          let q : record m { dirty = false } ≡ m' = cc in ap (λ (m : MemoryState). m.dirty) (sym q)
      | inr gone ↦ let r : none ≡ some m' = simp (equal, gone) at fin in absurd (cc)
    ]

-- Fewer than 2^64 writes do not bring a revision back.
revision_moved : (r j k : ℕ) → 1 ≤ j → j ≤ k → k < 2 ^ 64 → (r + j) % 2 ^ 64 ≡ r → ⊥
revision_moved r j k a b c e = omega arith

module _ (d : Database) (st : IsHealthStore d) where
  open d use {Db}
  open st use {health_row, history_rows}

  unwritten-Agrees :
      (node : String) (db db' : Db) (m : MemoryState)
      → WrittenAs d st node none db db'
      → Agrees d st db node m
      → Agrees d st db' node m
  unwritten-Agrees node db db' m w (s, e, row, rows) = (
    s,
    e,
    ap (λ o. facts (snapshot_or_empty node o)) w.0 ∙ row,
    subst (λ h. Perm h m.history) (sym w.1) rows,
  )

  -- A state that has not changed since its payload was read is what was written.
  written-Agrees :
      (node : String) (db db' : Db) (m n : MemoryState) (s : Snapshot) (existing : List String)
      → m.snapshot ≡ some s
      → content n ≡ content m
      → IsNamed node n
      → WrittenAs d st node (some (mark_existing existing (payload_of node m s))) db db'
      → Agrees d st db' node (record n { dirty = false })
  written-Agrees node db db' m n s existing e same (t, f, named) w =
      let snapshots : facts_of n.snapshot ≡ facts_of m.snapshot =
        ap (λ (c : MemoryState). c.snapshot) same in
      let there : some (facts t) ≡ some (facts s) = rw (f, e) at snapshots in
      let equal : facts t ≡ facts s = cc in
      let history : n.history ≡ m.history = ap (λ (c : MemoryState). c.history) same in
      let rows = entries_of-history_to_rows node node m.history ∙ simp (str_eq_refl node) in
      let all : history_rows db' node ≡ n.history = w.1 ∙ (rows ∙ sym history) in
      (t, f, w.0 ∙ sym equal, subst (λ h. Perm h n.history) (sym all) (Perm.refl n.history))

  -- Where the revision has moved on, the state is dirty; where it has not, neither has the content.
  stays_dirty :
      (k : ℕ) (m n : MemoryState) → m.dirty ≡ true → Evolves k (some m) (some n) → n.dirty ≡ true
  stays_dirty k m n t (inl e) = ap (λ (c : MemoryState). c.dirty) e ∙ t
  stays_dirty k m n t (inr (u, j, a, b, r)) = u

  same_content :
      (k : ℕ) (m n : MemoryState)
      → k < 2 ^ 64
      → n.revision ≡ m.revision
      → Evolves k (some m) (some n)
      → content n ≡ content m
  same_content k m n few e (inl c) = c
  same_content k m n few e (inr (u, j, a, b, r)) =
      absurd (revision_moved m.revision j k a b few (sym r ∙ e))

  module _ (k : ℕ) (few : k < 2 ^ 64) (node : String) (existing : List String) (db db' : Db) where
    settled_written :
        (m n m' : MemoryState) (s : Snapshot)
        → m.dirty ≡ true
        → m.snapshot ≡ some s
        → Evolves k (some m) (some n)
        → IsNamed node n
        → (p : Payload) → p ≡ mark_existing existing (payload_of node m s)
        → WrittenAs d st node (kept_payload (some p)) db db'
        → settled (some p) (some n) ≡ some m'
        → m'.dirty ≡ false
        → Agrees d st db' node m'
    settled_written m n m' s dirt e ev named p made w fin c =
        elim (Bool-cases (n.revision == p.revision)) [
          | inl same ↦ elim (Bool-cases p.exists) [
            | inl there ↦
                let r : some (record n { dirty = false }) ≡ some m' = simp (same, there) at fin in
                let q : record n { dirty = false } ≡ m' = cc in
                let v : WrittenAs d st node (some p) db db' = simp there at w in
                let revisions : p.revision ≡ m.revision = ap (λ (p : Payload). p.revision) made in
                let equal : n.revision ≡ m.revision = ground arith in
                subst (Agrees d st db' node) q (
                  written-Agrees node db db' m n s existing e (same_content k m n few equal ev)
                    named (subst (λ p. WrittenAs d st node (some p) db db') made v))
            | inr gone ↦ let r : none ≡ some m' = simp (same, gone) at fin in absurd (cc)
          ]
          | inr moved ↦
              let r : some n ≡ some m' = simp moved at fin in
              let q : n ≡ m' = cc in
              let still : m'.dirty ≡ true =
                ap (λ (m : MemoryState). m.dirty) (sym q) ∙ stays_dirty k m n dirt ev in
              absurd (cc)
        ]

    pub settled-Agrees :
        (o mid : Option MemoryState) (m' : MemoryState)
        → ((m : MemoryState) → o ≡ some m → m.dirty ≡ false → Agrees d st db node m)
        → Evolves k o mid
        → ((n : MemoryState) → mid ≡ some n → IsNamed node n)
        → (q : Option Payload) → payload_in node o ≡ q
        → WrittenAs d st node (kept_payload (marked_payload existing q)) db db'
        → settled (marked_payload existing q) mid ≡ some m'
        → m'.dirty ≡ false
        → Agrees d st db' node m'
    settled-Agrees o mid m' before ev named none h w fin c =
        unwritten-Agrees node db db' m' w
          (clean_after d st k node db o m' before (subst (Evolves k o) fin ev) (named m' fin) c)
    settled-Agrees o none m' before ev named (some p) h w fin c = absurd (cc)
    settled-Agrees o (some n) m' before ev named (some p) h w fin c =
        let (m, s, is_m, dirt, e, made) = payload_in-IsPayloadOf node o p h in
        settled_written m n m' s dirt e (subst (λ o. Evolves k o (some n)) is_m ev) (named n refl)
          (mark_existing existing p) (ap (mark_existing existing) made) w fin c

  unwritten-IsSoundRow :
      (node : String) (db db' : Db)
      → WrittenAs d st node none db db'
      → IsSoundRow d st db node
      → IsSoundRow d st db' node
  unwritten-IsSoundRow node db db' w (l, c) = rw (w.0, w.1) (l, c)

  -- What is written of a window is a window.
  written-IsSoundRow :
      (node : String) (db db' : Db) (m : MemoryState) (s : Snapshot) (existing : List String)
      → m.snapshot ≡ some s
      → IsWindowed node m
      → WrittenAs d st node (some (mark_existing existing (payload_of node m s))) db db'
      → IsSoundRow d st db' node
  written-IsSoundRow node db db' m s existing e (l, (won, lost)) w =
      let rows = entries_of-history_to_rows node node m.history ∙ simp (str_eq_refl node) in
      let all : history_rows db' node ≡ m.history = w.1 ∙ rows in
      let row = snapshot_or_empty node (health_row db' node) in
      let is_s : snapshot_or_empty node m.snapshot ≡ s = ap (snapshot_or_empty node) e in
      let wins : row.success_count ≡ s.success_count = ap (λ (s : Snapshot). s.success_count) w.0 in
      let losses : row.failure_count ≡ s.failure_count =
        ap (λ (s : Snapshot). s.failure_count) w.0 in
      rw all (
        l,
        (
          wins ∙ (ap (λ (s : Snapshot). s.success_count) (sym is_s) ∙ won),
          losses ∙ (ap (λ (s : Snapshot). s.failure_count) (sym is_s) ∙ lost),
        ),
      )

  pub persisted-IsSoundRow :
      (node : String) (existing : List String) (db db' : Db) (o : Option MemoryState)
      → ((m : MemoryState) → o ≡ some m → IsWindowed node m)
      → (q : Option Payload) → payload_in node o ≡ q
      → WrittenAs d st node (kept_payload (marked_payload existing q)) db db'
      → IsSoundRow d st db node
      → IsSoundRow d st db' node
  persisted-IsSoundRow node existing db db' o windows none h w sound =
      unwritten-IsSoundRow node db db' w sound
  persisted-IsSoundRow node existing db db' o windows (some p) h w sound =
      let (m, s, is_m, dirt, e, made) = payload_in-IsPayloadOf node o p h in
      marked_case (mark_existing existing p).exists refl m s is_m e made
    where
      marked_case :
          (b : Bool)
          → (mark_existing existing p).exists ≡ b
          → (m : MemoryState) (s : Snapshot) → o ≡ some m
          → m.snapshot ≡ some s
          → p ≡ payload_of node m s
          → IsSoundRow d st db' node
      marked_case true there m s is_m e made =
          let v : WrittenAs d st node (some (mark_existing existing p)) db db' = simp there at w in
          written-IsSoundRow node db db' m s existing e (windows m is_m)
            (subst (λ p. WrittenAs d st node (some (mark_existing existing p)) db db') made v)
      marked_case false gone m s is_m e made =
          let v : WrittenAs d st node none db db' = simp gone at w in
          unwritten-IsSoundRow node db db' v sound
