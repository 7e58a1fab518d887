-- ===== src/Service/Health/Readers.antt =====
-- What the readers of health_batcher.go see of a blacklisting: get and blacklistedIDs.
use proxy_hub.Prelude.{
  ◌≡◌, refl, sym, ap, ◌∙◌, Bool, true, false, ◌&&◌, String, List, [], ◌∷◌, Option, none, some, inl,
  inr, Bool-cases, arith,
}
use mathlib.Core.Path.{subst}
use proxy_hub.Prelude.Maps.{Map, lookup, DistinctKeys}
use proxy_hub.Prelude.Text.{str_eq, str_eq_iff}
use proxy_hub.ProxyUri.Unique.{has_text}
use proxy_hub.Singbox.Time.{Time}
use proxy_hub.Service.Errors.{ok}
use proxy_hub.Service.Health.State.{
  Snapshot, MemoryState, Batcher, is_health_blacklisted, read_snapshot, until_is_after,
}
use proxy_hub.Service.Health.Store.{Database}
use proxy_hub.Service.Health.Batcher.{
  add_known, known_snapshots, blacklisted_in, read_known, snapshot_in, get_health, blacklisted_ids,
}

-- A node that is not there is not blacklisted.
abbrev pub shows_blacklisted : Option Snapshot → Bool
shows_blacklisted none = false
shows_blacklisted (some s) = s.blacklisted

read_known-shows :
    (now : Time) (o : Option Snapshot)
    → shows_blacklisted (read_known now o) ≡ is_health_blacklisted o now
unfolding read_known read_snapshot is_health_blacklisted
read_known-shows now none = refl
read_known-shows now (some s) = ground arith

add_known_other :
    (now : Time) (node name : String) (o : Option Snapshot) (known : Map Snapshot)
    → str_eq name node ≡ false
    → has_text node (blacklisted_in now (add_known name o known))
      ≡ has_text node (blacklisted_in now known)
unfolding blacklisted_in has_text
add_known_other now node name none known e = refl
add_known_other now node name (some s) known e =
    elim (Bool-cases (is_health_blacklisted (some s) now)) [ inl b ↦ simp (b, e) | inr b ↦ simp b ]

add_known_same :
    (now : Time) (node name : String) (o : Option Snapshot) (known : Map Snapshot)
    → str_eq name node ≡ true
    → has_text node (blacklisted_in now known) ≡ false
    → has_text node (blacklisted_in now (add_known name o known)) ≡ is_health_blacklisted o now
unfolding blacklisted_in has_text is_health_blacklisted
add_known_same now node name none known e h = h
add_known_same now node name (some s) known e h =
    elim (Bool-cases (s.blacklisted && until_is_after s.blacklisted_until now)) [
      | inl b ↦ simp (b, e)
      | inr b ↦ simp (b, h)
    ]

blacklisted_in-known_snapshots :
    (now : Time) (node : String) (states : Map MemoryState)
    → DistinctKeys states
    → has_text node (blacklisted_in now (known_snapshots states))
      ≡ is_health_blacklisted (snapshot_in (lookup node states)) now
unfolding lookup known_snapshots blacklisted_in is_health_blacklisted has_text
blacklisted_in-known_snapshots now node [] d = refl
blacklisted_in-known_snapshots now node ((name, m) ∷ states) d =
    let rest = blacklisted_in-known_snapshots now node states d.1 in
    elim (Bool-cases (str_eq name node)) [
      | inl e ↦
          let gone : lookup node states ≡ none =
            subst (λ k. lookup k states ≡ none) ((str_eq_iff name node).0 e) d.0 in
          let clear = rest ∙ ap (λ o. is_health_blacklisted (snapshot_in o) now) gone in
          simp e (add_known_same now node name m.snapshot (known_snapshots states) e clear)
      | inr e ↦ simp e (add_known_other now node name m.snapshot (known_snapshots states) e ∙ rest)
    ]

-- Read at the same instant, the list of the blacklisted nodes has a node exactly if the node's
-- health, read by itself, shows it as blacklisted: of a loaded batcher with one state for a node.
pub blacklisted_ids-get_health :
    (d : Database) (now : Time) (node : String) (b : Batcher) (db : d.Db) (ids : List String)
    (o : Option Snapshot)
    → b.loaded ≡ true
    → DistinctKeys b.states
    → (blacklisted_ids d now b db).1 ≡ ok ids
    → (get_health d now node b db).1 ≡ ok o
    → has_text node ids ≡ shows_blacklisted o
unfolding blacklisted_ids get_health
blacklisted_ids-get_health d now node b db ids o loaded keys listed got =
    let l : ok (blacklisted_in now (known_snapshots b.states)) ≡ ok ids = simp loaded at listed in
    let g : ok (read_known now (snapshot_in (lookup node b.states))) ≡ ok o = simp loaded at got in
    let same : blacklisted_in now (known_snapshots b.states) ≡ ids = cc in
    let read : read_known now (snapshot_in (lookup node b.states)) ≡ o = cc in
    ap (has_text node) (sym same)
    ∙ (blacklisted_in-known_snapshots now node b.states keys
        ∙ (sym (read_known-shows now (snapshot_in (lookup node b.states)))
            ∙ ap shows_blacklisted read))
