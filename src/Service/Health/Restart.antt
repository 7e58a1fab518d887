-- ===== src/Service/Health/Restart.antt =====
-- shutdown of health_batcher.go and the load after it.
use proxy_hub.Prelude.{
  ℕ, ◌≡◌, refl, sym, ap, ◌∙◌, true, false, String, List, [], ◌∷◌, none, some, if_both, keep_if,
  arith,
}
use mathlib.Core.List.{Perm}
use mathlib.Core.Path.{subst}
use proxy_hub.Prelude.Maps.{lookup}
use proxy_hub.Singbox.Time.{Time}
use proxy_hub.Service.Errors.{Result, ok, err}
use proxy_hub.Service.Health.State.{MemoryState, Batcher}
use proxy_hub.Service.Health.Store.{Database, IsHealthStore, facts}
use proxy_hub.Service.Health.Batcher.{is_blank, ensure_loaded, existing_node_set}
use proxy_hub.Service.Health.Flush.{
  Payload, collect_payloads, payload_exists, payload_names, persist, flush, flush_payloads,
  flush_marked, finish_flush, marked, shutdown, run_turn,
}
use proxy_hub.Service.Health.Payloads.{
  payload_for, payload_in, collect_payloads-payload_for, collect_payloads-DistinctPayloads,
}
use proxy_hub.Service.Health.Settling.{
  settled, settle_payloads-lookup, marked_payload, map-mark-payload_for, map-mark-DistinctPayloads,
}
use proxy_hub.Service.Health.Changes.{apply_changes, writes}
use proxy_hub.Service.Health.Coherence.{IsCoherent}
use proxy_hub.Service.Health.Flushing.{settled-clean}
use proxy_hub.Service.Health.FlushLaws.{flush-IsCoherent}
use proxy_hub.Service.Health.LoadLaws.{content_of, reload-content}

-- The batcher as a shutdown leaves it to its last flush.
abbrev pub stopping : Batcher → Batcher
stopping b = record b { flush_on_stop = true; started = false }

module _ (d : Database) (st : IsHealthStore d) where
  open d use {Db}

  module _ (b : Batcher) (db : Db) (coherent : IsCoherent d st b db) where
    finish_flush-clean :
        (existing : List String) (r : Result Db) (node : String) (m : MemoryState)
        → is_blank node ≡ false
        → (finish_flush d (marked d existing (collect_payloads b.states)) b db r).2 ≡ ok tt
        → lookup node
            (finish_flush d (marked d existing (collect_payloads b.states)) b db r).0.states
          ≡ some m
        → m.dirty ≡ false
    finish_flush-clean existing (err e) node m blank done l = absurd (cc)
    finish_flush-clean existing (ok db') node m blank done l =
        let ps = collect_payloads b.states in
        let distinct = collect_payloads-DistinctPayloads b.states coherent.keys in
        let found =
          map-mark-payload_for existing node ps
          ∙ ap (marked_payload existing)
              (collect_payloads-payload_for node b.states coherent.keys) in
        let settles =
          settle_payloads-lookup node (marked d existing ps) b.states
            (map-mark-DistinctPayloads existing ps distinct)
          ∙ ap (λ q. settled q (lookup node b.states)) found in
        settled-clean node existing (lookup node b.states) m (λ n e. (coherent.kept node n e).0)
          blank (payload_in node (lookup node b.states)) refl (sym settles ∙ l)

    flush_payloads-clean :
        (new_id : ℕ → String) (now : Time) (ps : List Payload) (node : String) (m : MemoryState)
        → collect_payloads b.states ≡ ps
        → is_blank node ≡ false
        → (flush_payloads d new_id now (λ c. c) ps b db).2 ≡ ok tt
        → lookup node (flush_payloads d new_id now (λ c. c) ps b db).0.states ≡ some m
        → m.dirty ≡ false
    unfolding flush_payloads payload_for
    flush_payloads-clean new_id now [] node m e blank done l =
        let gone : payload_in node (lookup node b.states) ≡ none =
          sym (collect_payloads-payload_for node b.states coherent.keys)
          ∙ ap (payload_for node) e in
        settled-clean node [] (lookup node b.states) m (λ n e. (coherent.kept node n e).0) blank
          none gone l
    flush_payloads-clean new_id now (p ∷ ps) node m e blank done l =
        at (existing_node_set d (payload_names (p ∷ ps)) db) done l
      where
        at :
            (r : Result (List String))
            → (flush_marked d new_id now (p ∷ ps) b db r).2 ≡ ok tt
            → lookup node (flush_marked d new_id now (p ∷ ps) b db r).0.states ≡ some m
            → m.dirty ≡ false
        at (err x) done l = absurd (cc)
        at (ok existing) done l =
            finish_flush-clean existing
              (persist d new_id now (keep_if payload_exists (marked d existing (p ∷ ps))) db) node m
              blank
              (subst
                (λ qs.
                  (finish_flush d (marked d existing qs) b db (
                    persist d new_id now (keep_if payload_exists (marked d existing (p ∷ ps)))
                      db)).2
                  ≡ ok tt)
                (sym e) done)
              (subst
                (λ qs.
                  lookup node
                    (finish_flush d (marked d existing qs) b db (
                      persist d new_id now (keep_if payload_exists (marked d existing (p ∷ ps)))
                        db)).0.states
                  ≡ some m)
                (sym e) l)

    flush-clean :
        (new_id : ℕ → String) (now : Time) (node : String) (m : MemoryState)
        → b.loaded ≡ true
        → is_blank node ≡ false
        → (flush d new_id now (λ c. c) b db).2 ≡ ok tt
        → lookup node (flush d new_id now (λ c. c) b db).0.states ≡ some m
        → m.dirty ≡ false
    unfolding flush ensure_loaded
    flush-clean new_id now node m loaded blank done l =
        flush_payloads-clean new_id now (collect_payloads b.states) node m refl blank
          (simp loaded at done) (simp loaded at l)

  shutdown_lem :
      (new_id : ℕ → String) (now : Time) (b : Batcher) (db : Db)
      → let f = flush d new_id now (λ c. c) (stopping b) db in
        shutdown d new_id now true b db ≡ (record f.0 { loaded = false; states = [] }, f.1)
  unfolding shutdown run_turn
  shutdown_lem new_id now b db =
      let f = flush d new_id now (λ c. c) (stopping b) db in
      if_both
        (λ (e : Batcher × Db).
          ◌≡◌ {A = Batcher × Db} (record e.0 { loaded = false; states = [] }, e.1)
            (record f.0 { loaded = false; states = [] }, f.1))
        b.started refl refl

  -- A shutdown that flushes, and a load after it, give back the snapshot of every node that the
  -- flush leaves in memory, apart from its keys and its times of creation and update, and the same
  -- history, perhaps in another order: if the batcher was loaded and coherent, the flush succeeds
  -- and so does the load.
  pub shutdown-reload :
      (new_id : ℕ → String) (now : Time) (b b' : Batcher) (db : Db) (node : String)
      (m : MemoryState)
      → IsCoherent d st b db
      → b.loaded ≡ true
      → is_blank node ≡ false
      → (flush d new_id now (λ c. c) (stopping b) db).2 ≡ ok tt
      → lookup node (flush d new_id now (λ c. c) (stopping b) db).0.states ≡ some m
      → ensure_loaded d (shutdown d new_id now true b db).0 (shutdown d new_id now true b db).1
        ≡ ok b'
      → (facts (content_of node (lookup node b'.states)).0 ≡ facts (content_of node (some m)).0)
        × Perm (content_of node (lookup node b'.states)).1 m.history
  unfolding apply_changes writes
  shutdown-reload new_id now b b' db node m coherent loaded blank done l e =
      let s = stopping b in
      let f = flush d new_id now (λ c. c) s db in
      let still : IsCoherent d st s db = record {
        keys = coherent.keys;
        kept = coherent.kept;
        clean = coherent.clean;
        sound = coherent.sound;
      } in
      let after : IsCoherent d st f.0 f.1 =
        flush-IsCoherent d st [] (omega arith) s db new_id now loaded still in
      let ended = record f.0 { loaded = false; states = [] } in
      let e' : ensure_loaded d ended f.1 ≡ ok b' =
        subst (λ (p : Batcher × Db). ensure_loaded d p.0 p.1 ≡ ok b') (shutdown_lem new_id now b db)
          e in
      reload-content d st f.0 ended b' f.1 node m after l
        (flush-clean s db still new_id now node m loaded blank done l) blank refl e'
