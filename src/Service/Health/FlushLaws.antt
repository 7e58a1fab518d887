-- ===== src/Service/Health/FlushLaws.antt =====
-- flush of health_batcher.go as a whole: it keeps the batcher coherent with the database, whatever
-- other calls change between its two locks and whether or not the database takes the write.
use proxy_hub.Prelude.{
  ℕ, ◌<◌, ◌^◌, ◌≡◌, refl, sym, ap, ◌∙◌, true, String, List, [], ◌∷◌, keep_if, All-keep_if,
}
use proxy_hub.Prelude.Maps.{lookup, All-of_lookup}
use mathlib.Core.Path.{subst}
use proxy_hub.Singbox.Time.{Time}
use proxy_hub.Service.Errors.{Result, ok, err}
use proxy_hub.Service.Health.State.{Batcher}
use proxy_hub.Service.Health.Store.{Database, IsHealthStore}
use proxy_hub.Service.Health.Batcher.{ensure_loaded, existing_node_set}
use proxy_hub.Service.Health.Flush.{
  Payload, collect_payloads, payload_exists, payload_names, persist, flush, flush_payloads,
  flush_marked, finish_flush, settle_payloads, marked,
}
use proxy_hub.Service.Health.Payloads.{
  payload_for, payload_in, collect_payloads-payload_for, collect_payloads-DistinctPayloads,
  collect_payloads-IsOfNode, IsOfNode,
}
use proxy_hub.Service.Health.Settling.{
  settled, settle_payloads-lookup, settle_payloads-DistinctKeys, marked_payload,
  map-mark-payload_for, map-mark-DistinctPayloads, map-mark-IsOfNode, kept_payload,
  keep-payload_for, keep-DistinctPayloads, settled-kept,
}
use proxy_hub.Service.Health.Writing.{WrittenAs, persist-WrittenAs}
use proxy_hub.Service.Health.Changes.{Change, apply_changes, writes}
use proxy_hub.Service.Health.Evolution.{IsNamed}
use proxy_hub.Service.Health.ChangeLaws.{IsKept, apply_changes-Evolution}
use proxy_hub.Service.Health.Coherence.{IsCoherent, apply_changes-IsCoherent}
use proxy_hub.Service.Health.Flushing.{settled-Agrees, persisted-IsSoundRow}

module _ (d : Database) (st : IsHealthStore d) where
  open d use {Db}

  module _ (cs : List (Time × Change)) (few : writes cs < 2 ^ 64) (b : Batcher) (db : Db) where
    finish_flush-IsCoherent :
        (new_id : ℕ → String) (now : Time) (existing : List String) (r : Result Db)
        → IsCoherent d st b db
        → persist d new_id now
            (keep_if payload_exists (marked d existing (collect_payloads b.states)))
            db
          ≡ r
        → IsCoherent d st
            (finish_flush d
              (marked d existing (collect_payloads b.states))
              (apply_changes cs b)
              db
              r).0
            (finish_flush d
              (marked d existing (collect_payloads b.states))
              (apply_changes cs b)
              db
              r).1
    finish_flush-IsCoherent new_id now existing (err e) coherent h =
        apply_changes-IsCoherent d st cs b db coherent
    finish_flush-IsCoherent new_id now existing (ok db') coherent h =
        let ps = collect_payloads b.states in
        let ms = marked d existing ps in
        let after = apply_changes cs b in
        let ev = apply_changes-Evolution cs b coherent.kept in
        let distinct =
          map-mark-DistinctPayloads existing ps
            (collect_payloads-DistinctPayloads b.states coherent.keys) in
        let named =
          All-of_lookup IsNamed b.states coherent.keys (λ node m e. (coherent.kept node m e).0) in
        let of_node = map-mark-IsOfNode existing ps (collect_payloads-IsOfNode b.states named) in
        let found : (node : String)
            → payload_for node ms
              ≡ marked_payload existing (payload_in node (lookup node b.states)) =
          λ node.
            map-mark-payload_for existing node ps
            ∙ ap (marked_payload existing)
                (collect_payloads-payload_for node b.states coherent.keys) in
        let settles : (node : String)
            → lookup node (settle_payloads ms after.states)
              ≡ settled (marked_payload existing (payload_in node (lookup node b.states)))
                  (lookup node after.states) =
          λ node.
            settle_payloads-lookup node ms after.states distinct
            ∙ ap (λ q. settled q (lookup node after.states)) (found node) in
        let written : (node : String)
            → WrittenAs d st node
                (kept_payload (marked_payload existing (payload_in node (lookup node b.states)))) db
                db' =
          λ node.
            subst (λ q. WrittenAs d st node q db db')
              (keep-payload_for node ms distinct ∙ ap kept_payload (found node))
              (persist-WrittenAs d st new_id now (keep_if payload_exists ms) db db' node h
                (keep-DistinctPayloads ms distinct)
                (All-keep_if IsOfNode payload_exists ms of_node)) in
        record {
          keys = settle_payloads-DistinctKeys ms after.states (ev.keys coherent.keys);
          kept = λ node m e.
              settled-kept (IsKept node) _ (lookup node after.states) m (λ n k. k) (ev.kept node)
                (sym (settles node) ∙ e);
          clean = λ node m e c.
              settled-Agrees d st (writes cs) few node existing db db' (lookup node b.states)
                (lookup node after.states) m (coherent.clean node) (ev.evolves node)
                (λ n f. (ev.kept node n f).0) (payload_in node (lookup node b.states)) refl
                (written node) (sym (settles node) ∙ e) c;
          sound = λ node.
              persisted-IsSoundRow d st node existing db db' (lookup node b.states)
                (λ m e. (coherent.kept node m e).1) (payload_in node (lookup node b.states)) refl
                (written node) (coherent.sound node);
        }

    flush_payloads-IsCoherent :
        (new_id : ℕ → String) (now : Time) (ps : List Payload)
        → collect_payloads b.states ≡ ps
        → IsCoherent d st b db
        → IsCoherent d st
            (flush_payloads d new_id now (apply_changes cs) ps b db).0
            (flush_payloads d new_id now (apply_changes cs) ps b db).1
    unfolding flush_payloads
    flush_payloads-IsCoherent new_id now [] e coherent = coherent
    flush_payloads-IsCoherent new_id now (p ∷ ps) e coherent =
        at (existing_node_set d (payload_names (p ∷ ps)) db)
      where
        at :
            (r : Result (List String))
            → IsCoherent d st
                (flush_marked d new_id now (p ∷ ps) (apply_changes cs b) db r).0
                (flush_marked d new_id now (p ∷ ps) (apply_changes cs b) db r).1
        at (ok existing) =
            subst
              (λ qs.
                IsCoherent d st
                  (flush_marked d new_id now qs (apply_changes cs b) db (ok existing)).0
                  (flush_marked d new_id now qs (apply_changes cs b) db (ok existing)).1)
              e (finish_flush-IsCoherent new_id now existing _ coherent refl)
        at (err x) = apply_changes-IsCoherent d st cs b db coherent

    -- After a flush of a loaded batcher, every state that is not dirty is in the database, its
    -- counts are those of its window of at most thirty results, and there is one state for a node,
    -- if that was so before: whether or not the database takes the write, and whatever fewer than
    -- 2^64 writes of other calls change between the locks of the flush.
    pub flush-IsCoherent :
        (new_id : ℕ → String) (now : Time)
        → b.loaded ≡ true
        → IsCoherent d st b db
        → IsCoherent d st
            (flush d new_id now (apply_changes cs) b db).0
            (flush d new_id now (apply_changes cs) b db).1
    unfolding flush ensure_loaded
    flush-IsCoherent new_id now loaded coherent =
        simp loaded (flush_payloads-IsCoherent new_id now (collect_payloads b.states) refl coherent)
