-- ===== src/Service/Health/Payloads.antt =====
-- The payloads of a flush, each under the name of its node (health_batcher.go).
use proxy_hub.Prelude.{
  ◌≡◌, refl, ap, ◌∙◌, not, ◌||◌, String, List, [], ◌∷◌, ◌++◌, Option, none, some, if◌then◌else◌,
  All, inl, inr, Bool-cases, arith,
}
use proxy_hub.Prelude.Maps.{Map, lookup, DistinctKeys}
use proxy_hub.Prelude.Text.{str_eq, str_eq_iff}
use proxy_hub.Service.Health.State.{Snapshot, MemoryState, HistoryEntry}
use proxy_hub.Service.Health.Batcher.{is_blank}
use proxy_hub.Service.Health.Record.{or_else}
use proxy_hub.Service.Health.Evolution.{IsNamed}
use proxy_hub.Service.Health.Flush.{
  Payload, payload_of, payload_if_dirty, collect_payloads, history_to_rows,
}

-- The first payload of a node.
unfoldable pub payload_for : String → List Payload → Option Payload
payload_for node [] = none
payload_for node (p ∷ ps) =
    let rest = payload_for node ps in if str_eq p.node_id node then some p else rest

abbrev pub DistinctPayloads : List Payload → Type 0
DistinctPayloads [] = Unit {0}
DistinctPayloads (p ∷ ps) = (payload_for p.node_id ps ≡ none) × DistinctPayloads ps

-- What the state of a node is written as.
abbrev pub payload_by_snapshot : String → MemoryState → Option Snapshot → Option Payload
payload_by_snapshot node m none = none
payload_by_snapshot node m (some s) =
    if not m.dirty || is_blank node then none else some (payload_of node m s)

abbrev pub payload_in : String → Option MemoryState → Option Payload
payload_in node none = none
payload_in node (some m) = payload_by_snapshot node m m.snapshot

payload_if_dirty-payload_for :
    (name node : String) (m : MemoryState) (o : Option Snapshot) (ps : List Payload)
    → payload_for node (payload_if_dirty name m o ++ ps) ≡ (
        if str_eq name node
        then or_else (payload_by_snapshot name m o) (payload_for node ps)
        else payload_for node ps)
unfolding payload_for
payload_if_dirty-payload_for name node m none ps = ground arith
payload_if_dirty-payload_for name node m (some s) ps =
    elim (Bool-cases (not m.dirty || is_blank name)) [
      | inl e ↦ rw e (ground arith)
      | inr e ↦ rw e refl
    ]

or_else-none {ℓ} : {A : Type ℓ} (o : Option A) → or_else o none ≡ o
or_else-none none = refl
or_else-none (some a) = refl

pub collect_payloads-payload_for :
    (node : String) (states : Map MemoryState)
    → DistinctKeys states
    → payload_for node (collect_payloads states) ≡ payload_in node (lookup node states)
unfolding payload_for collect_payloads lookup
collect_payloads-payload_for node [] d = refl
collect_payloads-payload_for node ((name, m) ∷ states) d =
    let rest = collect_payloads-payload_for node states d.1 in
    elim (Bool-cases (str_eq name node)) [
      | inl e ↦
          let same : name ≡ node = (str_eq_iff name node).0 e in
          let gone : lookup node states ≡ none = rw same at d.0 in
          rw
            (
              payload_if_dirty-payload_for name node m m.snapshot (collect_payloads states),
              e,
              rest,
              gone,
              same,
            )
            (or_else-none (payload_by_snapshot node m m.snapshot))
      | inr e ↦
          rw (payload_if_dirty-payload_for name node m m.snapshot (collect_payloads states), e) rest
    ]

pub collect_payloads-DistinctPayloads :
    (states : Map MemoryState) → DistinctKeys states → DistinctPayloads (collect_payloads states)
unfolding collect_payloads
collect_payloads-DistinctPayloads [] d = tt
collect_payloads-DistinctPayloads ((name, m) ∷ states) d =
    head name m (collect_payloads states) m.snapshot (collect_payloads-DistinctPayloads states d.1)
      (collect_payloads-payload_for name states d.1 ∙ ap (payload_in name) d.0)
  where
    head :
        (name : String) (m : MemoryState) (ps : List Payload) (o : Option Snapshot)
        → DistinctPayloads ps
        → payload_for name ps ≡ none
        → DistinctPayloads (payload_if_dirty name m o ++ ps)
    head name m ps none r n = r
    head name m ps (some s) r n = elim (Bool-cases (not m.dirty || is_blank name)) [
      | inl e ↦ rw e r
      | inr e ↦ rw e (n, r)
    ]

-- A payload's rows are its node's.
abbrev pub IsOfNode : Payload → Type 0
IsOfNode p =
    (p.snapshot.node_id ≡ p.node_id)
    × ((h : List HistoryEntry) × (p.history ≡ history_to_rows p.node_id h))

pub collect_payloads-IsOfNode :
    (states : Map MemoryState)
    → All (λ e. IsNamed e.0 e.1) states
    → All IsOfNode (collect_payloads states)
unfolding collect_payloads
collect_payloads-IsOfNode [] h = tt
collect_payloads-IsOfNode ((name, m) ∷ states) (n, h) =
    head name m (collect_payloads states) m.snapshot n.0 n.1 n.2
      (collect_payloads-IsOfNode states h)
  where
    head :
        (name : String) (m : MemoryState) (ps : List Payload) (o : Option Snapshot) (s : Snapshot)
        → o ≡ some s
        → s.node_id ≡ name
        → All IsOfNode ps
        → All IsOfNode (payload_if_dirty name m o ++ ps)
    head name m ps none s e n r = r
    head name m ps (some t) s e n r =
        let q : t ≡ s = cc in
        elim (Bool-cases (not m.dirty || is_blank name)) [
          | inl b ↦ rw b r
          | inr b ↦ rw b ((ap (λ (s : Snapshot). s.node_id) q ∙ n, (m.history, refl)), r)
        ]
