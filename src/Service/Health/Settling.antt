-- ===== src/Service/Health/Settling.antt =====
-- What a flush marks as existing, writes and settles, seen through one node (health_batcher.go).
use proxy_hub.Prelude.{
  ◌==◌, ◌≡◌, refl, ap, ◌∙◌, true, false, not, String, List, [], ◌∷◌, map, Option, none, some,
  if◌then◌else◌, keep_if, if_both, All, inl, inr, Bool-cases,
}
use proxy_hub.Prelude.Maps.{
  Map, lookup, lookup-insert, lookup-delete, DistinctKeys, insert-DistinctKeys, delete-DistinctKeys,
}
use mathlib.Core.Path.{subst}
use proxy_hub.Prelude.Text.{str_eq, str_eq_iff}
use proxy_hub.Service.Health.State.{MemoryState}
use proxy_hub.Service.Health.Flush.{
  Payload, mark_existing, payload_exists, settle_payload, settle_payloads,
}
use proxy_hub.Service.Health.Payloads.{payload_for, DistinctPayloads, IsOfNode}

abbrev pub marked_payload : List String → Option Payload → Option Payload
marked_payload existing none = none
marked_payload existing (some p) = some (mark_existing existing p)

pub map-mark-payload_for :
    (existing : List String) (node : String) (ps : List Payload)
    → payload_for node (map (mark_existing existing) ps)
      ≡ marked_payload existing (payload_for node ps)
unfolding payload_for
map-mark-payload_for existing node [] = refl
map-mark-payload_for existing node (p ∷ ps) = elim (Bool-cases (str_eq p.node_id node)) [
  | inl e ↦ rw e refl
  | inr e ↦ rw e (map-mark-payload_for existing node ps)
]

pub map-mark-DistinctPayloads :
    (existing : List String) (ps : List Payload)
    → DistinctPayloads ps
    → DistinctPayloads (map (mark_existing existing) ps)
map-mark-DistinctPayloads existing [] d = tt
map-mark-DistinctPayloads existing (p ∷ ps) d = (
  map-mark-payload_for existing p.node_id ps ∙ ap (marked_payload existing) d.0,
  map-mark-DistinctPayloads existing ps d.1,
)

pub map-mark-IsOfNode :
    (existing : List String) (ps : List Payload)
    → All IsOfNode ps
    → All IsOfNode (map (mark_existing existing) ps)
map-mark-IsOfNode existing [] h = tt
map-mark-IsOfNode existing (p ∷ ps) h = (h.0, map-mark-IsOfNode existing ps h.1)

abbrev pub kept_payload : Option Payload → Option Payload
kept_payload none = none
kept_payload (some p) = if p.exists then some p else none

pub keep-payload_for :
    (node : String) (ps : List Payload)
    → DistinctPayloads ps
    → payload_for node (keep_if payload_exists ps) ≡ kept_payload (payload_for node ps)
unfolding payload_for keep_if
keep-payload_for node [] d = refl
keep-payload_for node (p ∷ ps) d =
    let rest = keep-payload_for node ps d.1 in
    elim (Bool-cases (str_eq p.node_id node)) [
      | inl e ↦
          let same : p.node_id ≡ node = (str_eq_iff p.node_id node).0 e in
          let gone : payload_for node ps ≡ none = rw same at d.0 in
          elim (Bool-cases p.exists) [ inl x ↦ simp (x, e) | inr x ↦ simp (x, e, rest, gone) ]
      | inr e ↦ elim (Bool-cases p.exists) [ inl x ↦ simp (x, e, rest) | inr x ↦ simp (x, e, rest) ]
    ]

pub keep-DistinctPayloads :
    (ps : List Payload) → DistinctPayloads ps → DistinctPayloads (keep_if payload_exists ps)
unfolding keep_if
keep-DistinctPayloads [] d = tt
keep-DistinctPayloads (p ∷ ps) d =
    if_both DistinctPayloads p.exists
      (keep-payload_for p.node_id ps d.1 ∙ ap kept_payload d.0, keep-DistinctPayloads ps d.1)
      (keep-DistinctPayloads ps d.1)

-- A state after its payload is settled.
abbrev pub settled : Option Payload → Option MemoryState → Option MemoryState
settled none o = o
settled (some p) none = none
settled (some p) (some m) =
    if not (m.revision == p.revision)
    then some m
    else if not p.exists
    then none
    else some (record m { dirty = false })

settle_other :
    (node : String) (p : Payload) (states : Map MemoryState) (o : Option MemoryState)
    → str_eq p.node_id node ≡ false
    → lookup node (settle_payload p states o) ≡ lookup node states
settle_other node p states none e = refl
settle_other node p states (some m) e =
    if_both (λ x. lookup node x ≡ lookup node states) (not (m.revision == p.revision)) refl
      (if_both (λ x. lookup node x ≡ lookup node states) (not p.exists)
        (rw (lookup-delete p.node_id node states, e) refl)
        (rw (lookup-insert p.node_id node (record m { dirty = false }) states, e) refl))

settle_same :
    (node : String) (p : Payload) (states : Map MemoryState) (o : Option MemoryState)
    → str_eq p.node_id node ≡ true
    → lookup node states ≡ o
    → lookup node (settle_payload p states o) ≡ settled (some p) o
settle_same node p states none e l = l
settle_same node p states (some m) e l = elim (Bool-cases (not (m.revision == p.revision))) [
  | inl r ↦ simp (r, l)
  | inr r ↦ elim (Bool-cases (not p.exists)) [
    | inl x ↦ simp (r, x, lookup-delete p.node_id node states, e)
    | inr x ↦ simp (r, x, lookup-insert p.node_id node (record m { dirty = false }) states, e)
  ]
]

pub settle_payloads-lookup :
    (node : String) (ps : List Payload) (states : Map MemoryState)
    → DistinctPayloads ps
    → lookup node (settle_payloads ps states) ≡ settled (payload_for node ps) (lookup node states)
unfolding payload_for settle_payloads
settle_payloads-lookup node [] states d = refl
settle_payloads-lookup node (p ∷ ps) states d =
    let rest =
      settle_payloads-lookup node ps (settle_payload p states (lookup p.node_id states)) d.1 in
    elim (Bool-cases (str_eq p.node_id node)) [
      | inl e ↦
          let same : p.node_id ≡ node = (str_eq_iff p.node_id node).0 e in
          let gone : payload_for node ps ≡ none = rw same at d.0 in
          let here : lookup p.node_id states ≡ lookup node states =
            ap (λ k. lookup k states) same in
          let at = settle_same node p states (lookup node states) e refl in
          rest ∙ simp (gone, e, here, at)
      | inr e ↦
          let apart = settle_other node p states (lookup p.node_id states) e in
          rest ∙ simp (e, apart)
    ]

settle_payload-DistinctKeys :
    (p : Payload) (states : Map MemoryState) (o : Option MemoryState)
    → DistinctKeys states
    → DistinctKeys (settle_payload p states o)
settle_payload-DistinctKeys p states none d = d
settle_payload-DistinctKeys p states (some m) d =
    if_both DistinctKeys (not (m.revision == p.revision)) d (
      if_both DistinctKeys (not p.exists) (delete-DistinctKeys p.node_id states d)
        (insert-DistinctKeys p.node_id _ states d))

pub settle_payloads-DistinctKeys :
    (ps : List Payload) (states : Map MemoryState)
    → DistinctKeys states
    → DistinctKeys (settle_payloads ps states)
unfolding settle_payloads
settle_payloads-DistinctKeys [] states d = d
settle_payloads-DistinctKeys (p ∷ ps) states d =
    settle_payloads-DistinctKeys ps (settle_payload p states (lookup p.node_id states))
      (settle_payload-DistinctKeys p states (lookup p.node_id states) d)

-- Settling leaves what does not depend on the mark as it was.
pub settled-kept {ℓ} :
    (P : MemoryState → Type ℓ) (q : Option Payload) (o : Option MemoryState) (m : MemoryState)
    → ((n : MemoryState) → P n → P (record n { dirty = false }))
    → ((n : MemoryState) → o ≡ some n → P n)
    → settled q o ≡ some m
    → P m
settled-kept P none o m k h e = h m e
settled-kept P (some p) none m k h e = absurd (cc)
settled-kept P (some p) (some n) m k h e = elim (Bool-cases (n.revision == p.revision)) [
  | inl same ↦ elim (Bool-cases p.exists) [
    | inl there ↦
        let r : some (record n { dirty = false }) ≡ some m = simp (same, there) at e in
        let q : record n { dirty = false } ≡ m = cc in subst P q (k n (h n refl))
    | inr gone ↦ let r : none ≡ some m = simp (same, gone) at e in absurd (cc)
  ]
  | inr moved ↦ let r : some n ≡ some m = simp moved at e in h m r
]
