-- ===== src/Singbox/Group/Sound/Removal.antt =====
-- core/singboxcore/group.go: the store under the disabling, failing and removing of members.
use proxy_hub.Prelude.{
  ℕ, ◌≡◌, refl, ◌∙◌, Bool, true, false, not, String, List, [], ◌∷◌, inl, inr, arith, Bool-cases,
  Option-cases, if◌then◌else◌,
}
use proxy_hub.Prelude.Int.{pos}
use proxy_hub.Prelude.Maps.{Map, lookup, lookup-delete}
use proxy_hub.Prelude.Text.{is_empty, trim_space}
use proxy_hub.Singbox.Time.{Time, Duration}
use proxy_hub.Singbox.Errors.{Result}
use proxy_hub.Singbox.Node.State.{NodeState, eligible, disable}
use proxy_hub.Singbox.Node.Marks.{mark_alive, mark_failed, mark_tombstone}
use proxy_hub.Singbox.Node.Revival.{remove_ready}
use proxy_hub.Singbox.Group.State.{
  Group, Clock, after_readings, find_node, close_active_connections, wake_probe,
}
use proxy_hub.Singbox.Group.Members.{
  disable_node, drop_member, collect, gc, remove_node, select_node, mark_node_alive,
  mark_node_failed, start_probing, stop_probing, set_selected,
}
use proxy_hub.Singbox.Group.Soundness.{
  IsSound, SameStore-IsSound, ensure_selected-SameStore, ensure_selected-IsSound,
  close_active_connections-SameMembers, nudge_probe-IsSound, Keeps, modify_cell-IsSound,
  close_active_connections-IsSound,
}
use proxy_hub.Singbox.Group.Sound.Members.{after_call}

mark_failed-Keeps :
    (n : NodeState) (ttl : Duration) (reason : String) (now : Time)
    → Keeps n (mark_failed n ttl reason now)
unfolding mark_failed
mark_failed-Keeps n ttl reason now = ground arith

mark_tombstone-Keeps :
    (n : NodeState) (ttl : Duration) (now : Time) → Keeps n (mark_tombstone n ttl now)
unfolding mark_tombstone
mark_tombstone-Keeps n ttl now = ground arith

pub mark_alive-Keeps : (n : NodeState) → Keeps n (mark_alive n)
unfolding mark_alive
mark_alive-Keeps n = ground arith

pub disable_node-IsSound :
    (g : Group) (id : String) (now : Time)
    → IsSound g
    → IsSound (after_call g (disable_node g id now))
unfolding disable_node disable
disable_node-IsSound g id now h = elim (Option-cases (find_node g id)) [
  | inl e ↦ rw (e, disable_node) h
  | inr (p, e) ↦
      rw (e, disable_node)
        (ensure_selected-IsSound _ now (
          close_active_connections-IsSound _ p (
            modify_cell-IsSound g p disable (record { id = refl; connections = refl; count = refl })
              h)))
]

drop_member-IsSound : (g : Group) (id : String) → IsSound g → IsSound (drop_member g id)
drop_member-IsSound g id h = record {
  ledger = record {
    balanced = h.ledger.balanced;
    owner = h.ledger.owner;
    unreleased = h.ledger.unreleased;
    known = h.ledger.known;
    tracked = h.ledger.tracked;
    owned = h.ledger.owned;
  };
  member = λ j p k. ground (arith, lookup-delete id j g.nodes, h.member j p);
  named = λ j p k. ground (arith, lookup-delete id j g.nodes, h.named j p);
}

collect-IsSound :
    (g : Group) (now : Time) (entries : Map ℕ) → IsSound g → IsSound (collect g now entries).0
unfolding collect
collect-IsSound g now [] h = h
collect-IsSound g now ((id, p) ∷ entries) h = elim (Bool-cases (remove_ready (g.cells p) now)) [
  | inl e ↦ rw e (collect-IsSound (drop_member g id) now entries (drop_member-IsSound g id h))
  | inr e ↦ rw e (collect-IsSound g now entries h)
]

pub gc-IsSound : (g : Group) (clock : Clock) → IsSound g → IsSound (gc g clock).0
unfolding gc
gc-IsSound g clock h = ensure_selected-IsSound _ (clock 1) (collect-IsSound g (clock 0) g.nodes h)

-- The group that a removal leaves.
abbrev pub after_removal : Group → Result (Group × List (List String)) → Group
after_removal g (Result.ok r) = r.0
after_removal g (Result.err e) = g

pub remove_node-IsSound :
    (g : Group) (id : String) (ttl : Duration) (clock : Clock)
    → IsSound g
    → IsSound (after_removal g (remove_node g id ttl clock))
unfolding remove_node
remove_node-IsSound g id ttl clock h = elim (Option-cases (find_node g id)) [
  | inl e ↦ rw (e, remove_node) h
  | inr (p, e) ↦
      rw (e, remove_node)
        (gc-IsSound _ (after_readings 2 clock) (
          ensure_selected-IsSound _ (clock 1) (
            close_active_connections-IsSound _ p (
              modify_cell-IsSound g p (λ n. mark_tombstone n ttl (clock 0))
                (mark_tombstone-Keeps (g.cells p) ttl (clock 0)) h))))
]

with_selected-IsSound : (g : Group) (id : String) → IsSound g → IsSound (record g { selected = id })
with_selected-IsSound g id =
    SameStore-IsSound g _
      (record { cells = refl; conns = refl; next_cell = refl; next_conn = refl; nodes = refl })

pub select_node-IsSound :
    (g : Group) (id : String) (now : Time)
    → IsSound g
    → IsSound (after_call g (select_node g id now))
unfolding select_node
select_node-IsSound g id now h = elim (Option-cases (find_node g id)) [
  | inl e ↦ rw (e, select_node) h
  | inr (p, e) ↦ elim (Bool-cases (eligible (g.cells p) now g.policy.force_selected)) [
    | inl f ↦ rw (e, f, select_node) (with_selected-IsSound g (g.cells p).id h)
    | inr f ↦ rw (e, f, select_node) h
  ]
]

pub mark_node_alive-IsSound :
    (g : Group) (id : String) → IsSound g → IsSound (after_call g (mark_node_alive g id))
unfolding mark_node_alive
mark_node_alive-IsSound g id h = elim (Option-cases (find_node g id)) [
  | inl e ↦ rw (e, mark_node_alive) h
  | inr (p, e) ↦
      rw (e, mark_node_alive) (modify_cell-IsSound g p mark_alive (mark_alive-Keeps (g.cells p)) h)
]

-- A group whose connections at a node are closed or left, as a test says.
pub close_unless-IsSound :
    (g : Group) (b : Bool) (p : ℕ)
    → IsSound g
    → IsSound (if not b then close_active_connections g p else g)
close_unless-IsSound g true p h = h
close_unless-IsSound g false p h = close_active_connections-IsSound g p h

pub mark_node_failed-IsSound :
    (g : Group) (id : String) (ttl : Duration) (reason : String) (clock : Clock)
    → IsSound g
    → IsSound (after_call g (mark_node_failed g id ttl reason clock))
unfolding mark_node_failed
mark_node_failed-IsSound g id ttl reason clock h = elim (Option-cases (find_node g id)) [
  | inl e ↦ rw (e, mark_node_failed) h
  | inr (p, e) ↦
      let given = if g.policy.force_selected then pos 0 else ttl in
      rw (e, mark_node_failed)
        (ensure_selected-IsSound _ (clock 2) (
          close_unless-IsSound _ _ p (
            modify_cell-IsSound g p (λ n. mark_failed n given reason (clock 0))
              (mark_failed-Keeps (g.cells p) given reason (clock 0)) h)))
]

close_unless-next_cell :
    (g : Group) (b : Bool) (p : ℕ)
    → (if not b then close_active_connections g p else g).next_cell ≡ g.next_cell
close_unless-next_cell g true p = refl
close_unless-next_cell g false p = (close_active_connections-SameMembers g p).next_cell

pub mark_node_failed-next_cell :
    (g : Group) (id : String) (ttl : Duration) (reason : String) (clock : Clock)
    → (after_call g (mark_node_failed g id ttl reason clock)).next_cell ≡ g.next_cell
unfolding mark_node_failed
mark_node_failed-next_cell g id ttl reason clock = elim (Option-cases (find_node g id)) [
  | inl e ↦ rw (e, mark_node_failed)
  | inr (p, e) ↦
      rw (e, mark_node_failed)
        ((ensure_selected-SameStore _ (clock 2)).next_cell ∙ close_unless-next_cell _ _ p)
]

with_started-IsSound :
    (g : Group) (b : Bool) → IsSound g → IsSound (record g { runtime_started = b })
with_started-IsSound g b =
    SameStore-IsSound g _
      (record { cells = refl; conns = refl; next_cell = refl; next_conn = refl; nodes = refl })

pub start_probing-IsSound : (g : Group) → IsSound g → IsSound (start_probing g)
unfolding start_probing
start_probing-IsSound g h = nudge_probe-IsSound _ (with_started-IsSound g true h)

pub stop_probing-IsSound : (g : Group) → IsSound g → IsSound (stop_probing g)
unfolding stop_probing wake_probe
stop_probing-IsSound g h =
    SameStore-IsSound g _
      (record { cells = refl; conns = refl; next_cell = refl; next_conn = refl; nodes = refl }) h

pub set_selected-IsSound : (g : Group) (id : String) → IsSound g → IsSound (set_selected g id)
unfolding set_selected
set_selected-IsSound g id h = elim (Bool-cases (is_empty (trim_space id))) [
  | inl e ↦ rw (e, set_selected) h
  | inr e ↦ elim (Option-cases (lookup id g.nodes)) [
    | inl f ↦ rw (e, f, set_selected) h
    | inr (p, f) ↦ rw (e, f, set_selected) (with_selected-IsSound g id h)
  ]
]
