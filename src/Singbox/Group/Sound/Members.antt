-- ===== src/Singbox/Group/Sound/Members.antt =====
-- core/singboxcore/group.go: the store of a new group and under additions.
use proxy_hub.Prelude.{
  ℕ, ◌≡◌, refl, Bool, true, String, [], inl, inr, arith, Bool-cases, Option-cases, ◌||◌,
}
use proxy_hub.Prelude.Int.{pos}
use proxy_hub.Prelude.Maps.{lookup, lookup-insert}
use proxy_hub.Prelude.Text.{str_eq_iff, is_empty, trim_space}
use proxy_hub.Singbox.Policy.{Policy}
use proxy_hub.Singbox.Errors.{Result, ok, err}
use proxy_hub.Singbox.Node.State.{NodeState, has_connection, new_node_state, enable}
use proxy_hub.Singbox.Group.State.{Group, modify_cell}
use proxy_hub.Singbox.Group.Members.{
  new_dynamic_group, renew_member, add_member, add_node, update_policy,
}
use proxy_hub.Singbox.Group.Ledger.{IsConsistent, open_at}
use proxy_hub.Singbox.Group.Soundness.{
  IsSound, SameStore-IsSound, nudge_probe-IsSound, modify_cell-IsSound,
}

-- What a call leaves: an error leaves the group as it was.
abbrev pub after_call : Group → Result Group → Group
after_call g (ok g') = g'
after_call g (err e) = g

pub new_dynamic_group-IsSound :
    (tag : String) (policy : Policy) (cancelled : Bool)
    → IsSound (new_dynamic_group tag policy cancelled)
unfolding new_dynamic_group lookup has_connection new_node_state
new_dynamic_group-IsSound tag policy cancelled = record {
  ledger = record {
    balanced = λ p. record { distinct = tt; counted = refl };
    owner = λ p c k. cc;
    unreleased = λ p c k. cc;
    known = λ p c k. cc;
    tracked = λ c k u. absurd (omega arith);
    owned = λ c k. absurd (omega arith);
  };
  member = λ id p k. cc;
  named = λ id p k. cc;
}

-- A node that has no connection yet.
pub record IsUnused (n : NodeState) : Type 0 where
  pub none_open : n.active_connections ≡ []
  pub none_counted : n.active_count ≡ pos 0

module _ (g : Group) (n : NodeState) (u : IsUnused n) (h : IsSound g) where
  -- A connection in a set afterwards was there before, at another cell.
  added_open :
      (q c : ℕ)
      → has_connection c (open_at (add_member g n) q) ≡ true
      → (has_connection c (open_at g q) ≡ true)
  unfolding add_member has_connection
  added_open q c k = ground (arith, u.none_open)

  added-ledger : IsConsistent (add_member g n)
  unfolding add_member
  added-ledger = record {
    balanced = λ q. ground (arith, h.ledger.balanced q, u.none_open, u.none_counted);
    owner = λ q c k. h.ledger.owner q c (added_open q c k);
    unreleased = λ q c k. h.ledger.unreleased q c (added_open q c k);
    known = λ q c k. h.ledger.known q c (added_open q c k);
    tracked = λ c k d. ground (arith, h.ledger.tracked c k d, h.ledger.owned c k);
    owned = λ c k. ground (arith, h.ledger.owned c k);
  }

  pub add_member-IsSound : IsSound (add_member g n)
  unfolding add_member
  add_member-IsSound = record {
    ledger = added-ledger;
    member = λ id p k. ground (arith, lookup-insert n.id id g.next_cell g.nodes, h.member id p);
    named = λ id p k. ground (
      arith,
      lookup-insert n.id id g.next_cell g.nodes,
      h.member id p,
      h.named id p,
      str_eq_iff n.id id,
    );
  }

pub add_node-IsSound :
    (g : Group) (n : NodeState) → IsUnused n → IsSound g → IsSound (after_call g (add_node g n))
unfolding add_node enable
add_node-IsSound g n u h =
    elim (Bool-cases (is_empty (trim_space n.id) || is_empty (trim_space n.tag))) [
      | inl e ↦ rw e h
      | inr e ↦ rw e (elim (Option-cases (lookup n.id g.nodes)) [
        | inl k ↦ rw k (nudge_probe-IsSound (add_member g n) (add_member-IsSound g n u h))
        | inr (p, k) ↦ rw k (
            nudge_probe-IsSound (modify_cell g p (renew_member n)) (
              modify_cell-IsSound g p (renew_member n)
                (record { id = refl; connections = refl; count = refl }) h))
      ])
    ]

pub update_policy-IsSound : (g : Group) (p : Policy) → IsSound g → IsSound (update_policy g p)
unfolding update_policy
update_policy-IsSound g p h = nudge_probe-IsSound _ (
    SameStore-IsSound g _
      (record { cells = refl; conns = refl; next_cell = refl; next_conn = refl; nodes = refl }) h)
