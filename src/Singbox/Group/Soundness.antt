-- ===== src/Singbox/Group/Soundness.antt =====
-- core/singboxcore/group.go: an invariant of a group's store, and what keeps it.
use proxy_hub.Prelude.{ℕ, ◌<◌, ◌≡◌, refl, ◌∙◌, String, some, List, [], ◌∷◌, arith}
use proxy_hub.Prelude.Maps.{lookup}
use proxy_hub.Singbox.Time.{Time}
use proxy_hub.Singbox.Node.State.{NodeState, unregister_connection, dec_active}
use proxy_hub.Singbox.Group.State.{
  Connection, Group, modify_cell, modify_conn, release_active, close_connection, close_connections,
  close_active_connections, ensure_selected, ensure_probe_loop, wake_probe,
}
use proxy_hub.Singbox.Group.Members.{nudge_probe}
use proxy_hub.Singbox.Group.Ledger.{
  IsConsistent, modify_conn-IsConsistent, modify_cell-IsConsistent, close_connection-IsConsistent,
  close_active_connections-IsConsistent,
}

-- The counts and sets of connections agree, and every ID of the map is that of the node in its
-- cell, which is one of the group's.
pub record IsSound (g : Group) : Type 0 where
  pub ledger : IsConsistent g
  pub member : (id : String) (p : ℕ) → lookup id g.nodes ≡ some p → p < g.next_cell
  pub named : (id : String) (p : ℕ) → lookup id g.nodes ≡ some p → (g.cells p).id ≡ id

-- Two groups with the same nodes, connections and map.
pub record SameStore (g g' : Group) : Type 0 where
  pub cells : g'.cells ≡ g.cells
  pub conns : g'.conns ≡ g.conns
  pub next_cell : g'.next_cell ≡ g.next_cell
  pub next_conn : g'.next_conn ≡ g.next_conn
  pub nodes : g'.nodes ≡ g.nodes

pub SameStore-IsSound : (g g' : Group) → SameStore g g' → IsSound g → IsSound g'
SameStore-IsSound g g' s h = record {
  ledger = record {
    balanced = λ p. rw s.cells (h.ledger.balanced p);
    owner = λ p c k. rw s.conns (h.ledger.owner p c (rw s.cells at k));
    unreleased = λ p c k. rw s.conns (h.ledger.unreleased p c (rw s.cells at k));
    known = λ p c k. rw s.next_conn (h.ledger.known p c (rw s.cells at k));
    tracked =
        λ c k u. rw (s.cells, s.conns) (h.ledger.tracked c (rw s.next_conn at k) (rw s.conns at u));
    owned = λ c k. rw (s.conns, s.next_cell) (h.ledger.owned c (rw s.next_conn at k));
  };
  member = λ id p k. rw s.next_cell (h.member id p (rw s.nodes at k));
  named = λ id p k. rw s.cells (h.named id p (rw s.nodes at k));
}

pub ensure_selected-SameStore : (g : Group) (now : Time) → SameStore g (ensure_selected g now)
unfolding ensure_selected
ensure_selected-SameStore g now = record {
  cells = ground arith;
  conns = ground arith;
  next_cell = ground arith;
  next_conn = ground arith;
  nodes = ground arith;
}

pub ensure_selected-IsSound : (g : Group) (now : Time) → IsSound g → IsSound (ensure_selected g now)
ensure_selected-IsSound g now =
    SameStore-IsSound g (ensure_selected g now) (ensure_selected-SameStore g now)

nudge_probe-SameStore : (g : Group) → SameStore g (nudge_probe g)
unfolding wake_probe ensure_probe_loop
nudge_probe-SameStore g = record {
  cells = ground arith;
  conns = ground arith;
  next_cell = ground arith;
  next_conn = ground arith;
  nodes = ground arith;
}

pub nudge_probe-IsSound : (g : Group) → IsSound g → IsSound (nudge_probe g)
nudge_probe-IsSound g = SameStore-IsSound g (nudge_probe g) (nudge_probe-SameStore g)

-- A change of a node that leaves its ID, its connections and their count.
pub record Keeps (n m : NodeState) : Type 0 where
  pub id : m.id ≡ n.id
  pub connections : m.active_connections ≡ n.active_connections
  pub count : m.active_count ≡ n.active_count

pub modify_cell-IsSound :
    (g : Group) (p : ℕ) (f : NodeState → NodeState)
    → Keeps (g.cells p) (f (g.cells p))
    → IsSound g
    → IsSound (modify_cell g p f)
unfolding modify_cell
modify_cell-IsSound g p f k h = record {
  ledger = modify_cell-IsConsistent g p f k.connections k.count h.ledger;
  member = h.member;
  named = λ id q e. ground (arith, h.named id q);
}

pub modify_conn-IsSound :
    (g : Group) (c : ℕ) (f : Connection → Connection)
    → (f (g.conns c)).node ≡ (g.conns c).node
    → (f (g.conns c)).active_done ≡ (g.conns c).active_done
    → IsSound g
    → IsSound (modify_conn g c f)
unfolding modify_conn
modify_conn-IsSound g c f n d h = record {
  ledger = modify_conn-IsConsistent g c f n d h.ledger;
  member = h.member;
  named = h.named;
}

-- Closing changes neither the map nor an ID.
pub record SameMembers (g g' : Group) : Type 0 where
  pub next_cell : g'.next_cell ≡ g.next_cell
  pub nodes : g'.nodes ≡ g.nodes
  pub ids : (p : ℕ) → (g'.cells p).id ≡ (g.cells p).id

pub close_connection-SameMembers : (g : Group) (c : ℕ) → SameMembers g (close_connection g c)
unfolding close_connection release_active modify_conn modify_cell dec_active unregister_connection
close_connection-SameMembers g c = record {
  next_cell = ground arith;
  nodes = ground arith;
  ids = λ p. ground arith;
}

close_connections-SameMembers : (g : Group) (cs : List ℕ) → SameMembers g (close_connections g cs)
unfolding close_connections
close_connections-SameMembers g [] = record { next_cell = refl; nodes = refl; ids = λ p. refl }
close_connections-SameMembers g (c ∷ cs) =
    let one = close_connection-SameMembers g c in
    let rest = close_connections-SameMembers (close_connection g c) cs in
    record {
      next_cell = rest.next_cell ∙ one.next_cell;
      nodes = rest.nodes ∙ one.nodes;
      ids = λ p. rest.ids p ∙ one.ids p;
    }

pub close_active_connections-SameMembers :
    (g : Group) (p : ℕ) → SameMembers g (close_active_connections g p)
unfolding close_active_connections
close_active_connections-SameMembers g p =
    close_connections-SameMembers g (g.cells p).active_connections

SameMembers-IsSound : (g g' : Group) → SameMembers g g' → IsSound g → IsConsistent g' → IsSound g'
SameMembers-IsSound g g' s h c = record {
  ledger = c;
  member = λ id p e. rw s.next_cell (h.member id p (rw s.nodes at e));
  named = λ id p e. s.ids p ∙ h.named id p (rw s.nodes at e);
}

pub close_active_connections-IsSound :
    (g : Group) (p : ℕ) → IsSound g → IsSound (close_active_connections g p)
close_active_connections-IsSound g p h =
    SameMembers-IsSound g _ (close_active_connections-SameMembers g p) h
      (close_active_connections-IsConsistent g p h.ledger)

pub close_connection-IsSound :
    (g : Group) (c : ℕ) → c < g.next_conn → IsSound g → IsSound (close_connection g c)
close_connection-IsSound g c l h =
    SameMembers-IsSound g _ (close_connection-SameMembers g c) h
      (close_connection-IsConsistent g c l h.ledger)
