-- ===== src/Singbox/Group/Snapshot.antt =====
-- core/singboxcore/group.go: GroupSnapshot.
use proxy_hub.Prelude.{Bool, String, List, map}
use proxy_hub.Singbox.Time.{Time}
use proxy_hub.Singbox.Policy.{Policy}
use proxy_hub.Singbox.Node.Snapshot.{NodeSnapshot, snapshot_node}
use proxy_hub.Singbox.Group.State.{Group}
use proxy_hub.Singbox.Group.Candidates.{member_cells}

pub record GroupSnapshot : Type 0 where
  pub tag : String
  pub policy : Policy
  pub selected : String
  pub probe_running : Bool
  pub runtime_started : Bool
  pub last_probe_at : Time
  pub next_probe_at : Time
  pub nodes : List NodeSnapshot

-- What a snapshot calls a running probe is a running round.
unfoldable pub snapshot_group : Group → Time → GroupSnapshot
unfolding snapshot_node member_cells
snapshot_group g now = record {
  tag = g.tag;
  policy = g.policy;
  selected = g.selected;
  probe_running = g.probe_round_running;
  runtime_started = g.runtime_started;
  last_probe_at = g.last_probe_at;
  next_probe_at = g.next_probe_at;
  nodes = map (λ p. snapshot_node (g.cells p) now) (member_cells g.nodes g.order);
}
