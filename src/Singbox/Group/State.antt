-- ===== src/Singbox/Group/State.antt =====
-- core/singboxcore/group.go: DynamicGroup and trackedConn as one state, with the helpers that all of
-- its operations share. Nodes are pointers in the source, and connections keep theirs after the
-- node has left the group: so nodes and connections are numbered cells here, and the group's map
-- takes an ID to a cell. Each operation runs alone, as under the source's locks.
use proxy_hub.Prelude.{
  ℕ, ◌+◌, Bool, true, false, not, ◌||◌, String, Option, none, some, List, [], ◌∷◌, if◌then◌else◌,
}
use proxy_hub.Prelude.Maps.{Map, lookup, update}
use proxy_hub.Prelude.Text.{trim_space}
use proxy_hub.Singbox.Time.{Time, Duration}
use proxy_hub.Singbox.Policy.{Policy, is_least_latency}
use proxy_hub.Singbox.Balancer.{Balancer}
use proxy_hub.Singbox.Node.State.{NodeState, eligible, unregister_connection, dec_active}

-- The calls of the three callbacks of a policy.
pub data Event : Type 0 where
  probed :
      (node_id node_tag : String) (available : Bool) (latency : Duration) (message : String)
      (at : Time)
      → Event
  revived : (node_ids : List String) (at : Time) → Event
  traffic_failed : (node_id node_tag reason : String) (at : Time) → Event

-- trackedConn and trackedPacketConn. `active_done` and `failure_done` are the two sync.Once,
-- `closed` says whether the connection below was closed.
pub record Connection : Type 0 where
  pub node : ℕ
  pub is_packet : Bool
  pub active_done : Bool
  pub failure_done : Bool
  pub received_response : Bool
  pub closing : Bool
  pub closed : Bool

-- `probe_wake` is the channel with one place, `cancelled` says that the context has ended.
pub record Group : Type 0 where
  pub tag : String
  pub policy : Policy
  pub balancer : Balancer
  pub fallback : Balancer
  pub cells : ℕ → NodeState
  pub next_cell : ℕ
  pub nodes : Map ℕ
  pub order : List String
  pub selected : String
  pub conns : ℕ → Connection
  pub next_conn : ℕ
  pub probe_wake : Bool
  pub probe_running : Bool
  pub probe_round_running : Bool
  pub runtime_started : Bool
  pub last_probe_at : Time
  pub next_probe_at : Time
  pub cancelled : Bool
  pub events : List Event

-- The readings of the clock that a call makes, in order.
abbrev pub Clock : Type 0
Clock = ℕ → Time

-- The readings that are left after the first k.
abbrev pub after_readings : ℕ → Clock → Clock
after_readings k clock i = clock (k + i)

-- The method `node`: the ID is trimmed, and none is ErrNodeNotFound.
unfoldable pub find_node : Group → String → Option ℕ
find_node g node_id = lookup (trim_space node_id) g.nodes

unfoldable pub modify_cell : Group → ℕ → (NodeState → NodeState) → Group
modify_cell g p f = record g { cells = update g.cells p (f (g.cells p)) }

unfoldable pub modify_conn : Group → ℕ → (Connection → Connection) → Group
modify_conn g c f = record g { conns = update g.conns c (f (g.conns c)) }

-- releaseActive: the first call alone takes the connection off its node and its count.
unfoldable pub release_active : Group → ℕ → Group
unfolding modify_cell modify_conn
release_active g c =
    if (g.conns c).active_done
    then g
    else modify_cell (modify_conn g c (λ k. record k { active_done = true })) (g.conns c).node
        (λ n. dec_active (unregister_connection n c))

-- What closing does to the connection itself: a packet connection has no `closing`.
abbrev pub mark_closed : Connection → Connection
mark_closed k = record k { closing = k.closing || not k.is_packet; closed = true }

-- closeForNode and Close, of both kinds of connection.
unfoldable pub close_connection : Group → ℕ → Group
unfolding release_active
close_connection g c = release_active (modify_conn g c mark_closed) c

unfoldable pub close_connections : Group → List ℕ → Group
unfolding close_connection
close_connections g [] = g
close_connections g (c ∷ cs) = close_connections (close_connection g c) cs

-- closeActiveConnections of the node in a cell.
unfoldable pub close_active_connections : Group → ℕ → Group
unfolding close_connections
close_active_connections g p = close_connections g (g.cells p).active_connections

-- Whether the ID names a node of the group that is eligible with its health regarded.
unfoldable pub is_eligible : Group → Time → String → Bool
is_eligible g now id = elim (lookup id g.nodes) [
  | none ↦ false
  | some p ↦ eligible (g.cells p) now false
]

-- The first eligible ID in order, or the empty text.
unfoldable pub first_eligible : Group → Time → List String → String
unfolding is_eligible
first_eligible g now [] = ""
first_eligible g now (id ∷ ids) =
    let rest = first_eligible g now ids in if is_eligible g now id then id else rest

unfoldable pub ensure_selected : Group → Time → Group
unfolding first_eligible
ensure_selected g now =
    if g.policy.force_selected
    then g
    else if is_eligible g now g.selected
    then g
    else record g { selected = first_eligible g now g.order }

-- ensureLeastLatencyProbeLoop: at most one loop is started.
unfoldable pub ensure_probe_loop : Group → Group
ensure_probe_loop g =
    if g.cancelled
      || not g.runtime_started
      || not (is_least_latency g.policy.strategy)
      || g.probe_running
    then g
    else record g { probe_running = true }

-- wakeLeastLatencyProbe: a wake that is pending is enough.
unfoldable pub wake_probe : Group → Group
wake_probe g = record g { probe_wake = true }
