-- ===== src/Singbox/Group/Members.antt =====
-- core/singboxcore/group.go: the operations on the members of a group.
use proxy_hub.Prelude.{
  ℕ, suc, Bool, true, false, not, ◌||◌, String, none, some, List, [], ◌∷◌, ◌++◌, if◌then◌else◌,
  keep_if,
}
use proxy_hub.Prelude.Int.{pos}
use proxy_hub.Prelude.Maps.{Map, lookup, insert, delete, update}
use proxy_hub.Prelude.Text.{str_eq, is_empty, trim_space}
use proxy_hub.Singbox.Time.{Time, Duration, zero_time}
use proxy_hub.Singbox.Policy.{Policy, normalized, same_strategy}
use proxy_hub.Singbox.Balancer.{new_balancer}
use proxy_hub.Singbox.Errors.{node_not_found, no_available_node_at, Result, ok, err}
use proxy_hub.Singbox.Node.State.{NodeState, new_node_state, eligible, disable, enable}
use proxy_hub.Singbox.Node.Marks.{mark_alive, mark_failed, mark_tombstone}
use proxy_hub.Singbox.Node.Revival.{remove_ready}
use proxy_hub.Singbox.Group.State.{
  Connection, Group, Clock, after_readings, find_node, modify_cell, close_active_connections,
  ensure_selected, ensure_probe_loop, wake_probe,
}

abbrev pub blank_node : NodeState
unfolding new_node_state
blank_node = new_node_state "" "" (record { kind = ""; tag = "" })

abbrev pub blank_connection : Connection
blank_connection = record {
  node = 0;
  is_packet = false;
  active_done = false;
  failure_done = false;
  received_response = false;
  closing = false;
  closed = false;
}

-- NewDynamicGroup. No cell is in use yet.
unfoldable pub new_dynamic_group : String → Policy → Bool → Group
unfolding normalized new_balancer
new_dynamic_group tag given cancelled =
    let policy = normalized given in
    record {
      tag = tag;
      policy = policy;
      balancer = new_balancer policy.strategy;
      fallback = new_balancer policy.fallback_strategy;
      cells = λ _. blank_node;
      next_cell = 0;
      nodes = [];
      order = [];
      selected = "";
      conns = λ _. blank_connection;
      next_conn = 0;
      probe_wake = false;
      probe_running = false;
      probe_round_running = false;
      runtime_started = false;
      last_probe_at = zero_time;
      next_probe_at = zero_time;
      cancelled = cancelled;
      events = [];
    }

-- What follows a change of the members or of the policy.
abbrev pub nudge_probe : Group → Group
nudge_probe g = wake_probe (ensure_probe_loop g)

-- The member's description is taken over and the node enabled, its health and tombstone kept.
abbrev pub renew_member : NodeState → NodeState → NodeState
renew_member node existing =
    enable (record existing { option = node.option; tag = node.tag; tags = node.tags })

unfoldable pub add_member : Group → NodeState → Group
add_member g node = record g {
  cells = update g.cells g.next_cell node;
  next_cell = suc g.next_cell;
  nodes = insert node.id g.next_cell g.nodes;
  order = g.order ++ node.id ∷ [];
  selected = if is_empty g.selected then node.id else g.selected;
}

unfoldable pub add_node : Group → NodeState → Result Group
unfolding add_member modify_cell
add_node g node =
    if is_empty (trim_space node.id) || is_empty (trim_space node.tag)
    then err node_not_found
    else elim (lookup node.id g.nodes) [
      | some p ↦ ok (nudge_probe (modify_cell g p (renew_member node)))
      | none ↦ ok (nudge_probe (add_member g node))
    ]

-- A balancer is replaced only if its strategy changes, so its place in the round is kept.
unfoldable pub update_policy : Group → Policy → Group
unfolding normalized same_strategy new_balancer
update_policy g given =
    let policy = normalized given in
    nudge_probe (record g {
      balancer =
          if same_strategy g.policy.strategy policy.strategy
          then g.balancer
          else new_balancer policy.strategy;
      fallback =
          if same_strategy g.policy.fallback_strategy policy.fallback_strategy
          then g.fallback
          else new_balancer policy.fallback_strategy;
      policy = policy;
    })

unfoldable pub disable_node : Group → String → Time → Result Group
unfolding find_node
disable_node g node_id now = elim (find_node g node_id) [
  | none ↦ err node_not_found
  | some p ↦ ok (ensure_selected (close_active_connections (modify_cell g p disable) p) now)
]

-- The outbound tags of a node: its own tag, if it lists none.
unfoldable pub node_tags : NodeState → List String
node_tags n = elim n.tags [ [] ↦ n.tag ∷ [] | t ∷ ts ↦ t ∷ ts ]

-- removeString.
unfoldable pub remove_string : List String → String → List String
remove_string values target = keep_if (λ v. not (str_eq v target)) values

abbrev pub drop_member : Group → String → Group
drop_member g id = record g {
  nodes = delete id g.nodes;
  order = remove_string g.order id;
  selected = if str_eq g.selected id then "" else g.selected;
}

-- The first loop of GC, over the entries of the map: the members that may go, go, and their tags
-- are collected.
unfoldable pub collect : Group → Time → Map ℕ → Group × List (List String)
unfolding node_tags remove_string
collect g now [] = (g, [])
collect g now ((id, p) ∷ entries) =
    let gone = collect (drop_member g id) now entries in
    let kept = collect g now entries in
    if remove_ready (g.cells p) now then (gone.0, node_tags (g.cells p) ∷ gone.1) else kept

-- GC. The lists of tags go to removeTags, one call for each, which is the core's or the outbound
-- manager's; their errors, joined, are the result there.
unfoldable pub gc : Group → Clock → Group × List (List String)
unfolding collect
gc g clock =
    let (collected, ready) = collect g (clock 0) g.nodes in
    (ensure_selected collected (clock 1), ready)

unfoldable pub remove_node : Group → String → Duration → Clock → Result (Group × List (List String))
unfolding find_node gc
remove_node g node_id ttl clock = elim (find_node g node_id) [
  | none ↦ err node_not_found
  | some p ↦
      let marked = modify_cell g p (λ n. mark_tombstone n ttl (clock 0)) in
      let closed = close_active_connections marked p in
      ok (gc (ensure_selected closed (clock 1)) (after_readings 2 clock))
]

unfoldable pub select_node : Group → String → Time → Result Group
unfolding find_node
select_node g node_id now = elim (find_node g node_id) [
  | none ↦ err node_not_found
  | some p ↦
      if not (eligible (g.cells p) now g.policy.force_selected)
      then err (no_available_node_at node_id)
      else ok (record g { selected = (g.cells p).id })
]

unfoldable pub mark_node_alive : Group → String → Result Group
unfolding find_node modify_cell
mark_node_alive g node_id = elim (find_node g node_id) [
  | none ↦ err node_not_found
  | some p ↦ ok (modify_cell g p mark_alive)
]

unfoldable pub mark_node_failed : Group → String → Duration → String → Clock → Result Group
unfolding find_node modify_cell
mark_node_failed g node_id given reason clock = elim (find_node g node_id) [
  | none ↦ err node_not_found
  | some p ↦
      let ttl = if g.policy.force_selected then pos 0 else given in
      let failed = modify_cell g p (λ n. mark_failed n ttl reason (clock 0)) in
      let closed =
        if not (eligible (failed.cells p) (clock 1) g.policy.force_selected)
        then close_active_connections failed p
        else failed in
      ok (ensure_selected closed (clock 2))
]

unfoldable pub start_probing : Group → Group
start_probing g = nudge_probe (record g { runtime_started = true })

unfoldable pub stop_probing : Group → Group
stop_probing g = wake_probe (record g { runtime_started = false })

-- setSelected, from a connection that was made.
unfoldable pub set_selected : Group → String → Group
set_selected g node_id =
    if is_empty (trim_space node_id)
    then g
    else elim (lookup node_id g.nodes) [ none ↦ g | some p ↦ record g { selected = node_id } ]
