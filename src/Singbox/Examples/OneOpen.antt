-- ===== src/Singbox/Examples/OneOpen.antt =====
-- core/singboxcore/group.go: calls on a group of two nodes with an open connection, computed.
use proxy_hub.Prelude.{keep_if, ◌≡◌, refl, false, String, some, List}
use proxy_hub.Singbox.Time.{seconds}
use proxy_hub.Singbox.Errors.{ok}
use proxy_hub.Singbox.Group.State.{
  Group, after_readings, close_active_connections, ensure_selected, ensure_probe_loop, modify_cell,
  find_node, wake_probe,
}
use proxy_hub.Singbox.Group.Sound.Members.{after_call}
use proxy_hub.Singbox.Group.Sound.Removal.{after_removal}
use proxy_hub.Singbox.Examples.Sample.{tick, one_open}
use proxy_hub.Singbox.Balancer.{rotated, new_balancer, round_robin_start, order_nodes}
use proxy_hub.Singbox.Policy.{normalized}
use proxy_hub.Singbox.Group.Dial.{
  dial_loop, dial_context, dial_candidates, attempt_node, accept_node, track, with_connection,
}
use proxy_hub.Singbox.Group.Members.{
  new_dynamic_group, remove_node, add_member, disable_node, set_selected, gc, add_node,
}
use proxy_hub.Singbox.Group.Candidates.{
  candidates, member_cells, order_candidates, eligible_nodes, revive_if_none,
}
use proxy_hub.Singbox.Node.Marks.{mark_tombstone, mark_alive}
use proxy_hub.Singbox.Node.State.{
  register_connection, eligible, add_connection, set_latency, has_connection, new_node_state,
  eligible_health,
}
use proxy_hub.Prelude.Text.{trim_space}
use proxy_hub.Prelude.Maps.{insert, lookup}

abbrev pub a_disabled : Group
a_disabled = after_call one_open (disable_node one_open "a" 20)

abbrev pub a_removed : Group
a_removed = after_removal one_open (remove_node one_open "a" (seconds 120) tick)

pub found_a : find_node one_open "a" ≡ some 0
unfolding keep_if find_node lookup dial_context add_node trim_space new_node_state new_dynamic_group
    wake_probe ensure_probe_loop insert normalized new_balancer add_member modify_cell candidates
    dial_candidates eligible_nodes member_cells order_candidates order_nodes round_robin_start
    rotated revive_if_none dial_loop attempt_node accept_node track register_connection
    with_connection set_latency mark_alive set_selected eligible eligible_health add_connection
    has_connection
found_a = refl

pub stream_0 : (one_open.conns 0).is_packet ≡ false
unfolding keep_if find_node lookup dial_context add_node trim_space new_node_state new_dynamic_group
    wake_probe ensure_probe_loop insert normalized new_balancer add_member modify_cell candidates
    dial_candidates eligible_nodes member_cells order_candidates order_nodes round_robin_start
    rotated revive_if_none dial_loop attempt_node accept_node track register_connection
    with_connection set_latency mark_alive set_selected eligible eligible_health add_connection
    has_connection
stream_0 = refl

pub disabled_a : disable_node one_open "a" 20 ≡ ok a_disabled
unfolding disable_node
disabled_a = rw (found_a, disable_node) refl

abbrev pub a_ready : List (List String)
a_ready =
    (gc
      (ensure_selected
        (close_active_connections
          (modify_cell one_open 0 (λ n. mark_tombstone n (seconds 120) (tick 0))) 0)
        (tick 1))
      (after_readings 2 tick)).1

pub removed_a : remove_node one_open "a" (seconds 120) tick ≡ ok (a_removed, a_ready)
unfolding remove_node
removed_a = rw (found_a, remove_node) refl
