-- ===== src/Service/Examples/Routes.antt =====
-- The node that a mapping uses, in a small setting.
use proxy_hub.Prelude.{true, false, ◌≡◌, refl, map, List, String, [], ◌∷◌, Option, none, some}
use mathlib.Core.List.{Perm}
use proxy_hub.Singbox.Core.Upkeep.{CoreState}
use proxy_hub.Service.Route.Sorted.{runtime_routes_lem, route_key, group_keys}
use proxy_hub.Service.Route.Order.{InOrder}
use proxy_hub.Prelude.Maps.{lookup}
use proxy_hub.Singbox.Policy.{round_robin}
use proxy_hub.Singbox.Node.State.{new_node_state}
use proxy_hub.Singbox.Node.Snapshot.{NodeSnapshot, snapshot_node}
use proxy_hub.Singbox.Group.Snapshot.{GroupSnapshot}
use proxy_hub.Singbox.Examples.Sample.{with_strategy, direct_out, node_a}
use proxy_hub.Service.Route.State.{RouteNode, Route}
use proxy_hub.Service.Route.Selected.{
  BuiltinTypes, by_tag, find_selected, route_node, resolve, route_fuel, runtime_routes,
}
use proxy_hub.Service.Route.Finding.{FoundBelow, resolve_lem}
use proxy_hub.Service.Route.Leading.{LeadsIn, resolve_of_LeadsIn}

abbrev singbox_types : BuiltinTypes
singbox_types = record { direct = "direct"; block = "block" }

abbrev selecting : String → String → List NodeSnapshot → GroupSnapshot
selecting tag selected nodes = record {
  tag = tag;
  policy = with_strategy round_robin;
  selected = selected;
  probe_running = false;
  runtime_started = true;
  last_probe_at = 0;
  next_probe_at = 0;
  nodes = nodes;
}

abbrev leaf_node : NodeSnapshot
leaf_node = snapshot_node node_a 10

abbrev group_member : NodeSnapshot
group_member = snapshot_node (new_node_state "g" "group-g" direct_out) 10

-- The root selects a group, which selects a node.
abbrev root : GroupSnapshot
root = selecting "mapping-out-m" "g" (leaf_node ∷ group_member ∷ [])

abbrev inner : GroupSnapshot
inner = selecting "group-g" "a" (leaf_node ∷ [])

abbrev both_groups : List GroupSnapshot
both_groups = inner ∷ root ∷ []

abbrev used_node : RouteNode
used_node = route_node singbox_types (by_tag both_groups []) inner leaf_node

resolve_of_LeadsIn_example :
    resolve singbox_types (by_tag both_groups []) (route_fuel both_groups) root []
    ≡ some (some used_node)
unfolding by_tag snapshot_node lookup find_selected LeadsIn new_node_state
resolve_of_LeadsIn_example =
    resolve_of_LeadsIn singbox_types both_groups root 1 used_node refl
      (group_member, inner, refl, refl, (leaf_node, refl, refl, refl))

-- Two groups that select each other.
abbrev cyclic : GroupSnapshot
cyclic =
    selecting "group-g" "m" (snapshot_node (new_node_state "m" "mapping-out-m" direct_out) 10 ∷ [])

abbrev cycle : List GroupSnapshot
cycle = cyclic ∷ root ∷ []

resolve_lem_example :
    (x : Option RouteNode) × (resolve singbox_types (by_tag cycle []) (route_fuel cycle) root []
      ≡ some x)
    × FoundBelow singbox_types (by_tag cycle []) root x
unfolding by_tag snapshot_node lookup
resolve_lem_example = resolve_lem singbox_types cycle root refl

abbrev two_instances : List (String × Option CoreState)
two_instances = ("n", none) ∷ ("m", some (record { running = true; groups = both_groups })) ∷ []

runtime_routes_lem_example :
    (rs : List Route) × (runtime_routes singbox_types two_instances ≡ some rs)
    × Perm (map route_key rs) (group_keys two_instances)
    × InOrder rs
runtime_routes_lem_example = runtime_routes_lem singbox_types two_instances
