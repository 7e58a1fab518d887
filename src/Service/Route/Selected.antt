-- ===== src/Service/Route/Selected.antt =====
-- runtime_route.go: the routes of the snapshots of the cores.
use mathlib.Core.Option
use proxy_hub.Prelude.{
  ℕ, zero, suc, Bool, true, false, not, ◌&&◌, ◌||◌, String, List, [], ◌∷◌, ◌++◌, Option, none, some,
  map, length, if◌then◌else◌,
}
use proxy_hub.Prelude.Text.{str_eq, is_empty, text_less, has_prefix}
use proxy_hub.Prelude.Maps.{Map, lookup, insert}
use proxy_hub.Prelude.Sort.{stable_sort}
use proxy_hub.ProxyUri.Unique.{has_text, first_non_empty}
use proxy_hub.Singbox.Node.State.{is_dead}
use proxy_hub.Singbox.Node.Snapshot.{NodeSnapshot}
use proxy_hub.Singbox.Group.Snapshot.{GroupSnapshot}
use proxy_hub.Singbox.Core.Upkeep.{CoreState}
use proxy_hub.Service.Route.State.{
  NodeKind, no_kind, builtin_kind, group_kind, node_kind, RouteNode, Route, mapping_outbound_tag,
  found_or,
}

-- The names that sing-box gives to its built-in outbounds.
pub record BuiltinTypes : Type 0 where
  pub direct : String
  pub block : String

abbrev pub is_some {ℓ} : {A : Type ℓ} → Option A → Bool
is_some none = false
is_some (some a) = true

unfoldable pub node_available : NodeSnapshot → Bool
unfolding first_non_empty
node_available n =
    not (not n.enabled || n.tombstoned || n.is_listed || is_dead n.health)
    && is_empty (first_non_empty (n.last_probe_error ∷ n.last_error ∷ []))

unfoldable pub find_selected : String → List NodeSnapshot → Option NodeSnapshot
find_selected id [] = none
find_selected id (n ∷ ns) =
    let rest = find_selected id ns in if str_eq n.id id then some n else rest

-- The map of the groups by their tags; a later group replaces an earlier one of the same tag.
unfoldable pub by_tag : List GroupSnapshot → Map GroupSnapshot → Map GroupSnapshot
unfolding insert
by_tag [] groups = groups
by_tag (g ∷ gs) groups = by_tag gs (insert g.tag g groups)

abbrev pub cons_if {ℓ} : {A : Type ℓ} → Option A → Option (List A) → Option (List A)
cons_if (some a) (some rest) = some (a ∷ rest)
cons_if _ _ = none

abbrev pub append_if {ℓ} : {A : Type ℓ} → Option (List A) → Option (List A) → Option (List A)
append_if (some first) (some rest) = some (first ++ rest)
append_if _ _ = none

module _ (types : BuiltinTypes) (groups : Map GroupSnapshot) where
  unfoldable pub kind_of : NodeSnapshot → NodeKind
  unfolding lookup has_prefix
  kind_of n =
      if str_eq n.tag types.direct
        || str_eq n.tag types.block
        || str_eq n.id types.direct
        || str_eq n.id types.block
      then builtin_kind
      else if is_some (lookup n.tag groups) || has_prefix n.tag "mapping-group-"
      then group_kind
      else node_kind

  unfoldable pub route_node : GroupSnapshot → NodeSnapshot → RouteNode
  unfolding kind_of node_available first_non_empty
  route_node g n = record {
    node_id = n.id;
    node_name = "";
    node_tag = n.tag;
    kind = kind_of n;
    selected = str_eq g.selected n.id;
    available = node_available n;
    latency_candidate = n.latency_candidate;
    latency_fallback = n.latency_fallback;
    latency_slow_count = n.latency_slow_count;
    latency_ms = n.last_latency_ms;
    error = first_non_empty (n.last_probe_error ∷ n.last_error ∷ []);
    last_checked_at = n.last_checked_at;
    last_success_at = n.last_success_at;
    probe_started_at = n.probe_started_at;
    probe_running = n.probe_running;
    probe_failure_count = n.probe_failure_count;
  }

  -- What the search below a member found, or else the member.
  abbrev pub or_member : RouteNode → Option (Option RouteNode) → Option (Option RouteNode)
  or_member own none = none
  or_member own (some r) = some (found_or r (some own))

  -- The member of the group `g` that is selected, and the search in the group of its tag, if any.
  abbrev pub below :
      (GroupSnapshot → Option (Option RouteNode))
      → GroupSnapshot
      → NodeSnapshot
      → Option GroupSnapshot
      → Option (Option RouteNode)
  below search g n none = some (some (route_node g n))
  below search g n (some child) = or_member (route_node g n) (search child)

  abbrev pub at_selected :
      (GroupSnapshot → Option (Option RouteNode))
      → GroupSnapshot
      → Option NodeSnapshot
      → Option (Option RouteNode)
  at_selected search g none = some none
  at_selected search g (some n) = below search g n (lookup n.tag groups)

  -- resolveSelectedRuntimeRouteNode, on fuel: the outer `none` means that the fuel ran out. A group
  -- that is visited stays so, but nothing is read of the set after the search below a member.
  unfoldable pub resolve : ℕ → GroupSnapshot → List String → Option (Option RouteNode)
  unfolding has_text find_selected lookup route_node
  resolve zero g visited = none
  resolve (suc fuel) g visited =
      let found =
        at_selected (λ child. resolve fuel child (g.tag ∷ visited)) g
          (find_selected g.selected g.nodes) in
      if has_text g.tag visited then some none else found

  -- The last selected member, should several have the identity.
  unfoldable pub selected_member : List RouteNode → String × String → String × String
  selected_member [] member = member
  selected_member (n ∷ ns) member =
      selected_member ns (if n.selected then (n.node_id, n.node_tag) else member)

  abbrev pub shown : Option RouteNode → (String × String) × (String × NodeKind)
  shown none = (("", ""), ("", no_kind))
  shown (some n) = ((n.node_id, n.node_tag), (n.node_name, n.kind))

  unfoldable pub route_showing : String → GroupSnapshot → Option RouteNode → Route
  unfolding route_node selected_member
  route_showing mapping g found =
      let nodes = map (λ n. route_node g n) g.nodes in
      let member = selected_member nodes ("", "") in
      record {
        mapping_id = mapping;
        group_tag = g.tag;
        strategy = g.policy.strategy;
        selected_member_id = member.0;
        selected_member_tag = member.1;
        selected_node_id = (shown found).0.0;
        selected_node_name = (shown found).1.0;
        selected_node_tag = (shown found).0.1;
        selected_node_kind = (shown found).1.1;
        probe_running = g.probe_running;
        runtime_started = g.runtime_started;
        last_probe_at = g.last_probe_at;
        next_probe_at = g.next_probe_at;
        nodes = nodes;
      }

  unfoldable pub route_of : ℕ → String → GroupSnapshot → Option Route
  unfolding resolve route_showing
  route_of fuel mapping g = Option.map (λ found. route_showing mapping g found) (resolve fuel g [])

  -- The routes of some of the groups, or `none` as soon as one runs out of fuel.
  unfoldable pub routes_of : ℕ → String → List GroupSnapshot → Option (List Route)
  unfolding route_of
  routes_of fuel mapping [] = some []
  routes_of fuel mapping (g ∷ gs) = cons_if (route_of fuel mapping g) (routes_of fuel mapping gs)

-- The order of the routes: by mapping, the root of a mapping first, then by tag.
unfoldable pub is_root : Route → Bool
is_root r = str_eq r.group_tag (mapping_outbound_tag r.mapping_id)

unfoldable pub route_less : Route → Route → Bool
unfolding is_root text_less
route_less a b =
    if not (str_eq a.mapping_id b.mapping_id)
    then text_less a.mapping_id b.mapping_id
    else if is_root a && not (is_root b)
    then true
    else if is_root b && not (is_root a)
    then false
    else text_less a.group_tag b.group_tag

-- The fuel that a search needs: no group is visited twice.
abbrev pub route_fuel : List GroupSnapshot → ℕ
route_fuel gs = suc (length gs)

-- The routes of the instances of the runtime, each with the snapshot of its core, if it has one.
unfoldable pub instance_routes :
    BuiltinTypes → List (String × Option CoreState) → Option (List Route)
unfolding routes_of by_tag
instance_routes types [] = some []
instance_routes types ((mapping, none) ∷ rest) = instance_routes types rest
instance_routes types ((mapping, some state) ∷ rest) =
    append_if
      (routes_of types (by_tag state.groups []) (route_fuel state.groups) mapping state.groups)
      (instance_routes types rest)

-- runtimeRoutesLocked.
unfoldable pub runtime_routes :
    BuiltinTypes → List (String × Option CoreState) → Option (List Route)
unfolding instance_routes route_less
runtime_routes types instances =
    Option.map (stable_sort route_less) (instance_routes types instances)
