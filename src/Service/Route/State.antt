-- ===== src/Service/Route/State.antt =====
-- runtime_lifecycle.go: the routes, inbounds and failures of the runtime's status; runtime_route.go:
-- how they are looked up.
use Prim.Native.String.{◌++◌}
use proxy_hub.Prelude.{
  ℕ, Bool, false, not, ◌&&◌, String, List, [], ◌∷◌, Option, none, some, keep_if, if◌then◌else◌,
}
use proxy_hub.Prelude.Text.{str_eq, is_empty}
use proxy_hub.Singbox.Time.{Time, zero_time}
use proxy_hub.Singbox.Policy.{BalanceStrategy}

-- The values of Kind. `no_kind` is the empty text.
pub data NodeKind : Type 0 where
  no_kind builtin_kind group_kind node_kind : NodeKind

pub record RouteNode : Type 0 where
  pub node_id : String
  pub node_name : String
  pub node_tag : String
  pub kind : NodeKind
  pub selected : Bool
  pub available : Bool
  pub latency_candidate : Bool
  pub latency_fallback : Bool
  pub latency_slow_count : ℕ
  pub latency_ms : ℕ
  pub error : String
  pub last_checked_at : Time
  pub last_success_at : Time
  pub probe_started_at : Time
  pub probe_running : Bool
  pub probe_failure_count : ℕ

pub record Route : Type 0 where
  pub mapping_id : String
  pub group_tag : String
  pub strategy : BalanceStrategy
  pub selected_member_id : String
  pub selected_member_tag : String
  pub selected_node_id : String
  pub selected_node_name : String
  pub selected_node_tag : String
  pub selected_node_kind : NodeKind
  pub probe_running : Bool
  pub runtime_started : Bool
  pub last_probe_at : Time
  pub next_probe_at : Time
  pub nodes : List RouteNode

pub record Inbound : Type 0 where
  pub mapping_id : String
  pub tag : String
  pub listen : String
  pub outbound : String

pub record InboundFailure : Type 0 where
  pub mapping_id : String
  pub tag : String
  pub listen : String
  pub error : String

pub record ExcludedNode : Type 0 where
  pub mapping_id : String
  pub node_id : String
  pub node_name : String
  pub tag : String
  pub error : String

unfoldable pub inbounds_without : List Inbound → String → List Inbound
unfolding keep_if
inbounds_without inbounds mapping = keep_if (λ i. not (str_eq i.mapping_id mapping)) inbounds

unfoldable pub failures_without : List InboundFailure → String → List InboundFailure
unfolding keep_if
failures_without failures mapping = keep_if (λ f. not (str_eq f.mapping_id mapping)) failures

unfoldable pub excluded_without : List ExcludedNode → String → List ExcludedNode
unfolding keep_if
excluded_without excluded mapping = keep_if (λ x. not (str_eq x.mapping_id mapping)) excluded

abbrev pub mapping_outbound_tag : String → String
mapping_outbound_tag id = "mapping-out-" ++ id

-- `if fallback == nil { fallback = route }`
abbrev pub set_fallback : Option Route → Route → Route
set_fallback none r = r
set_fallback (some f) r = f

-- The first route of the mapping whose tag is the root's, or else the first route of the mapping.
unfoldable pub pick_route : String → Option Route → List Route → Option Route
pick_route mapping fallback [] = fallback
pick_route mapping fallback (r ∷ rs) =
    let skipped = pick_route mapping fallback rs in
    let kept = pick_route mapping (some (set_fallback fallback r)) rs in
    if not (str_eq r.mapping_id mapping)
    then skipped
    else if str_eq r.group_tag (mapping_outbound_tag mapping)
    then some r
    else kept

abbrev pub found_or {ℓ} : {A : Type ℓ} → Option A → Option A → Option A
found_or none o = o
found_or (some a) o = some a

unfoldable pub find_in_nodes : String → String → List RouteNode → Option RouteNode
find_in_nodes id tag [] = none
find_in_nodes id tag (n ∷ ns) =
    let rest = find_in_nodes id tag ns in
    if str_eq n.node_id id && str_eq n.node_tag tag then some n else rest

unfoldable pub find_in_routes : String → String → String → List Route → Option RouteNode
unfolding find_in_nodes
find_in_routes mapping id tag [] = none
find_in_routes mapping id tag (r ∷ rs) =
    let rest = find_in_routes mapping id tag rs in
    let here = find_in_nodes id tag r.nodes in
    if not (str_eq r.mapping_id mapping) then rest else found_or here rest

-- The node that the route says is selected, with what the routes of its mapping know of it.
abbrev pub named_node : Route → RouteNode
named_node r = record {
  node_id = r.selected_node_id;
  node_name = r.selected_node_name;
  node_tag = r.selected_node_tag;
  kind = r.selected_node_kind;
  selected = false;
  available = false;
  latency_candidate = false;
  latency_fallback = false;
  latency_slow_count = 0;
  latency_ms = 0;
  error = "";
  last_checked_at = zero_time;
  last_success_at = zero_time;
  probe_started_at = zero_time;
  probe_running = false;
  probe_failure_count = 0;
}

unfoldable pub selected_from : Route → List Route → Option RouteNode
unfolding find_in_routes
selected_from r routes =
    if is_empty r.selected_node_id && is_empty r.selected_node_tag
    then none
    else found_or (find_in_routes r.mapping_id r.selected_node_id r.selected_node_tag routes)
        (some (named_node r))

abbrev pub selected_if_any : List Route → Option Route → Option RouteNode
selected_if_any routes none = none
selected_if_any routes (some r) = selected_from r routes

-- runtimeSelectedRouteNode, on the routes of the status.
unfoldable pub selected_route_node : List Route → String → Option RouteNode
unfolding pick_route selected_from
selected_route_node routes mapping = selected_if_any routes (pick_route mapping none routes)
