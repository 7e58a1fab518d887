-- ===== src/Singbox/Examples/Cores.antt =====
-- core/singboxcore/core.go, with an outbound manager that is a list of tags.
use proxy_hub.Prelude.{
  ◌≡◌, refl, arith, true, false, not, String, none, List, [], ◌∷◌, keep_if, if◌then◌else◌, some,
}
use proxy_hub.Prelude.Text.{str_eq, str_eq_iff, is_empty, trim_space}
use proxy_hub.ProxyUri.Unique.{has_text}
use proxy_hub.Singbox.Errors.{ok}
use proxy_hub.Singbox.Manager.{Manager, Creation, created}
use proxy_hub.Singbox.Core.State.{Core, NodeConfig, outbound_tags}
use proxy_hub.Singbox.Core.Nodes.{create_outbound, add_node_outbound, config_node}
use proxy_hub.Singbox.Core.Tags.{create_outbound_lem}
use proxy_hub.Prelude.Maps.{lookup, insert}
use proxy_hub.Singbox.Node.State.{new_node_state}
use proxy_hub.Singbox.Policy.{round_robin}
use proxy_hub.Singbox.Group.State.{Group, wake_probe, ensure_probe_loop}
use proxy_hub.Singbox.Group.Members.{new_dynamic_group, start_probing, add_node}
use proxy_hub.Singbox.Group.Soundness.{IsSound}
use proxy_hub.Singbox.Group.Sound.Members.{after_call}
use proxy_hub.Singbox.Core.Groups.{add_group}
use proxy_hub.Singbox.Core.Groupwise.{core_after}
use proxy_hub.Singbox.Core.Reach.{here, next, adds_group, adds_node, CoreReach, CoreReach-IsSound}
use proxy_hub.Singbox.Examples.Sample.{direct_out, two_nodes, with_strategy}

without : String → List String → List String
without tag = keep_if (λ t. not (str_eq t tag))

has_text-without :
    (tag other : String) (s : List String)
    → has_text other (without tag s) ≡ (if str_eq tag other then false else has_text other s)
unfolding without has_text keep_if
has_text-without tag other [] = ground arith
has_text-without tag other (t ∷ ts) = ground (
  arith,
  str_eq_iff t tag,
  str_eq_iff tag other,
  str_eq_iff t other,
  has_text-without tag other ts,
)

abbrev create_in : List String → String → String → Creation (List String)
create_in s tag kind = created (tag ∷ s)

has_text-create_in :
    (s s' : List String) (tag kind other : String)
    → create_in s tag kind ≡ created s'
    → has_text other s' ≡ (if str_eq tag other then true else has_text other s)
unfolding has_text
has_text-create_in s s' tag kind other e = let q : s' ≡ tag ∷ s = cc in rw q (ground arith)

abbrev list_manager : Manager
list_manager = record {
  Store = List String;
  has = λ s tag. has_text tag s;
  create = create_in;
  remove = λ s tag. (without tag s, none);
  has-create = has_text-create_in;
  has-remove = λ s tag other h. has_text-without tag other s;
}

abbrev sample_core : Core list_manager
sample_core = record {
  started = true;
  cancelled = false;
  store = "direct" ∷ "a" ∷ "b" ∷ [];
  groups = [];
}

abbrev core_with_out : Core list_manager
core_with_out = record sample_core { store = "out" ∷ "direct" ∷ "a" ∷ "b" ∷ [] }

created_out : create_outbound list_manager sample_core direct_out ≡ ok core_with_out
unfolding create_outbound trim_space has_text
created_out = refl

create_outbound_lem_example :
    (has_text "a" core_with_out.store
      ≡ (if str_eq (trim_space direct_out.tag) "a" then true else has_text "a" sample_core.store))
    × (create_outbound list_manager core_with_out direct_out ≡ ok core_with_out)
    × (is_empty (trim_space direct_out.tag) ≡ false)
create_outbound_lem_example =
    create_outbound_lem list_manager sample_core core_with_out direct_out "a" created_out

abbrev core_with_group : Core list_manager
core_with_group = record sample_core { groups = ("g", two_nodes) ∷ [] }

-- A group is added, then a node to it.
abbrev core_1 : Core list_manager
core_1 =
    core_after list_manager sample_core
      (add_group list_manager sample_core "g" (with_strategy round_robin))

abbrev node_config : NodeConfig
node_config = record {
  id = "a";
  tag = "out-a";
  uri = "";
  outbound = direct_out;
  outbound_tags = [];
}

abbrev core_2 : Core list_manager
core_2 = (add_node_outbound list_manager core_1 "g" node_config).0

core_2-CoreReach : CoreReach list_manager sample_core core_2
core_2-CoreReach =
    next (next here (adds_group "g" (with_strategy round_robin))) (adds_node "g" node_config)

abbrev group_1 : Group
group_1 = start_probing (new_dynamic_group "g" (with_strategy round_robin) false)

abbrev group_2 : Group
group_2 = after_call group_1 (add_node group_1 (config_node list_manager node_config))

group_2-found : lookup "g" core_2.groups ≡ some group_2
unfolding lookup add_node_outbound add_group trim_space insert has_text add_node new_node_state
    start_probing wake_probe ensure_probe_loop new_dynamic_group
group_2-found = refl

CoreReach-IsSound_example : IsSound group_2
CoreReach-IsSound_example =
    CoreReach-IsSound list_manager "g" group_2 refl core_2-CoreReach group_2-found
