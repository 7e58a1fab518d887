-- ===== src/Service/Examples/Changes.antt =====
-- What a change of one node affects, in a small setting.
use proxy_hub.Prelude.{◌≡◌, ◌↔◌, refl, List, [], ◌∷◌, some}
use proxy_hub.Prelude.Text.{trim_space}
use proxy_hub.Service.Rows.{
  JsonReader, ProxyNode, ProxyGroup, is_chain_protocol, decode_strings, chain_node_ids,
  chain_members, chain_group_ids,
}
use proxy_hub.Service.Reconcile.Affected.{Affected, affected_by_nodes, loop_fuel}
use proxy_hub.Service.Reconcile.Reaching.{Item, node, Reaches}
use proxy_hub.Service.Reconcile.Completeness.{
  affected_by_nodes_ends, affected_by_nodes_iff_Reaches, FoundIn,
}

-- A reader of lists of one text each.
abbrev single : JsonReader
single = record {
  read_strings = λ s. some (s ∷ []);
  read_members = λ s. some (record { member_type = "group"; id = s } ∷ []);
}

-- A chain over a group that holds a node.
abbrev plain : ProxyNode
plain = record { id = "n"; protocol = "vless"; chain_node_ids_json = ""; chain_members_json = "" }

abbrev chain : ProxyNode
chain = record { id = "c"; protocol = "Chain:"; chain_node_ids_json = ""; chain_members_json = "g" }

abbrev holder : ProxyGroup
holder = record { id = "g"; node_ids_json = "n"; group_ids_json = "" }

abbrev both_nodes : List ProxyNode
both_nodes = plain ∷ chain ∷ []

abbrev one_group : List ProxyGroup
one_group = holder ∷ []

affected_by_nodes_ends_example :
    (a : Affected) × (affected_by_nodes single
        (loop_fuel single both_nodes one_group)
        both_nodes
        one_group
        ("n" ∷ [])
      ≡ some a)
    × ((item : Item)
        → FoundIn single both_nodes one_group ("n" ∷ []) a item
        → Reaches single both_nodes one_group ("n" ∷ []) item)
affected_by_nodes_ends_example = affected_by_nodes_ends single both_nodes one_group ("n" ∷ [])

abbrev all_three : Affected
all_three = record { nodes = "c" ∷ "n" ∷ []; groups = "g" ∷ [] }

affected_by_nodes_iff_Reaches_example :
    FoundIn single both_nodes one_group ("n" ∷ []) all_three (node "c")
    ↔ Reaches single both_nodes one_group ("n" ∷ []) (node "c")
unfolding affected_by_nodes is_chain_protocol decode_strings trim_space chain_node_ids chain_members
    chain_group_ids
affected_by_nodes_iff_Reaches_example =
    affected_by_nodes_iff_Reaches single both_nodes one_group ("n" ∷ []) all_three (node "c")
      (((λ h. refl), ((λ h. refl), tt)), (((λ h. refl), ((λ h. refl), tt)), tt)) refl
