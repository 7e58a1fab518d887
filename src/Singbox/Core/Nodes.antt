-- ===== src/Singbox/Core/Nodes.antt =====
-- core/singboxcore/core.go: the nodes of the core's groups and their outbounds.
use proxy_hub.Prelude.{not, ◌&&◌, String, Option, some, List, [], ◌∷◌, if◌then◌else◌}
use proxy_hub.Prelude.Maps.{insert}
use proxy_hub.Prelude.Text.{is_empty, trim_space}
use proxy_hub.Singbox.Time.{Time, Duration}
use proxy_hub.Singbox.Errors.{Error, node_not_found, Result, ok, err, ◌>>=◌}
use proxy_hub.Singbox.Manager.{Manager}
use proxy_hub.Singbox.Node.State.{Outbound, NodeState, new_node_state}
use proxy_hub.Singbox.Group.State.{Group, Clock}
use proxy_hub.Singbox.Group.Members.{
  add_node, disable_node, remove_node, select_node, mark_node_failed,
}
use proxy_hub.Singbox.Core.State.{
  NodeConfig, Core, remove_all_tags, created_or_error, settle, find_group, with_result,
}

module _ (m : Manager) where
  open m use {Store, has, create, remove}

  -- createOutbound. A panic of the creation is recovered as an error.
  unfoldable pub create_outbound : Core m → Outbound → Result (Core m)
  create_outbound c outbound =
      let tag = trim_space outbound.tag in
      if is_empty tag
      then err node_not_found
      else if has c.store tag
      then ok c
      else created_or_error m c (create c.store tag outbound.kind)

  -- The node that AddNodeOutbound makes of a configuration: an empty ID is the tag, an empty tag
  -- that of the outbound.
  abbrev pub config_id : NodeConfig → String
  config_id n = if is_empty (trim_space n.id) then trim_space n.tag else trim_space n.id

  abbrev pub config_tag : NodeConfig → String
  config_tag n = if is_empty (trim_space n.tag) then n.outbound.tag else trim_space n.tag

  abbrev pub with_tags : NodeState → List String → NodeState
  with_tags made [] = made
  with_tags made (t ∷ ts) = record made { tags = t ∷ ts }

  abbrev pub config_node : NodeConfig → NodeState
  config_node n =
      with_tags
        (new_node_state (config_id n) (config_tag n) (record n.outbound { tag = config_tag n }))
        n.outbound_tags

  -- AddNodeOutbound. An outbound that was created stays, also if the group refuses the node.
  abbrev pub add_created :
      Core m → String → Group → NodeConfig → Result (Core m) → Core m × Option Error
  add_created c group_id g n (err e) = (c, some e)
  add_created c group_id g n (ok c') =
      settle m c' (with_result m c' group_id (add_node g (config_node n)))

  abbrev pub add_to_group : Core m → String → NodeConfig → Result Group → Core m × Option Error
  add_to_group c group_id n (err e) = (c, some e)
  add_to_group c group_id n (ok g) =
      if is_empty (config_tag n)
      then (c, some node_not_found)
      else add_created c group_id g n (create_outbound c (record n.outbound { tag = config_tag n }))

  unfoldable pub add_node_outbound : Core m → String → NodeConfig → Core m × Option Error
  unfolding create_outbound
  add_node_outbound c group_id n = add_to_group c group_id n (find_group m c group_id)

  abbrev pub add_parsed : Core m → String → NodeConfig → Result Outbound → Core m × Option Error
  unfolding add_node_outbound
  add_parsed c group_id n (err e) = (c, some e)
  add_parsed c group_id n (ok o) = add_node_outbound c group_id (record n { outbound = o })

  -- AddNode, with the reader of URIs.
  unfoldable pub add_node_uri :
      (String → String → Result Outbound) → Core m → String → NodeConfig → Core m × Option Error
  unfolding add_node_outbound
  add_node_uri outbound_from_uri c group_id n =
      if not (is_empty (trim_space n.uri)) && is_empty n.outbound.kind
      then add_parsed c group_id n (outbound_from_uri n.uri n.tag)
      else add_node_outbound c group_id n

  unfoldable pub disable_member : Core m → String → String → Time → Result (Core m)
  disable_member c group_id node_id now = do
    g ← find_group m c group_id
    with_result m c group_id (disable_node g node_id now)

  -- A group and the tags that its GC left to remove.
  abbrev pub with_removals : Core m → String → Group × List (List String) → Core m × List Error
  with_removals c id (g, ready) =
      remove_all_tags m (record c { groups = insert (trim_space id) g c.groups }) ready

  -- RemoveNode, with the TTL of the group's policy.
  unfoldable pub remove_member : Core m → String → String → Clock → Result (Core m × List Error)
  unfolding remove_all_tags
  remove_member c group_id node_id clock = do
    g ← find_group m c group_id
    r ← remove_node g node_id g.policy.remove_ttl clock
    ok (with_removals c group_id r)

  unfoldable pub select_member : Core m → String → String → Time → Result (Core m)
  select_member c group_id node_id now = do
    g ← find_group m c group_id
    with_result m c group_id (select_node g node_id now)

  unfoldable pub mark_member_failed :
      Core m → String → String → Duration → String → Clock → Result (Core m)
  mark_member_failed c group_id node_id ttl reason clock = do
    g ← find_group m c group_id
    with_result m c group_id (mark_node_failed g node_id ttl reason clock)
