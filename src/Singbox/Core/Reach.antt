-- ===== src/Singbox/Core/Reach.antt =====
-- core/singboxcore/core.go: a core as the services drive it, and what holds of its groups.
use proxy_hub.Prelude.{ℕ, ◌≡◌, String, Option, some, List, []}
use proxy_hub.Prelude.Maps.{lookup, insert}
use proxy_hub.Singbox.Time.{Time, Duration}
use proxy_hub.Singbox.Policy.{Policy}
use proxy_hub.Singbox.Errors.{Result}
use proxy_hub.Singbox.StartError.{StartError}
use proxy_hub.Singbox.Manager.{Manager}
use proxy_hub.Singbox.Node.State.{Outbound}
use proxy_hub.Singbox.Group.State.{Group, Clock}
use proxy_hub.Singbox.Group.Members.{disable_node, select_node, mark_node_failed}
use proxy_hub.Singbox.Group.Probe.{ProbeAnswer}
use proxy_hub.Singbox.Group.Soundness.{IsSound}
use proxy_hub.Singbox.Group.Sound.Removal.{
  disable_node-IsSound, select_node-IsSound, mark_node_failed-IsSound,
}
use proxy_hub.Singbox.Group.Sound.Reach.{GroupStep, GroupStep-IsSound}
use proxy_hub.Singbox.Core.State.{Core, NodeConfig}
use proxy_hub.Singbox.Core.Groups.{start, close, add_group, upsert_group, remove_group}
use proxy_hub.Singbox.Core.Nodes.{
  create_outbound, add_node_outbound, add_node_uri, disable_member, remove_member, select_member,
  mark_member_failed,
}
use proxy_hub.Singbox.Core.Upkeep.{probe_group, gc_core}
use proxy_hub.Singbox.Core.Groupwise.{
  insert-AllSound, lookup-AllSound, core_after, group_call-AllSound,
}
use proxy_hub.Singbox.Core.GroupCalls.{
  AllCore, core_after_removal, start-AllCore, close-AllCore, add_group-AllCore,
  upsert_group-AllCore, remove_group-AllCore,
}
use proxy_hub.Singbox.Core.NodeCalls.{
  core_after_probe, add_node_uri-AllCore, add_node_outbound-AllCore, create_outbound-groups,
  remove_member-AllCore, probe_group-AllCore, gc_groups-AllCore,
}

module _ (m : Manager) where
  -- One call of the core, or one step of one of its groups, which its connections and its probe loop
  -- take on their own.
  pub data CoreStep (c : Core m) : Core m → Type 0 where
    starts : (answer : Option StartError) → CoreStep c (core_after m c (start m c answer))
    closes : CoreStep c (close m c)
    adds_group :
        (id : String) (policy : Policy) → CoreStep c (core_after m c (add_group m c id policy))
    upserts_group : (id : String) (policy : Policy) → CoreStep c (upsert_group m c id policy).0
    removes_group : (id : String) → CoreStep c (core_after_removal m c (remove_group m c id))
    creates : (o : Outbound) → CoreStep c (core_after m c (create_outbound m c o))
    adds_node : (id : String) (n : NodeConfig) → CoreStep c (add_node_outbound m c id n).0
    adds_uri :
        (parse : String → String → Result Outbound) (id : String) (n : NodeConfig)
        → CoreStep c (add_node_uri m parse c id n).0
    disables :
        (id node_id : String) (now : Time)
        → CoreStep c (core_after m c (disable_member m c id node_id now))
    removes :
        (id node_id : String) (clock : Clock)
        → CoreStep c (core_after_removal m c (remove_member m c id node_id clock))
    selects :
        (id node_id : String) (now : Time)
        → CoreStep c (core_after m c (select_member m c id node_id now))
    marks_failed :
        (id node_id : String) (ttl : Duration) (reason : String) (clock : Clock)
        → CoreStep c (core_after m c (mark_member_failed m c id node_id ttl reason clock))
    probes :
        (id : String) (answers : ℕ → ProbeAnswer) (clock : Clock) (clocks : ℕ → Clock) (now : Time)
        (swaps : List (ℕ × ℕ))
        → CoreStep c (core_after_probe m c (probe_group m c id answers clock clocks now swaps))
    collects : (clocks : String → Clock) → CoreStep c (gc_core m c clocks).0
    moves :
        (id : String) {g g' : Group}
        → lookup id c.groups ≡ some g
        → GroupStep g g'
        → CoreStep c (record c { groups = insert id g' c.groups })

  CoreStep-AllCore : {c c' : Core m} → CoreStep c c' → AllCore m c → AllCore m c'
  unfolding disable_member select_member mark_member_failed gc_core
  CoreStep-AllCore {c} (starts answer) h = start-AllCore m c answer h
  CoreStep-AllCore {c} closes h = close-AllCore m c h
  CoreStep-AllCore {c} (adds_group id policy) h = add_group-AllCore m c id policy h
  CoreStep-AllCore {c} (upserts_group id policy) h = upsert_group-AllCore m c id policy h
  CoreStep-AllCore {c} (removes_group id) h = remove_group-AllCore m c id h
  CoreStep-AllCore {c} (creates o) h = rw (create_outbound-groups m c o) h
  CoreStep-AllCore {c} (adds_node id n) h = add_node_outbound-AllCore m c id n h
  CoreStep-AllCore {c} (adds_uri parse id n) h = add_node_uri-AllCore m parse c id n h
  CoreStep-AllCore {c} (disables id node_id now) h =
      group_call-AllSound m c id (λ g. disable_node g node_id now)
        (λ g k. disable_node-IsSound g node_id now k) h
  CoreStep-AllCore {c} (removes id node_id clock) h = remove_member-AllCore m c id node_id clock h
  CoreStep-AllCore {c} (selects id node_id now) h =
      group_call-AllSound m c id (λ g. select_node g node_id now)
        (λ g k. select_node-IsSound g node_id now k) h
  CoreStep-AllCore {c} (marks_failed id node_id ttl reason clock) h =
      group_call-AllSound m c id (λ g. mark_node_failed g node_id ttl reason clock)
        (λ g k. mark_node_failed-IsSound g node_id ttl reason clock k) h
  CoreStep-AllCore {c} (probes id answers clock clocks now swaps) h =
      probe_group-AllCore m c id answers clock clocks now swaps h
  CoreStep-AllCore {c} (collects clocks) h = gc_groups-AllCore m c clocks c.groups h h
  CoreStep-AllCore {c} (moves id {g} {g'} e s) h =
      insert-AllSound id g' c.groups (GroupStep-IsSound s (lookup-AllSound id g c.groups h e)) h

  pub data CoreReach (c : Core m) : Core m → Type 0 where
    here : CoreReach c c
    next : {d e : Core m} → CoreReach c d → CoreStep d e → CoreReach c e

  -- Whatever calls of the core and steps of its groups follow each other, starting from a core
  -- without groups: in every group of the core the count of each node's connections is the number of
  -- its open ones, every connection in a node's set is that node's and not released, every tracked
  -- connection that is not released is in its node's set, and every ID of the map is that of its node.
  pub CoreReach-IsSound :
      {c c' : Core m} (id : String) (g : Group)
      → c.groups ≡ []
      → CoreReach c c'
      → lookup id c'.groups ≡ some g
      → IsSound g
  CoreReach-IsSound {c} {c'} id g e r f = lookup-AllSound id g c'.groups (reached r) f
    where
      reached : {d : Core m} → CoreReach c d → AllCore m d
      reached here = rw e tt
      reached (next r' s) = CoreStep-AllCore s (reached r')
