-- ===== src/Singbox/Core/NodeCalls.antt =====
-- core/singboxcore/core.go: the groups under the calls on nodes, probes and the collection.
use proxy_hub.Prelude.{
  ℕ, ◌≡◌, refl, String, Option, none, some, List, [], ◌∷◌, inl, inr, Option-cases, Bool-cases,
  if_both,
}
use proxy_hub.Prelude.Text.{is_empty, trim_space}
use proxy_hub.Prelude.Maps.{Map, lookup, insert}
use proxy_hub.Singbox.Time.{Time}
use proxy_hub.Singbox.Policy.{is_least_latency}
use proxy_hub.Singbox.Errors.{Error, Result, ok, err, ◌>>=◌}
use proxy_hub.Singbox.Manager.{Manager}
use proxy_hub.Singbox.Node.State.{Outbound, new_node_state}
use proxy_hub.Singbox.Group.State.{Group, Clock}
use proxy_hub.Singbox.Group.Members.{set_selected, add_node, gc, remove_node}
use proxy_hub.Singbox.Group.Candidates.{candidates, select_first, select_best_candidate}
use proxy_hub.Singbox.Group.Probe.{ProbeAnswer, run_probe_round_now}
use proxy_hub.Singbox.Group.Soundness.{IsSound}
use proxy_hub.Singbox.Group.Sound.Members.{IsUnused, add_node-IsSound}
use proxy_hub.Singbox.Group.Sound.Removal.{
  gc-IsSound, after_removal, remove_node-IsSound, set_selected-IsSound,
}
use proxy_hub.Singbox.Group.Sound.Candidates.{candidates-IsOffer}
use proxy_hub.Singbox.Group.Sound.Traffic.{run_probe_round-IsSound}
use proxy_hub.Singbox.Core.State.{Core, NodeConfig, remove_all_tags, with_result}
use proxy_hub.Singbox.Core.Nodes.{
  create_outbound, with_tags, config_node, config_tag, config_id, add_created, add_to_group,
  add_node_outbound, add_parsed, add_node_uri, with_removals, remove_member,
}
use proxy_hub.Singbox.Core.Upkeep.{probe_group, with_probed, gc_groups}
use proxy_hub.Singbox.Core.Groupwise.{
  AllSound, insert-AllSound, lookup-AllSound, after_call-ResultIsSound, core_after,
  remove_all_tags-groups, created_or_error-groups, with_result-AllSound,
}
use proxy_hub.Singbox.Core.GroupCalls.{AllCore, settle-AllCore, core_after_removal}

-- The end of a probe on request: the best candidate is selected.
select_first-IsSound :
    (r : Option (List ℕ) × Group) (g : Group) → IsSound r.1 → select_first r ≡ some g → IsSound g
unfolding select_first
select_first-IsSound (none, i) g h e = cc
select_first-IsSound (some [], i) g h e = let q : i ≡ g = cc in rw (← q) h
select_first-IsSound (some (p ∷ ps), i) g h e =
    let q : set_selected i (i.cells p).id ≡ g = cc in
    rw (← q) (set_selected-IsSound i (i.cells p).id h)

select_best_candidate-IsSound :
    (g i : Group) (now : Time) (swaps : List (ℕ × ℕ))
    → IsSound g
    → select_best_candidate g now swaps ≡ some i
    → IsSound i
unfolding select_best_candidate
select_best_candidate-IsSound g i now swaps h e =
    elim (Bool-cases (is_least_latency g.policy.strategy)) [
      | inl q ↦
          select_first-IsSound (candidates g now swaps) i (candidates-IsOffer g now swaps h).sound
            (rw q at e)
      | inr q ↦ let e' : some g ≡ some i = (rw q at e) in let q' : g ≡ i = cc in rw (← q') h
    ]

run_probe_round_now-IsSound :
    (g : Group) (answers : ℕ → ProbeAnswer) (clock : Clock) (clocks : ℕ → Clock)
    → IsSound g
    → IsSound (run_probe_round_now g answers clock clocks)
unfolding run_probe_round_now
run_probe_round_now-IsSound g answers clock clocks h =
    if_both IsSound (is_least_latency g.policy.strategy)
      (run_probe_round-IsSound g _ answers clock clocks h) h

module _ (m : Manager) where
  config_node-IsUnused : (n : NodeConfig) → IsUnused (config_node m n)
  unfolding new_node_state
  config_node-IsUnused n = by_tags n.outbound_tags
    where
      by_tags :
          (ts : List String)
          → IsUnused (
              with_tags m
                (new_node_state
                  (config_id m n)
                  (config_tag m n)
                  (record n.outbound { tag = config_tag m n }))
                ts)
      by_tags [] = record { none_open = refl; none_counted = refl }
      by_tags (t ∷ ts) = record { none_open = refl; none_counted = refl }

  pub create_outbound-groups :
      (c : Core m) (o : Outbound) → (core_after m c (create_outbound m c o)).groups ≡ c.groups
  unfolding create_outbound
  create_outbound-groups c o =
      if_both (λ r. (core_after m c r).groups ≡ c.groups) (is_empty (trim_space o.tag)) refl
        (if_both (λ r. (core_after m c r).groups ≡ c.groups) (m.has c.store (trim_space o.tag)) refl
          (created_or_error-groups m c _))

  pub add_created-AllCore :
      (c : Core m) (id : String) (g : Group) (n : NodeConfig) (r : Result (Core m))
      → (core_after m c r).groups ≡ c.groups
      → IsSound g
      → AllCore m c
      → AllCore m (add_created m c id g n r).0
  add_created-AllCore c id g n (err e) q k h = h
  add_created-AllCore c id g n (ok c') q k h =
      settle-AllCore m c' (with_result m c' id (add_node g (config_node m n))) (
        with_result-AllSound m c' id (add_node g (config_node m n))
          (after_call-ResultIsSound g _ (add_node-IsSound g _ (config_node-IsUnused n) k)) (rw q h))

  pub add_node_outbound-AllCore :
      (c : Core m) (id : String) (n : NodeConfig)
      → AllCore m c
      → AllCore m (add_node_outbound m c id n).0
  unfolding add_node_outbound
  add_node_outbound-AllCore c id n h = elim (Option-cases (lookup (trim_space id) c.groups)) [
    | inl e ↦ rw (e, add_to_group) h
    | inr (g, e) ↦
        rw (e, add_to_group)
          (if_both (λ (r : Core m × Option Error). AllCore m r.0) (is_empty (config_tag m n)) h
            (add_created-AllCore c id g n _ (create_outbound-groups c _)
              (lookup-AllSound (trim_space id) g c.groups h e) h))
  ]

  pub add_parsed-AllCore :
      (c : Core m) (id : String) (n : NodeConfig) (r : Result Outbound)
      → AllCore m c
      → AllCore m (add_parsed m c id n r).0
  unfolding add_node_outbound
  add_parsed-AllCore c id n (ok o) h = add_node_outbound-AllCore c id (record n { outbound = o }) h
  add_parsed-AllCore c id n (err e) h = h

  pub add_node_uri-AllCore :
      (parse : String → String → Result Outbound) (c : Core m) (id : String) (n : NodeConfig)
      → AllCore m c
      → AllCore m (add_node_uri m parse c id n).0
  unfolding add_node_uri
  add_node_uri-AllCore parse c id n h =
      if_both (λ (r : Core m × Option Error). AllCore m r.0) _
        (add_parsed-AllCore c id n (parse n.uri n.tag) h) (add_node_outbound-AllCore c id n h)

  -- The end of RemoveNode, by what the group's answers.
  pub removed-AllCore :
      (c : Core m) (id : String) (g : Group) (r : Result (Group × List (List String)))
      → IsSound (after_removal g r)
      → AllCore m c
      → AllCore m (core_after_removal m c (r >>= λ r'. ok (with_removals m c id r')))
  removed-AllCore c id g (ok (g', ready)) k h =
      rw (remove_all_tags-groups m (record c { groups = insert (trim_space id) g' c.groups }) ready)
        (insert-AllSound (trim_space id) g' c.groups k h)
  removed-AllCore c id g (err e) k h = h

  pub remove_member-AllCore :
      (c : Core m) (id node_id : String) (clock : Clock)
      → AllCore m c
      → AllCore m (core_after_removal m c (remove_member m c id node_id clock))
  unfolding remove_member
  remove_member-AllCore c id node_id clock h =
      elim (Option-cases (lookup (trim_space id) c.groups)) [
        | inl e ↦ rw (e, core_after_removal) h
        | inr (g, e) ↦
            rw (e, core_after_removal)
              (removed-AllCore c id g (remove_node g node_id g.policy.remove_ttl clock)
                (remove_node-IsSound g node_id g.policy.remove_ttl clock
                  (lookup-AllSound (trim_space id) g c.groups h e))
                h)
      ]

  -- The core after a probe on request.
  abbrev pub core_after_probe : Core m → Result (Option (Core m)) → Core m
  core_after_probe c (ok (some c')) = c'
  core_after_probe c (ok none) = c
  core_after_probe c (err e) = c

  pub probed-AllCore :
      (c : Core m) (id : String) (r : Option Group)
      → ((g : Group) → r ≡ some g → IsSound g)
      → AllCore m c
      → AllCore m (core_after_probe c (ok (with_probed m c id r)))
  probed-AllCore c id none k h = h
  probed-AllCore c id (some g) k h = insert-AllSound (trim_space id) g c.groups (k g refl) h

  pub probe_group-AllCore :
      (c : Core m) (id : String) (answers : ℕ → ProbeAnswer) (clock : Clock) (clocks : ℕ → Clock)
      (now : Time) (swaps : List (ℕ × ℕ))
      → AllCore m c
      → AllCore m (core_after_probe c (probe_group m c id answers clock clocks now swaps))
  unfolding probe_group
  probe_group-AllCore c id answers clock clocks now swaps h =
      elim (Option-cases (lookup (trim_space id) c.groups)) [
        | inl e ↦ rw (e, core_after_probe) h
        | inr (g, e) ↦
            rw (e, core_after_probe)
              (probed-AllCore c id
                (select_best_candidate (run_probe_round_now g answers clock clocks) now swaps)
                (λ i q.
                  select_best_candidate-IsSound _ i now swaps
                    (run_probe_round_now-IsSound g answers clock clocks
                      (lookup-AllSound (trim_space id) g c.groups h e))
                    q)
                h)
      ]

  pub gc_groups-AllCore :
      (c : Core m) (clocks : String → Clock) (gs : Map Group)
      → AllSound gs
      → AllCore m c
      → AllCore m (gc_groups m c clocks gs).0
  unfolding gc_groups
  gc_groups-AllCore c clocks [] k h = h
  gc_groups-AllCore c clocks ((id, g) ∷ gs) k h =
      let (g', ready) = gc g (clocks id) in
      let c' : Core m = record c { groups = insert id g' c.groups } in
      gc_groups-AllCore (remove_all_tags m c' ready).0 clocks gs k.1 (
        rw (remove_all_tags-groups m c' ready)
          (insert-AllSound id g' c.groups (gc-IsSound g (clocks id) k.0) h))
