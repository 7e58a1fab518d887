-- ===== src/Singbox/Core/GroupCalls.antt =====
-- core/singboxcore/core.go: the groups under the calls on the core and on its groups.
use proxy_hub.Prelude.{
  ◌≡◌, refl, true, String, Option, none, some, List, inl, inr, Option-cases, if_both, if◌then◌else◌,
}
use proxy_hub.Prelude.Text.{is_empty, trim_space}
use proxy_hub.Prelude.Maps.{lookup, insert}
use proxy_hub.Singbox.Policy.{Policy}
use proxy_hub.Singbox.Errors.{Error, Result, ok, err, ◌>>=◌}
use proxy_hub.Singbox.StartError.{StartError}
use proxy_hub.Singbox.Manager.{Manager}
use proxy_hub.Singbox.Group.State.{Group}
use proxy_hub.Singbox.Group.Members.{new_dynamic_group, update_policy, start_probing, stop_probing}
use proxy_hub.Singbox.Group.Soundness.{IsSound, SameStore-IsSound}
use proxy_hub.Singbox.Group.Sound.Members.{new_dynamic_group-IsSound, update_policy-IsSound}
use proxy_hub.Singbox.Group.Sound.Removal.{start_probing-IsSound, stop_probing-IsSound}
use proxy_hub.Singbox.Core.State.{Core, remove_tags_if_unused, create_group_outbound, settle}
use proxy_hub.Singbox.Core.Groups.{start, close, with_group, add_group, upsert_group, remove_group}
use proxy_hub.Singbox.Core.Groupwise.{
  AllSound, insert-AllSound, delete-AllSound, lookup-AllSound, map_groups-AllSound, core_after,
  created_or_error-groups,
}

with_cancelled-IsSound : (g : Group) → IsSound g → IsSound (record g { cancelled = true })
with_cancelled-IsSound g =
    SameStore-IsSound g _
      (record { cells = refl; conns = refl; next_cell = refl; next_conn = refl; nodes = refl })

module _ (m : Manager) where
  -- Every group of the core is sound.
  abbrev pub AllCore : Core m → Type 0
  AllCore c = AllSound c.groups

  pub settle-AllCore :
      (c : Core m) (r : Result (Core m)) → AllCore (core_after m c r) → AllCore (settle m c r).0
  settle-AllCore c (ok c') h = h
  settle-AllCore c (err e) h = h

  pub start-AllCore :
      (c : Core m) (a : Option StartError) → AllCore c → AllCore (core_after m c (start m c a))
  unfolding start
  start-AllCore c none h =
      if_both (λ r. AllCore (core_after m c r)) c.started h
        (map_groups-AllSound start_probing c.groups (λ g k. start_probing-IsSound g k) h)
  start-AllCore c (some e) h = if_both (λ r. AllCore (core_after m c r)) c.started h h

  pub close-AllCore : (c : Core m) → AllCore c → AllCore (close m c)
  unfolding close
  close-AllCore c h =
      map_groups-AllSound (λ g. stop_probing (record g { cancelled = true })) c.groups
        (λ g k. stop_probing-IsSound (record g { cancelled = true }) (with_cancelled-IsSound g k)) h

  with_group-AllCore :
      (c c' : Core m) (id : String) (policy : Policy)
      → c'.groups ≡ c.groups
      → AllCore c
      → AllCore (with_group m c' id policy)
  with_group-AllCore c c' id policy e h =
      let g = new_dynamic_group id policy c'.cancelled in
      let new = new_dynamic_group-IsSound id policy c'.cancelled in
      insert-AllSound id _ c'.groups
        (if_both IsSound c'.started {x = start_probing g} {y = g} (start_probing-IsSound g new) new)
        (rw e h)

  -- The end of AddGroup, by what the creation of its outbound gives.
  created_group-AllCore :
      (c : Core m) (r : Result (Core m)) (id : String) (policy : Policy)
      → (core_after m c r).groups ≡ c.groups
      → AllCore c
      → AllCore (core_after m c (r >>= λ c'. ok (with_group m c' id policy)))
  created_group-AllCore c (ok c') id policy e h = with_group-AllCore c c' id policy e h
  created_group-AllCore c (err f) id policy e h = h

  pub add_group-AllCore :
      (c : Core m) (given : String) (policy : Policy)
      → AllCore c
      → AllCore (core_after m c (add_group m c given policy))
  unfolding add_group
  add_group-AllCore c given policy h =
      let id = trim_space given in
      if_both (λ r. AllCore (core_after m c r)) (is_empty id) h
        (elim (Option-cases (lookup id c.groups)) [
          | inl e ↦
              rw (e, core_after)
                (created_group-AllCore c (create_group_outbound m c id) id policy
                  (created_or_error-groups m c _) h)
          | inr (g, e) ↦ rw (e, core_after) h
        ])

  pub upsert_group-AllCore :
      (c : Core m) (given : String) (policy : Policy)
      → AllCore c
      → AllCore (upsert_group m c given policy).0
  unfolding upsert_group
  upsert_group-AllCore c given policy h =
      let id = trim_space given in
      if_both (λ (r : Core m × Option Error). AllCore r.0) (is_empty id) h
        (elim (Option-cases (lookup id c.groups)) [
          | inl e ↦
              rw e (settle-AllCore c (add_group m c id policy) (add_group-AllCore c id policy h))
          | inr (g, e) ↦ rw e (updated c id g policy h (lookup-AllSound id g c.groups h e))
        ])
    where
      updated :
          (c : Core m) (id : String) (g : Group) (policy : Policy)
          → AllCore c
          → IsSound g
          → let c' : Core m = record c { groups = insert id (update_policy g policy) c.groups } in
            AllCore
              (if m.has c'.store id
                then (c', none)
                else settle m c' (create_group_outbound m c' id)).0
      updated c id g policy h k =
          let c' : Core m = record c { groups = insert id (update_policy g policy) c.groups } in
          let kept : AllCore c' =
            insert-AllSound id (update_policy g policy) c.groups (update_policy-IsSound g policy k)
              h in
          if_both (λ (r : Core m × Option Error). AllCore r.0) (m.has c'.store id) kept
            (settle-AllCore c' (create_group_outbound m c' id)
              (rw (created_or_error-groups m c' _) kept))

  -- The core after a call that removes outbounds.
  abbrev pub core_after_removal : Core m → Result (Core m × List Error) → Core m
  core_after_removal c (ok r) = r.0
  core_after_removal c (err e) = c

  pub remove_group-AllCore :
      (c : Core m) (given : String)
      → AllCore c
      → AllCore (core_after_removal c (remove_group m c given))
  unfolding remove_group remove_tags_if_unused
  remove_group-AllCore c given h =
      let id = trim_space given in
      if_both (λ r. AllCore (core_after_removal c r)) (is_empty id) h
        (elim (Option-cases (lookup id c.groups)) [
          | inl e ↦ rw (e, core_after_removal) h
          | inr (g, e) ↦ rw (e, core_after_removal) (delete-AllSound id c.groups h)
        ])
