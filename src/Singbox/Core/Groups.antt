-- ===== src/Singbox/Core/Groups.antt =====
-- core/singboxcore/core.go: the start and the end of the core, and its groups.
use proxy_hub.Prelude.{true, false, String, Option, none, some, List, if◌then◌else◌}
use proxy_hub.Prelude.Maps.{lookup, insert, delete}
use proxy_hub.Prelude.Text.{is_empty, trim_space}
use proxy_hub.Singbox.Policy.{Policy}
use proxy_hub.Singbox.Errors.{Error, group_not_found, group_exists, Result, ok, err, ◌>>=◌}
use proxy_hub.Singbox.StartError.{StartError, normalize_start_error}
use proxy_hub.Singbox.Manager.{Manager}
use proxy_hub.Singbox.Group.Members.{new_dynamic_group, update_policy, start_probing, stop_probing}
use proxy_hub.Singbox.Core.State.{
  outbound_tags, join_error, map_groups, Core, remove_tags_if_unused, create_group_outbound, settle,
}

module _ (m : Manager) where
  open m use {Store, has, create, remove}

  -- Start, with what the box's start answers.
  unfoldable pub start : Core m → Option StartError → Result (Core m)
  start c answer = if c.started then ok c else elim answer [
    | some e ↦ err (normalize_start_error e)
    | none ↦ ok (record c { started = true; groups = map_groups start_probing c.groups })
  ]

  -- Close ends the context, which the groups share, and stops their probes.
  unfoldable pub close : Core m → Core m
  close c = record c {
    started = false;
    cancelled = true;
    groups = map_groups (λ g. stop_probing (record g { cancelled = true })) c.groups;
  }

  -- The end of AddGroup: the outbound of the group is there.
  abbrev pub with_group : Core m → String → Policy → Core m
  with_group c id policy =
      let g = new_dynamic_group id policy c.cancelled in
      record c { groups = insert id (if c.started then start_probing g else g) c.groups }

  unfoldable pub add_group : Core m → String → Policy → Result (Core m)
  add_group c given policy =
      let id = trim_space given in
      if is_empty id then err group_not_found else elim (lookup id c.groups) [
        | some g ↦ err group_exists
        | none ↦ do c' ← create_group_outbound m c id; ok (with_group c' id policy)
      ]

  -- UpsertGroup, without the group that it also returns. The policy of a group that is there is
  -- updated even if its outbound then cannot be created again.
  unfoldable pub upsert_group : Core m → String → Policy → Core m × Option Error
  unfolding add_group
  upsert_group c given policy =
      let id = trim_space given in
      if is_empty id then (c, some group_not_found) else elim (lookup id c.groups) [
        | some g ↦
            let c' = record c { groups = insert id (update_policy g policy) c.groups } in
            if has c'.store id then (c', none) else settle m c' (create_group_outbound m c' id)
        | none ↦ settle m c (add_group c id policy)
      ]

  -- The group's own outbound, if it is there.
  abbrev pub remove_if_there : Store → String → Store × Option String
  remove_if_there s tag = if has s tag then remove s tag else (s, none)

  -- RemoveGroup: the core afterwards, and the errors of the removals, joined. The group, which stops
  -- its probes, is no part of the core any more.
  unfoldable pub remove_group : Core m → String → Result (Core m × List Error)
  unfolding remove_tags_if_unused outbound_tags
  remove_group c given =
      let id = trim_space given in
      if is_empty id then err group_not_found else elim (lookup id c.groups) [
        | none ↦ err group_not_found
        | some g ↦
            let (s, e) = remove_if_there c.store id in
            let (c', es) =
              remove_tags_if_unused m (record c { store = s; groups = delete id c.groups })
                (outbound_tags g) in
            ok (c', join_error e es)
      ]
