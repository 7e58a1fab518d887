-- ===== src/Singbox/Core/State.antt =====
-- core/singboxcore/core.go: the core's state, and the removal and creation of outbounds that its
-- operations share.
use proxy_hub.Prelude.{
  ℕ, Bool, not, ◌||◌, String, Option, none, some, List, [], ◌∷◌, ◌++◌, map, if◌then◌else◌,
}
use mathlib.Core.List.{reverse}
use proxy_hub.Prelude.Maps.{Map, lookup, insert}
use proxy_hub.Prelude.Text.{str_eq, is_empty, trim_space}
use proxy_hub.ProxyUri.Unique.{has_text, unique_non_empty}
use proxy_hub.Singbox.Errors.{
  Error, group_not_found, outbound_panic, external, Result, ok, err, ◌>>=◌,
}
use proxy_hub.Singbox.Manager.{Manager, Creation, created, refused, panicked}
use proxy_hub.Singbox.Node.State.{Outbound}
use proxy_hub.Singbox.Group.State.{Group}
use proxy_hub.Singbox.Group.Members.{node_tags}

-- DynamicOutboundType.
abbrev pub dynamic_outbound_kind : String
dynamic_outbound_kind = "proxyhub-dynamic-group"

-- NodeConfig.
pub record NodeConfig : Type 0 where
  pub id : String
  pub tag : String
  pub uri : String
  pub outbound : Outbound
  pub outbound_tags : List String

-- The tags that a group refers to, its own apart: referencedTags.
unfoldable pub entry_tags : Group → Map ℕ → List String
unfolding node_tags
entry_tags g [] = []
entry_tags g ((id, p) ∷ entries) = node_tags (g.cells p) ++ entry_tags g entries

unfoldable pub trimmed_tags : List String → List String
trimmed_tags [] = []
trimmed_tags (t ∷ ts) =
    let rest = trimmed_tags ts in if is_empty (trim_space t) then rest else trim_space t ∷ rest

unfoldable pub referenced_tags : Group → List String
unfolding entry_tags trimmed_tags
referenced_tags g = trimmed_tags (entry_tags g g.nodes)

-- outboundTags.
unfoldable pub outbound_tags : Group → List String
unfolding entry_tags unique_non_empty
outbound_tags g = unique_non_empty (entry_tags g g.nodes)

-- The keys of referencedOutboundTags: for every group its own tag and those that it refers to.
unfoldable pub referenced_outbound_tags : Map Group → List String
unfolding referenced_tags
referenced_outbound_tags [] = []
referenced_outbound_tags ((id, g) ∷ gs) = g.tag ∷ referenced_tags g ++ referenced_outbound_tags gs

-- Errors of several calls, joined.
abbrev pub join_error : Option String → List Error → List Error
join_error none es = es
join_error (some e) es = external e ∷ es

abbrev pub map_groups : (Group → Group) → Map Group → Map Group
map_groups f gs = map (λ e. (e.0, f e.1)) gs

module _ (m : Manager) where
  open m use {Store, has, create, remove}

  pub record Core : Type 0 where
    pub started : Bool
    pub cancelled : Bool
    pub store : Store
    pub groups : Map Group

  -- The body of removeOutboundTagsIfUnused for one tag.
  unfoldable pub remove_tag_if_unused : List String → Store → String → Store × Option String
  remove_tag_if_unused referenced s tag =
      if str_eq tag "direct" || str_eq tag "block" || has_text tag referenced || not (has s tag)
      then (s, none)
      else remove s tag

  unfoldable pub remove_tags_from : List String → Store → List String → Store × List Error
  unfolding remove_tag_if_unused
  remove_tags_from referenced s [] = (s, [])
  remove_tags_from referenced s (tag ∷ tags) =
      let (s', e) = remove_tag_if_unused referenced s tag in
      let (s'', es) = remove_tags_from referenced s' tags in (s'', join_error e es)

  -- removeOutboundTagsIfUnused: the tags, trimmed and without repetition, from the last on.
  unfoldable pub remove_tags_if_unused : Core → List String → Core × List Error
  unfolding remove_tags_from referenced_outbound_tags unique_non_empty
  remove_tags_if_unused c tags =
      let (s, es) =
        remove_tags_from (referenced_outbound_tags c.groups) c.store
          (reverse (unique_non_empty tags)) in
      (record c { store = s }, es)

  -- The calls of removeTags that a GC makes, one for each node that went.
  unfoldable pub remove_all_tags : Core → List (List String) → Core × List Error
  unfolding remove_tags_if_unused
  remove_all_tags c [] = (c, [])
  remove_all_tags c (tags ∷ more) =
      let (c', es) = remove_tags_if_unused c tags in
      let (c'', fs) = remove_all_tags c' more in (c'', es ++ fs)

  -- What a creation means to its caller.
  abbrev pub created_or_error : Core → Creation Store → Result Core
  created_or_error c (created s) = ok (record c { store = s })
  created_or_error c (refused e) = err (external e)
  created_or_error c panicked = err outbound_panic

  -- createDynamicGroupOutbound. The constructor of the type, registerDynamicOutbound, hands the group
  -- back and does not panic, so the panic, which is recovered for the other outbounds, does not arise.
  abbrev pub create_group_outbound : Core → String → Result Core
  create_group_outbound c id = created_or_error c (create c.store id dynamic_outbound_kind)

  -- A call that fails leaves the core as it was before that call.
  abbrev pub settle : Core → Result Core → Core × Option Error
  settle c (ok c') = (c', none)
  settle c (err e) = (c, some e)

  -- The method `group`.
  abbrev pub find_group : Core → String → Result Group
  find_group c id = elim (lookup (trim_space id) c.groups) [
    | none ↦ err group_not_found
    | some g ↦ ok g
  ]

  -- A group after a call on it, in its place.
  abbrev pub with_result : Core → String → Result Group → Result Core
  with_result c id r = r >>= λ g. ok (record c { groups = insert (trim_space id) g c.groups })
