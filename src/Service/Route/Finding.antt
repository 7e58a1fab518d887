-- ===== src/Service/Route/Finding.antt =====
-- runtime_route.go: what resolveSelectedRuntimeRouteNode finds.
use mathlib.Core.Option.{some-injective}
use proxy_hub.Prelude.{
  ℕ, zero, suc, ◌≡◌, refl, sym, ◌∙◌, String, List, [], ◌∷◌, Option, none, some, inl, inr,
  Bool-cases, Option-cases,
}
use proxy_hub.Prelude.Maps.{Map, lookup}
use proxy_hub.ProxyUri.Unique.{has_text}
use proxy_hub.Singbox.Node.Snapshot.{NodeSnapshot}
use proxy_hub.Singbox.Group.Snapshot.{GroupSnapshot}
use proxy_hub.Service.Route.State.{RouteNode}
use proxy_hub.Service.Route.Selected.{
  BuiltinTypes, find_selected, route_node, or_member, below, resolve, by_tag, route_fuel,
}
use proxy_hub.Service.Route.Ending.{resolve-by_tag}
use proxy_hub.Service.Route.Steps.{no_fuel, resolve_step, resolve_visited, resolve_unselected}

module _ (types : BuiltinTypes) (groups : Map GroupSnapshot) where
  -- Selections of groups lead from the first group to the second.
  pub data Follows : GroupSnapshot → GroupSnapshot → Type 0 where
    stays : (g : GroupSnapshot) → Follows g g
    selects :
        (g c h : GroupSnapshot) (n : NodeSnapshot)
        → find_selected g.selected g.nodes ≡ some n
        → lookup n.tag groups ≡ some c
        → Follows c h
        → Follows g h

  -- The member is the selected one of a group to which the selections lead.
  pub record IsSelectedBelow (g : GroupSnapshot) (r : RouteNode) : Type 0 where
    pub holder : GroupSnapshot
    pub member : NodeSnapshot
    pub follows : Follows g holder
    pub selects_it : find_selected holder.selected holder.nodes ≡ some member
    pub is_shown : route_node types groups holder member ≡ r

  -- What the search below a group finds is selected in a group to which the selections lead.
  below-IsSelectedBelow :
      (search : GroupSnapshot → Option (Option RouteNode)) (g : GroupSnapshot) (n : NodeSnapshot)
      (r : RouteNode)
      → find_selected g.selected g.nodes ≡ some n
      → ((c : GroupSnapshot) (s : RouteNode) → search c ≡ some (some s) → IsSelectedBelow c s)
      → (o : Option GroupSnapshot) → lookup n.tag groups ≡ o
      → below types groups search g n o ≡ some (some r)
      → IsSelectedBelow g r
  below-IsSelectedBelow search g n r f found none l e = record {
    holder = g;
    member = n;
    follows = stays g;
    selects_it = f;
    is_shown =
        some-injective (route_node types groups g n) r
          (some-injective (some (route_node types groups g n)) (some r) e);
  }
  below-IsSelectedBelow search g n r f found (some c) l e = from (search c) refl e
    where
      from :
          (o : Option (Option RouteNode))
          → search c ≡ o
          → or_member types groups (route_node types groups g n) o ≡ some (some r)
          → IsSelectedBelow g r
      from none q h = absurd (cc)
      from (some none) q h = record {
        holder = g;
        member = n;
        follows = stays g;
        selects_it = f;
        is_shown =
            some-injective (route_node types groups g n) r
              (some-injective (some (route_node types groups g n)) (some r) h);
      }
      from (some (some s)) q h =
          let same : s ≡ r = some-injective s r (some-injective (some s) (some r) h) in
          let b = found c s q in
          record {
            holder = b.holder;
            member = b.member;
            follows = selects g c b.holder n f l b.follows;
            selects_it = b.selects_it;
            is_shown = b.is_shown ∙ same;
          }

  resolve-IsSelectedBelow :
      (fuel : ℕ) (g : GroupSnapshot) (visited : List String) (r : RouteNode)
      → resolve types groups fuel g visited ≡ some (some r)
      → IsSelectedBelow g r
  resolve-IsSelectedBelow zero g visited r e = absurd (no_fuel types groups g visited (some r) e)
  resolve-IsSelectedBelow (suc fuel) g visited r e = elim (Bool-cases (has_text g.tag visited)) [
    | inl v ↦
        let z : some none ≡ some (some r) =
          sym (resolve_visited types groups fuel g visited v) ∙ e in
        absurd (cc)
    | inr fresh ↦ elim (Option-cases (find_selected g.selected g.nodes)) [
      | inl f ↦
          let z : some none ≡ some (some r) =
            sym (resolve_unselected types groups fuel g visited fresh f) ∙ e in
          absurd (cc)
      | inr (n, f) ↦
          below-IsSelectedBelow (λ c. resolve types groups fuel c (g.tag ∷ visited)) g n r f
            (λ c s. resolve-IsSelectedBelow fuel c (g.tag ∷ visited) s) (lookup n.tag groups) refl
            (sym (resolve_step types groups fuel g n visited fresh f) ∙ e)
    ]
  ]

  or_member-answers :
      (own : RouteNode) (o : Option (Option RouteNode))
      → or_member types groups own o ≡ some none
      → ⊥
  or_member-answers own none e = absurd (cc)
  or_member-answers own (some none) e = absurd (cc)
  or_member-answers own (some (some s)) e = absurd (cc)

  below-answers :
      (search : GroupSnapshot → Option (Option RouteNode)) (g : GroupSnapshot) (n : NodeSnapshot)
      (o : Option GroupSnapshot)
      → below types groups search g n o ≡ some none
      → ⊥
  below-answers search g n none e = absurd (cc)
  below-answers search g n (some c) e = or_member-answers (route_node types groups g n) (search c) e

  -- A group that was not visited has an answer as soon as it selects a member.
  resolve-some :
      (fuel : ℕ) (g : GroupSnapshot) (n : NodeSnapshot)
      → find_selected g.selected g.nodes ≡ some n
      → resolve types groups fuel g [] ≡ some none
      → ⊥
  unfolding has_text
  resolve-some zero g n f e = no_fuel types groups g [] none e
  resolve-some (suc fuel) g n f e =
      below-answers (λ c. resolve types groups fuel c (g.tag ∷ [])) g n (lookup n.tag groups)
        (sym (resolve_step types groups fuel g n [] refl f) ∙ e)

-- What the search says of the group: a member that is selected below it, or that it selects none.
abbrev pub FoundBelow : BuiltinTypes → Map GroupSnapshot → GroupSnapshot → Option RouteNode → Type 0
FoundBelow types groups g none = find_selected g.selected g.nodes ≡ none
FoundBelow types groups g (some r) = IsSelectedBelow types groups g r

-- The search for the node that a group of a core uses, the group being the last of its tag, ends
-- whatever the groups select, cycles included. It finds a member that is selected in a group to
-- which the selections lead, or nothing, if the group selects none of its members.
pub resolve_lem :
    (types : BuiltinTypes) (gs : List GroupSnapshot) (g : GroupSnapshot)
    → lookup g.tag (by_tag gs []) ≡ some g
    → (x : Option RouteNode) × (resolve types (by_tag gs []) (route_fuel gs) g [] ≡ some x)
      × FoundBelow types (by_tag gs []) g x
resolve_lem types gs g own = let (x, e) = resolve-by_tag types gs g own in (x, e, found x e)
  where
    found :
        (x : Option RouteNode)
        → resolve types (by_tag gs []) (route_fuel gs) g [] ≡ some x
        → FoundBelow types (by_tag gs []) g x
    found (some r) e = resolve-IsSelectedBelow types (by_tag gs []) (route_fuel gs) g [] r e
    found none e = elim (Option-cases (find_selected g.selected g.nodes)) [
      | inl f ↦ f
      | inr (n, f) ↦ absurd (resolve-some types (by_tag gs []) (route_fuel gs) g n f e)
    ]
