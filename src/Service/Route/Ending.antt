-- ===== src/Service/Route/Ending.antt =====
-- runtime_route.go: the searches below a group end.
use mathlib.Core.Option
use mathlib.Core.Option.{some-injective}
use proxy_hub.Prelude.{
  ℕ, zero, suc, ◌<◌, ◌≤◌, ◌≡◌, refl, sym, ap, ◌∙◌, true, String, List, [], ◌∷◌, ◌++◌, All, Option,
  none, some, inl, inr, map, arith, Bool-cases,
}
use proxy_hub.Prelude.Text.{str_eq, str_eq_iff}
use proxy_hub.Prelude.Maps.{Map, lookup, insert, lookup-insert}
use proxy_hub.ProxyUri.Unique.{has_text}
use proxy_hub.Singbox.Node.Snapshot.{NodeSnapshot}
use proxy_hub.Singbox.Group.Snapshot.{GroupSnapshot}
use proxy_hub.Singbox.Core.Upkeep.{CoreState}
use proxy_hub.Service.Reconcile.Closure.{missing, missing-cons-lt}
use proxy_hub.Service.Reconcile.Spreading.{All-named, missing-le}
use proxy_hub.Service.Route.State.{RouteNode, Route, found_or}
use mathlib.Core.Path.{subst}
use proxy_hub.Service.Route.Selected.{
  BuiltinTypes, find_selected, by_tag, route_node, or_member, below, at_selected, resolve,
  route_showing, route_of, routes_of, cons_if, append_if, route_fuel, instance_routes,
}

-- Every key is the tag of its group.
abbrev pub IsKeyed : Map GroupSnapshot → Type 0
IsKeyed groups = (k : String) (g : GroupSnapshot) → lookup k groups ≡ some g → g.tag ≡ k

-- The tags that the map has are among these.
abbrev pub Covers : List String → Map GroupSnapshot → Type 0
Covers tags groups =
    (k : String) (g : GroupSnapshot) → lookup k groups ≡ some g → has_text k tags ≡ true

abbrev pub group_tags : List GroupSnapshot → List String
group_tags gs = map (λ g. g.tag) gs

module _ (types : BuiltinTypes) (groups : Map GroupSnapshot) (tags : List String)
    (keyed : IsKeyed groups) (covers : Covers tags groups) where
  or_member-ends :
      (own : RouteNode) (o : Option (Option RouteNode))
      → (r : Option RouteNode) × (o ≡ some r)
      → (r : Option RouteNode) × (or_member types groups own o ≡ some r)
  or_member-ends own o (r, e) = (found_or r (some own), ap (or_member types groups own) e)

  child-In_tags :
      (k : String) (c : GroupSnapshot) → lookup k groups ≡ some c → has_text c.tag tags ≡ true
  child-In_tags k c e = subst (λ t. has_text t tags ≡ true) (sym (keyed k c e)) (covers k c e)

  below-ends :
      (search : GroupSnapshot → Option (Option RouteNode))
      → ((c : GroupSnapshot)
          → has_text c.tag tags ≡ true
          → (r : Option RouteNode) × (search c ≡ some r))
      → (g : GroupSnapshot) (n : NodeSnapshot) (o : Option GroupSnapshot) → lookup n.tag groups ≡ o
      → (r : Option RouteNode) × (below types groups search g n o ≡ some r)
  below-ends search ends g n none e = (some (route_node types groups g n), refl)
  below-ends search ends g n (some c) e =
      or_member-ends (route_node types groups g n) (search c) (ends c (child-In_tags n.tag c e))

  at_selected-ends :
      (search : GroupSnapshot → Option (Option RouteNode))
      → ((c : GroupSnapshot)
          → has_text c.tag tags ≡ true
          → (r : Option RouteNode) × (search c ≡ some r))
      → (g : GroupSnapshot) (o : Option NodeSnapshot)
      → (r : Option RouteNode) × (at_selected types groups search g o ≡ some r)
  at_selected-ends search ends g none = (none, refl)
  at_selected-ends search ends g (some n) = below-ends search ends g n (lookup n.tag groups) refl

  pub resolve-ends :
      (fuel : ℕ) (g : GroupSnapshot) (visited : List String)
      → has_text g.tag tags ≡ true
      → missing tags visited < fuel
      → (r : Option RouteNode) × (resolve types groups fuel g visited ≡ some r)
  unfolding resolve
  resolve-ends zero g visited h l = absurd (omega arith)
  resolve-ends (suc fuel) g visited h l = elim (Bool-cases (has_text g.tag visited)) [
    | inl e ↦ rw e (none, refl)
    | inr e ↦
        let less = missing-cons-lt tags visited g.tag h e in
        rw e (
          at_selected-ends (λ c. resolve types groups fuel c (g.tag ∷ visited))
            (λ c hc. resolve-ends fuel c (g.tag ∷ visited) hc (omega arith)) g
            (find_selected g.selected g.nodes))
  ]

  route_of-ends :
      (fuel : ℕ) (mapping : String) (g : GroupSnapshot)
      → has_text g.tag tags ≡ true
      → missing tags [] < fuel
      → (r : Route) × (route_of types groups fuel mapping g ≡ some r)
  unfolding route_of
  route_of-ends fuel mapping g h l =
      let (r, e) = resolve-ends fuel g [] h l in
      (
        route_showing types groups mapping g r,
        ap (Option.map (λ found. route_showing types groups mapping g found)) e,
      )

  cons_if-ends :
      (o : Option Route) (rest : Option (List Route))
      → (r : Route) × (o ≡ some r)
      → (rs : List Route) × (rest ≡ some rs)
      → (rs : List Route) × (cons_if o rest ≡ some rs)
  cons_if-ends o rest (r, e) (rs, es) =
      (r ∷ rs, ap (λ x. cons_if x rest) e ∙ ap (cons_if (some r)) es)

  routes_of-ends :
      (fuel : ℕ) (mapping : String) (gs : List GroupSnapshot)
      → All (λ g. has_text g.tag tags ≡ true) gs
      → missing tags [] < fuel
      → (rs : List Route) × (routes_of types groups fuel mapping gs ≡ some rs)
  unfolding routes_of
  routes_of-ends fuel mapping [] h l = ([], refl)
  routes_of-ends fuel mapping (g ∷ gs) h l =
      cons_if-ends (route_of types groups fuel mapping g) (routes_of types groups fuel mapping gs)
        (route_of-ends fuel mapping g h.0 l) (routes_of-ends fuel mapping gs h.1 l)

insert-IsKeyed :
    (g : GroupSnapshot) (groups : Map GroupSnapshot)
    → IsKeyed groups
    → IsKeyed (insert g.tag g groups)
insert-IsKeyed g groups keyed k c e = elim (Bool-cases (str_eq g.tag k)) [
  | inl s ↦
      let same : g.tag ≡ k = (str_eq_iff g.tag k).0 s in
      let it : g ≡ c = some-injective g c (sym (lookup-insert g.tag k g groups ∙ (simp s)) ∙ e) in
      subst (λ x. x.tag ≡ k) it same
  | inr s ↦ keyed k c (sym (lookup-insert g.tag k g groups ∙ (simp s)) ∙ e)
]

pub by_tag-IsKeyed :
    (gs : List GroupSnapshot) (groups : Map GroupSnapshot)
    → IsKeyed groups
    → IsKeyed (by_tag gs groups)
unfolding by_tag
by_tag-IsKeyed [] groups keyed = keyed
by_tag-IsKeyed (g ∷ gs) groups keyed =
    by_tag-IsKeyed gs (insert g.tag g groups) (insert-IsKeyed g groups keyed)

by_tag-Covers :
    (tags : List String) (gs : List GroupSnapshot) (groups : Map GroupSnapshot)
    → All (λ g. has_text g.tag tags ≡ true) gs
    → Covers tags groups
    → Covers tags (by_tag gs groups)
unfolding by_tag
by_tag-Covers tags [] groups h covers = covers
by_tag-Covers tags (g ∷ gs) groups h covers =
    by_tag-Covers tags gs (insert g.tag g groups) h.1 (λ k c e. elim (Bool-cases (str_eq g.tag k)) [
      | inl s ↦ subst (λ t. has_text t tags ≡ true) ((str_eq_iff g.tag k).0 s) h.0
      | inr s ↦ covers k c (sym (lookup-insert g.tag k g groups ∙ (simp s)) ∙ e)
    ])

nothing-IsKeyed : IsKeyed []
unfolding lookup
nothing-IsKeyed k g e = absurd (cc)

nothing-Covers : (tags : List String) → Covers tags []
unfolding lookup
nothing-Covers tags k g e = absurd (cc)

le_lt : {a b : ℕ} → a ≤ b → a < suc b
le_lt h = omega arith

pub tagged-IsKeyed : (gs : List GroupSnapshot) → IsKeyed (by_tag gs [])
tagged-IsKeyed gs = by_tag-IsKeyed gs [] nothing-IsKeyed

tagged-Covers : (gs : List GroupSnapshot) → Covers (group_tags gs) (by_tag gs [])
tagged-Covers gs =
    by_tag-Covers (group_tags gs) gs [] (All-named (λ (g : GroupSnapshot). g.tag) gs)
      (nothing-Covers (group_tags gs))

enough_fuel : (gs : List GroupSnapshot) → missing (group_tags gs) [] < route_fuel gs
enough_fuel gs = le_lt (missing-le (λ (g : GroupSnapshot). g.tag) gs [])

pub resolve-by_tag :
    (types : BuiltinTypes) (gs : List GroupSnapshot) (g : GroupSnapshot)
    → lookup g.tag (by_tag gs []) ≡ some g
    → (x : Option RouteNode) × (resolve types (by_tag gs []) (route_fuel gs) g [] ≡ some x)
resolve-by_tag types gs g own =
    resolve-ends types (by_tag gs []) (group_tags gs) (tagged-IsKeyed gs) (tagged-Covers gs)
      (route_fuel gs) g [] (tagged-Covers gs g.tag g own) (enough_fuel gs)

append_if-ends :
    (o rest : Option (List Route))
    → (rs : List Route) × (o ≡ some rs)
    → (rs : List Route) × (rest ≡ some rs)
    → (rs : List Route) × (append_if o rest ≡ some rs)
append_if-ends o rest (r, e) (rs, es) =
    (r ++ rs, ap (λ x. append_if x rest) e ∙ ap (append_if (some r)) es)

pub instance_routes-ends :
    (types : BuiltinTypes) (instances : List (String × Option CoreState))
    → (rs : List Route) × (instance_routes types instances ≡ some rs)
unfolding instance_routes
instance_routes-ends types [] = ([], refl)
instance_routes-ends types ((mapping, none) ∷ rest) = instance_routes-ends types rest
instance_routes-ends types ((mapping, some state) ∷ rest) =
    let gs = state.groups in
    append_if-ends (routes_of types (by_tag gs []) (route_fuel gs) mapping gs)
      (instance_routes types rest)
      (routes_of-ends types (by_tag gs []) (group_tags gs) (tagged-IsKeyed gs) (tagged-Covers gs)
        (route_fuel gs) mapping gs (All-named (λ (g : GroupSnapshot). g.tag) gs) (enough_fuel gs))
      (instance_routes-ends types rest)
