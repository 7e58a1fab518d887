-- ===== src/Service/Route/Sorted.antt =====
-- runtime_route.go: the routes that runtimeRoutesLocked returns.
use mathlib.Core.Option
use mathlib.Core.Option.{some-injective}
use mathlib.Core.List.{map-append}
use mathlib.Core.List.Perm
use proxy_hub.Prelude.Maps.{Map}
use proxy_hub.Singbox.Group.Snapshot.{GroupSnapshot}
use mathlib.Core.List.{Perm}
use mathlib.Core.Path.{subst}
use proxy_hub.Prelude.{
  ◌≡◌, refl, sym, ap, ◌∙◌, String, ℕ, List, [], ◌∷◌, ◌++◌, map, Option, none, some,
}
use proxy_hub.Prelude.Sort.{stable_sort, stable_sort-perm, stable_sort-IsSorted}
use proxy_hub.Singbox.Core.Upkeep.{CoreState}
use proxy_hub.Service.Route.State.{Route, RouteNode}
use proxy_hub.Service.Route.Selected.{
  BuiltinTypes, route_less, instance_routes, runtime_routes, by_tag, route_of, routes_of,
  route_fuel, route_showing, resolve, cons_if, append_if,
}
use proxy_hub.Service.Route.Ending.{instance_routes-ends}
use proxy_hub.Service.Route.Order.{route_less-IsWeakOrder, InOrder, IsSorted-InOrder}

-- The mappings and the tags of the groups of the cores that the instances have.
abbrev pub group_keys : List (String × Option CoreState) → List (String × String)
group_keys [] = []
group_keys ((mapping, none) ∷ rest) = group_keys rest
group_keys ((mapping, some state) ∷ rest) =
    map (λ (g : GroupSnapshot). (mapping, g.tag)) state.groups ++ group_keys rest

abbrev pub route_key : Route → String × String
route_key r = (r.mapping_id, r.group_tag)

module _ (types : BuiltinTypes) (groups : Map GroupSnapshot) (fuel : ℕ) (mapping : String) where
  route_of-key :
      (g : GroupSnapshot) (r : Route)
      → route_of types groups fuel mapping g ≡ some r
      → route_key r ≡ (mapping, g.tag)
  unfolding route_of
  route_of-key g r = shown_key (resolve types groups fuel g [])
    where
      shown_key :
          (o : Option (Option RouteNode))
          → Option.map (λ found. route_showing types groups mapping g found) o ≡ some r
          → route_key r ≡ (mapping, g.tag)
      shown_key none e = absurd (cc)
      shown_key (some found) e =
          sym (ap route_key (some-injective (route_showing types groups mapping g found) r e))
          ∙ (unfold route_showing in refl)

  routes_of-keys :
      (gs : List GroupSnapshot) (rs : List Route)
      → routes_of types groups fuel mapping gs ≡ some rs
      → map route_key rs ≡ map (λ (g : GroupSnapshot). (mapping, g.tag)) gs
  unfolding routes_of
  routes_of-keys [] rs e = ap (map route_key) (some-injective rs [] (sym e))
  routes_of-keys (g ∷ gs) rs e =
      both (route_of types groups fuel mapping g) (routes_of types groups fuel mapping gs)
        (λ r. route_of-key g r) (λ xs. routes_of-keys gs xs) e
    where
      both :
          (o : Option Route) (rest : Option (List Route))
          → ((r : Route) → o ≡ some r → route_key r ≡ (mapping, g.tag))
          → ((xs : List Route)
              → rest ≡ some xs
              → map route_key xs ≡ map (λ (g : GroupSnapshot). (mapping, g.tag)) gs)
          → cons_if o rest ≡ some rs
          → map route_key rs ≡ map (λ (g : GroupSnapshot). (mapping, g.tag)) (g ∷ gs)
      both none rest f h e = absurd (cc)
      both (some r) none f h e = absurd (cc)
      both (some r) (some xs) f h e =
          ap (map route_key) (sym (some-injective (r ∷ xs) rs e))
          ∙ ap (λ k. k ∷ map route_key xs) (f r refl)
          ∙ ap (λ ks. (mapping, g.tag) ∷ ks) (h xs refl)

instance_routes-keys :
    (types : BuiltinTypes) (instances : List (String × Option CoreState)) (rs : List Route)
    → instance_routes types instances ≡ some rs
    → map route_key rs ≡ group_keys instances
unfolding instance_routes
instance_routes-keys types [] rs e = ap (map route_key) (some-injective rs [] (sym e))
instance_routes-keys types ((mapping, none) ∷ rest) rs e = instance_routes-keys types rest rs e
instance_routes-keys types ((mapping, some state) ∷ rest) rs e =
    both (routes_of types (by_tag state.groups []) (route_fuel state.groups) mapping state.groups)
      (instance_routes types rest)
      (λ xs.
        routes_of-keys types (by_tag state.groups []) (route_fuel state.groups) mapping state.groups
          xs)
      (λ ys. instance_routes-keys types rest ys) e
  where
    both :
        (o later : Option (List Route))
        → ((xs : List Route)
            → o ≡ some xs
            → map route_key xs ≡ map (λ (g : GroupSnapshot). (mapping, g.tag)) state.groups)
        → ((ys : List Route) → later ≡ some ys → map route_key ys ≡ group_keys rest)
        → append_if o later ≡ some rs
        → map route_key rs
          ≡ map (λ (g : GroupSnapshot). (mapping, g.tag)) state.groups ++ group_keys rest
    both none later f h e = absurd (cc)
    both (some xs) none f h e = absurd (cc)
    both (some xs) (some ys) f h e =
        ap (map route_key) (sym (some-injective (xs ++ ys) rs e))
        ∙ map-append route_key xs ys
        ∙ ap (λ ks. ks ++ map route_key ys) (f xs refl)
        ∙ ap (λ ks. map (λ (g : GroupSnapshot). (mapping, g.tag)) state.groups ++ ks) (h ys refl)

-- There is a route for each group of each instance with a core, as often as it is there, and no
-- other, whatever the groups select. No later route precedes an earlier one: the mappings are in
-- order, the root of a mapping comes first, and its other groups are in the order of their tags.
pub runtime_routes_lem :
    (types : BuiltinTypes) (instances : List (String × Option CoreState))
    → (rs : List Route) × (runtime_routes types instances ≡ some rs)
      × Perm (map route_key rs) (group_keys instances)
      × InOrder rs
unfolding runtime_routes
runtime_routes_lem types instances =
    let (found, e) = instance_routes-ends types instances in
    let keys = instance_routes-keys types instances found e in
    (
      stable_sort route_less found,
      ap (Option.map (stable_sort route_less)) e,
      subst (λ ks. Perm (map route_key (stable_sort route_less found)) ks) keys
          (Perm.map route_key (stable_sort-perm route_less found)),
      IsSorted-InOrder (stable_sort route_less found)
          (stable_sort-IsSorted route_less route_less-IsWeakOrder found),
    )
