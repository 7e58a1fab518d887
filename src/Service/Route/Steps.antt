-- ===== src/Service/Route/Steps.antt =====
-- runtime_route.go: one level of resolveSelectedRuntimeRouteNode.
use proxy_hub.Prelude.{
  ℕ, zero, suc, ◌≡◌, refl, ap, true, false, String, List, ◌∷◌, Option, none, some,
}
use proxy_hub.Prelude.Maps.{Map, lookup}
use proxy_hub.ProxyUri.Unique.{has_text}
use proxy_hub.Singbox.Node.Snapshot.{NodeSnapshot}
use proxy_hub.Singbox.Group.Snapshot.{GroupSnapshot}
use proxy_hub.Service.Route.State.{RouteNode}
use proxy_hub.Service.Route.Selected.{BuiltinTypes, find_selected, below, at_selected, resolve}

module _ (types : BuiltinTypes) (groups : Map GroupSnapshot) where
  pub no_fuel :
      (g : GroupSnapshot) (visited : List String) (x : Option RouteNode)
      → resolve types groups zero g visited ≡ some x
      → ⊥
  unfolding resolve
  no_fuel g visited x h = absurd (cc)

  pub resolve_step :
      (fuel : ℕ) (g : GroupSnapshot) (n : NodeSnapshot) (visited : List String)
      → has_text g.tag visited ≡ false
      → find_selected g.selected g.nodes ≡ some n
      → resolve types groups (suc fuel) g visited
        ≡ below types groups
            (λ c. resolve types groups fuel c (g.tag ∷ visited))
            g
            n
            (lookup n.tag groups)
  unfolding resolve
  resolve_step fuel g n visited e f =
      rw e (ap (at_selected types groups (λ c. resolve types groups fuel c (g.tag ∷ visited)) g) f)

  pub resolve_visited :
      (fuel : ℕ) (g : GroupSnapshot) (visited : List String)
      → has_text g.tag visited ≡ true
      → resolve types groups (suc fuel) g visited ≡ some none
  unfolding resolve
  resolve_visited fuel g visited e = rw e refl

  pub resolve_unselected :
      (fuel : ℕ) (g : GroupSnapshot) (visited : List String)
      → has_text g.tag visited ≡ false
      → find_selected g.selected g.nodes ≡ none
      → resolve types groups (suc fuel) g visited ≡ some none
  unfolding resolve
  resolve_unselected fuel g visited e f =
      rw e (ap (at_selected types groups (λ c. resolve types groups fuel c (g.tag ∷ visited)) g) f)
