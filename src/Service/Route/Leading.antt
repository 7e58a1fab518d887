-- ===== src/Service/Route/Leading.antt =====
-- runtime_route.go: the node that resolveSelectedRuntimeRouteNode returns is the one at the end of
-- the selections.
use mathlib.Core.Option.{some-injective}
use mathlib.Core.Path.{subst}
use proxy_hub.Prelude.{
  ℕ, zero, suc, ◌<◌, ◌≡◌, refl, sym, ap, ◌∙◌, false, String, List, [], ◌∷◌, All, Option, none, some,
  inl, inr, arith, Bool-cases,
}
use proxy_hub.Prelude.Text.{str_eq, str_eq_iff}
use proxy_hub.Prelude.Maps.{Map, lookup}
use proxy_hub.ProxyUri.Unique.{has_text}
use proxy_hub.Singbox.Node.Snapshot.{NodeSnapshot}
use proxy_hub.Singbox.Group.Snapshot.{GroupSnapshot}
use proxy_hub.Service.Route.State.{RouteNode, found_or}
use proxy_hub.Service.Route.Selected.{
  BuiltinTypes, find_selected, route_node, or_member, below, resolve, by_tag, route_fuel,
}
use proxy_hub.Service.Route.Ending.{IsKeyed, tagged-IsKeyed, resolve-by_tag}
use proxy_hub.Service.Route.Steps.{no_fuel, resolve_step}

module _ (types : BuiltinTypes) (groups : Map GroupSnapshot) where
  -- From the group, so many selections of groups lead to the selection of a member that is no group.
  unfoldable pub LeadsIn : ℕ → GroupSnapshot → RouteNode → Type 0
  unfolding find_selected lookup route_node
  LeadsIn zero g r =
      (n : NodeSnapshot) × (find_selected g.selected g.nodes ≡ some n)
      × (lookup n.tag groups ≡ none)
      × (route_node types groups g n ≡ r)
  LeadsIn (suc k) g r =
      (n : NodeSnapshot) × (c : GroupSnapshot) × (find_selected g.selected g.nodes ≡ some n)
      × (lookup n.tag groups ≡ some c)
      × LeadsIn k c r

  same_member :
      (g : GroupSnapshot) (n m : NodeSnapshot)
      → find_selected g.selected g.nodes ≡ some n
      → find_selected g.selected g.nodes ≡ some m
      → n.tag ≡ m.tag
  same_member g n m e f = ap (λ (x : NodeSnapshot). x.tag) (some-injective n m (sym e ∙ f))

  same_child :
      (g c d : GroupSnapshot) (n m : NodeSnapshot)
      → find_selected g.selected g.nodes ≡ some n
      → find_selected g.selected g.nodes ≡ some m
      → lookup n.tag groups ≡ some c
      → lookup m.tag groups ≡ some d
      → d ≡ c
  same_child g c d n m e f l o =
      some-injective d c (sym o ∙ sym (ap (λ t. lookup t groups) (same_member g n m e f)) ∙ l)

  no_child :
      (g c : GroupSnapshot) (n m : NodeSnapshot)
      → find_selected g.selected g.nodes ≡ some n
      → find_selected g.selected g.nodes ≡ some m
      → lookup n.tag groups ≡ none
      → lookup m.tag groups ≡ some c
      → ⊥
  no_child g c n m e f l o =
      let q = ap (λ t. lookup t groups) (same_member g n m e f) in
      let z : none ≡ some c = sym l ∙ q ∙ o in absurd (cc)

  -- Two ways from a group have the same length.
  LeadsIn-unique :
      (k j : ℕ) (g : GroupSnapshot) (r s : RouteNode) → LeadsIn k g r → LeadsIn j g s → k ≡ j
  unfolding LeadsIn
  LeadsIn-unique zero zero g r s p q = refl
  LeadsIn-unique zero (suc j) g r s (n, e, l, p) (m, d, f, o, q) = absurd (no_child g d n m e f l o)
  LeadsIn-unique (suc k) zero g r s (n, c, e, l, p) (m, f, o, q) = absurd (no_child g c m n f e o l)
  LeadsIn-unique (suc k) (suc j) g r s (n, c, e, l, p) (m, d, f, o, q) =
      let q' = subst (λ x. LeadsIn j x s) (same_child g c d n m e f l o) q in
      ap suc (LeadsIn-unique k j c r s p q')

  -- From a visited group, every way is longer than this.
  abbrev pub AllLonger : ℕ → List String → Type 0
  AllLonger k visited =
      All
        (λ t.
          (j : ℕ) (h : GroupSnapshot) (s : RouteNode)
          → lookup t groups ≡ some h
          → LeadsIn j h s
          → k < j)
        visited

  longer_than :
      (k : ℕ) (g : GroupSnapshot) (r : RouteNode) (visited : List String)
      → lookup g.tag groups ≡ some g
      → LeadsIn (suc k) g r
      → AllLonger (suc k) visited
      → AllLonger k (g.tag ∷ visited)
  longer_than k g r visited own p a = (
    (λ j h s e q.
        let there = subst (λ x. LeadsIn j x s) (some-injective h g (sym e ∙ own)) q in
        let same = LeadsIn-unique (suc k) j g r s p there in omega arith),
    shorter visited a,
  )
    where
      shorter : (ts : List String) → AllLonger (suc k) ts → AllLonger k ts
      shorter [] b = tt
      shorter (t ∷ ts) b = ((λ j h s e q. let l = b.0 j h s e q in omega arith), shorter ts b.1)

  not_visited :
      (k : ℕ) (g : GroupSnapshot) (r : RouteNode) (visited : List String)
      → lookup g.tag groups ≡ some g
      → LeadsIn k g r
      → AllLonger k visited
      → has_text g.tag visited ≡ false
  unfolding has_text
  not_visited k g r [] own p a = refl
  not_visited k g r (t ∷ ts) own p a = elim (Bool-cases (str_eq t g.tag)) [
    | inl e ↦
        let there = ap (λ x. lookup x groups) ((str_eq_iff t g.tag).0 e) ∙ own in
        let l = a.0 k g r there p in absurd (omega arith)
    | inr e ↦ rw e (not_visited k g r ts own p a.1)
  ]

  or_member-found :
      (own r : RouteNode) (o : Option (Option RouteNode)) (x : Option RouteNode)
      → ((y : Option RouteNode) → o ≡ some y → y ≡ some r)
      → or_member types groups own o ≡ some x
      → x ≡ some r
  or_member-found own r none x found e = absurd (cc)
  or_member-found own r (some y) x found e =
      some-injective x (some r) (sym e ∙ ap (λ z. some (found_or z (some own))) (found y refl))

  LeadsIn-resolve :
      (fuel k : ℕ) (g : GroupSnapshot) (r : RouteNode) (visited : List String)
      (x : Option RouteNode)
      → IsKeyed groups
      → lookup g.tag groups ≡ some g
      → LeadsIn k g r
      → AllLonger k visited
      → resolve types groups fuel g visited ≡ some x
      → x ≡ some r
  unfolding LeadsIn
  LeadsIn-resolve zero k g r visited x keyed own p a e = absurd (no_fuel types groups g visited x e)
  LeadsIn-resolve (suc fuel) zero g r visited x keyed own (n, f, l, q) a e =
      let fresh = not_visited zero g r visited own (n, f, l, q) a in
      let search = λ (c : GroupSnapshot). resolve types groups fuel c (g.tag ∷ visited) in
      some-injective x (some r) (
        sym e
        ∙ resolve_step types groups fuel g n visited fresh f
        ∙ ap (below types groups search g n) l
        ∙ ap (λ z. some (some z)) q)
  LeadsIn-resolve (suc fuel) (suc k) g r visited x keyed own (n, c, f, l, p) a e =
      let fresh = not_visited (suc k) g r visited own (n, c, f, l, p) a in
      let search = λ (c : GroupSnapshot). resolve types groups fuel c (g.tag ∷ visited) in
      let its_own = ap (λ t. lookup t groups) (keyed n.tag c l) ∙ l in
      let longer = longer_than k g r visited own (n, c, f, l, p) a in
      or_member-found (route_node types groups g n) r (search c) x
        (λ y. LeadsIn-resolve fuel k c r (g.tag ∷ visited) y keyed its_own p longer)
        (sym (
            resolve_step types groups fuel g n visited fresh f
            ∙ ap (below types groups search g n) l)
          ∙ e)

-- If selections of groups of a core lead from a group, the last of its tag, to a selected member
-- that is no group, the search ends with that member.
pub resolve_of_LeadsIn :
    (types : BuiltinTypes) (gs : List GroupSnapshot) (g : GroupSnapshot) (k : ℕ) (r : RouteNode)
    → lookup g.tag (by_tag gs []) ≡ some g
    → LeadsIn types (by_tag gs []) k g r
    → resolve types (by_tag gs []) (route_fuel gs) g [] ≡ some (some r)
resolve_of_LeadsIn types gs g k r own p =
    let (x, e) = resolve-by_tag types gs g own in
    let same =
      LeadsIn-resolve types (by_tag gs []) (route_fuel gs) k g r [] x (tagged-IsKeyed gs) own p tt
        e in
    e ∙ ap some same
