-- ===== src/Service/Reconcile/Spreading.antt =====
-- The loops of runtime_reconcile.go end, and add only what is affected.
use proxy_hub.Prelude.{
  ℕ, ◌<◌, ◌≤◌, ◌≡◌, ◌⊎◌, refl, sym, ap, ◌∙◌, Bool, true, false, ◌&&◌, String, List, [], ◌∷◌, map,
  some, inl, inr, Bool-cases, arith, In, All, length,
}
use mathlib.Core.Path.{subst}
use proxy_hub.Prelude.Text.{str_eq_refl}
use proxy_hub.ProxyUri.Unique.{has_text}
use proxy_hub.Service.Rows.{
  JsonReader, ProxyNode, ProxyGroup, decode_strings, chain_members, chain_node_ids, chain_group_ids,
  is_chain_protocol,
}
use proxy_hub.Service.Reconcile.Closure.{sweep, saturate, missing, Grows}
use proxy_hub.Service.Reconcile.Sweeping.{
  sweep-All, sweep-has_text, sweep-unchanged, sweep-Grows, saturate_total,
}
use proxy_hub.Service.Reconcile.Affected.{
  chains_a_node, chains_a_group, holds_a_node, holds_a_group, node_id, group_id, chain_round,
  group_round, expand_affected_groups,
}
use proxy_hub.Service.Reconcile.Reaching.{
  Reaches, node, group, given, chain_of_node, chain_of_group, group_of_node, group_of_group,
  slices_intersect-one, some_in-one,
}

module _ {ℓ} {A : Type ℓ} (id_of : A → String) where
  map-cons-has_text :
      (rows : List A) (ids : List String)
      → ((x : String) → has_text x (map id_of rows) ≡ true → has_text x ids ≡ true)
      → All (λ a. has_text (id_of a) ids ≡ true) rows
  unfolding has_text
  map-cons-has_text [] ids h = tt
  map-cons-has_text (a ∷ rows) ids h = (
    h (id_of a) (ground (arith, str_eq_refl (id_of a))),
    map-cons-has_text rows ids (λ x k. h x (ground arith)),
  )

  pub All-named : (rows : List A) → All (λ a. has_text (id_of a) (map id_of rows) ≡ true) rows
  All-named rows = map-cons-has_text rows (map id_of rows) (λ x h. h)

  pub missing-le : (rows : List A) (set : List String) → missing (map id_of rows) set ≤ length rows
  unfolding missing
  missing-le [] set = omega arith
  missing-le (a ∷ rows) set = ground (arith, missing-le rows set)

-- A conjunction of tests.
pub both : (a b : Bool) → (a && b) ≡ true → (a ≡ true) × (b ≡ true)
both true b h = (refl, h)
both false b h = absurd (cc)

pub both_true : (a b : Bool) → a ≡ true → b ≡ true → (a && b) ≡ true
both_true true b h k = k
both_true false b h k = h

module _ (json : JsonReader) (nodes : List ProxyNode) (groups : List ProxyGroup)
    (changed : List String) where
  abbrev pub ReachesNode : String → Type 0
  ReachesNode x = Reaches json nodes groups changed (node x)

  abbrev pub ReachesGroup : String → Type 0
  ReachesGroup y = Reaches json nodes groups changed (group y)

  abbrev pub HasChanged : List String → Type 0
  HasChanged set = (x : String) → has_text x changed ≡ true → has_text x set ≡ true

  chains_a_node-Reaches :
      (n : ProxyNode) (set : List String)
      → In n nodes
      → All ReachesNode set
      → chains_a_node json set n ≡ true
      → ReachesNode n.id
  chains_a_node-Reaches n set i p t =
      let (c, m) = both (is_chain_protocol n.protocol) _ t in
      let (x, q, one) =
        slices_intersect-one ReachesNode (chain_node_ids (chain_members json n)) set p m in
      chain_of_node n x i (both_true _ _ c one) q

  pub chains_a_group-Reaches :
      (n : ProxyNode) (set : List String)
      → In n nodes
      → All ReachesGroup set
      → chains_a_group json set n ≡ true
      → ReachesNode n.id
  chains_a_group-Reaches n set i p t =
      let (c, m) = both (is_chain_protocol n.protocol) _ t in
      let (y, q, one) =
        slices_intersect-one ReachesGroup (chain_group_ids (chain_members json n)) set p m in
      chain_of_group n y i (both_true _ _ c one) q

  pub holds_a_node-Reaches :
      (g : ProxyGroup) (set : List String)
      → In g groups
      → All ReachesNode set
      → holds_a_node json set g ≡ true
      → ReachesGroup g.id
  holds_a_node-Reaches g set i p t =
      let (x, q, one) =
        slices_intersect-one ReachesNode (decode_strings json g.node_ids_json) set p t in
      group_of_node g x i one q

  holds_a_group-Reaches :
      (g : ProxyGroup) (set : List String)
      → In g groups
      → All ReachesGroup set
      → holds_a_group json set g ≡ true
      → ReachesGroup g.id
  holds_a_group-Reaches g set i p t =
      let (y, q, one) = some_in-one ReachesGroup (decode_strings json g.group_ids_json) set p t in
      group_of_group g y i one q

  given-All :
      (xs : List String)
      → ((x : String) → has_text x xs ≡ true → has_text x changed ≡ true)
      → All ReachesNode xs
  unfolding has_text
  given-All [] h = tt
  given-All (x ∷ xs) h =
      (given x (h x (ground (arith, str_eq_refl x))), given-All xs (λ y k. h y (ground arith)))

  -- What the first loop leaves: the changed nodes, affected nodes only, and every chain of one.
  pub record IsChained (set : List String) : Type 0 where
    pub reached : All ReachesNode set
    pub has_changed : HasChanged set
    pub closed : All (λ n. chains_a_node json set n ≡ true → has_text (node_id n) set ≡ true) nodes

  chain_round-keeps :
      (s : List String)
      → (All ReachesNode s × HasChanged s)
      → (t : List String) × (c : Bool) × (chain_round json nodes s ≡ some (t, c))
        × (All ReachesNode t × HasChanged t)
        × (c ≡ true → missing (map node_id nodes) t < missing (map node_id nodes) s)
  unfolding chain_round
  chain_round-keeps s (r, h) =
      let test = λ (n : ProxyNode) (t : List String). chains_a_node json s n in
      (
        (sweep node_id test nodes s).0,
        (sweep node_id test nodes s).1,
        refl,
        (
          sweep-All node_id test ReachesNode nodes s (λ n t i p q. chains_a_node-Reaches n s i r q)
              r,
          λ x k. sweep-has_text node_id test nodes s x (h x k),
        ),
        λ c. (sweep-Grows node_id test (map node_id nodes) nodes s (All-named node_id nodes) c).1,
      )

  chain_round-last :
      (s t : List String)
      → All ReachesNode s × HasChanged s
      → chain_round json nodes s ≡ some (t, false)
      → IsChained t
  unfolding chain_round
  chain_round-last s t (r, h) e =
      let test = λ (n : ProxyNode) (t : List String). chains_a_node json s n in
      let q : sweep node_id test nodes s ≡ (t, false) = cc in
      let still : (sweep node_id test nodes s).1 ≡ false = ap (λ (p : List String × Bool). p.1) q in
      let (same, all) = sweep-unchanged node_id test nodes s still in
      let equal : s ≡ t = sym same ∙ ap (λ (p : List String × Bool). p.0) q in
      subst IsChained equal (record { reached = r; has_changed = h; closed = all })

  pub chains_total :
      (fuel : ℕ)
      → length nodes < fuel
      → (t : List String) × (saturate (chain_round json nodes) fuel changed ≡ some t) × IsChained t
  chains_total fuel enough =
      let few = missing-le node_id nodes changed in
      let (last, t, e, p, q, f) =
        saturate_total (chain_round json nodes) (λ s. All ReachesNode s × HasChanged s)
          (missing (map node_id nodes)) chain_round-keeps fuel changed
          (given-All changed (λ x h. h), λ x h. h) (omega arith) in
      (t, e, chain_round-last last t p f)

  -- A set of groups after another: the same, or grown.
  abbrev pub GrowsOrStays : List String → List String → Type 0
  GrowsOrStays s t = (t ≡ s) ⊎ Grows (map group_id groups) s t

  GrowsOrStays-trans :
      (s t u : List String) → GrowsOrStays s t → GrowsOrStays t u → GrowsOrStays s u
  GrowsOrStays-trans s t u (inl e) h = subst (λ t. GrowsOrStays t u) e h
  GrowsOrStays-trans s t u (inr g) (inl e) = subst (λ u. GrowsOrStays s u) (sym e) (inr g)
  GrowsOrStays-trans s t u (inr g) (inr h) = inr (omega arith, omega arith)

  pub sweep-GrowsOrStays :
      (test : ProxyGroup → List String → Bool) (s : List String)
      → GrowsOrStays s (sweep group_id test groups s).0
  sweep-GrowsOrStays test s = elim (Bool-cases (sweep group_id test groups s).1) [
    | inl c ↦
        inr (sweep-Grows group_id test (map group_id groups) groups s (All-named group_id groups) c)
    | inr c ↦ inl (sweep-unchanged group_id test groups s c).0
  ]

  -- What expandAffectedGroups makes of a set: affected groups only, with every group of one.
  pub record IsExpanded (s t : List String) : Type 0 where
    pub reached : All ReachesGroup t
    pub grown : GrowsOrStays s t
    pub kept : (y : String) → has_text y s ≡ true → has_text y t ≡ true
    pub closed : All (λ g. holds_a_group json t g ≡ true → has_text (group_id g) t ≡ true) groups

  abbrev Expanding : List String → List String → Type 0
  Expanding s t =
      All ReachesGroup t
      × GrowsOrStays s t
      × ((y : String) → has_text y s ≡ true → has_text y t ≡ true)

  abbrev group_test : ProxyGroup → List String → Bool
  group_test g t = holds_a_group json t g

  group_round-keeps :
      (s u : List String)
      → Expanding s u
      → (t : List String) × (c : Bool) × (group_round json groups u ≡ some (t, c))
        × Expanding s t
        × (c ≡ true → missing (map group_id groups) t < missing (map group_id groups) u)
  unfolding group_round
  group_round-keeps s u (r, g, k) = (
    (sweep group_id group_test groups u).0,
    (sweep group_id group_test groups u).1,
    refl,
    (
      sweep-All group_id group_test ReachesGroup groups u
          (λ h t i p q. holds_a_group-Reaches h t i p q) r,
      GrowsOrStays-trans s u _ g (sweep-GrowsOrStays group_test u),
      λ y h. sweep-has_text group_id group_test groups u y (k y h),
    ),
    λ c.
        (sweep-Grows group_id group_test (map group_id groups) groups u (All-named group_id groups)
          c).1,
  )

  group_round-last :
      (s u t : List String)
      → Expanding s u
      → group_round json groups u ≡ some (t, false)
      → IsExpanded s t
  unfolding group_round
  group_round-last s u t (r, g, k) e =
      let q : sweep group_id group_test groups u ≡ (t, false) = cc in
      let still : (sweep group_id group_test groups u).1 ≡ false =
        ap (λ (p : List String × Bool). p.1) q in
      let (same, all) = sweep-unchanged group_id group_test groups u still in
      let equal : u ≡ t = sym same ∙ ap (λ (p : List String × Bool). p.0) q in
      subst (IsExpanded s) equal (record { reached = r; grown = g; kept = k; closed = all })

  pub expand_total :
      (fuel : ℕ) (s : List String)
      → length groups < fuel
      → All ReachesGroup s
      → (t : List String) × (expand_affected_groups json fuel groups s ≡ some t) × IsExpanded s t
  unfolding expand_affected_groups
  expand_total fuel s enough r =
      let few = missing-le group_id groups s in
      let (last, t, e, p, q, f) =
        saturate_total (group_round json groups) (Expanding s) (missing (map group_id groups))
          (group_round-keeps s) fuel s (r, inl refl, λ y h. h) (omega arith) in
      (t, e, group_round-last s last t p f)
