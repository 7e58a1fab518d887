-- ===== src/Singbox/Group/Ordering.antt =====
-- core/singboxcore/group.go: which nodes an order is made of.
use proxy_hub.Prelude.{
  ℕ, ◌≡◌, refl, Bool, true, false, Option, none, some, List, [], ◌∷◌, if_both, All, All-keep_if,
  if◌then◌else◌,
}
use proxy_hub.Prelude.Sort.{All-stable_sort}
use proxy_hub.Singbox.Time.{Time}
use proxy_hub.Singbox.Policy.{is_manual, is_least_latency}
use proxy_hub.Singbox.Balancer.{Balancer}
use proxy_hub.Singbox.Balancer.Members.{order_nodes-All}
use proxy_hub.Singbox.Node.State.{eligible}
use proxy_hub.Singbox.Group.State.{Group}
use proxy_hub.Singbox.Group.Candidates.{
  by_latency, order_unmeasured, order_stale, order_qualified, order_least_latency, manual_from,
  manual_order, order_candidates, selected_cell,
}

module _ (P : ℕ → Type 0) where
  -- Every node of a list that is offered satisfies it.
  abbrev pub Offers : Option (List ℕ) → Type 0
  Offers offered = (ps : List ℕ) → offered ≡ some ps → All P ps

  pub some-Offers : (ps : List ℕ) → All P ps → Offers (some ps)
  some-Offers ps h qs e = let q : ps ≡ qs = cc in rw (← q) h

  module _ (g : Group) where
    by_latency-All : (ps : List ℕ) → All P ps → All P (by_latency g ps)
    unfolding by_latency
    by_latency-All ps = All-stable_sort P _ ps

    order_unmeasured-Offers :
        (nodes : List ℕ) (swaps : List (ℕ × ℕ))
        → All P nodes
        → Offers (order_unmeasured g nodes swaps).0
    unfolding order_unmeasured
    order_unmeasured-Offers nodes swaps h =
        if_both (λ (r : Option (List ℕ) × Balancer). Offers r.0)
          (is_manual g.policy.fallback_strategy) (some-Offers nodes h)
          (λ ps k. order_nodes-All P g.fallback swaps nodes ps h k)

    order_stale-Offers :
        (nodes : List ℕ) (swaps : List (ℕ × ℕ)) (cs : List ℕ)
        → All P nodes
        → All P cs
        → Offers (order_stale g nodes swaps cs).0
    unfolding order_stale
    order_stale-Offers nodes swaps [] h k = order_unmeasured-Offers nodes swaps h
    order_stale-Offers nodes swaps (c ∷ cs) h k = some-Offers _ (by_latency-All (c ∷ cs) k)

    order_qualified-Offers :
        (nodes : List ℕ) (swaps : List (ℕ × ℕ)) (cs : List ℕ)
        → All P nodes
        → All P cs
        → Offers (order_qualified g nodes swaps cs).0
    unfolding order_qualified
    order_qualified-Offers nodes swaps [] h k =
        order_stale-Offers nodes swaps _ h (All-keep_if P _ nodes h)
    order_qualified-Offers nodes swaps (c ∷ cs) h k = some-Offers _ (by_latency-All (c ∷ cs) k)

    selected_first-All :
        (b : Bool) (s : ℕ) (ps : List ℕ)
        → (b ≡ true → P s)
        → All P ps
        → All P (if b then s ∷ ps else ps)
    selected_first-All true s ps l h = (l refl, h)
    selected_first-All false s ps l h = h

    manual_from-All :
        (now : Time) (nodes : List ℕ) (s : Option ℕ)
        → ((p : ℕ) → s ≡ some p → eligible (g.cells p) now false ≡ true → P p)
        → All P nodes
        → All P (manual_from g now nodes s)
    unfolding manual_from
    manual_from-All now nodes none l h = h
    manual_from-All now nodes (some s) l h =
        selected_first-All _ s _ (l s refl) (All-keep_if P _ nodes h)

    -- So it holds of what is offered, if it holds of the nodes and of the selected one, in case that
    -- one is eligible.
    pub order_candidates-Offers :
        (now : Time) (swaps : List (ℕ × ℕ)) (ps : List ℕ)
        → ((p : ℕ) → selected_cell g ≡ some p → eligible (g.cells p) now false ≡ true → P p)
        → All P ps
        → Offers (order_candidates g now swaps ps).0
    unfolding order_candidates manual_order order_least_latency
    order_candidates-Offers now swaps [] l h = some-Offers [] tt
    order_candidates-Offers now swaps (p ∷ ps) l h =
        if_both (λ (r : Option (List ℕ) × Group). Offers r.0) (is_manual g.policy.strategy)
          (some-Offers _ (manual_from-All now (p ∷ ps) (selected_cell g) l h))
          (if_both (λ (r : Option (List ℕ) × Group). Offers r.0)
            (is_least_latency g.policy.strategy)
            (order_qualified-Offers (p ∷ ps) swaps _ h (All-keep_if P _ (p ∷ ps) h))
            (λ qs d. order_nodes-All P g.balancer swaps (p ∷ ps) qs h d))
