-- ===== src/Singbox/Group/Offer.antt =====
-- core/singboxcore/group.go: the nodes that a connection is offered.
use proxy_hub.Prelude.{
  ℕ, ◌≡◌, refl, Bool, true, false, Option, none, some, List, [], ◌∷◌, inl, inr, Bool-cases, if_both,
  keep_if-All, All, if◌then◌else◌,
}
use proxy_hub.Singbox.Time.{Time}
use proxy_hub.Singbox.Policy.{is_manual, is_least_latency}
use proxy_hub.Singbox.Node.State.{eligible}
use proxy_hub.Singbox.Group.State.{Group}
use proxy_hub.Singbox.Group.Candidates.{
  member_cells, eligible_nodes, order_candidates, pinned_from, pinned_candidates, revive_if_none,
  candidates,
}
use proxy_hub.Singbox.Group.Ordering.{Offers, some-Offers, order_candidates-Offers}

-- What candidates offers from a group that has the same nodes afterwards.
abbrev pub OffersEligible : Bool → Time → Option (List ℕ) × Group → Type 0
OffersEligible forced now r = Offers (λ p. eligible (r.1.cells p) now forced ≡ true) r.0

order_candidates-cells :
    (g : Group) (now : Time) (swaps : List (ℕ × ℕ)) (ps : List ℕ)
    → (order_candidates g now swaps ps).1.cells ≡ g.cells
unfolding order_candidates
order_candidates-cells g now swaps [] = refl
order_candidates-cells g now swaps (p ∷ ps) =
    if_both (λ (r : Option (List ℕ) × Group). r.1.cells ≡ g.cells) (is_manual g.policy.strategy)
      refl
      (if_both (λ (r : Option (List ℕ) × Group). r.1.cells ≡ g.cells)
        (is_least_latency g.policy.strategy) refl refl)

order_candidates-OffersEligible :
    (g : Group) (now : Time) (swaps : List (ℕ × ℕ))
    → OffersEligible false now (order_candidates g now swaps (eligible_nodes g now))
unfolding eligible_nodes
order_candidates-OffersEligible g now swaps =
    rw (order_candidates-cells g now swaps (eligible_nodes g now)) (
      order_candidates-Offers (λ p. eligible (g.cells p) now false ≡ true) g now swaps
        (eligible_nodes g now) (λ p e h. h) (keep_if-All _ (member_cells g.nodes g.order)))

pinned_from-Eligible :
    (g : Group) (now : Time) (s : Option ℕ)
    → All (λ p. eligible (g.cells p) now true ≡ true) (pinned_from g now s)
unfolding pinned_from
pinned_from-Eligible g now none = tt
pinned_from-Eligible g now (some s) = elim (Bool-cases (eligible (g.cells s) now true)) [
  | inl e ↦ rw e (e, tt)
  | inr e ↦ rw e tt
]

-- Both answers of candidates, by whether the group is pinned.
by_force-OffersEligible :
    (g ready : Group) (now : Time) (swaps : List (ℕ × ℕ)) (forced : Bool)
    → OffersEligible forced now (
        if forced
        then (some (pinned_candidates g now), g)
        else order_candidates ready now swaps (eligible_nodes ready now))
unfolding pinned_candidates
by_force-OffersEligible g ready now swaps true = some-Offers _ _ (pinned_from-Eligible g now _)
by_force-OffersEligible g ready now swaps false = order_candidates-OffersEligible ready now swaps

-- Every node that a connection is offered is eligible in the group that candidates leaves, be it
-- after a revival: without regard to its health where the group is pinned, else with it.
pub candidates_lem :
    (g : Group) (now : Time) (swaps : List (ℕ × ℕ))
    → OffersEligible g.policy.force_selected now (candidates g now swaps)
unfolding candidates
candidates_lem g now swaps =
    by_force-OffersEligible g (revive_if_none g now (eligible_nodes g now)) now swaps
      g.policy.force_selected
