-- ===== src/Singbox/Group/Sound/Candidates.antt =====
-- core/singboxcore/group.go: the store under the choice of candidates, and which cells
-- are offered.
use proxy_hub.Prelude.{
  ℕ, ◌<◌, ◌≡◌, refl, Bool, true, false, String, Option, none, some, List, [], ◌∷◌, inl, inr, arith,
  Bool-cases, Option-cases, if_both, All, All-keep_if,
}
use proxy_hub.Prelude.Maps.{lookup}
use proxy_hub.Singbox.Time.{Time}
use proxy_hub.Singbox.Policy.{is_manual, is_least_latency}
use proxy_hub.Singbox.Balancer.{Balancer, order_nodes}
use proxy_hub.Singbox.Node.State.{NodeState, eligible}
use proxy_hub.Singbox.Node.Revival.{RevivalCandidate, revive_blacklist}
use proxy_hub.Singbox.Group.State.{Event, Group, modify_cell}
use proxy_hub.Singbox.Group.Candidates.{
  member_cells, eligible_nodes, revive_all, emit, report_revived, revive_found,
  revive_blacklisted_nodes, order_least_latency, pinned_from, order_candidates, pinned_candidates,
  revive_if_none, candidates,
}
use proxy_hub.Singbox.Group.Ordering.{Offers, some-Offers, order_candidates-Offers}
use proxy_hub.Singbox.Group.Soundness.{IsSound, SameStore-IsSound, Keeps, modify_cell-IsSound}

revive_blacklist-Keeps : (n : NodeState) → Keeps n (revive_blacklist n).0
unfolding revive_blacklist
revive_blacklist-Keeps n = ground arith

revive_all-IsSound :
    (g : Group) (cs : List RevivalCandidate) → IsSound g → IsSound (revive_all g cs).0
unfolding revive_all
revive_all-IsSound g [] h = h
revive_all-IsSound g (c ∷ cs) h = elim (Bool-cases (revive_blacklist (g.cells c.node)).1) [
  | inl e ↦ rw e (
      revive_all-IsSound (modify_cell g c.node (λ n. (revive_blacklist n).0)) cs (
        modify_cell-IsSound g c.node (λ n. (revive_blacklist n).0)
          (revive_blacklist-Keeps (g.cells c.node)) h))
  | inr e ↦ rw e (revive_all-IsSound g cs h)
]

pub emit-IsSound : (b : Bool) (e : Event) (g : Group) → IsSound g → IsSound (emit b e g)
emit-IsSound true e g h =
    SameStore-IsSound g _
      (record { cells = refl; conns = refl; next_cell = refl; next_conn = refl; nodes = refl }) h
emit-IsSound false e g h = h

report_revived-IsSound :
    (now : Time) (r : Group × List String) → IsSound r.0 → IsSound (report_revived now r).0
unfolding report_revived
report_revived-IsSound now (g, []) h = h
report_revived-IsSound now (g, id ∷ ids) h = emit-IsSound _ _ g h

revive_found-IsSound :
    (g : Group) (now : Time) (cs : List RevivalCandidate)
    → IsSound g
    → IsSound (revive_found g now cs).0
unfolding revive_found
revive_found-IsSound g now [] h = h
revive_found-IsSound g now (c ∷ cs) h = report_revived-IsSound now _ (revive_all-IsSound g _ h)

pub revive_if_none-IsSound :
    (g : Group) (now : Time) (ps : List ℕ) → IsSound g → IsSound (revive_if_none g now ps)
unfolding revive_if_none revive_blacklisted_nodes
revive_if_none-IsSound g now [] h = revive_found-IsSound g now _ h
revive_if_none-IsSound g now (p ∷ ps) h = h

-- The cells of a list are the group's.
abbrev pub AreCells : Group → List ℕ → Type 0
AreCells g = All (λ p. p < g.next_cell)

module _ (g : Group) (h : IsSound g) where
  member_cells-AreCells : (ids : List String) → AreCells g (member_cells g.nodes ids)
  unfolding member_cells
  member_cells-AreCells [] = tt
  member_cells-AreCells (id ∷ ids) = elim (Option-cases (lookup id g.nodes)) [
    | inl e ↦ rw (e, member_cells) (member_cells-AreCells ids)
    | inr (p, e) ↦ rw (e, member_cells) (h.member id p e, member_cells-AreCells ids)
  ]

  pub eligible_nodes-AreCells : (now : Time) → AreCells g (eligible_nodes g now)
  unfolding eligible_nodes
  eligible_nodes-AreCells now = All-keep_if _ _ _ (member_cells-AreCells g.order)

-- The choice only replaces the balancers.
with_balancers-IsSound :
    (g : Group) (b c : Balancer) → IsSound g → IsSound (record g { balancer = b; fallback = c })
with_balancers-IsSound g b c =
    SameStore-IsSound g _
      (record { cells = refl; conns = refl; next_cell = refl; next_conn = refl; nodes = refl })

order_candidates-IsSound :
    (g : Group) (now : Time) (swaps : List (ℕ × ℕ)) (ps : List ℕ)
    → IsSound g
    → IsSound (order_candidates g now swaps ps).1
unfolding order_candidates
order_candidates-IsSound g now swaps [] h = h
order_candidates-IsSound g now swaps (p ∷ ps) h =
    if_both (λ (r : Option (List ℕ) × Group). IsSound r.1) (is_manual g.policy.strategy) h
      (if_both (λ (r : Option (List ℕ) × Group). IsSound r.1) (is_least_latency g.policy.strategy)
        (with_balancers-IsSound g g.balancer (order_least_latency g (p ∷ ps) swaps).1 h)
        (with_balancers-IsSound g (order_nodes g.balancer swaps (p ∷ ps)).1 g.fallback h))

order_candidates-next_cell :
    (g : Group) (now : Time) (swaps : List (ℕ × ℕ)) (ps : List ℕ)
    → (order_candidates g now swaps ps).1.next_cell ≡ g.next_cell
unfolding order_candidates
order_candidates-next_cell g now swaps [] = refl
order_candidates-next_cell g now swaps (p ∷ ps) =
    if_both (λ (r : Option (List ℕ) × Group). r.1.next_cell ≡ g.next_cell)
      (is_manual g.policy.strategy) refl
      (if_both (λ (r : Option (List ℕ) × Group). r.1.next_cell ≡ g.next_cell)
        (is_least_latency g.policy.strategy) refl refl)

-- An answer of candidates: the group is sound, and what it offers are its cells.
pub record IsOffer (r : Option (List ℕ) × Group) : Type 0 where
  pub sound : IsSound r.1
  pub cells : Offers (λ p. p < r.1.next_cell) r.0

order_candidates-IsOffer :
    (g : Group) (now : Time) (swaps : List (ℕ × ℕ)) (ps : List ℕ)
    → IsSound g
    → AreCells g ps
    → IsOffer (order_candidates g now swaps ps)
order_candidates-IsOffer g now swaps ps h k = record {
  sound = order_candidates-IsSound g now swaps ps h;
  cells = rw (order_candidates-next_cell g now swaps ps) (
      order_candidates-Offers (λ p. p < g.next_cell) g now swaps ps
        (λ p e _. h.member g.selected p e) k);
}

pinned_from-AreCells :
    (g : Group) (now : Time) (s : Option ℕ)
    → ((p : ℕ) → s ≡ some p → p < g.next_cell)
    → AreCells g (pinned_from g now s)
unfolding pinned_from
pinned_from-AreCells g now none l = tt
pinned_from-AreCells g now (some s) l =
    if_both (λ ps. AreCells g ps) (eligible (g.cells s) now true) (l s refl, tt) tt

pub candidates-IsOffer :
    (g : Group) (now : Time) (swaps : List (ℕ × ℕ)) → IsSound g → IsOffer (candidates g now swaps)
unfolding candidates pinned_candidates
candidates-IsOffer g now swaps h =
    let ready = revive_if_none g now (eligible_nodes g now) in
    let sound = revive_if_none-IsSound g now (eligible_nodes g now) h in
    if_both IsOffer g.policy.force_selected
      (record {
        sound = h;
        cells = some-Offers _ _ (pinned_from-AreCells g now _ (λ s f. h.member g.selected s f));
      })
      (order_candidates-IsOffer ready now swaps (eligible_nodes ready now) sound
        (eligible_nodes-AreCells ready sound now))
