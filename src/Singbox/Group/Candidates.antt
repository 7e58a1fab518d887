-- ===== src/Singbox/Group/Candidates.antt =====
-- core/singboxcore/group.go: which nodes a connection tries, and in which order.
use proxy_hub.Prelude.{
  ℕ, suc, Bool, true, false, not, String, Option, none, some, List, [], ◌∷◌, ◌++◌, ◌==◌, ltb,
  if◌then◌else◌, keep_if, take,
}
use proxy_hub.Prelude.Int.{ℤ, pos_part, is_positive}
use proxy_hub.Prelude.Maps.{Map, lookup}
use proxy_hub.Prelude.Sort.{stable_sort}
use proxy_hub.Prelude.Text.{str_eq}
use proxy_hub.Singbox.Time.{Time}
use proxy_hub.Singbox.Policy.{is_manual, is_least_latency, default_blacklist_revival_limit}
use proxy_hub.Singbox.Balancer.{Balancer, order_nodes}
use proxy_hub.Singbox.RevivalOrder.{sort_candidates}
use proxy_hub.Singbox.Node.State.{NodeState, eligible, least_latency_fallback}
use proxy_hub.Singbox.Node.Revival.{RevivalCandidate, revival_candidate, revive_blacklist}
use proxy_hub.Singbox.Group.State.{Event, revived, Group, modify_cell}
use proxy_hub.Singbox.Group.Members.{set_selected}

-- The cells of the IDs that name a member.
unfoldable pub member_cells : Map ℕ → List String → List ℕ
member_cells nodes [] = []
member_cells nodes (id ∷ ids) =
    let rest = member_cells nodes ids in elim (lookup id nodes) [ none ↦ rest | some p ↦ p ∷ rest ]

-- eligibleNodes, and the nodes of candidateState where nothing is pinned.
unfoldable pub eligible_nodes : Group → Time → List ℕ
unfolding member_cells
eligible_nodes g now = keep_if (λ p. eligible (g.cells p) now false) (member_cells g.nodes g.order)

-- The candidates among the cells, numbered by their place from k on.
unfoldable pub revival_candidates : Group → Time → ℕ → List ℕ → List RevivalCandidate
unfolding revival_candidate
revival_candidates g now k [] = []
revival_candidates g now k (p ∷ ps) =
    let rest = revival_candidates g now (suc k) ps in
    if eligible (g.cells p) now false
    then rest
    else elim (revival_candidate p (g.cells p) now k) [ none ↦ rest | some c ↦ c ∷ rest ]

-- The revivals, and the IDs of those that succeeded.
unfoldable pub revive_all : Group → List RevivalCandidate → Group × List String
unfolding modify_cell revive_blacklist
revive_all g [] = (g, [])
revive_all g (c ∷ cs) =
    let revived = revive_all (modify_cell g c.node (λ n. (revive_blacklist n).0)) cs in
    let refused = revive_all g cs in
    if (revive_blacklist (g.cells c.node)).1
    then (revived.0, (g.cells c.node).id ∷ revived.1)
    else refused

-- `limit <= 0` is the default, and a limit beyond the candidates is their number.
abbrev pub revival_limit : ℤ → ℕ
revival_limit limit =
    pos_part (if is_positive limit then limit else default_blacklist_revival_limit)

abbrev pub emit : Bool → Event → Group → Group
emit is_set e g = if is_set then record g { events = g.events ++ e ∷ [] } else g

-- The end of reviveBlacklistedNodes: the callback, if a node was revived.
unfoldable pub report_revived : Time → Group × List String → Group × Bool
report_revived now (g, []) = (g, false)
report_revived now (g, id ∷ ids) =
    (emit g.policy.blacklist_revival_callback (revived (id ∷ ids) now) g, true)

-- reviveBlacklistedNodes, once the candidates are known.
unfoldable pub revive_found : Group → Time → List RevivalCandidate → Group × Bool
unfolding sort_candidates revive_all report_revived
revive_found g now [] = (g, false)
revive_found g now (c ∷ cs) = report_revived now (
    revive_all g (take (revival_limit g.policy.blacklist_revival_limit) (sort_candidates (c ∷ cs))))

unfoldable pub revive_blacklisted_nodes : Group → Time → Group × Bool
unfolding member_cells revival_candidates revive_found
revive_blacklisted_nodes g now =
    revive_found g now (revival_candidates g now 0 (member_cells g.nodes g.order))

-- latencySortValue: no latency is the largest int64.
unfoldable pub latency_sort_value : NodeState → ℕ
latency_sort_value n = if n.last_latency == 0 then 9_223_372_036_854_775_807 else n.last_latency

unfoldable pub by_latency : Group → List ℕ → List ℕ
unfolding latency_sort_value
by_latency g =
    stable_sort (λ p q. ltb (latency_sort_value (g.cells p)) (latency_sort_value (g.cells q)))

-- The end of orderLeastLatencyCandidates: no node has been measured. The fallback balancer
-- afterwards is beside the order.
unfoldable pub order_unmeasured : Group → List ℕ → List (ℕ × ℕ) → Option (List ℕ) × Balancer
unfolding order_nodes
order_unmeasured g nodes swaps =
    if is_manual g.policy.fallback_strategy
    then (some nodes, g.fallback)
    else order_nodes g.fallback swaps nodes

-- The stale fallbacks, if there are any.
unfoldable pub order_stale : Group → List ℕ → List (ℕ × ℕ) → List ℕ → Option (List ℕ) × Balancer
unfolding by_latency order_unmeasured
order_stale g nodes swaps [] = order_unmeasured g nodes swaps
order_stale g nodes swaps (c ∷ cs) = (some (by_latency g (c ∷ cs)), g.fallback)

-- The latency candidates, if there are any.
unfoldable pub order_qualified : Group → List ℕ → List (ℕ × ℕ) → List ℕ → Option (List ℕ) × Balancer
unfolding by_latency order_stale
order_qualified g nodes swaps [] =
    order_stale g nodes swaps (keep_if (λ p. least_latency_fallback (g.cells p)) nodes)
order_qualified g nodes swaps (c ∷ cs) = (some (by_latency g (c ∷ cs)), g.fallback)

-- orderLeastLatencyCandidates.
unfoldable pub order_least_latency : Group → List ℕ → List (ℕ × ℕ) → Option (List ℕ) × Balancer
unfolding order_qualified
order_least_latency g nodes swaps =
    order_qualified g nodes swaps (keep_if (λ p. (g.cells p).latency_candidate) nodes)

-- The cell of the selected ID.
abbrev pub selected_cell : Group → Option ℕ
selected_cell g = lookup g.selected g.nodes

-- The manual order: the selected node first, if it is eligible, then the others.
unfoldable pub manual_from : Group → Time → List ℕ → Option ℕ → List ℕ
manual_from g now nodes none = nodes
manual_from g now nodes (some s) =
    let others = keep_if (λ p. not (str_eq (g.cells p).id (g.cells s).id)) nodes in
    if eligible (g.cells s) now false then s ∷ others else others

unfoldable pub manual_order : Group → Time → List ℕ → List ℕ
unfolding manual_from
manual_order g now nodes = manual_from g now nodes (selected_cell g)

-- The last part of candidates, once it is known which nodes are eligible.
unfoldable pub order_candidates : Group → Time → List (ℕ × ℕ) → List ℕ → Option (List ℕ) × Group
unfolding manual_order order_least_latency order_nodes
order_candidates g now swaps [] = (some [], g)
order_candidates g now swaps (p ∷ ps) =
    if is_manual g.policy.strategy
    then (some (manual_order g now (p ∷ ps)), g)
    else if is_least_latency g.policy.strategy
    then (let (ordered, fallback) = order_least_latency g (p ∷ ps) swaps in
        (ordered, record g { fallback = fallback }))
    else (let (ordered, balancer) = order_nodes g.balancer swaps (p ∷ ps) in
        (ordered, record g { balancer = balancer }))

-- A pinned group offers its selected node, if it is enabled and not tombstoned, and nothing else.
unfoldable pub pinned_from : Group → Time → Option ℕ → List ℕ
pinned_from g now none = []
pinned_from g now (some s) = if eligible (g.cells s) now true then s ∷ [] else []

unfoldable pub pinned_candidates : Group → Time → List ℕ
unfolding pinned_from
pinned_candidates g now = pinned_from g now (selected_cell g)

-- Where no node is eligible, blacklisted ones are revived, and the group is read again.
unfoldable pub revive_if_none : Group → Time → List ℕ → Group
unfolding revive_blacklisted_nodes
revive_if_none g now [] = (revive_blacklisted_nodes g now).0
revive_if_none g now (p ∷ ps) = g

-- candidates, with the swaps of the random balancers. `none` is the round robin's panic.
unfoldable pub candidates : Group → Time → List (ℕ × ℕ) → Option (List ℕ) × Group
unfolding pinned_candidates revive_if_none eligible_nodes order_candidates
candidates g now swaps =
    if g.policy.force_selected
    then (some (pinned_candidates g now), g)
    else (let ready = revive_if_none g now (eligible_nodes g now) in
        order_candidates ready now swaps (eligible_nodes ready now))

-- The end of SelectBestLeastLatencyCandidate: the first candidate is selected.
unfoldable pub select_first : Option (List ℕ) × Group → Option Group
unfolding set_selected
select_first (none, g) = none
select_first (some [], g) = some g
select_first (some (p ∷ ps), g) = some (set_selected g (g.cells p).id)

-- SelectBestLeastLatencyCandidate, `none` for the panic.
unfoldable pub select_best_candidate : Group → Time → List (ℕ × ℕ) → Option Group
unfolding candidates select_first
select_best_candidate g now swaps =
    if is_least_latency g.policy.strategy then select_first (candidates g now swaps) else some g
