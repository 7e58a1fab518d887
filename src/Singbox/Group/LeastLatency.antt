-- ===== src/Singbox/Group/LeastLatency.antt =====
-- core/singboxcore/group.go: the order of a group that prefers the lowest latency.
use mathlib.Core.List.{Perm}
use proxy_hub.Prelude.{ℕ, ◌≡◌, Bool, Option, some, List, [], ◌∷◌, ltb, keep_if}
use proxy_hub.Prelude.Sort.{IsSorted}
use proxy_hub.Singbox.Node.State.{least_latency_fallback}
use proxy_hub.Singbox.Group.State.{Group}
use proxy_hub.Singbox.Group.Candidates.{latency_sort_value}

-- The first list, or the second one if it is empty.
abbrev pub first_nonempty : List ℕ → List ℕ → List ℕ
first_nonempty [] ds = ds
first_nonempty (c ∷ cs) ds = c ∷ cs

-- The latency candidates among the nodes, or if there are none the stale fallbacks.
abbrev pub best_tier : Group → List ℕ → List ℕ
best_tier g nodes =
    first_nonempty (keep_if (λ p. (g.cells p).latency_candidate) nodes)
      (keep_if (λ p. least_latency_fallback (g.cells p)) nodes)

module _ (g : Group) where
  abbrev pub is_faster : ℕ → ℕ → Bool
  is_faster p q = ltb (latency_sort_value (g.cells p)) (latency_sort_value (g.cells q))

  -- An order of these nodes by their latency.
  abbrev pub IsLatencyOrder : List ℕ → Option (List ℕ) → Type 0
  IsLatencyOrder tier r =
      (ordered : List ℕ) × (r ≡ some ordered) × Perm ordered tier × IsSorted is_faster ordered
