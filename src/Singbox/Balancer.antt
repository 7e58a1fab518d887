-- ===== src/Singbox/Balancer.antt =====
-- core/singboxcore/balancer.go: the order in which a group offers its nodes to a connection.
pub mod Fairness
pub mod Members
use mathlib.Core.List.{Perm, perm_append_comm}
use mathlib.Core.List.Perm
use native.Mathlib.Nat.{add-zero, mod-eq_of_lt, mod-add-mod, add-mod_right, mod-lt}
use proxy_hub.Prelude.{
  ℕ, zero, suc, ◌+◌, ◌-◌, ◌%◌, ◌^◌, ◌≤◌, ◌<◌, ◌≡◌, ◌≢◌, refl, ap, sym, ◌∙◌, inl, inr, Option-cases,
  Bool-cases, lt→ltb, leb→le, Bool, true, false, Option, none, some, List, [], ◌∷◌, ◌++◌, arith,
  ltb, leb, ◌==◌, if◌then◌else◌, length, get_elem?, set, take, drop, take-append-drop,
}
use proxy_hub.Singbox.Policy.{BalanceStrategy, is_random}

abbrev pub uint64_mod : ℕ
uint64_mod = 2 ^ 64

abbrev pub int64_max : ℕ
int64_max = 2 ^ 63

-- RoundRobinBalancer with its atomic uint64, and RandomBalancer.
pub data Balancer : Type 0 where
  round_robin_from : ℕ → Balancer
  random_order : Balancer

unfoldable pub new_balancer : BalanceStrategy → Balancer
new_balancer strategy = if is_random strategy then random_order else round_robin_from 0

-- `int(b.next.Add(1)-1) % len(nodes)`. The conversion to int makes numbers from 2^63 on negative,
-- Go's `%` keeps the sign, and a slice at a negative index panics, which is `none`.
unfoldable pub round_robin_start : ℕ → ℕ → Option ℕ
round_robin_start next n =
    let taken = ((next + 1) % uint64_mod + (uint64_mod - 1)) % uint64_mod in
    if ltb taken int64_max
    then some (taken % n)
    else if (uint64_mod - taken) % n == 0
    then some 0
    else none

module _ {ℓ} {A : Type ℓ} where
  -- `ordered[i], ordered[j] = ordered[j], ordered[i]`.
  unfoldable pub swap_at : ℕ → ℕ → List A → List A
  swap_at i j xs = elim (get_elem? xs i) [
    | none ↦ xs
    | some a ↦ elim (get_elem? xs j) [ none ↦ xs | some b ↦ set (set xs i b) j a ]
  ]

  -- rand.Shuffle: the swaps that it chooses, in order.
  unfoldable pub shuffle : List (ℕ × ℕ) → List A → List A
  unfolding swap_at
  shuffle [] xs = xs
  shuffle ((i, j) ∷ swaps) xs = shuffle swaps (swap_at i j xs)

  -- `append(nodes[start:], nodes[:start]...)`, unless the start panics.
  unfoldable pub rotated : Option ℕ → List A → Option (List A)
  rotated none nodes = none
  rotated (some start) nodes = some (drop start nodes ++ take start nodes)

  -- Order, with the swaps that the random one makes; the balancer afterwards beside the order.
  unfoldable pub order_nodes : Balancer → List (ℕ × ℕ) → List A → Option (List A) × Balancer
  unfolding round_robin_start shuffle rotated
  order_nodes (round_robin_from next) swaps [] = (some [], round_robin_from next)
  order_nodes (round_robin_from next) swaps (x ∷ []) = (some (x ∷ []), round_robin_from next)
  order_nodes (round_robin_from next) swaps (x ∷ y ∷ xs) =
      let nodes = x ∷ y ∷ xs in
      (
        rotated (round_robin_start next (length nodes)) nodes,
        round_robin_from ((next + 1) % uint64_mod),
      )
  order_nodes random_order swaps nodes = (some (shuffle swaps nodes), random_order)
