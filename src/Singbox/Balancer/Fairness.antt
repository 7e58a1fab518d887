-- ===== src/Singbox/Balancer/Fairness.antt =====
-- core/singboxcore/balancer.go: the orders of both balancers, and when the round robin panics.
use mathlib.Core.List.{Perm, perm_append_comm}
use mathlib.Core.List.Perm
use native.Mathlib.Nat.{add-zero, mod-eq_of_lt, mod-add-mod, add-mod_right, mod-lt}
use proxy_hub.Prelude.{
  ℕ, zero, suc, ◌+◌, ◌-◌, ◌%◌, ◌≤◌, ◌<◌, ◌≡◌, ◌≢◌, ◌⊎◌, ◌==◌, refl, ap, sym, ◌∙◌, inl, inr,
  Option-cases, Bool-cases, lt→ltb, leb→le, Option, none, some, List, [], ◌∷◌, ◌++◌, arith, leb,
  length, get_elem?, set, take, drop, take-append-drop,
}
use proxy_hub.Singbox.Balancer.{
  uint64_mod, int64_max, Balancer, round_robin_from, random_order, round_robin_start, swap_at,
  shuffle, order_nodes, rotated,
}

module _ {ℓ} {A : Type ℓ} where
  set-perm :
      (xs : List A) (i : ℕ) (a v : A) → get_elem? xs i ≡ some a → Perm (v ∷ xs) (a ∷ set xs i v)
  set-perm [] i a v h = cc
  set-perm (x ∷ xs) zero a v h = let e : x ≡ a = cc in rw e (Perm.swap a v xs)
  set-perm (x ∷ xs) (suc i) a v h =
      Perm.trans (Perm.swap x v xs)
        (Perm.trans (Perm.cons x (set-perm xs i a v h)) (Perm.swap a x (set xs i v)))

  -- The value at `j` once `i` holds it.
  get_elem?-set :
      (xs : List A) (i j : ℕ) (a b : A)
      → get_elem? xs i ≡ some a
      → get_elem? xs j ≡ some b
      → get_elem? (set xs i b) j ≡ some b
  get_elem?-set [] i j a b h k = cc
  get_elem?-set (x ∷ xs) zero zero a b h k = refl
  get_elem?-set (x ∷ xs) zero (suc j) a b h k = k
  get_elem?-set (x ∷ xs) (suc i) zero a b h k = k
  get_elem?-set (x ∷ xs) (suc i) (suc j) a b h k = get_elem?-set xs i j a b h k

  swapped :
      (i j : ℕ) (xs : List A) (a b : A)
      → get_elem? xs i ≡ some a
      → get_elem? xs j ≡ some b
      → Perm (set (set xs i b) j a) xs
  swapped i j xs a b h k = Perm.symm (
      Perm.cons_inv (
        Perm.trans (set-perm xs i a b h)
          (set-perm (set xs i b) j b a (get_elem?-set xs i j a b h k))))

  swap_at-perm : (i j : ℕ) (xs : List A) → Perm (swap_at i j xs) xs
  unfolding swap_at
  swap_at-perm i j xs = elim (Option-cases (get_elem? xs i)) [
    | inl e ↦ rw (e, swap_at) (Perm.refl xs)
    | inr (a, e) ↦ elim (Option-cases (get_elem? xs j)) [
      | inl f ↦ rw (e, f, swap_at) (Perm.refl xs)
      | inr (b, f) ↦ rw (e, f, swap_at) (swapped i j xs a b e f)
    ]
  ]

  pub shuffle-perm : (swaps : List (ℕ × ℕ)) (xs : List A) → Perm (shuffle swaps xs) xs
  unfolding shuffle
  shuffle-perm [] xs = Perm.refl xs
  shuffle-perm ((i, j) ∷ swaps) xs =
      Perm.trans (shuffle-perm swaps (swap_at i j xs)) (swap_at-perm i j xs)

-- Below 2^64 the counter's value before the call is what the start is taken from.
taken_lem :
    (next : ℕ)
    → next < uint64_mod
    → ((next + 1) % uint64_mod + (uint64_mod - 1)) % uint64_mod ≡ next
taken_lem next h = omega arith

-- Up to 2^63 orders a round robin never panics, and starts at the count modulo the nodes.
pub round_robin_start_lem :
    (next n : ℕ) → next < int64_max → round_robin_start next n ≡ some (next % n)
unfolding round_robin_start
round_robin_start_lem next n h = rw (taken_lem next (omega arith), lt→ltb next int64_max h)

-- From 2^63 orders on, as long as they are fewer than 2^64, a round robin panics unless the number of
-- nodes divides what is left to 2^64.
round_robin_start_panics :
    (next n : ℕ)
    → int64_max ≤ next
    → next < uint64_mod
    → (uint64_mod - next) % n ≢ 0
    → round_robin_start next n ≡ none
unfolding round_robin_start
round_robin_start_panics next n l u h = rw (taken_lem next u) (ground arith)

-- Two numbers in a row are not both divisible by a number from 2 on.
not_both_divisible : (a n : ℕ) → 2 ≤ n → a % n ≡ 0 → (a + 1) % n ≡ 0 → ⊥
not_both_divisible a n h d e =
    let one : (a % n + 1) % n ≡ 1 = rw d (mod-eq_of_lt (omega arith)) in
    let q : (a + 1) % n ≡ 1 = sym (mod-add-mod a n 1) ∙ one in absurd (omega arith)

round_robin_start-panics :
    (next n : ℕ)
    → 2 ≤ n
    → int64_max ≤ next
    → next + 1 < uint64_mod
    → (round_robin_start next n ≡ none) ⊎ (round_robin_start (next + 1) n ≡ none)
round_robin_start-panics next n two l u = elim (Bool-cases ((uint64_mod - next) % n == 0)) [
  | inr e ↦ inl (round_robin_start_panics next n l (omega arith) (λ z. absurd (ground (arith, z))))
  | inl e ↦
      let whole : (uint64_mod - (next + 1) + 1) % n ≡ 0 = rw (one_less u) (ground arith) in
      inr (
        round_robin_start_panics (next + 1) n (omega arith) u
          (λ z. not_both_divisible (uint64_mod - (next + 1)) n two z whole))
]
  where
    one_less : next + 1 < uint64_mod → uint64_mod - (next + 1) + 1 ≡ uint64_mod - next
    one_less h = omega arith

module _ {ℓ} {A : Type ℓ} where
  rotation-perm : (n : ℕ) (xs : List A) → Perm (drop n xs ++ take n xs) xs
  rotation-perm n xs =
      Perm.trans (perm_append_comm (drop n xs) (take n xs))
        (rw (take-append-drop n xs) (Perm.refl xs))

  -- While fewer than 2^63 orders were given, the order of two nodes or more is their rotation by the
  -- count modulo their number, and the count goes up by one.
  pub order_nodes-rotates :
      (next : ℕ) (swaps : List (ℕ × ℕ)) (x y : A) (xs : List A)
      → next < int64_max
      → let start = next % length (x ∷ y ∷ xs) in
        order_nodes (round_robin_from next) swaps (x ∷ y ∷ xs)
        ≡ (some (drop start (x ∷ y ∷ xs) ++ take start (x ∷ y ∷ xs)), round_robin_from (next + 1))
  unfolding order_nodes
  order_nodes-rotates next swaps x y xs h =
      rw (round_robin_start_lem next (length (x ∷ y ∷ xs)) h, order_nodes)
        (rw (mod-eq_of_lt {n = next + 1} {m = uint64_mod} (omega arith)))

  -- Of any two orders in a row of the same two nodes or more that a round robin is asked for after
  -- 2^63 orders, and while they are fewer than 2^64, one panics.
  pub order_nodes-panics :
      (next : ℕ) (swaps more : List (ℕ × ℕ)) (x y : A) (xs : List A)
      → int64_max ≤ next
      → next + 1 < uint64_mod
      → let (first, b) = order_nodes (round_robin_from next) swaps (x ∷ y ∷ xs) in
        (first ≡ none) ⊎ ((order_nodes b more (x ∷ y ∷ xs)).0 ≡ none)
  unfolding order_nodes rotated
  order_nodes-panics next swaps more x y xs l u =
      elim (round_robin_start-panics next (length (x ∷ y ∷ xs)) (omega arith) l u) [
        | inl e ↦ inl (ap (λ s. rotated s (x ∷ y ∷ xs)) e)
        | inr e ↦ inr (
            rw (mod-eq_of_lt {n = next + 1} {m = uint64_mod} u)
              (ap (λ s. rotated s (x ∷ y ∷ xs)) e))
      ]

  -- Whatever the balancer and its random swaps, as long as a round robin has given fewer than 2^63
  -- orders, the order holds each of the nodes exactly as often as they were given.
  pub order_nodes-perm :
      (b : Balancer) (swaps : List (ℕ × ℕ)) (nodes : List A)
      → ((next : ℕ) → b ≡ round_robin_from next → next < int64_max)
      → (ordered : List A) × ((order_nodes b swaps nodes).0 ≡ some ordered) × Perm ordered nodes
  unfolding order_nodes
  order_nodes-perm (round_robin_from next) swaps [] h = ([], refl, Perm.refl [])
  order_nodes-perm (round_robin_from next) swaps (x ∷ []) h = (x ∷ [], refl, Perm.refl _)
  order_nodes-perm (round_robin_from next) swaps (x ∷ y ∷ xs) h =
      let start = next % length (x ∷ y ∷ xs) in
      (
        drop start (x ∷ y ∷ xs) ++ take start (x ∷ y ∷ xs),
        ap (λ (r : Option (List A) × Balancer). r.0)
            (order_nodes-rotates next swaps x y xs (h next refl)),
        rotation-perm start (x ∷ y ∷ xs),
      )
  order_nodes-perm random_order swaps nodes h =
      (shuffle swaps nodes, refl, shuffle-perm swaps nodes)

cycle : (next n i : ℕ) → i < n → (k : ℕ) × (k < n) × ((next + k) % n ≡ i)
cycle next n i h = elim (Bool-cases (leb (next % n) i)) [
  | inl e ↦
      let le = leb→le (next % n) i e in
      (i - next % n, omega arith, sym (mod-add-mod next n (i - next % n)) ∙ reach (omega arith))
  | inr e ↦
      let lt : i < next % n = ground arith in
      let r = mod-lt next {m = n} (omega arith) in
      (
        i + n - next % n,
        omega arith,
        sym (mod-add-mod next n (i + n - next % n))
            ∙ rw (past lt r) (add-mod_right i n ∙ mod-eq_of_lt h),
      )
]
  where
    reach : next % n + (i - next % n) ≡ i → (next % n + (i - next % n)) % n ≡ i
    reach e = rw e (mod-eq_of_lt h)

    past : i < next % n → next % n < n → next % n + (i + n - next % n) ≡ i + n
    past l r = omega arith

module _ {ℓ} {A : Type ℓ} where
  -- The balancer after k orders of the same nodes.
  pub after_orders : ℕ → Balancer → List A → Balancer
  after_orders zero b nodes = b
  after_orders (suc k) b nodes = after_orders k (order_nodes b [] nodes).1 nodes

  after_orders_lem :
      (k next : ℕ) (x y : A) (xs : List A)
      → next + k < int64_max
      → after_orders k (round_robin_from next) (x ∷ y ∷ xs) ≡ round_robin_from (next + k)
  unfolding after_orders
  after_orders_lem zero next x y xs h = rw add-zero
  after_orders_lem (suc k) next x y xs h =
      rw (order_nodes-rotates next [] x y xs (omega arith))
        (after_orders_lem k (next + 1) x y xs (omega arith) ∙ ap round_robin_from (omega arith))

  drop-head :
      (n : ℕ) (xs ys : List A) → n < length xs → get_elem? (drop n xs ++ ys) 0 ≡ get_elem? xs n
  drop-head zero [] ys h = elim h [ ]
  drop-head zero (x ∷ xs) ys h = refl
  drop-head (suc n) [] ys h = elim h [ ]
  drop-head (suc n) (x ∷ xs) ys h = drop-head n xs ys (omega arith)

  -- A round robin is fair: among any n orders in a row of the same n nodes, n at least 2, each of
  -- the nodes comes first in one, as long as fewer than 2^63 orders are given.
  pub order_nodes-fair :
      (next : ℕ) (x y : A) (xs : List A) (i : ℕ)
      → next + length (x ∷ y ∷ xs) < int64_max
      → i < length (x ∷ y ∷ xs)
      → (k : ℕ) × (k < length (x ∷ y ∷ xs))
        × (ordered : List A) × ((order_nodes
              (after_orders k (round_robin_from next) (x ∷ y ∷ xs))
              []
              (x ∷ y ∷ xs)).0
            ≡ some ordered)
        × (get_elem? ordered 0 ≡ get_elem? (x ∷ y ∷ xs) i)
  order_nodes-fair next x y xs i h l =
      let n = length (x ∷ y ∷ xs) in
      let (k, below, hit) = cycle next n i l in
      let start = (next + k) % n in
      (
        k,
        below,
        drop start (x ∷ y ∷ xs) ++ take start (x ∷ y ∷ xs),
        rw (after_orders_lem k next x y xs (omega arith)) (
            ap (λ (r : Option (List A) × Balancer). r.0)
              (order_nodes-rotates (next + k) [] x y xs (omega arith))),
        drop-head start (x ∷ y ∷ xs) (take start (x ∷ y ∷ xs)) (mod-lt (next + k) (omega arith))
            ∙ ap (get_elem? (x ∷ y ∷ xs)) hit,
      )
