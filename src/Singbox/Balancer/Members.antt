-- ===== src/Singbox/Balancer/Members.antt =====
-- core/singboxcore/balancer.go: which nodes an order is made of.
use proxy_hub.Prelude.{
  ℕ, ◌≡◌, Option, none, some, List, [], ◌∷◌, ◌++◌, inl, inr, Option-cases, get_elem?, set, take,
  drop, length, All, All-append, All-take, All-drop, All-set, All-get_elem?,
}
use proxy_hub.Singbox.Balancer.{
  Balancer, round_robin_from, random_order, round_robin_start, swap_at, shuffle, rotated,
  order_nodes,
}

module _ {ℓ κ} {A : Type ℓ} (P : A → Type κ) where
  swap_at-All : (i j : ℕ) (xs : List A) → All P xs → All P (swap_at i j xs)
  unfolding swap_at
  swap_at-All i j xs h = elim (Option-cases (get_elem? xs i)) [
    | inl e ↦ rw (e, swap_at) h
    | inr (a, e) ↦ elim (Option-cases (get_elem? xs j)) [
      | inl f ↦ rw (e, f, swap_at) h
      | inr (b, f) ↦
          rw (e, f, swap_at)
            (All-set P (set xs i b) j a (All-set P xs i b h (All-get_elem? P xs j b h f))
              (All-get_elem? P xs i a h e))
    ]
  ]

  shuffle-All : (swaps : List (ℕ × ℕ)) (xs : List A) → All P xs → All P (shuffle swaps xs)
  unfolding shuffle
  shuffle-All [] xs h = h
  shuffle-All ((i, j) ∷ swaps) xs h = shuffle-All swaps (swap_at i j xs) (swap_at-All i j xs h)

  rotated-All :
      (start : Option ℕ) (xs ys : List A) → All P xs → rotated start xs ≡ some ys → All P ys
  unfolding rotated
  rotated-All none xs ys h e = cc
  rotated-All (some start) xs ys h e =
      let q : drop start xs ++ take start xs ≡ ys = cc in
      rw (← q) (
        All-append P (drop start xs) (take start xs) (All-drop P start xs h)
          (All-take P start xs h))

  pub order_nodes-All :
      (b : Balancer) (swaps : List (ℕ × ℕ)) (xs ys : List A)
      → All P xs
      → (order_nodes b swaps xs).0 ≡ some ys
      → All P ys
  unfolding order_nodes
  order_nodes-All (round_robin_from next) swaps [] ys h e = let q : [] ≡ ys = cc in rw (← q) tt
  order_nodes-All (round_robin_from next) swaps (x ∷ []) ys h e =
      let q : x ∷ [] ≡ ys = cc in rw (← q) h
  order_nodes-All (round_robin_from next) swaps (x ∷ y ∷ xs) ys h e =
      rotated-All (round_robin_start next (length (x ∷ y ∷ xs))) (x ∷ y ∷ xs) ys h e
  order_nodes-All random_order swaps xs ys h e =
      let q : shuffle swaps xs ≡ ys = cc in rw (← q) (shuffle-All swaps xs h)
