-- ===== src/Prelude/Sort.antt =====
-- sort.SliceStable of Go's standard library, by insertion: an element goes before the first one
-- that is not less than it, so equal elements keep their order.
use mathlib.Core.Bool.{Bool, true, false}
use mathlib.Core.List.{List, [], ◌∷◌, Perm}
use mathlib.Core.List.Perm
use mathlib.Core.Path.{◌≡◌}
use mathlib.Core.Logic.{inl, inr}
use proxy_hub.Prelude.Tests.{if◌then◌else◌, Bool-cases}
use proxy_hub.Prelude.Lists.{All}

module _ {ℓ} {A : Type ℓ} (less : A → A → Bool) where
  unfoldable pub insert_sorted : A → List A → List A
  insert_sorted x [] = x ∷ []
  insert_sorted x (y ∷ ys) =
      let rest = insert_sorted x ys in if less y x then y ∷ rest else x ∷ y ∷ ys

  unfoldable pub stable_sort : List A → List A
  stable_sort [] = []
  stable_sort (x ∷ xs) = insert_sorted x (stable_sort xs)

  -- No later element is less than an earlier one.
  abbrev pub IsSorted : List A → Type ℓ
  IsSorted [] = Unit
  IsSorted (x ∷ xs) = All (λ y. less y x ≡ false) xs × IsSorted xs

  pub insert_sorted-perm : (x : A) (xs : List A) → Perm (insert_sorted x xs) (x ∷ xs)
  unfolding insert_sorted
  insert_sorted-perm x [] = Perm.refl _
  insert_sorted-perm x (y ∷ ys) = elim (Bool-cases (less y x)) [
    | inl e ↦ rw e (Perm.trans (Perm.cons y (insert_sorted-perm x ys)) (Perm.swap x y ys))
    | inr e ↦ rw e (Perm.refl _)
  ]

  pub stable_sort-perm : (xs : List A) → Perm (stable_sort xs) xs
  unfolding stable_sort
  stable_sort-perm [] = Perm.refl _
  stable_sort-perm (x ∷ xs) =
      Perm.trans (insert_sorted-perm x (stable_sort xs)) (Perm.cons x (stable_sort-perm xs))

  -- What a strict weak order satisfies.
  pub record IsWeakOrder : Type ℓ where
    pub asym : (a b : A) → less a b ≡ true → less b a ≡ false
    pub not_less_trans : (a b c : A) → less a b ≡ false → less b c ≡ false → less a c ≡ false

  module _ (w : IsWeakOrder) where
    All-trans :
        (x y : A) (ys : List A)
        → less y x ≡ false
        → All (λ z. less z y ≡ false) ys
        → All (λ z. less z x ≡ false) ys
    All-trans x y [] h a = tt
    All-trans x y (z ∷ zs) h a = (w.not_less_trans z y x a.0 h, All-trans x y zs h a.1)

    All-insert_sorted :
        (y x : A) (ys : List A)
        → less x y ≡ false
        → All (λ z. less z y ≡ false) ys
        → All (λ z. less z y ≡ false) (insert_sorted x ys)
    unfolding insert_sorted
    All-insert_sorted y x [] h a = (h, tt)
    All-insert_sorted y x (z ∷ zs) h a = elim (Bool-cases (less z x)) [
      | inl e ↦ rw e (a.0, All-insert_sorted y x zs h a.1)
      | inr e ↦ rw e (h, a)
    ]

    insert_sorted-IsSorted : (x : A) (xs : List A) → IsSorted xs → IsSorted (insert_sorted x xs)
    unfolding insert_sorted
    insert_sorted-IsSorted x [] s = (tt, tt)
    insert_sorted-IsSorted x (y ∷ ys) s = elim (Bool-cases (less y x)) [
      | inl e ↦ rw e (All-insert_sorted y x ys (w.asym y x e) s.0, insert_sorted-IsSorted x ys s.1)
      | inr e ↦ rw e ((e, All-trans x y ys e s.0), s)
    ]

    pub stable_sort-IsSorted : (xs : List A) → IsSorted (stable_sort xs)
    unfolding stable_sort
    stable_sort-IsSorted [] = tt
    stable_sort-IsSorted (x ∷ xs) =
        insert_sorted-IsSorted x (stable_sort xs) (stable_sort-IsSorted xs)

module _ {ℓ κ} {A : Type ℓ} (P : A → Type κ) (less : A → A → Bool) where
  All-insert : (x : A) (xs : List A) → P x → All P xs → All P (insert_sorted less x xs)
  unfolding insert_sorted
  All-insert x [] p h = (p, tt)
  All-insert x (y ∷ ys) p h = elim (Bool-cases (less y x)) [
    | inl e ↦ rw e (h.0, All-insert x ys p h.1)
    | inr e ↦ rw e (p, h)
  ]

  pub All-stable_sort : (xs : List A) → All P xs → All P (stable_sort less xs)
  unfolding stable_sort
  All-stable_sort [] h = tt
  All-stable_sort (x ∷ xs) h = All-insert x (stable_sort less xs) h.0 (All-stable_sort xs h.1)
