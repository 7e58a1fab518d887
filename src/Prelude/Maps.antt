-- ===== src/Prelude/Maps.antt =====
-- Go's maps with text keys as association lists, and the heap cells behind Go's pointers.
use Prim.Native.Nat.{ℕ}
use Prim.Native.String.{String}
use mathlib.Core.Path.{◌≡◌, refl}
use mathlib.Core.Option.{Option, none, some}
use mathlib.Core.List.{List, [], ◌∷◌}
use native.Mathlib.Omega.{arith}
use proxy_hub.Prelude.Lists.{All}
use proxy_hub.Prelude.Tests.{if◌then◌else◌, ◌==◌, Bool-cases}
use mathlib.Core.Logic.{inl, inr}
use proxy_hub.Prelude.Text.{str_eq, str_eq_iff, str_eq_refl}

abbrev pub Map {ℓ} : Type ℓ → Type ℓ
Map V = List (String × V)

module _ {ℓ} {V : Type ℓ} where
  unfoldable pub lookup : String → Map V → Option V
  lookup k [] = none
  lookup k ((j, v) ∷ m) = if str_eq j k then some v else lookup k m

  unfoldable pub insert : String → V → Map V → Map V
  insert k v [] = (k, v) ∷ []
  insert k v ((j, w) ∷ m) = if str_eq j k then (k, v) ∷ m else (j, w) ∷ insert k v m

  -- Every entry of the key goes.
  unfoldable pub delete : String → Map V → Map V
  delete k [] = []
  delete k ((j, w) ∷ m) = let rest = delete k m in if str_eq j k then rest else (j, w) ∷ rest

  pub lookup-insert :
      (k j : String) (v : V) (m : Map V)
      → lookup j (insert k v m) ≡ (if str_eq k j then some v else lookup j m)
  unfolding lookup insert
  lookup-insert k j v [] = refl
  lookup-insert k j v ((i, w) ∷ m) =
      ground (arith, str_eq_iff k j, str_eq_iff i k, str_eq_iff i j, lookup-insert k j v m)

  pub lookup-delete :
      (k j : String) (m : Map V) → lookup j (delete k m) ≡ (if str_eq k j then none else lookup j m)
  unfolding lookup delete
  lookup-delete k j [] = ground arith
  lookup-delete k j ((i, w) ∷ m) =
      ground (arith, str_eq_iff k j, str_eq_iff i k, str_eq_iff i j, lookup-delete k j m)

-- The memory behind pointers: a write changes one cell.
abbrev pub update {ℓ} : {A : Type ℓ} → (ℕ → A) → ℕ → A → ℕ → A
update h p a q = if q == p then a else h q

-- No key twice.
abbrev pub DistinctKeys {ℓ} : {V : Type ℓ} → Map V → Type ℓ
DistinctKeys [] = Unit
DistinctKeys ((k, v) ∷ m) = (lookup k m ≡ none) × DistinctKeys m

module _ {ℓ} {V : Type ℓ} where
  pub insert-DistinctKeys :
      (k : String) (v : V) (m : Map V) → DistinctKeys m → DistinctKeys (insert k v m)
  unfolding insert lookup
  insert-DistinctKeys k v [] d = (refl, tt)
  insert-DistinctKeys k v ((j, w) ∷ m) d = elim (Bool-cases (str_eq j k)) [
    | inl e ↦ let same : j ≡ k = (str_eq_iff j k).0 e in rw e (rw same at d.0, d.1)
    | inr e ↦ rw e (
      ground (arith, lookup-insert k j v m, str_eq_iff k j, str_eq_iff j k, d.0),
      insert-DistinctKeys k v m d.1,
    )
  ]

  pub delete-DistinctKeys : (k : String) (m : Map V) → DistinctKeys m → DistinctKeys (delete k m)
  unfolding delete
  delete-DistinctKeys k [] d = tt
  delete-DistinctKeys k ((j, w) ∷ m) d = elim (Bool-cases (str_eq j k)) [
    | inl e ↦ rw e (delete-DistinctKeys k m d.1)
    | inr e ↦ rw e (
      ground (arith, lookup-delete k j m, str_eq_iff k j, str_eq_iff j k, d.0),
      delete-DistinctKeys k m d.1,
    )
  ]

  -- What holds of every key's value holds of every entry.
  pub All-of_lookup {κ} :
      (P : String → V → Type κ) (m : Map V)
      → DistinctKeys m
      → ((k : String) (v : V) → lookup k m ≡ some v → P k v)
      → All (λ e. P e.0 e.1) m
  unfolding lookup
  All-of_lookup P [] d h = tt
  All-of_lookup P ((k, v) ∷ m) d h = (
    h k v (rw (str_eq_refl k)),
    All-of_lookup P m d.1 λ j w e. elim (Bool-cases (str_eq k j)) [
      | inl same ↦ let q : lookup j m ≡ none = rw (← (str_eq_iff k j).0 same) d.0 in absurd (cc)
      | inr apart ↦ h j w (rw apart e)
    ],
  )
