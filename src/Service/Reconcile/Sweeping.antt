-- ===== src/Service/Reconcile/Sweeping.antt =====
-- What one pass and a saturated loop of runtime_reconcile.go do to a set.
use proxy_hub.Prelude.{
  ℕ, zero, suc, ◌<◌, ◌≤◌, ◌≡◌, inl, inr, refl, Bool, true, false, not, ◌&&◌, String, List, [], ◌∷◌,
  Option, some, Bool-cases, arith, length, In, All,
}
use proxy_hub.ProxyUri.Unique.{has_text}
use proxy_hub.Service.Reconcile.Closure.{
  sweep, saturate, go_on, missing, Grows, missing-cons-le, missing-cons-lt, has_text-cons,
}

-- What a property of identities needs to hold of all that a pass adds.
module _ {ℓ κ} {A : Type ℓ} (id_of : A → String) (test : A → List String → Bool)
    (P : String → Type κ) where
  pub sweep-All :
      (rows : List A) (set : List String)
      → ((a : A) (t : List String) → In a rows → All P t → test a t ≡ true → P (id_of a))
      → All P set
      → All P (sweep id_of test rows set).0
  unfolding sweep
  sweep-All [] set h p = p
  sweep-All (a ∷ rows) set h p = elim (Bool-cases (not (has_text (id_of a) set) && test a set)) [
    | inl e ↦
        let t : test a set ≡ true = ground arith in
        simp e (
          sweep-All rows (id_of a ∷ set) (λ b t i q u. h b t (inr i) q u)
            (h a set (inl refl) p t, p))
    | inr e ↦ simp e (sweep-All rows set (λ b t i q u. h b t (inr i) q u) p)
  ]

module _ {ℓ} {A : Type ℓ} (id_of : A → String) (test : A → List String → Bool) where
  pub sweep-has_text :
      (rows : List A) (set : List String) (x : String)
      → has_text x set ≡ true
      → has_text x (sweep id_of test rows set).0 ≡ true
  unfolding sweep
  sweep-has_text [] set x h = h
  sweep-has_text (a ∷ rows) set x h =
      elim (Bool-cases (not (has_text (id_of a) set) && test a set)) [
        | inl e ↦ simp e (sweep-has_text rows (id_of a ∷ set) x (has_text-cons x (id_of a) set h))
        | inr e ↦ simp e (sweep-has_text rows set x h)
      ]

  -- A pass that changes nothing leaves the set, which has all that passes the test.
  pub sweep-unchanged :
      (rows : List A) (set : List String)
      → (sweep id_of test rows set).1 ≡ false
      → ((sweep id_of test rows set).0 ≡ set)
        × All (λ a. test a set ≡ true → has_text (id_of a) set ≡ true) rows
  unfolding sweep
  sweep-unchanged [] set h = (refl, tt)
  sweep-unchanged (a ∷ rows) set h =
      elim (Bool-cases (not (has_text (id_of a) set) && test a set)) [
        | inl e ↦ let t : true ≡ false = simp e at h in absurd (cc)
        | inr e ↦
            let r : (sweep id_of test rows set).1 ≡ false = simp e at h in
            let (same, all) = sweep-unchanged rows set r in
            (simp e same, ((λ t. ground arith), all))
      ]

  -- The length of a set never falls and what is missing never rises.
  pub sweep-le :
      (ids : List String) (rows : List A) (set : List String)
      → (length set ≤ length (sweep id_of test rows set).0)
        × (missing ids (sweep id_of test rows set).0 ≤ missing ids set)
  unfolding sweep
  sweep-le ids [] set = (omega arith, omega arith)
  sweep-le ids (a ∷ rows) set = elim (Bool-cases (not (has_text (id_of a) set) && test a set)) [
    | inl e ↦
        let (l, m) = sweep-le ids rows (id_of a ∷ set) in
        let less = missing-cons-le ids set (id_of a) in simp e (omega arith, omega arith)
    | inr e ↦ simp e (sweep-le ids rows set)
  ]

  pub sweep-Grows :
      (ids : List String) (rows : List A) (set : List String)
      → All (λ a. has_text (id_of a) ids ≡ true) rows
      → (sweep id_of test rows set).1 ≡ true
      → Grows ids set (sweep id_of test rows set).0
  unfolding sweep
  sweep-Grows ids [] set all h = cc
  sweep-Grows ids (a ∷ rows) set all h =
      elim (Bool-cases (not (has_text (id_of a) set) && test a set)) [
        | inl e ↦
            let new : has_text (id_of a) set ≡ false = ground arith in
            let (l, m) = sweep-le ids rows (id_of a ∷ set) in
            let less = missing-cons-lt ids set (id_of a) all.0 new in
            simp e (omega arith, omega arith)
        | inr e ↦
            let r : (sweep id_of test rows set).1 ≡ true = simp e at h in
            simp e (sweep-Grows ids rows set all.1 r)
      ]

-- A loop whose rounds end, keep an invariant, and lower a measure if they change something, ends:
-- some round is the last, and changes nothing.
module _ {ℓ κ} {S : Type ℓ} (step : S → Option (S × Bool)) (P : S → Type κ) (measure : S → ℕ)
    (round : (s : S)
      → P s
      → (t : S) × (changed : Bool) × (step s ≡ some (t, changed))
        × P t
        × (changed ≡ true → measure t < measure s)) where
  pub saturate_total :
      (fuel : ℕ) (s : S)
      → P s
      → measure s < fuel
      → (last : S) × (t : S) × (saturate step fuel s ≡ some t)
        × P last
        × P t
        × (step last ≡ some (t, false))
  unfolding saturate
  saturate_total zero s p m = absurd (omega arith)
  saturate_total (suc fuel) s p m =
      let (t, changed, e, q, lower) = round s p in
      at t changed e q lower (λ u p m. saturate_total fuel u p m)
    where
      at :
          (t : S) (changed : Bool)
          → step s ≡ some (t, changed)
          → P t
          → (changed ≡ true → measure t < measure s)
          → ((u : S)
              → P u
              → measure u < fuel
              → (last : S) × (t : S) × (saturate step fuel u ≡ some t)
                × P last
                × P t
                × (step last ≡ some (t, false)))
          → (last : S) × (t : S) × (go_on (saturate step fuel) (step s) ≡ some t)
            × P last
            × P t
            × (step last ≡ some (t, false))
      at t true e q lower again =
          let l = lower refl in
          let (last, u, f, pl, pu, g) = again t q (omega arith) in (last, u, simp e f, pl, pu, g)
      at t false e q lower again = (s, t, simp e, p, q, e)
