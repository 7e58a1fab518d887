-- ===== src/Service/Reconcile/Closure.antt =====
-- The loops of runtime_reconcile.go that add to a set of identities until nothing changes. A set, a
-- map with empty values in the code, is the list of its keys.
use proxy_hub.Prelude.{
  ℕ, zero, suc, ◌+◌, ◌<◌, ◌≤◌, ◌≡◌, inl, inr, Bool, true, false, not, ◌&&◌, ◌||◌, String, List, [],
  ◌∷◌, Option, none, some, if◌then◌else◌, Bool-cases, arith, length,
}
use proxy_hub.Prelude.Text.{str_eq, str_eq_iff, str_eq_refl}
use proxy_hub.ProxyUri.Unique.{has_text}

-- One pass over the rows: a row that is not in the set and passes the test on the set joins it. The
-- flag says whether one did.
module _ {ℓ} {A : Type ℓ} (id_of : A → String) (test : A → List String → Bool) where
  unfoldable pub sweep : List A → List String → List String × Bool
  sweep [] set = (set, false)
  sweep (a ∷ rows) set =
      let adds = not (has_text (id_of a) set) && test a set in
      let rest = sweep rows (if adds then id_of a ∷ set else set) in (rest.0, adds || rest.1)

-- `for changed { changed = false; ... }` on fuel; `none` means that the fuel ran out, here or in a
-- loop inside the round.
abbrev pub go_on {ℓ} : {S : Type ℓ} → (S → Option S) → Option (S × Bool) → Option S
go_on again none = none
go_on again (some (s, true)) = again s
go_on again (some (s, false)) = some s

unfoldable pub saturate {ℓ} : {S : Type ℓ} → (S → Option (S × Bool)) → ℕ → S → Option S
saturate step zero s = none
saturate step (suc fuel) s = go_on (saturate step fuel) (step s)

-- How many of the identities are not in the set.
unfoldable pub missing : List String → List String → ℕ
missing [] set = 0
missing (i ∷ ids) set = (if has_text i set then 0 else 1) + missing ids set

-- The set has grown, by identities of the list.
abbrev pub Grows : List String → List String → List String → Type 0
Grows ids s t = (length s < length t) × (missing ids t < missing ids s)

pub has_text-cons :
    (x i : String) (set : List String) → has_text x set ≡ true → has_text x (i ∷ set) ≡ true
unfolding has_text
has_text-cons x i set h = ground arith

pub missing-cons-le : (ids set : List String) (i : String) → missing ids (i ∷ set) ≤ missing ids set
unfolding missing has_text
missing-cons-le [] set i = omega arith
missing-cons-le (j ∷ ids) set i = ground (arith, missing-cons-le ids set i)

-- An identity of the list that joins the set is missing no more.
pub missing-cons-lt :
    (ids set : List String) (i : String)
    → has_text i ids ≡ true
    → has_text i set ≡ false
    → missing ids (i ∷ set) < missing ids set
unfolding missing has_text
missing-cons-lt [] set i h n = cc
missing-cons-lt (j ∷ ids) set i h n = elim (Bool-cases (str_eq j i)) [
  | inl e ↦
      let same : j ≡ i = (str_eq_iff j i).0 e in
      rw (same) (ground (arith, missing-cons-le ids set i, str_eq_refl i))
  | inr e ↦ ground (arith, missing-cons-lt ids set i, missing-cons-le ids set i)
]
