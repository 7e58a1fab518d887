-- ===== src/Singbox/Errors.antt =====
-- core/singboxcore/errors.go: the errors of the core.
use proxy_hub.Prelude.{ℕ, String}

-- A wrapped error carries what it adds to its text; `external` is an error of a library or of the
-- network, by its message.
pub data Error : Type 0 where
  core_not_started group_not_found group_exists node_not_found no_available_node : Error
  no_available_node_at : String → Error
  outbound_not_found : String → Error
  outbound_panic : Error
  port_in_use : ℕ → Error
  external : String → Error

-- A call that returns `error`, or a value and an `error`.
pub data Result {ℓ} (A : Type ℓ) : Type ℓ where
  ok : A → Result A
  err : Error → Result A

-- `if err != nil { return err }`.
infixl 5 ◌>>=◌
abbrev pub ◌>>=◌ {ℓ κ} : {A : Type ℓ} {B : Type κ} → Result A → (A → Result B) → Result B
ok a >>= f = f a
err e >>= f = err e
