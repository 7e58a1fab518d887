-- ===== src/Service/Errors.antt =====
-- The errors of service/proxy (errors.go) and of the database (model/db_init.go).
use proxy_hub.Prelude.{String, ◌≡◌, refl}

-- `external` is an error of the database or of a library, by its message.
pub data Error : Type 0 where
  db_not_ready unsupported_uri unsupported_protocol invalid_port utls_required : Error
  node_not_found mapping_not_found invalid_address no_available_node invalid_mapping : Error
  listen_port_taken subscription_not_found group_not_found invalid_subscription : Error
  invalid_group invalid_health_duration invalid_chain invalid_settings_backup : Error
  invalid_probe_url invalid_mapping_switch : Error
  external : String → Error

pub data Result {ℓ} (A : Type ℓ) : Type ℓ where
  ok : A → Result A
  err : Error → Result A

-- `if err != nil { return err }`.
infixl 5 ◌>>=◌
abbrev pub ◌>>=◌ {ℓ κ} : {A : Type ℓ} {B : Type κ} → Result A → (A → Result B) → Result B
ok a >>= f = f a
err e >>= f = err e

-- A chain of calls that succeeded: what the first one returned, and how the rest went on.
pub record Chained {A B : Type 0} (first : Result A) (rest : A → Result B) (b : B) : Type 0 where
  pub value : A
  pub returned : first ≡ ok value
  pub went_on : rest value ≡ ok b

pub chained :
    {A B : Type 0} (rest : A → Result B) (first : Result A) (b : B)
    → (first >>= rest) ≡ ok b
    → Chained first rest b
chained rest (err e) b h = cc
chained rest (ok value) b h = record { value = value; returned = refl; went_on = h }
