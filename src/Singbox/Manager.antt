-- ===== src/Singbox/Manager.antt =====
-- The outbound manager of sing-box, which core/singboxcore calls and which is not part of this
-- repository: what the core relies on.
use proxy_hub.Prelude.{◌≡◌, Bool, true, false, String, Option, if◌then◌else◌}
use proxy_hub.Prelude.Text.{str_eq}

-- Create ends with the outbound in place, with an error, or by a panic.
pub data Creation (S : Type 0) : Type 0 where
  created : S → Creation S
  refused : String → Creation S
  panicked : Creation S

-- `has` is the second result of Outbound(tag). Creating makes the tag known and changes no other;
-- removing a known tag makes it unknown and changes no other, whether or not it reports an error.
pub record Manager : Type 1 where
  pub Store : Type 0
  pub has : Store → String → Bool
  pub create : Store → String → String → Creation Store
  pub remove : Store → String → Store × Option String
  pub has-create :
      (s s' : Store) (tag kind other : String)
      → create s tag kind ≡ created s'
      → has s' other ≡ (if str_eq tag other then true else has s other)
  pub has-remove :
      (s : Store) (tag other : String)
      → has s tag ≡ true
      → has (remove s tag).0 other ≡ (if str_eq tag other then false else has s other)
