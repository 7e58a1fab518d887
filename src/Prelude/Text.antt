-- ===== src/Prelude/Text.antt =====
-- Go's strings package on the native String: TrimSpace, ToLower on ASCII, Contains.
use Prim.Native.Char.{Char, code}
use Prim.Native.Nat.{ℕ, ◌+◌}
use Prim.Native.String.{String}
use mathlib.Core.List.{List, [], ◌∷◌}
use mathlib.Core.Bool.{Bool, true, false, ◌&&◌, ◌||◌}
use mathlib.Core.Path.{◌≡◌, refl}
use mathlib.Core.Logic.{◌↔◌}
use native.Mathlib.Omega.{arith}
use text.Mathlib.Text.{◌==◌}
use text.Mathlib.TextEquality.{eq_iff}
use text.Mathlib.TextPositions.{eq_refl}
use proxy_hub.Prelude.Tests.{ltb, leb, if◌then◌else◌, ◌==◌ as nat_eq}

-- Equality of texts, apart from the `==` on numbers.
abbrev pub str_eq : String → String → Bool
str_eq s t = s == t

pub str_eq_iff : (s t : String) → (str_eq s t ≡ true) ↔ (s ≡ t)
str_eq_iff = eq_iff

pub str_eq_refl : (s : String) → str_eq s s ≡ true
str_eq_refl = eq_refl

abbrev pub is_empty : String → Bool
is_empty String.[] = true
is_empty (String.◌∷◌ c s) = false

-- unicode.IsSpace.
pub is_space : Char → Bool
is_space c =
    let n = code c in
    (leb 9 n && leb n 13)
    || nat_eq n 0x20
    || nat_eq n 0x85
    || nat_eq n 0xa0
    || nat_eq n 0x1680
    || (leb 0x2000 n && leb n 0x200a)
    || nat_eq n 0x2028
    || nat_eq n 0x2029
    || nat_eq n 0x202f
    || nat_eq n 0x205f
    || nat_eq n 0x3000

pub trim_left : String → String
trim_left String.[] = String.[]
trim_left (String.◌∷◌ c s) = let rest = trim_left s in if is_space c then rest else String.◌∷◌ c s

pub trim_right : String → String
trim_right String.[] = String.[]
trim_right (String.◌∷◌ c s) =
    let rest = trim_right s in if is_space c && is_empty rest then String.[] else String.◌∷◌ c rest

-- strings.TrimSpace.
unfoldable pub trim_space : String → String
unfolding is_space trim_left trim_right
trim_space s = trim_right (trim_left s)

-- strings.ToLower, as far as a search for ASCII text can see it: the Kelvin sign and the dotted
-- capital I are the only other characters that become ASCII letters.
abbrev pub lower_code : ℕ → ℕ
lower_code n =
    if leb b'A' n && leb n b'Z'
    then n + 32
    else if nat_eq n 0x212a
    then b'k'
    else if nat_eq n 0x130
    then b'i'
    else n

unfoldable pub codes : String → List ℕ
codes String.[] = []
codes (String.◌∷◌ c s) = code c ∷ codes s

unfoldable pub lower_codes : String → List ℕ
lower_codes String.[] = []
lower_codes (String.◌∷◌ c s) = lower_code (code c) ∷ lower_codes s

unfoldable pub starts_with_codes : List ℕ → List ℕ → Bool
starts_with_codes text [] = true
starts_with_codes [] (p ∷ ps) = false
starts_with_codes (t ∷ ts) (p ∷ ps) = nat_eq t p && starts_with_codes ts ps

-- strings.HasPrefix.
unfoldable pub has_prefix : String → String → Bool
unfolding codes starts_with_codes
has_prefix s p = starts_with_codes (codes s) (codes p)

-- strings.Contains on code points.
unfoldable pub contains_codes : List ℕ → List ℕ → Bool
unfolding starts_with_codes
contains_codes [] ps = starts_with_codes [] ps
contains_codes (t ∷ ts) ps = starts_with_codes (t ∷ ts) ps || contains_codes ts ps

-- Contains(ToLower(s), fragment), for a fragment in lower case.
unfoldable pub contains_lower : String → String → Bool
unfolding codes lower_codes contains_codes
contains_lower s fragment = contains_codes (lower_codes s) (codes fragment)

-- `<` on texts: their bytes in UTF-8 are ordered as their code points are.
unfoldable pub codes_less : List ℕ → List ℕ → Bool
codes_less xs [] = false
codes_less [] (y ∷ ys) = true
codes_less (x ∷ xs) (y ∷ ys) =
    let rest = codes_less xs ys in if ltb x y then true else if ltb y x then false else rest

unfoldable pub text_less : String → String → Bool
unfolding codes codes_less
text_less s t = codes_less (codes s) (codes t)

trim_left_idem : (s : String) → trim_left (trim_left s) ≡ trim_left s
unfolding trim_left
trim_left_idem String.[] = refl
trim_left_idem (String.◌∷◌ c s) = ground (arith, trim_left_idem s)

trim_right_idem : (s : String) → trim_right (trim_right s) ≡ trim_right s
unfolding trim_right
trim_right_idem String.[] = refl
trim_right_idem (String.◌∷◌ c s) = ground (arith, trim_right_idem s)
