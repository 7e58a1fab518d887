-- ===== src/Prelude/TextOrder.antt =====
-- `<` on texts is a strict linear order.
use Prim.Native.Nat.{ℕ}
use Prim.Native.String.{String}
use mathlib.Core.Bool.{true, false}
use mathlib.Core.List.{List, [], ◌∷◌}
use mathlib.Core.Path.{◌≡◌, refl}
use native.Mathlib.Omega.{arith}
use text.Mathlib.TextEquality.{Char-path}
use proxy_hub.Prelude.Text.{codes, codes_less, text_less}

codes_less_asym : (xs ys : List ℕ) → codes_less xs ys ≡ true → codes_less ys xs ≡ false
unfolding codes_less
codes_less_asym xs [] h = absurd (cc)
codes_less_asym [] (y ∷ ys) h = refl
codes_less_asym (x ∷ xs) (y ∷ ys) h = ground (arith, codes_less_asym xs ys)

codes_not_less_trans :
    (xs ys zs : List ℕ)
    → codes_less xs ys ≡ false
    → codes_less ys zs ≡ false
    → codes_less xs zs ≡ false
unfolding codes_less
codes_not_less_trans xs ys [] h k = refl
codes_not_less_trans xs [] (z ∷ zs) h k = absurd (cc)
codes_not_less_trans [] (y ∷ ys) (z ∷ zs) h k = absurd (cc)
codes_not_less_trans (x ∷ xs) (y ∷ ys) (z ∷ zs) h k = ground (arith, codes_not_less_trans xs ys zs)

codes_less-connected :
    (xs ys : List ℕ) → codes_less xs ys ≡ false → codes_less ys xs ≡ false → xs ≡ ys
unfolding codes_less
codes_less-connected [] [] h k = refl
codes_less-connected [] (y ∷ ys) h k = absurd (cc)
codes_less-connected (x ∷ xs) [] h k = absurd (cc)
codes_less-connected (x ∷ xs) (y ∷ ys) h k =
    let same : codes_less xs ys ≡ false = ground arith in
    let back : codes_less ys xs ≡ false = ground arith in
    let head : x ≡ y = ground arith in
    let tail : xs ≡ ys = codes_less-connected xs ys same back in cc

codes-injective : (s t : String) → codes s ≡ codes t → s ≡ t
unfolding codes
codes-injective String.[] String.[] h = refl
codes-injective String.[] (String.◌∷◌ d t) h = absurd (cc)
codes-injective (String.◌∷◌ c s) String.[] h = absurd (cc)
codes-injective (String.◌∷◌ c s) (String.◌∷◌ d t) h =
    let head : c ≡ d = Char-path c d (cc) in let tail : s ≡ t = codes-injective s t (cc) in cc

pub text_less_asym : (s t : String) → text_less s t ≡ true → text_less t s ≡ false
unfolding text_less
text_less_asym s t h = codes_less_asym (codes s) (codes t) h

pub text_not_less_trans :
    (s t u : String) → text_less s t ≡ false → text_less t u ≡ false → text_less s u ≡ false
unfolding text_less
text_not_less_trans s t u h k = codes_not_less_trans (codes s) (codes t) (codes u) h k

pub text_less-connected : (s t : String) → text_less s t ≡ false → text_less t s ≡ false → s ≡ t
unfolding text_less
text_less-connected s t h k = codes-injective s t (codes_less-connected (codes s) (codes t) h k)
