-- ===== src/ProxyUri/Unique.antt =====
-- service/proxyuri/uri.go, UniqueNonEmpty and FirstNonEmpty.
use proxy_hub.Prelude.{
  ◌≡◌, Bool, false, not, ◌&&◌, ◌||◌, String, List, [], ◌∷◌, inl, inr, arith, Bool-cases,
  if◌then◌else◌,
}
use proxy_hub.Prelude.Text.{str_eq, str_eq_iff, str_eq_refl, is_empty, trim_space}

unfoldable pub has_text : String → List String → Bool
has_text s [] = false
has_text s (t ∷ ts) = str_eq t s || has_text s ts

-- The loop, with the texts that it has seen.
unfoldable pub unique_from : List String → List String → List String
unfolding has_text
unique_from seen [] = []
unique_from seen (v ∷ vs) =
    let value = trim_space v in
    let skipped = unique_from seen vs in
    let kept = value ∷ unique_from (value ∷ seen) vs in
    if is_empty value || has_text value seen then skipped else kept

unfoldable pub unique_non_empty : List String → List String
unfolding unique_from
unique_non_empty values = unique_from [] values

unfoldable pub first_non_empty : List String → String
unfolding trim_space
first_non_empty [] = ""
first_non_empty (v ∷ vs) =
    let rest = first_non_empty vs in if not (is_empty (trim_space v)) then trim_space v else rest

-- Whether a text is one of the values, trimmed.
unfoldable pub has_trimmed : String → List String → Bool
has_trimmed s [] = false
has_trimmed s (v ∷ vs) = str_eq (trim_space v) s || has_trimmed s vs

-- No text twice.
abbrev pub DistinctTexts : List String → Type 0
DistinctTexts [] = Unit {0}
DistinctTexts (t ∷ ts) = (has_text t ts ≡ false) × DistinctTexts ts

has_text-unique_from :
    (seen vs : List String) (s : String)
    → has_text s (unique_from seen vs)
      ≡ (not (is_empty s) && not (has_text s seen) && has_trimmed s vs)
unfolding unique_from has_text has_trimmed
has_text-unique_from seen [] s = ground arith
has_text-unique_from seen (v ∷ vs) s = ground (
  arith,
  str_eq_iff (trim_space v) s,
  has_text-unique_from seen vs s,
  has_text-unique_from (trim_space v ∷ seen) vs s,
)

unique_from-DistinctTexts : (seen vs : List String) → DistinctTexts (unique_from seen vs)
unfolding unique_from has_text
unique_from-DistinctTexts seen [] = tt
unique_from-DistinctTexts seen (v ∷ vs) =
    elim (Bool-cases (is_empty (trim_space v) || has_text (trim_space v) seen)) [
      | inl e ↦ rw e (unique_from-DistinctTexts seen vs)
      | inr e ↦ rw e (
        ground (
          arith,
          has_text-unique_from (trim_space v ∷ seen) vs (trim_space v),
          str_eq_refl (trim_space v),
        ),
        unique_from-DistinctTexts (trim_space v ∷ seen) vs,
      )
    ]

-- The result has no text twice, and a text is in it exactly if it is not empty and one of the
-- values, trimmed.
pub unique_non_empty_lem :
    (values : List String) (s : String)
    → DistinctTexts (unique_non_empty values)
      × (has_text s (unique_non_empty values) ≡ (not (is_empty s) && has_trimmed s values))
unfolding unique_non_empty has_text
unique_non_empty_lem values s =
    (unique_from-DistinctTexts [] values, ground (arith, has_text-unique_from [] values s))
