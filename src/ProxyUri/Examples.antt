-- ===== src/ProxyUri/Examples.antt =====
-- service/proxyuri/uri.go: UniqueNonEmpty on a short list.
use proxy_hub.Prelude.{◌≡◌, not, ◌&&◌, String, List, [], ◌∷◌}
use proxy_hub.Prelude.Text.{is_empty}
use proxy_hub.ProxyUri.Unique.{
  has_text, unique_non_empty, has_trimmed, DistinctTexts, unique_non_empty_lem,
}

abbrev sample_values : List String
sample_values = " a " ∷ "" ∷ "b" ∷ "a" ∷ []

unique_non_empty_lem_example :
    DistinctTexts (unique_non_empty sample_values)
    × (has_text "a" (unique_non_empty sample_values)
        ≡ (not (is_empty "a") && has_trimmed "a" sample_values))
unique_non_empty_lem_example = unique_non_empty_lem sample_values "a"
