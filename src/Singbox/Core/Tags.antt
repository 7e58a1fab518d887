-- ===== src/Singbox/Core/Tags.antt =====
-- core/singboxcore/core.go: which outbounds are removed with a node or a group, and which are made.
use proxy_hub.Prelude.{
  ◌≡◌, refl, Bool, true, false, ◌||◌, String, List, ◌⊎◌, inl, inr, arith, Bool-cases, if◌then◌else◌,
}
use proxy_hub.Prelude.Text.{str_eq, str_eq_iff, str_eq_refl, is_empty, trim_space}
use proxy_hub.ProxyUri.Unique.{has_text}
use proxy_hub.Singbox.Errors.{ok}
use proxy_hub.Singbox.Manager.{Manager, Creation, created, refused, panicked}
use proxy_hub.Singbox.Node.State.{Outbound}
use proxy_hub.Singbox.Core.State.{Core, created_or_error}
use proxy_hub.Singbox.Core.Nodes.{create_outbound}

-- A tag that no removal touches: the two base outbounds, and what a group refers to.
abbrev pub is_protected : List String → String → Bool
is_protected referenced tag = str_eq tag "direct" || str_eq tag "block" || has_text tag referenced

module _ (m : Manager) where
  open m use {Store, has, create}

  created_cases :
      (c c' : Core m) (answer : Creation Store)
      → created_or_error m c answer ≡ ok c'
      → (s : Store) × (answer ≡ created s) × (c' ≡ record c { store = s })
  created_cases c c' (created s) h = (s, refl, ground arith)
  created_cases c c' (refused e) h = cc
  created_cases c c' panicked h = cc

  -- What a creation that succeeded found: the outbound there already, or none.
  create_cases :
      (c c' : Core m) (o : Outbound)
      → create_outbound m c o ≡ ok c'
      → (is_empty (trim_space o.tag) ≡ false)
        × (((has c.store (trim_space o.tag) ≡ true) × (c' ≡ c))
            ⊎ ((s : Store) × (create c.store (trim_space o.tag) o.kind ≡ created s)
                × (c' ≡ record c { store = s })))
  unfolding create_outbound
  create_cases c c' o h = elim (Bool-cases (is_empty (trim_space o.tag))) [
    | inl e ↦ absurd (ground arith)
    | inr e ↦ elim (Bool-cases (has c.store (trim_space o.tag))) [
      | inl f ↦ (e, inl (f, ground arith))
      | inr f ↦ (e, inr (created_cases c c' _ (ground arith)))
    ]
  ]

  -- Where the creation of an outbound succeeded, its trimmed tag is not empty and known, no other tag
  -- is changed, and creating it once more succeeds and changes nothing.
  pub create_outbound_lem :
      (c c' : Core m) (o : Outbound) (other : String)
      → create_outbound m c o ≡ ok c'
      → (has c'.store other ≡ (if str_eq (trim_space o.tag) other then true else has c.store other))
        × (create_outbound m c' o ≡ ok c')
        × (is_empty (trim_space o.tag) ≡ false)
  unfolding create_outbound
  create_outbound_lem c c' o other h =
      let tag = trim_space o.tag in
      let (e, found) = create_cases c c' o h in
      elim found [
        | inl (f, q) ↦ (ground (arith, str_eq_iff tag other), ground arith, e)
        | inr (s, k, q) ↦
            let law = m.has-create c.store s tag o.kind other k in
            let self = m.has-create c.store s tag o.kind tag k in
            (ground arith, ground (arith, str_eq_refl tag), e)
      ]
