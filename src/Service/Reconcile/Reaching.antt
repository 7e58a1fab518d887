-- ===== src/Service/Reconcile/Reaching.antt =====
-- What is affected by a change of nodes, as a relation, and the tests of runtime_reconcile.go on one
-- identity at a time.
use proxy_hub.Prelude.{
  ◌≡◌, true, not, ◌&&◌, String, List, [], ◌∷◌, inl, inr, Bool-cases, arith, In, All,
}
use proxy_hub.Prelude.Text.{str_eq, str_eq_iff, str_eq_refl, is_empty, trim_space}
use proxy_hub.ProxyUri.Unique.{has_text, has_trimmed}
use proxy_hub.Service.Rows.{JsonReader, ProxyNode, ProxyGroup, decode_strings}
use proxy_hub.Service.Reconcile.Affected.{
  slices_intersect, some_in, chains_a_node, chains_a_group, holds_a_node,
}

pub data Item : Type 0 where
  node : String → Item
  group : String → Item

module _ (json : JsonReader) (nodes : List ProxyNode) (groups : List ProxyGroup)
    (changed : List String) where
  -- A node that changed; a chain of a node or of a group that is affected; a group of one.
  pub data Reaches : Item → Type 0 where
    given : (x : String) → has_text x changed ≡ true → Reaches (node x)
    chain_of_node :
        (n : ProxyNode) (x : String)
        → In n nodes
        → chains_a_node json (x ∷ []) n ≡ true
        → Reaches (node x)
        → Reaches (node n.id)
    chain_of_group :
        (n : ProxyNode) (y : String)
        → In n nodes
        → chains_a_group json (y ∷ []) n ≡ true
        → Reaches (group y)
        → Reaches (node n.id)
    group_of_node :
        (g : ProxyGroup) (x : String)
        → In g groups
        → holds_a_node json (x ∷ []) g ≡ true
        → Reaches (node x)
        → Reaches (group g.id)
    group_of_group :
        (g : ProxyGroup) (y : String)
        → In g groups
        → has_text y (decode_strings json g.group_ids_json) ≡ true
        → Reaches (group y)
        → Reaches (group g.id)

module _ {κ} (P : String → Type κ) where
  has_trimmed-In :
      (t : String) (set : List String)
      → All P set
      → has_trimmed t set ≡ true
      → (x : String) × P x × (has_trimmed t (x ∷ []) ≡ true)
  unfolding has_trimmed
  has_trimmed-In t [] p h = cc
  has_trimmed-In t (v ∷ vs) p h = elim (Bool-cases (str_eq (trim_space v) t)) [
    | inl e ↦ (v, p.0, simp e)
    | inr e ↦ has_trimmed-In t vs p.1 (simp e at h)
  ]

  -- An intersection is with one element.
  pub slices_intersect-one :
      (xs set : List String)
      → All P set
      → slices_intersect xs set ≡ true
      → (x : String) × P x × (slices_intersect xs (x ∷ []) ≡ true)
  unfolding slices_intersect
  slices_intersect-one [] set p h = cc
  slices_intersect-one (f ∷ fs) set p h =
      elim (Bool-cases (not (is_empty (trim_space f)) && has_trimmed (trim_space f) set)) [
        | inl e ↦
            let (x, q, g) = has_trimmed-In (trim_space f) set p (ground arith) in
            (x, q, ground arith)
        | inr e ↦
            let (x, q, g) = slices_intersect-one fs set p (simp e at h) in (x, q, ground arith)
      ]

  pub some_in-one :
      (xs set : List String)
      → All P set
      → some_in xs set ≡ true
      → (y : String) × P y × (has_text y xs ≡ true)
  unfolding some_in has_text
  some_in-one [] set p h = cc
  some_in-one (x ∷ xs) set p h = elim (Bool-cases (has_text x set)) [
    | inl e ↦ (x, has_text-All set x p e, ground (arith, str_eq_refl x))
    | inr e ↦ let (y, q, g) = some_in-one xs set p (simp e at h) in (y, q, ground arith)
  ]
    where
      has_text-All : (set : List String) (x : String) → All P set → has_text x set ≡ true → P x
      has_text-All [] x p h = absurd (cc)
      has_text-All (s ∷ set) x p h = elim (Bool-cases (str_eq s x)) [
        | inl e ↦ rw (← (str_eq_iff s x).0 e) p.0
        | inr e ↦ has_text-All set x p.1 (simp e at h)
      ]

has_trimmed-has_text :
    (t x : String) (set : List String)
    → has_text x set ≡ true
    → has_trimmed t (x ∷ []) ≡ true
    → has_trimmed t set ≡ true
unfolding has_trimmed has_text
has_trimmed-has_text t x [] h k = cc
has_trimmed-has_text t x (v ∷ vs) h k = elim (Bool-cases (str_eq v x)) [
  | inl e ↦ let same : v ≡ x = (str_eq_iff v x).0 e in rw same (ground arith)
  | inr e ↦ ground (arith, has_trimmed-has_text t x vs)
]

-- An intersection with one element is one with every set that has it.
pub slices_intersect-has_text :
    (xs set : List String) (x : String)
    → has_text x set ≡ true
    → slices_intersect xs (x ∷ []) ≡ true
    → slices_intersect xs set ≡ true
unfolding slices_intersect
slices_intersect-has_text [] set x h k = k
slices_intersect-has_text (f ∷ fs) set x h k =
    ground (arith, has_trimmed-has_text (trim_space f) x set, slices_intersect-has_text fs set x)

pub some_in-has_text :
    (xs set : List String) (y : String)
    → has_text y set ≡ true
    → has_text y xs ≡ true
    → some_in xs set ≡ true
unfolding some_in has_text
some_in-has_text [] set y h k = k
some_in-has_text (x ∷ xs) set y h k = elim (Bool-cases (str_eq x y)) [
  | inl e ↦ let same : x ≡ y = (str_eq_iff x y).0 e in rw same (simp h)
  | inr e ↦ ground (arith, some_in-has_text xs set y)
]
