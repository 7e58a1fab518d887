-- ===== src/Service/Route/Order.antt =====
-- runtime_route.go: the comparison of runtimeRoutesLocked is an order of mappings, roots and tags.
use mathlib.Core.Path.{subst}
use proxy_hub.Prelude.{
  ◌≡◌, refl, sym, ◌∙◌, Bool, true, false, not, ◌&&◌, String, List, [], ◌∷◌, All, inl, inr,
  Bool-cases, arith, if◌then◌else◌,
}
use proxy_hub.Prelude.Text.{str_eq, str_eq_iff, str_eq_refl, text_less}
use proxy_hub.Prelude.TextOrder.{text_less_asym, text_not_less_trans, text_less-connected}
use proxy_hub.Prelude.Sort.{IsSorted, IsWeakOrder}
use proxy_hub.Service.Route.State.{Route, mapping_outbound_tag}
use proxy_hub.Service.Route.Selected.{is_root, route_less}

-- The comparison, from the answers of its parts.
abbrev pick : Bool → Bool → Bool → Bool → Bool → Bool
pick same less root_a root_b tag_less =
    if not same
    then less
    else if root_a && not root_b
    then true
    else if root_b && not root_a
    then false
    else tag_less

pick_asym :
    (e l m r s t u : Bool)
    → (l ≡ true → m ≡ false)
    → (t ≡ true → u ≡ false)
    → pick e l r s t ≡ true
    → pick e m s r u ≡ false
pick_asym false l m r s t u f g h = f h
pick_asym true l m true true t u f g h = g h
pick_asym true l m true false t u f g h = refl
pick_asym true l m false true t u f g h = absurd (cc)
pick_asym true l m false false t u f g h = g h

-- Three routes of one mapping.
pick_trans :
    (l m n r s q t u v : Bool)
    → (t ≡ false → u ≡ false → v ≡ false)
    → pick true l r s t ≡ false
    → pick true m s q u ≡ false
    → pick true n r q v ≡ false
pick_trans l m n true true true t u v f h k = f h k
pick_trans l m n true true false t u v f h k = absurd (cc)
pick_trans l m n true false q t u v f h k = absurd (cc)
pick_trans l m n false true true t u v f h k = refl
pick_trans l m n false true false t u v f h k = absurd (cc)
pick_trans l m n false false true t u v f h k = refl
pick_trans l m n false false false t u v f h k = f h k

str_eq_sym : (s t : String) → str_eq s t ≡ str_eq t s
str_eq_sym s t = ground (arith, str_eq_iff s t, str_eq_iff t s)

abbrev compared : String → String → Bool → Bool → String → String → Bool
compared m n r s t u = pick (str_eq m n) (text_less m n) r s (text_less t u)

compared_asym :
    (m n : String) (r s : Bool) (t u : String)
    → compared m n r s t u ≡ true
    → compared n m s r u t ≡ false
compared_asym m n r s t u h =
    subst (λ e. pick e (text_less n m) s r (text_less u t) ≡ false) (str_eq_sym m n)
      (pick_asym (str_eq m n) (text_less m n) (text_less n m) r s (text_less t u) (text_less u t)
        (text_less_asym m n) (text_less_asym t u) h)

-- Of one mapping and another, only the order of the mappings counts.
other_mapping : (e l r s t : Bool) → e ≡ false → pick e l r s t ≡ false → l ≡ false
other_mapping true l r s t d h = absurd (cc)
other_mapping false l r s t d h = h

not_less_of_other : (e l r s t : Bool) → e ≡ false → l ≡ false → pick e l r s t ≡ false
not_less_of_other true l r s t d h = absurd (cc)
not_less_of_other false l r s t d h = h

within_mapping :
    (m : String) (r s q : Bool) (t u v : String)
    → compared m m r s t u ≡ false
    → compared m m s q u v ≡ false
    → compared m m r q t v ≡ false
within_mapping m r s q t u v = rw (str_eq_refl m) (
    pick_trans (text_less m m) (text_less m m) (text_less m m) r s q (text_less t u) (text_less u v)
      (text_less t v) (text_not_less_trans t u v))

-- The first two routes are of one mapping, and the third may be of another.
from_same :
    (m o : String) (r s q : Bool) (t u v : String)
    → compared m m r s t u ≡ false
    → compared m o s q u v ≡ false
    → compared m o r q t v ≡ false
from_same m o r s q t u v h k = elim (Bool-cases (str_eq m o)) [
  | inl e ↦
      let same : m ≡ o = (str_eq_iff m o).0 e in
      subst (λ x. compared m x r q t v ≡ false) same
        (within_mapping m r s q t u v h (subst (λ x. compared m x s q u v ≡ false) (sym same) k))
  | inr e ↦
      not_less_of_other (str_eq m o) (text_less m o) r q (text_less t v) e
        (other_mapping (str_eq m o) (text_less m o) s q (text_less u v) e k)
]

-- The first two are of different mappings, and the last two are of one.
to_same :
    (m n : String) (r s q : Bool) (t u v : String)
    → str_eq m n ≡ false
    → compared m n r s t u ≡ false
    → compared m n r q t v ≡ false
to_same m n r s q t u v e h =
    not_less_of_other (str_eq m n) (text_less m n) r q (text_less t v) e
      (other_mapping (str_eq m n) (text_less m n) r s (text_less t u) e h)

all_differ :
    (m n o : String) (r s q : Bool) (t u v : String)
    → str_eq m n ≡ false
    → str_eq n o ≡ false
    → compared m n r s t u ≡ false
    → compared n o s q u v ≡ false
    → compared m o r q t v ≡ false
all_differ m n o r s q t u v e f h k =
    let first = other_mapping (str_eq m n) (text_less m n) r s (text_less t u) e h in
    let second = other_mapping (str_eq n o) (text_less n o) s q (text_less u v) f k in
    elim (Bool-cases (str_eq m o)) [
      | inl d ↦
          let same : m ≡ o = (str_eq_iff m o).0 d in
          let back : text_less n m ≡ false = subst (λ x. text_less n x ≡ false) (sym same) second in
          let met : m ≡ n = text_less-connected m n first back in
          let z : str_eq m n ≡ true = (str_eq_iff m n).1 met in absurd (cc)
      | inr d ↦
          not_less_of_other (str_eq m o) (text_less m o) r q (text_less t v) d
            (text_not_less_trans m n o first second)
    ]

compared_trans :
    (m n o : String) (r s q : Bool) (t u v : String)
    → compared m n r s t u ≡ false
    → compared n o s q u v ≡ false
    → compared m o r q t v ≡ false
compared_trans m n o r s q t u v h k = elim (Bool-cases (str_eq m n)) [
  | inl e ↦
      let same : m ≡ n = (str_eq_iff m n).0 e in
      from_same m o r s q t u v (subst (λ x. compared m x r s t u ≡ false) (sym same) h)
        (subst (λ x. compared x o s q u v ≡ false) (sym same) k)
  | inr e ↦ elim (Bool-cases (str_eq n o)) [
    | inl f ↦
        subst (λ x. compared m x r q t v ≡ false) ((str_eq_iff n o).0 f)
          (to_same m n r s q t u v e h)
    | inr f ↦ all_differ m n o r s q t u v e f h k
  ]
]

route_less-compared :
    (a b : Route)
    → route_less a b
      ≡ compared a.mapping_id b.mapping_id (is_root a) (is_root b) a.group_tag b.group_tag
unfolding route_less
route_less-compared a b = refl

route_less_asym : (a b : Route) → route_less a b ≡ true → route_less b a ≡ false
route_less_asym a b h =
    route_less-compared b a
    ∙ compared_asym a.mapping_id b.mapping_id (is_root a) (is_root b) a.group_tag b.group_tag
        (sym (route_less-compared a b) ∙ h)

route_not_less_trans :
    (a b c : Route) → route_less a b ≡ false → route_less b c ≡ false → route_less a c ≡ false
route_not_less_trans a b c h k =
    route_less-compared a c
    ∙ compared_trans a.mapping_id b.mapping_id c.mapping_id (is_root a) (is_root b) (is_root c)
        a.group_tag b.group_tag c.group_tag (sym (route_less-compared a b) ∙ h)
        (sym (route_less-compared b c) ∙ k)

pub route_less-IsWeakOrder : IsWeakOrder route_less
route_less-IsWeakOrder = record { asym = route_less_asym; not_less_trans = route_not_less_trans }

-- The root of a mapping is the group of its outbound.
abbrev pub IsRoot : Route → Type 0
IsRoot r = r.group_tag ≡ mapping_outbound_tag r.mapping_id

-- Which of two routes is shown first: the one of the lower mapping; of one mapping its root; and of
-- two groups of a mapping that are no roots the one of the lower tag.
pub data Precedes (a b : Route) : Type 0 where
  by_mapping : text_less a.mapping_id b.mapping_id ≡ true → Precedes a b
  by_root : a.mapping_id ≡ b.mapping_id → IsRoot a → ¬ IsRoot b → Precedes a b
  by_group :
      a.mapping_id ≡ b.mapping_id
      → ¬ IsRoot a
      → ¬ IsRoot b
      → text_less a.group_tag b.group_tag ≡ true
      → Precedes a b

is_root-true : (r : Route) → IsRoot r → is_root r ≡ true
unfolding is_root
is_root-true r e = (str_eq_iff r.group_tag (mapping_outbound_tag r.mapping_id)).1 e

is_root-false : (r : Route) → ¬ IsRoot r → is_root r ≡ false
unfolding is_root
is_root-false r n = elim (Bool-cases (str_eq r.group_tag (mapping_outbound_tag r.mapping_id))) [
  | inl e ↦ absurd (n ((str_eq_iff r.group_tag (mapping_outbound_tag r.mapping_id)).0 e))
  | inr e ↦ e
]

-- A text that is less than another is not the same.
text_less-differ : (s t : String) → text_less s t ≡ true → str_eq s t ≡ false
text_less-differ s t h = elim (Bool-cases (str_eq s t)) [
  | inl e ↦
      let same : s ≡ t = (str_eq_iff s t).0 e in
      let back : text_less t s ≡ false = text_less_asym s t h in
      let z : text_less s t ≡ false =
        subst (λ x. text_less s x ≡ false) same
          (subst (λ x. text_less x s ≡ false) (sym same) back) in
      absurd (cc)
  | inr e ↦ e
]

Precedes-route_less : (a b : Route) → Precedes a b → route_less a b ≡ true
Precedes-route_less a b (by_mapping h) =
    route_less-compared a b ∙ rw (text_less-differ a.mapping_id b.mapping_id h) h
Precedes-route_less a b (by_root m r n) =
    route_less-compared a b
    ∙ rw ((str_eq_iff a.mapping_id b.mapping_id).1 m, is_root-true a r, is_root-false b n) refl
Precedes-route_less a b (by_group m r n h) =
    route_less-compared a b
    ∙ rw ((str_eq_iff a.mapping_id b.mapping_id).1 m, is_root-false a r, is_root-false b n) h

-- No later route precedes an earlier one.
abbrev pub InOrder : List Route → Type 0
InOrder [] = Unit {0}
InOrder (r ∷ rs) = All (λ s. ¬ Precedes s r) rs × InOrder rs

none_precede :
    (r : Route) (rs : List Route)
    → All (λ s. route_less s r ≡ false) rs
    → All (λ s. ¬ Precedes s r) rs
none_precede r [] h = tt
none_precede r (s ∷ rs) h = (
  (λ p. let z = Precedes-route_less s r p in absurd (ground (arith, z, h.0))),
  none_precede r rs h.1,
)

pub IsSorted-InOrder : (rs : List Route) → IsSorted route_less rs → InOrder rs
IsSorted-InOrder [] h = tt
IsSorted-InOrder (r ∷ rs) h = (none_precede r rs h.0, IsSorted-InOrder rs h.1)
