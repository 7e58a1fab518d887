-- ===== src/Singbox/RevivalOrder/Lexicographic.antt =====
-- core/singboxcore/group.go: the revival order described by keys.
use mathlib.Core.List.{Perm}
use mathlib.Core.Path.{fun_ext}
use proxy_hub.Prelude.{
  ℕ, ◌≡◌, refl, sym, ◌∙◌, Bool, true, false, not, length, List, [], ◌∷◌, arith, ltb, ◌==◌,
  if◌then◌else◌,
}
use proxy_hub.Prelude.Sort.{IsSorted, IsWeakOrder, stable_sort-perm, stable_sort-IsSorted}
use proxy_hub.Singbox.Time.{Time, is_zero, is_after, is_before}
use proxy_hub.Singbox.Node.Revival.{RevivalCandidate}
use proxy_hub.Singbox.RevivalOrder.{
  bool_eq, candidate_less, sort_candidates, RevivalInput, candidate_from_input, input_less,
  sort_inputs,
}

-- A key that counts upwards (the smaller first) or downwards.
pub data Key : Type 0 where
  up down : ℕ → Key

abbrev pub key_less : Key → Key → Bool
key_less (up a) (up b) = ltb a b
key_less (down a) (down b) = ltb b a
key_less (up a) (down b) = true
key_less (down a) (up b) = false

-- The first keys that differ decide.
pub lex_less : List Key → List Key → Bool
lex_less [] ys = false
lex_less (x ∷ xs) [] = false
lex_less (x ∷ xs) (y ∷ ys) =
    let rest = lex_less xs ys in if key_less x y then true else if key_less y x then false else rest

abbrev pub flag : Bool → ℕ
flag true = 0
flag false = 1

-- A zero time counts as later than any other.
abbrev pub zero_last : Time → ℕ
zero_last t = if is_zero t then 1 else 0

-- What the order promises: fewest failures, then those that have succeeded, the latest success, those
-- with a latency, the lowest latency, the longest unchecked, the longest blacklisted, the soonest to
-- end, and the place in the group.
pub keys : RevivalCandidate → List Key
keys c =
    up c.failure_count
    ∷ up (flag c.has_success)
    ∷ down c.last_success_at
    ∷ up (flag c.has_latency)
    ∷ up c.latency_ms
    ∷ up c.last_checked_at
    ∷ up (zero_last c.blacklisted_at)
    ∷ up c.blacklisted_at
    ∷ up (zero_last c.blacklisted_until)
    ∷ up c.blacklisted_until
    ∷ up c.order
    ∷ []

-- One key, with what follows it.
abbrev then_by : Key → Key → Bool → Bool
then_by x y rest = if key_less x y then true else if key_less y x then false else rest

-- One lemma for each kind of comparison in the code, over what the later comparisons answer.
module _ {r s : Bool} (later : r ≡ s) where
  up_level : (a b : ℕ) → (if not (a == b) then ltb a b else r) ≡ then_by (up a) (up b) s
  up_level a b = ground arith

  down_level : (a b : ℕ) → (if not (a == b) then is_after a b else r) ≡ then_by (down a) (down b) s
  down_level a b = ground arith

  flag_level :
      (a b : Bool) → (if not (bool_eq a b) then a else r) ≡ then_by (up (flag a)) (up (flag b)) s
  flag_level a b = ground arith

  zero_first_level :
      (a b : Time)
      → (if not (a == b)
          then (if is_zero a then true else if is_zero b then false else is_before a b)
          else r)
        ≡ then_by (up a) (up b) s
  zero_first_level a b = ground arith

  zero_last_level :
      (a b : Time)
      → (if not (a == b)
          then (if is_zero a then false else if is_zero b then true else is_before a b)
          else r)
        ≡ then_by (up (zero_last a)) (up (zero_last b)) (then_by (up a) (up b) s)
  zero_last_level a b = ground arith

last_level : (a b : ℕ) → ltb a b ≡ then_by (up a) (up b) false
last_level a b = ground arith

-- The comparisons of the code are the lexicographic order of the keys.
pub candidate_less-eq-lex_less :
    (a b : RevivalCandidate) → candidate_less a b ≡ lex_less (keys a) (keys b)
unfolding candidate_less lex_less keys
candidate_less-eq-lex_less a b =
    up_level
      (flag_level
        (down_level
          (flag_level
            (up_level
              (zero_first_level
                (zero_last_level
                  (zero_last_level (last_level a.order b.order) a.blacklisted_until
                    b.blacklisted_until)
                  a.blacklisted_at b.blacklisted_at)
                a.last_checked_at b.last_checked_at)
              a.latency_ms b.latency_ms)
            a.has_latency b.has_latency)
          a.last_success_at b.last_success_at)
        a.has_success b.has_success)
      a.failure_count b.failure_count

-- An order by keys is a strict weak order.
lex_less_asym : (xs ys : List Key) → lex_less xs ys ≡ true → lex_less ys xs ≡ false
unfolding lex_less
lex_less_asym [] [] h = refl
lex_less_asym [] (y ∷ ys) h = cc
lex_less_asym (x ∷ xs) [] h = refl
lex_less_asym (x ∷ xs) (y ∷ ys) h = ground (arith, lex_less_asym xs ys)

lex_not_less_trans :
    (xs ys zs : List Key)
    → lex_less xs ys ≡ false
    → lex_less ys zs ≡ false
    → length xs ≡ length ys
    → length ys ≡ length zs
    → lex_less xs zs ≡ false
unfolding lex_less
lex_not_less_trans [] ys zs h k p q = refl
lex_not_less_trans (x ∷ xs) [] zs h k p q = absurd (omega arith)
lex_not_less_trans (x ∷ xs) (y ∷ ys) [] h k p q = absurd (omega arith)
lex_not_less_trans (x ∷ xs) (y ∷ ys) (z ∷ zs) h k p q = ground (arith, lex_not_less_trans xs ys zs)

candidate_less-IsWeakOrder : IsWeakOrder candidate_less
candidate_less-IsWeakOrder = record {
  asym = λ a b h.
      candidate_less-eq-lex_less b a
      ∙ lex_less_asym (keys a) (keys b) (sym (candidate_less-eq-lex_less a b) ∙ h);
  not_less_trans = λ a b c h k.
      candidate_less-eq-lex_less a c
      ∙ lex_not_less_trans (keys a) (keys b) (keys c) (sym (candidate_less-eq-lex_less a b) ∙ h)
          (sym (candidate_less-eq-lex_less b c) ∙ k) (unfold keys in refl) (unfold keys in refl);
}

input_less-IsWeakOrder : IsWeakOrder input_less
unfolding input_less
input_less-IsWeakOrder = record {
  asym = λ a b. candidate_less-IsWeakOrder.asym (candidate_from_input a) (candidate_from_input b);
  not_less_trans = λ a b c.
      candidate_less-IsWeakOrder.not_less_trans (candidate_from_input a) (candidate_from_input b)
        (candidate_from_input c);
}

-- Sorting for revival keeps every candidate as often as it was given, and in the result no later
-- candidate comes before an earlier one by the keys.
pub sort_candidates-IsSorted :
    (cs : List RevivalCandidate)
    → Perm (sort_candidates cs) cs
      × IsSorted (λ a b. lex_less (keys a) (keys b)) (sort_candidates cs)
unfolding sort_candidates
sort_candidates-IsSorted cs = (
  stable_sort-perm candidate_less cs,
  rw (← fun_ext (λ a. fun_ext (candidate_less-eq-lex_less a)))
      (stable_sort-IsSorted candidate_less candidate_less-IsWeakOrder cs),
)

-- The sort for callers outside the core is by the same keys, at a zero time of blacklisting.
pub sort_inputs-IsSorted :
    (is : List RevivalInput)
    → Perm (sort_inputs is) is
      × IsSorted
          (λ a b. lex_less (keys (candidate_from_input a)) (keys (candidate_from_input b)))
          (sort_inputs is)
unfolding sort_inputs input_less
sort_inputs-IsSorted is = (
  stable_sort-perm input_less is,
  rw
      (← fun_ext (λ a.
        fun_ext
          (λ b. candidate_less-eq-lex_less (candidate_from_input a) (candidate_from_input b))))
      (stable_sort-IsSorted input_less input_less-IsWeakOrder is),
)
