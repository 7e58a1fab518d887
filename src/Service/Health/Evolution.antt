-- ===== src/Service/Health/Evolution.antt =====
-- How the state of a node evolves while others change it (health_batcher.go): its content stays,
-- or it is dirty under a later revision.
use proxy_hub.Prelude.{
  ℕ, ◌+◌, ◌%◌, ◌^◌, ◌≤◌, ◌≡◌, refl, ap, ◌∙◌, ◌⊎◌, inl, inr, true, String, Option, none, some,
  Bool-cases, arith,
}
use proxy_hub.Prelude.Maps.{Map, lookup, insert, lookup-insert}
use proxy_hub.Prelude.Text.{str_eq, str_eq_iff}
use proxy_hub.Service.Health.State.{Snapshot, MemoryState}
use proxy_hub.Service.Health.Store.{facts}

abbrev pub facts_of : Option Snapshot → Option Snapshot
facts_of none = none
facts_of (some s) = some (facts s)

abbrev pub content : MemoryState → MemoryState
content m = record m { snapshot = facts_of m.snapshot }

-- The snapshot is there and names its node.
abbrev pub IsNamed : String → MemoryState → Type 0
IsNamed node m = (s : Snapshot) × (m.snapshot ≡ some s) × (s.node_id ≡ node)

abbrev pub Advances : ℕ → MemoryState → MemoryState → Type 0
Advances k m m' =
    (m'.dirty ≡ true) × (j : ℕ) × (1 ≤ j) × (j ≤ k) × (m'.revision ≡ (m.revision + j) % 2 ^ 64)

-- At most `k` writes lead from the one to the other; a node that was not known comes in dirty.
abbrev pub Evolves : ℕ → Option MemoryState → Option MemoryState → Type 0
Evolves k none none = Unit
Evolves k none (some m') = m'.dirty ≡ true
Evolves k (some m) none = ⊥
Evolves k (some m) (some m') = (content m' ≡ content m) ⊎ Advances k m m'

pub Evolves-refl : (o : Option MemoryState) → Evolves 0 o o
Evolves-refl none = tt
Evolves-refl (some m) = inl refl

pub Evolves-trans :
    (k l : ℕ) (a b c : Option MemoryState) → Evolves k a b → Evolves l b c → Evolves (k + l) a c
Evolves-trans k l none none none p q = tt
Evolves-trans k l none none (some c) p q = q
Evolves-trans k l none (some b) none p q = absurd q
Evolves-trans k l none (some b) (some c) p (inl e) =
    let d : c.dirty ≡ b.dirty = ap (λ (m : MemoryState). m.dirty) e in d ∙ p
Evolves-trans k l none (some b) (some c) p (inr q) = q.0
Evolves-trans k l (some a) none c p q = absurd p
Evolves-trans k l (some a) (some b) none p q = absurd q
Evolves-trans k l (some a) (some b) (some c) (inl d) (inl e) = inl (e ∙ d)
Evolves-trans k l (some a) (some b) (some c) (inl d) (inr (t, j, low, high, e)) =
    let r : b.revision ≡ a.revision = ap (λ (m : MemoryState). m.revision) d in
    inr (t, j, low, omega arith, rw (← r) e)
Evolves-trans k l (some a) (some b) (some c) (inr (t, j, low, high, e)) (inl d) =
    let u : c.dirty ≡ b.dirty = ap (λ (m : MemoryState). m.dirty) d in
    let r : c.revision ≡ b.revision = ap (λ (m : MemoryState). m.revision) d in
    inr (u ∙ t, j, low, omega arith, r ∙ e)
Evolves-trans k l (some a) (some b) (some c) (inr (t, j, low, high, e)) (inr (u, i, lo, hi, f)) =
    inr (u, j + i, omega arith, omega arith, omega arith)

-- A write of one state under its name evolves every state.
pub insert-Evolves :
    (k : ℕ) (node other : String) (m : MemoryState) (states : Map MemoryState)
    → Evolves k (lookup node states) (some m)
    → Evolves k (lookup other states) (lookup other (insert node m states))
insert-Evolves k node other m states h = elim (Bool-cases (str_eq node other)) [
  | inl e ↦ rw (lookup-insert node other m states, e, ← (str_eq_iff node other).0 e) h
  | inr e ↦ rw (lookup-insert node other m states, e) (weaken k (lookup other states))
]
  where
    weaken : (k : ℕ) (o : Option MemoryState) → Evolves k o o
    weaken k none = tt
    weaken k (some m) = inl refl
