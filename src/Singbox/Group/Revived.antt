-- ===== src/Singbox/Group/Revived.antt =====
-- core/singboxcore/group.go: what the revivals of a group do to its nodes.
use proxy_hub.Prelude.{ℕ, ◌≡◌, refl, arith, true, false, List, [], ◌∷◌, inl, inr, Bool-cases}
use proxy_hub.Singbox.Time.{Time}
use proxy_hub.Singbox.Node.State.{NodeState, eligible, eligible_health}
use proxy_hub.Singbox.Node.Revival.{RevivalCandidate, revive_blacklist}
use proxy_hub.Singbox.Group.State.{Group, modify_cell}
use proxy_hub.Singbox.Group.Candidates.{revive_all}

revive_blacklist-eligible :
    (n : NodeState) (now : Time)
    → eligible n now false ≡ true
    → eligible (revive_blacklist n).0 now false ≡ true
unfolding eligible eligible_health revive_blacklist
revive_blacklist-eligible n now h = ground arith

-- A revival in the group leaves a node that is eligible so.
revive_cell-eligible :
    (g : Group) (p q : ℕ) (now : Time)
    → eligible (g.cells q) now false ≡ true
    → eligible ((modify_cell g p (λ n. (revive_blacklist n).0)).cells q) now false ≡ true
unfolding modify_cell
revive_cell-eligible g p q now h =
    ground
      (arith, revive_blacklist-eligible (g.cells q) now, revive_blacklist-eligible (g.cells p) now)

revive_all-eligible :
    (g : Group) (cs : List RevivalCandidate) (q : ℕ) (now : Time)
    → eligible (g.cells q) now false ≡ true
    → eligible ((revive_all g cs).0.cells q) now false ≡ true
unfolding revive_all
revive_all-eligible g [] q now h = h
revive_all-eligible g (c ∷ cs) q now h = elim (Bool-cases (revive_blacklist (g.cells c.node)).1) [
  | inl e ↦
      rw (e, revive_all)
        (revive_all-eligible (modify_cell g c.node (λ n. (revive_blacklist n).0)) cs q now
          (revive_cell-eligible g c.node q now h))
  | inr e ↦ rw (e, revive_all) (revive_all-eligible g cs q now h)
]

-- Where the first of them can be revived, its node is eligible afterwards, and the members are the
-- same.
revived-eligible :
    (n : NodeState) (now : Time)
    → (revive_blacklist n).1 ≡ true
    → eligible (revive_blacklist n).0 now false ≡ true
unfolding eligible eligible_health revive_blacklist
revived-eligible n now h = ground arith

modify_self :
    (g : Group) (p : ℕ) (now : Time)
    → eligible (revive_blacklist (g.cells p)).0 now false ≡ true
    → eligible ((modify_cell g p (λ n. (revive_blacklist n).0)).cells p) now false ≡ true
unfolding modify_cell
modify_self g p now h = ground (arith, h)

pub revive_all-first :
    (g : Group) (c : RevivalCandidate) (cs : List RevivalCandidate) (now : Time)
    → (revive_blacklist (g.cells c.node)).1 ≡ true
    → eligible ((revive_all g (c ∷ cs)).0.cells c.node) now false ≡ true
unfolding revive_all
revive_all-first g c cs now e =
    rw (e, revive_all)
      (revive_all-eligible (modify_cell g c.node (λ n. (revive_blacklist n).0)) cs c.node now
        (modify_self g c.node now (revived-eligible (g.cells c.node) now e)))

abbrev pub KeptMembers : Group → Group → Type 0
KeptMembers g g' = (g'.nodes ≡ g.nodes) × (g'.order ≡ g.order)

pub revive_all-KeptMembers :
    (g : Group) (cs : List RevivalCandidate) → KeptMembers g (revive_all g cs).0
unfolding revive_all modify_cell
revive_all-KeptMembers g [] = (refl, refl)
revive_all-KeptMembers g (c ∷ cs) = elim (Bool-cases (revive_blacklist (g.cells c.node)).1) [
  | inl e ↦
      rw (e, revive_all)
        (revive_all-KeptMembers (modify_cell g c.node (λ n. (revive_blacklist n).0)) cs)
  | inr e ↦ rw (e, revive_all) (revive_all-KeptMembers g cs)
]
