-- ===== src/Singbox/Group/Liveness.antt =====
-- core/singboxcore/group.go: whether a group has a node to offer.
use proxy_hub.Prelude.{
  ℕ, suc, ◌-◌, ◌≡◌, ◌≢◌, ◌⊎◌, refl, arith, Bool, true, false, none, some, List, [], ◌∷◌, inl, inr,
  Bool-cases, Option-cases, keep_if, take, All, All-take, In, String,
}
use proxy_hub.Prelude.Int.{ℤ}
use proxy_hub.Prelude.Sort.{stable_sort, insert_sorted, All-stable_sort}
use proxy_hub.Singbox.Time.{Time}
use proxy_hub.Singbox.RevivalOrder.{sort_candidates, candidate_less}
use proxy_hub.Singbox.Node.State.{is_dead, eligible}
use proxy_hub.Singbox.Node.Revival.{RevivalCandidate, revival_candidate, revive_blacklist}
use proxy_hub.Singbox.Node.Blacklisting.{revival_candidate_iff_not-eligible}
use proxy_hub.Singbox.Group.State.{Group}
use proxy_hub.Singbox.Group.Candidates.{
  member_cells, eligible_nodes, revival_candidates, revive_all, revival_limit, report_revived,
  revive_found, revive_blacklisted_nodes, revive_if_none,
}
use proxy_hub.Singbox.Group.Revived.{revive_all-first, revive_all-KeptMembers}

module _ (g : Group) (now : Time) where
  -- A candidate whose node is one of these and can be revived.
  abbrev IsRevivable : List ℕ → RevivalCandidate → Type 0
  IsRevivable ps c = In c.node ps × ((revive_blacklist (g.cells c.node)).1 ≡ true)

  candidate-revivable :
      (p k : ℕ) (c : RevivalCandidate)
      → revival_candidate p (g.cells p) now k ≡ some c
      → (c.node ≡ p) × ((revive_blacklist (g.cells c.node)).1 ≡ true)
  unfolding revival_candidate revive_blacklist
  candidate-revivable p k c h = (ground arith, ground arith)

  All-later :
      (p : ℕ) (ps : List ℕ) (cs : List RevivalCandidate)
      → All (IsRevivable ps) cs
      → All (IsRevivable (p ∷ ps)) cs
  All-later p ps [] h = tt
  All-later p ps (c ∷ cs) h = ((inr h.0.0, h.0.1), All-later p ps cs h.1)

  revival_candidates-All :
      (k : ℕ) (ps : List ℕ) → All (IsRevivable ps) (revival_candidates g now k ps)
  unfolding revival_candidates
  revival_candidates-All k [] = tt
  revival_candidates-All k (p ∷ ps) =
      let rest = All-later p ps _ (revival_candidates-All (suc k) ps) in
      elim (Bool-cases (eligible (g.cells p) now false)) [
        | inl e ↦ rw (e, revival_candidates) rest
        | inr e ↦ elim (Option-cases (revival_candidate p (g.cells p) now k)) [
          | inl f ↦ rw (e, f, revival_candidates) rest
          | inr (c, f) ↦
              let (same, revivable) = candidate-revivable p k c f in
              rw (e, f, revival_candidates) ((inl same, revivable), rest)
        ]
      ]

  -- A member that may be revived is a candidate, wherever it stands.
  some_candidate :
      (k p : ℕ) (ps : List ℕ)
      → In p ps
      → ((j : ℕ) → revival_candidate p (g.cells p) now j ≢ none)
      → eligible (g.cells p) now false ≡ false
      → revival_candidates g now k ps ≢ []
  unfolding revival_candidates
  some_candidate k p [] i h e = elim i [ ]
  some_candidate k p (q ∷ ps) (inl i) h e =
      elim (Option-cases (revival_candidate p (g.cells p) now k)) [
        | inl f ↦ elim (h k f) [ ]
        | inr (c, f) ↦ rw (← i, e, f, revival_candidates) (λ n. cc)
      ]
  some_candidate k p (q ∷ ps) (inr i) h e = elim (Bool-cases (eligible (g.cells q) now false)) [
    | inl f ↦ rw (f, revival_candidates) (some_candidate (suc k) p ps i h e)
    | inr f ↦ elim (Option-cases (revival_candidate q (g.cells q) now k)) [
      | inl r ↦ rw (f, r, revival_candidates) (some_candidate (suc k) p ps i h e)
      | inr (c, r) ↦ rw (f, r, revival_candidates) (λ n. cc)
    ]
  ]

sort-nonempty : (c : RevivalCandidate) (cs : List RevivalCandidate) → sort_candidates (c ∷ cs) ≢ []
unfolding sort_candidates stable_sort insert_sorted
sort-nonempty c cs = inserted (stable_sort candidate_less cs)
  where
    inserted : (ds : List RevivalCandidate) → insert_sorted candidate_less c ds ≢ []
    inserted [] h = cc
    inserted (d ∷ ds) h = elim (Bool-cases (candidate_less d c)) [
      | inl e ↦ (let q : d ∷ insert_sorted candidate_less c ds ≡ [] = (rw e at h) in cc)
      | inr e ↦ (let q : c ∷ d ∷ ds ≡ [] = (rw e at h) in cc)
    ]

some_limit : (limit : ℤ) → (n : ℕ) × (revival_limit limit ≡ suc n)
some_limit limit = (revival_limit limit - 1, ground arith)

List-cases {ℓ} : {A : Type ℓ} (xs : List A) → (xs ≡ []) ⊎ ((x : A) × (ys : List A) × (xs ≡ x ∷ ys))
List-cases [] = inl refl
List-cases (x ∷ xs) = inr (x, xs, refl)

keep_if-nonempty : (t : ℕ → Bool) (x : ℕ) (xs : List ℕ) → In x xs → t x ≡ true → keep_if t xs ≢ []
unfolding keep_if
keep_if-nonempty t x [] i h = elim i [ ]
keep_if-nonempty t x (y ∷ ys) (inl i) h = rw (← i, h) (λ n. cc)
keep_if-nonempty t x (y ∷ ys) (inr i) h = elim (Bool-cases (t y)) [
  | inl e ↦ rw e (λ n. cc)
  | inr e ↦ rw e (keep_if-nonempty t x ys i h)
]

report_revived-keeps :
    (now : Time) (r : Group × List String)
    → ((report_revived now r).0.cells ≡ r.0.cells)
      × ((report_revived now r).0.nodes ≡ r.0.nodes)
      × ((report_revived now r).0.order ≡ r.0.order)
unfolding report_revived
report_revived-keeps now (g, []) = (refl, refl, refl)
report_revived-keeps now (g, id ∷ ids) = ground arith

-- Where the first of the candidates that are taken is a member that can be revived, a node is
-- eligible after the revivals.
revived_first :
    (g : Group) (now : Time) (cs : List RevivalCandidate) (c : RevivalCandidate)
    (ds : List RevivalCandidate)
    → cs ≡ c ∷ ds
    → All (IsRevivable g now (member_cells g.nodes g.order)) cs
    → eligible_nodes (report_revived now (revive_all g cs)).0 now ≢ []
unfolding eligible_nodes
revived_first g now cs c ds e h =
    let (cells, nodes, order) = report_revived-keeps now (revive_all g cs) in
    let (same_nodes, same_order) = revive_all-KeptMembers g cs in
    let ((member, revivable), _) = (rw e at h) in
    rw (cells, nodes, order, same_nodes, same_order)
      (keep_if-nonempty _ c.node (member_cells g.nodes g.order) member
        (rw e (revive_all-first g c ds now revivable)))

revive_found-offers :
    (g : Group) (now : Time) (cs : List RevivalCandidate)
    → All (IsRevivable g now (member_cells g.nodes g.order)) cs
    → cs ≢ []
    → eligible_nodes (revive_found g now cs).0 now ≢ []
unfolding revive_found
revive_found-offers g now [] h k = elim (k refl) [ ]
revive_found-offers g now (c ∷ cs) h k =
    let sorted : All (IsRevivable g now (member_cells g.nodes g.order)) (sort_candidates (c ∷ cs)) =
      unfold sort_candidates in All-stable_sort _ candidate_less (c ∷ cs) h in
    let (n, limited) = some_limit g.policy.blacklist_revival_limit in
    elim (List-cases (sort_candidates (c ∷ cs))) [
      | inl e ↦ elim (sort-nonempty c cs e) [ ]
      | inr (d, ds, e) ↦
          revived_first g now _ d (take n ds) (rw (limited, e) refl) (All-take _ _ _ sorted)
    ]

-- A member that is not dead is a candidate, where no node is eligible.
candidate_found :
    (g : Group) (now : Time) (p : ℕ)
    → In p (member_cells g.nodes g.order)
    → (g.cells p).enabled ≡ true
    → (g.cells p).tombstoned ≡ false
    → is_dead (g.cells p).health ≡ false
    → eligible_nodes g now ≡ []
    → revival_candidates g now 0 (member_cells g.nodes g.order) ≢ []
unfolding eligible_nodes
candidate_found g now p i e t d f = elim (Bool-cases (eligible (g.cells p) now false)) [
  | inl x ↦ elim (keep_if-nonempty _ p (member_cells g.nodes g.order) i x f) [ ]
  | inr x ↦
      some_candidate g now 0 p (member_cells g.nodes g.order) i
        (λ j q. let y = (revival_candidate_iff_not-eligible p (g.cells p) now j e t d).1 q in cc) x
]

-- An unpinned group that has a member which is enabled, not tombstoned and not dead has an eligible
-- node to offer to a connection: one that is eligible already, or one that is revived for it.
pub revive_if_none-offers :
    (g : Group) (now : Time) (p : ℕ)
    → In p (member_cells g.nodes g.order)
    → (g.cells p).enabled ≡ true
    → (g.cells p).tombstoned ≡ false
    → is_dead (g.cells p).health ≡ false
    → eligible_nodes (revive_if_none g now (eligible_nodes g now)) now ≢ []
unfolding revive_if_none revive_blacklisted_nodes
revive_if_none-offers g now p i e t d = elim (List-cases (eligible_nodes g now)) [
  | inr (q, qs, f) ↦ rw f (λ n. cc)
  | inl f ↦ rw f (
      revive_found-offers g now _ (revival_candidates-All g now 0 _)
        (candidate_found g now p i e t d f))
]
