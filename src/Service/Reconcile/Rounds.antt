-- ===== src/Service/Reconcile/Rounds.antt =====
-- The second loop of runtime_reconcile.go: its rounds, and the sets that its last round leaves.
use proxy_hub.Prelude.{
  ℕ, ◌+◌, ◌<◌, ◌≤◌, ◌==◌, ◌≡◌, ◌⊎◌, refl, sym, ap, ◌∙◌, Bool, true, false, not, ◌||◌, String, List,
  map, some, inl, inr, arith, All, length,
}
use mathlib.Core.Path.{subst}
use proxy_hub.ProxyUri.Unique.{has_text}
use proxy_hub.Service.Rows.{JsonReader, ProxyNode, ProxyGroup}
use proxy_hub.Service.Reconcile.Closure.{sweep, saturate, missing, Grows}
use proxy_hub.Service.Reconcile.Sweeping.{
  sweep-All, sweep-le, sweep-has_text, sweep-unchanged, sweep-Grows, saturate_total,
}
use proxy_hub.Service.Reconcile.Affected.{
  chains_a_group, holds_a_node, holds_a_group, node_id, group_id, Affected, affected_round,
  finish_round,
}
use proxy_hub.Service.Reconcile.Spreading.{
  ReachesNode, ReachesGroup, All-named, missing-le, expand_total, IsExpanded, holds_a_node-Reaches,
  chains_a_group-Reaches,
}

one_of_three : (a b c : Bool) → (a || b || c) ≡ true → (a ≡ true) ⊎ ((b ≡ true) ⊎ (c ≡ true))
one_of_three true b c h = inl refl
one_of_three false true c h = inr (inl refl)
one_of_three false false c h = inr (inr h)

none_of_three : (a b c : Bool) → (a || b || c) ≡ false → (a ≡ false) × (b ≡ false) × (c ≡ false)
none_of_three true b c h = cc
none_of_three false true c h = cc
none_of_three false false c h = (refl, refl, h)

-- An expansion that makes the set no longer makes it no larger.
expansion_measure :
    (ids s t : List String)
    → (t ≡ s) ⊎ Grows ids s t
    → (missing ids t ≤ missing ids s)
      × ((length t == length s) ≡ false → missing ids t < missing ids s)
      × ((length t == length s) ≡ true → t ≡ s)
expansion_measure ids s t (inl e) =
    let l : length t ≡ length s = ap length e in
    let m : missing ids t ≡ missing ids s = ap (missing ids) e in
    (omega arith, (λ n. absurd (ground arith)), λ y. e)
expansion_measure ids s t (inr (l, m)) = (omega arith, (λ n. m), λ y. absurd (ground arith))

module _ (json : JsonReader) (nodes : List ProxyNode) (groups : List ProxyGroup)
    (changed : List String) (chained : List String) where
  abbrev pub Reached : Affected → Type 0
  Reached a =
      All (ReachesNode json nodes groups changed) a.nodes
      × All (ReachesGroup json nodes groups changed) a.groups
      × ((x : String) → has_text x chained ≡ true → has_text x a.nodes ≡ true)

  -- Nothing more is affected through a group or by a chain of one.
  pub record IsClosed (a : Affected) : Type 0 where
    pub reached : Reached a
    pub groups_of_nodes :
        All (λ g. holds_a_node json a.nodes g ≡ true → has_text (group_id g) a.groups ≡ true) groups
    pub groups_of_groups :
        All
          (λ g. holds_a_group json a.groups g ≡ true → has_text (group_id g) a.groups ≡ true)
          groups
    pub chains_of_groups :
        All (λ n. chains_a_group json a.groups n ≡ true → has_text (node_id n) a.nodes ≡ true) nodes

  abbrev by_nodes : Affected → ProxyGroup → List String → Bool
  by_nodes a g t = holds_a_node json a.nodes g

  abbrev by_groups : List String → ProxyNode → List String → Bool
  by_groups expanded n t = chains_a_group json expanded n

  abbrev measure : Affected → ℕ
  measure a = missing (map node_id nodes) a.nodes + missing (map group_id groups) a.groups

  found-Reached :
      (a : Affected)
      → Reached a
      → All (ReachesGroup json nodes groups changed) (sweep group_id (by_nodes a) groups a.groups).0
  found-Reached a (r, g, k) =
      sweep-All group_id (by_nodes a) (ReachesGroup json nodes groups changed) groups a.groups
        (λ h t i p q. holds_a_node-Reaches json nodes groups changed h a.nodes i r q) g

  -- A round lowers the measure if one of its three parts grows a set.
  round_lowers :
      (a : Affected) (expanded : List String)
      → IsExpanded json nodes groups changed
          (sweep group_id (by_nodes a) groups a.groups).0
          expanded
      → (finish_round json nodes a (sweep group_id (by_nodes a) groups a.groups) expanded).1 ≡ true
      → measure (finish_round json nodes a (sweep group_id (by_nodes a) groups a.groups) expanded).0
        < measure a
  round_lowers a expanded ex h =
      let found = sweep group_id (by_nodes a) groups a.groups in
      let after = sweep node_id (by_groups expanded) nodes a.nodes in
      let gids = map group_id groups in
      let nids = map node_id nodes in
      let first = sweep-le group_id (by_nodes a) gids groups a.groups in
      let second = expansion_measure gids found.0 expanded ex.grown in
      let third = sweep-le node_id (by_groups expanded) nids nodes a.nodes in
      elim (one_of_three found.1 (not (length expanded == length found.0)) after.1 h) [
        | inl c ↦
            let g =
              sweep-Grows group_id (by_nodes a) gids groups a.groups (All-named group_id groups)
                c in
            omega (arith, first, second.0, third, g)
        | inr (inl c) ↦
            let d : (length expanded == length found.0) ≡ false = ground arith in
            let g = second.1 d in omega (arith, first, third, g)
        | inr (inr c) ↦
            let g =
              sweep-Grows node_id (by_groups expanded) nids nodes a.nodes (All-named node_id nodes)
                c in
            omega (arith, first, second.0, g)
      ]

  -- A round that changes nothing is the last, and what it leaves is closed.
  last_round :
      (a : Affected) (expanded : List String)
      → Reached a
      → IsExpanded json nodes groups changed
          (sweep group_id (by_nodes a) groups a.groups).0
          expanded
      → (finish_round json nodes a (sweep group_id (by_nodes a) groups a.groups) expanded).1 ≡ false
      → IsClosed
          (finish_round json nodes a (sweep group_id (by_nodes a) groups a.groups) expanded).0
  last_round a expanded r ex h =
      let found = sweep group_id (by_nodes a) groups a.groups in
      let after = sweep node_id (by_groups expanded) nodes a.nodes in
      let (c, d, e) = none_of_three found.1 (not (length expanded == length found.0)) after.1 h in
      let (same_found, all_found) = sweep-unchanged group_id (by_nodes a) groups a.groups c in
      let (same_nodes, all_nodes) = sweep-unchanged node_id (by_groups expanded) nodes a.nodes e in
      let lengths : (length expanded == length found.0) ≡ true = ground arith in
      let same : expanded ≡ found.0 =
        (expansion_measure (map group_id groups) found.0 expanded ex.grown).2 lengths in
      let back : a.groups ≡ expanded = sym same_found ∙ sym same in
      let nodes_back : a.nodes ≡ after.0 = sym same_nodes in
      record {
        reached = (
          subst (All (ReachesNode json nodes groups changed)) nodes_back r.0,
          ex.reached,
          λ x k. subst (λ s. has_text x s ≡ true) nodes_back (r.2 x k),
        );
        groups_of_nodes =
            subst
              (λ s.
                All (λ g. holds_a_node json after.0 g ≡ true → has_text (group_id g) s ≡ true)
                  groups)
              back
              (subst
                (λ s.
                  All (λ g. holds_a_node json s g ≡ true → has_text (group_id g) a.groups ≡ true)
                    groups)
                nodes_back all_found);
        groups_of_groups = ex.closed;
        chains_of_groups =
            subst
              (λ s.
                All (λ n. chains_a_group json expanded n ≡ true → has_text (node_id n) s ≡ true)
                  nodes)
              nodes_back all_nodes;
      }

  module _ (fuel : ℕ) (enough : length groups < fuel) where
    one_round :
        (a : Affected)
        → Reached a
        → (expanded : List String) × (affected_round json fuel nodes groups a
            ≡ some
                (finish_round json nodes a (sweep group_id (by_nodes a) groups a.groups) expanded))
          × IsExpanded json nodes groups changed
              (sweep group_id (by_nodes a) groups a.groups).0
              expanded
    unfolding affected_round
    one_round a r =
        let found = sweep group_id (by_nodes a) groups a.groups in
        let (expanded, e, ex) =
          expand_total json nodes groups changed fuel found.0 enough (found-Reached a r) in
        (expanded, simp e, ex)

    round_keeps :
        (a : Affected)
        → Reached a
        → (t : Affected) × (c : Bool) × (affected_round json fuel nodes groups a ≡ some (t, c))
          × Reached t
          × (c ≡ true → measure t < measure a)
    round_keeps a r =
        let (expanded, e, ex) = one_round a r in
        let t = finish_round json nodes a (sweep group_id (by_nodes a) groups a.groups) expanded in
        (
          t.0,
          t.1,
          e,
          (
            sweep-All node_id (by_groups expanded) (ReachesNode json nodes groups changed) nodes
                a.nodes
                (λ n s i p q.
                  chains_a_group-Reaches json nodes groups changed n expanded i ex.reached q)
                r.0,
            ex.reached,
            λ x k. sweep-has_text node_id (by_groups expanded) nodes a.nodes x (r.2 x k),
          ),
          round_lowers a expanded ex,
        )

    round_closes :
        (a t : Affected)
        → Reached a
        → affected_round json fuel nodes groups a ≡ some (t, false)
        → IsClosed t
    round_closes a t r h =
        let (expanded, e, ex) = one_round a r in
        let s = finish_round json nodes a (sweep group_id (by_nodes a) groups a.groups) expanded in
        let q : some s ≡ some (t, false) = sym e ∙ h in
        let p : s ≡ (t, false) = cc in
        let still : s.1 ≡ false = ap (λ (p : Affected × Bool). p.1) p in
        subst IsClosed (ap (λ (p : Affected × Bool). p.0) p) (last_round a expanded r ex still)

    pub rounds_total :
        (a : Affected)
        → Reached a
        → length nodes + length groups < fuel
        → (t : Affected) × (saturate (affected_round json fuel nodes groups) fuel a ≡ some t)
          × IsClosed t
    rounds_total a r few =
        let n = missing-le node_id nodes a.nodes in
        let g = missing-le group_id groups a.groups in
        let (last, t, e, p, q, f) =
          saturate_total (affected_round json fuel nodes groups) Reached measure round_keeps fuel a
            r (omega arith) in
        (t, e, round_closes last t p f)
