-- ===== src/Service/Reconcile/Completeness.antt =====
-- What runtime_reconcile.go finds affected is exactly what a change of nodes reaches.
use proxy_hub.Prelude.{
  ◌≡◌, ◌↔◌, sym, ap, ◌∙◌, true, false, String, List, [], ◌∷◌, some, inl, inr, Bool-cases, arith, In,
  All,
}
use mathlib.Core.Path.{subst}
use proxy_hub.Prelude.Text.{str_eq, str_eq_iff}
use proxy_hub.ProxyUri.Unique.{has_text}
use proxy_hub.Service.Rows.{
  JsonReader, ProxyNode, ProxyGroup, decode_strings, is_chain_protocol, chain_node_ids,
  chain_group_ids, chain_members,
}
use proxy_hub.Service.Reconcile.Affected.{
  chains_a_node, node_id, Affected, second_loop, affected_by_nodes, loop_fuel,
}
use proxy_hub.Service.Reconcile.Reaching.{
  Reaches, Item, node, group, given, chain_of_node, chain_of_group, group_of_node, group_of_group,
  slices_intersect-has_text, some_in-has_text,
}
use proxy_hub.Service.Reconcile.Spreading.{
  ReachesNode, ReachesGroup, chains_total, IsChained, both, both_true,
}
use proxy_hub.Service.Reconcile.Rounds.{IsClosed, rounds_total}

All-In {ℓ κ} : {A : Type ℓ} (P : A → Type κ) (xs : List A) (a : A) → All P xs → In a xs → P a
All-In P [] a h i = elim i [ ]
All-In P (x ∷ xs) a h (inl e) = subst P (sym e) h.0
All-In P (x ∷ xs) a h (inr i) = All-In P xs a h.1 i

All-has_text {κ} :
    (P : String → Type κ) (xs : List String) (x : String) → All P xs → has_text x xs ≡ true → P x
unfolding has_text
All-has_text P [] x p h = absurd (cc)
All-has_text P (s ∷ xs) x p h = elim (Bool-cases (str_eq s x)) [
  | inl e ↦ subst P ((str_eq_iff s x).0 e) p.0
  | inr e ↦ All-has_text P xs x p.1 (simp e at h)
]

module _ (json : JsonReader) (nodes : List ProxyNode) (groups : List ProxyGroup)
    (changed : List String) where
  -- The result of the two loops: they end, what they find is reached, and it is closed.
  record Outcome (a : Affected) : Type 0 where
    chained : List String
    ends : affected_by_nodes json (loop_fuel json nodes groups) nodes groups changed ≡ some a
    is_chained : IsChained json nodes groups changed chained
    is_closed : IsClosed json nodes groups changed chained a

  affected_by_nodes_total : (a : Affected) × Outcome a
  unfolding affected_by_nodes
  affected_by_nodes_total =
      let fuel = loop_fuel json nodes groups in
      let (s, e, chained) = chains_total json nodes groups changed fuel (omega arith) in
      let (a, f, closed) =
        rounds_total json nodes groups changed s fuel (omega arith)
          (record { nodes = s; groups = [] }) (chained.reached, tt, λ x k. k) (omega arith) in
      (
        a,
        record {
          chained = s;
          ends = ap (second_loop json fuel nodes groups) e ∙ f;
          is_chained = chained;
          is_closed = closed;
        },
      )

  -- No chain has a chain as one of its nodes: the services refuse such a chain when it is saved.
  abbrev pub IsFlat : Type 0
  IsFlat =
      All
        (λ n.
          All
            (λ m.
              is_chain_protocol m.protocol ≡ true → chains_a_node json (node_id m ∷ []) n ≡ false)
            nodes)
        nodes

  -- Whether an item is in the result.
  abbrev pub FoundIn : Affected → Item → Type 0
  FoundIn a (node x) = has_text x a.nodes ≡ true
  FoundIn a (group y) = has_text y a.groups ≡ true

  -- A node that is not a chain is reached only as one that changed.
  not_chain_given :
      (flat : IsFlat) (n : ProxyNode) (x : String)
      → In n nodes
      → chains_a_node json (x ∷ []) n ≡ true
      → ReachesNode json nodes groups changed x
      → has_text x changed ≡ true
  not_chain_given flat n _ i t (given z h) = h
  not_chain_given flat n _ i t (chain_of_node m y j u r) =
      let c = (both (is_chain_protocol m.protocol) _ u).0 in
      let no_chain : chains_a_node json (node_id m ∷ []) n ≡ false =
        All-In _ nodes m (All-In _ nodes n flat i) j c in
      absurd (cc)
  not_chain_given flat n _ i t (chain_of_group m y j u r) =
      let c = (both (is_chain_protocol m.protocol) _ u).0 in
      let no_chain : chains_a_node json (node_id m ∷ []) n ≡ false =
        All-In _ nodes m (All-In _ nodes n flat i) j c in
      absurd (cc)

  chains_in :
      (set : List String) (n : ProxyNode) (x : String)
      → chains_a_node json (x ∷ []) n ≡ true
      → has_text x set ≡ true
      → chains_a_node json set n ≡ true
  chains_in set n x t h =
      let (c, m) = both (is_chain_protocol n.protocol) _ t in
      both_true _ _ c (slices_intersect-has_text (chain_node_ids (chain_members json n)) set x h m)

  complete :
      (flat : IsFlat) (a : Affected) (o : Outcome a) (item : Item)
      → Reaches json nodes groups changed item
      → FoundIn a item
  complete flat a o _ (given x h) = o.is_closed.reached.2 x (o.is_chained.has_changed x h)
  complete flat a o _ (chain_of_node n x i t r) =
      let in_chained = o.is_chained.has_changed x (not_chain_given flat n x i t r) in
      let tested = chains_in o.chained n x t in_chained in
      o.is_closed.reached.2 n.id (All-In _ nodes n o.is_chained.closed i tested)
  complete flat a o _ (chain_of_group n y i t r) =
      let (c, m) = both (is_chain_protocol n.protocol) _ t in
      let found = complete flat a o (group y) r in
      let tested =
        both_true _ _ c
          (slices_intersect-has_text (chain_group_ids (chain_members json n)) a.groups y found m) in
      All-In _ nodes n o.is_closed.chains_of_groups i tested
  complete flat a o _ (group_of_node g x i t r) =
      let found = complete flat a o (node x) r in
      let tested =
        slices_intersect-has_text (decode_strings json g.node_ids_json) a.nodes x found t in
      All-In _ groups g o.is_closed.groups_of_nodes i tested
  complete flat a o _ (group_of_group g y i t r) =
      let found = complete flat a o (group y) r in
      let tested = some_in-has_text (decode_strings json g.group_ids_json) a.groups y found t in
      All-In _ groups g o.is_closed.groups_of_groups i tested

  sound :
      (a : Affected) (o : Outcome a) (item : Item)
      → FoundIn a item
      → Reaches json nodes groups changed item
  sound a o (node x) h =
      All-has_text (ReachesNode json nodes groups changed) a.nodes x o.is_closed.reached.0 h
  sound a o (group y) h =
      All-has_text (ReachesGroup json nodes groups changed) a.groups y o.is_closed.reached.1 h

  -- The loops end, with a number of rounds no more than the nodes and groups and one, and every node
  -- and group that they find is reached from the changed nodes through groups, groups of groups and
  -- chains.
  pub affected_by_nodes_ends :
      (a : Affected) × (affected_by_nodes json (loop_fuel json nodes groups) nodes groups changed
        ≡ some a)
      × ((item : Item) → FoundIn a item → Reaches json nodes groups changed item)
  affected_by_nodes_ends = let (a, o) = affected_by_nodes_total in (a, o.ends, sound a o)

  -- If no chain has a chain as one of its nodes, then what the loops find is exactly what is reached.
  pub affected_by_nodes_iff_Reaches :
      (a : Affected) (item : Item)
      → IsFlat
      → affected_by_nodes json (loop_fuel json nodes groups) nodes groups changed ≡ some a
      → FoundIn a item ↔ Reaches json nodes groups changed item
  affected_by_nodes_iff_Reaches a item flat e =
      let (b, o) = affected_by_nodes_total in
      let q : some b ≡ some a = sym o.ends ∙ e in
      let p : b ≡ a = cc in
      subst (λ a. FoundIn a item ↔ Reaches json nodes groups changed item) p
        (sound b o item, complete flat b o item)
