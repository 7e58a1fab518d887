-- ===== src/Singbox/Group/Selection.antt =====
-- core/singboxcore/group.go: the selected node after a change, and what a disabled or a removed
-- node is left with.
use proxy_hub.Prelude.{
  ℕ, ◌≡◌, refl, sym, ap, ◌∙◌, ◌⊎◌, inl, inr, true, false, String, none, some, List, [], ◌∷◌, arith,
  Bool-cases, All,
}
use proxy_hub.Prelude.Int.{pos}
use proxy_hub.Prelude.Maps.{Map, lookup, lookup-delete}
use proxy_hub.Prelude.Text.{str_eq, trim_space}
use proxy_hub.Singbox.Time.{Time, Duration}
use proxy_hub.Singbox.Errors.{Result, ok}
use proxy_hub.Singbox.Node.State.{NodeState, unregister_connection, dec_active}
use proxy_hub.Singbox.Node.Marks.{mark_tombstone}
use proxy_hub.Singbox.Node.Revival.{remove_ready}
use proxy_hub.Singbox.Group.State.{
  Group, Clock, after_readings, find_node, modify_cell, modify_conn, release_active,
  close_connection, close_connections, close_active_connections, is_eligible, first_eligible,
  ensure_selected,
}
use proxy_hub.Singbox.Group.Members.{drop_member, collect, gc, remove_node}
use proxy_hub.Singbox.Group.Ledger.{open_at, close_active_connections-none}
use proxy_hub.Singbox.Group.Soundness.{
  IsSound, ensure_selected-SameStore, close_active_connections-SameMembers, Keeps,
  modify_cell-IsSound,
}

first_eligible_lem :
    (g : Group) (now : Time) (ids : List String)
    → (is_eligible g now (first_eligible g now ids) ≡ true)
      ⊎ ((first_eligible g now ids ≡ "") × All (λ id. is_eligible g now id ≡ false) ids)
unfolding first_eligible
first_eligible_lem g now [] = inr (refl, tt)
first_eligible_lem g now (id ∷ ids) = elim (Bool-cases (is_eligible g now id)) [
  | inl e ↦ inl (rw (e, first_eligible) e)
  | inr e ↦ elim (first_eligible_lem g now ids) [
    | inl f ↦ inl (rw (e, first_eligible) f)
    | inr (f, a) ↦ inr (rw (e, first_eligible) f, (e, a))
  ]
]

-- Where no node is pinned, the selected node is eligible after ensureSelected, or none is selected
-- and no node in the group's order is eligible; a selected node that is eligible is kept. Where a
-- node is pinned, the selection stays as it is.
pub ensure_selected_lem :
    (g : Group) (now : Time)
    → (g.policy.force_selected ≡ false
        → (is_eligible g now (ensure_selected g now).selected ≡ true)
          ⊎ (((ensure_selected g now).selected ≡ "")
              × All (λ id. is_eligible g now id ≡ false) g.order))
      × (is_eligible g now g.selected ≡ true → (ensure_selected g now).selected ≡ g.selected)
      × (g.policy.force_selected ≡ true → (ensure_selected g now).selected ≡ g.selected)
unfolding ensure_selected
ensure_selected_lem g now = (chosen, λ e. ground arith, λ f. ground arith)
  where
    chosen :
        g.policy.force_selected ≡ false
        → (is_eligible g now (ensure_selected g now).selected ≡ true)
          ⊎ (((ensure_selected g now).selected ≡ "")
              × All (λ id. is_eligible g now id ≡ false) g.order)
    chosen f = elim (Bool-cases (is_eligible g now g.selected)) [
      | inl e ↦ inl (ground arith)
      | inr e ↦ elim (first_eligible_lem g now g.order) [
        | inl k ↦ inl (ground (arith, k))
        | inr (k, a) ↦ inr (ground (arith, k), a)
      ]
    ]

-- Closing connections changes nothing of a node but its connections and their count.
abbrev SameButOpen : NodeState → NodeState → Type 0
SameButOpen n m =
    (m.enabled ≡ n.enabled) × (m.tombstoned ≡ n.tombstoned) × (m.remove_after ≡ n.remove_after)

close_connection-SameButOpen :
    (g : Group) (c p : ℕ) → SameButOpen (g.cells p) ((close_connection g c).cells p)
unfolding close_connection release_active modify_conn modify_cell dec_active unregister_connection
close_connection-SameButOpen g c p = (ground arith, ground arith, ground arith)

close_connections-SameButOpen :
    (g : Group) (cs : List ℕ) (p : ℕ) → SameButOpen (g.cells p) ((close_connections g cs).cells p)
unfolding close_connections
close_connections-SameButOpen g [] p = (refl, refl, refl)
close_connections-SameButOpen g (c ∷ cs) p = ground (
  arith,
  close_connection-SameButOpen g c p,
  close_connections-SameButOpen (close_connection g c) cs p,
)

close_active_connections-SameButOpen :
    (g : Group) (p q : ℕ) → SameButOpen (g.cells q) ((close_active_connections g p).cells q)
unfolding close_active_connections
close_active_connections-SameButOpen g p q = close_connections-SameButOpen g (open_at g p) q

modify_cell_self :
    (g : Group) (p : ℕ) (f : NodeState → NodeState) → (modify_cell g p f).cells p ≡ f (g.cells p)
unfolding modify_cell
modify_cell_self g p f = ground arith

-- A change of one node, the closing of its connections, and a new selection.
settled_lem :
    (g : Group) (p : ℕ) (f : NodeState → NodeState) (now : Time)
    → Keeps (g.cells p) (f (g.cells p))
    → IsSound g
    → let g' = ensure_selected (close_active_connections (modify_cell g p f) p) now in
      (open_at g' p ≡ [])
      × ((g'.cells p).active_count ≡ pos 0)
      × SameButOpen (f (g.cells p)) (g'.cells p)
      × (g'.nodes ≡ g.nodes)
settled_lem g p f now k h =
    let changed = modify_cell g p f in
    let closed = close_active_connections changed p in
    let same = ensure_selected-SameStore closed now in
    let (none_open, counted, _) =
      close_active_connections-none changed p (modify_cell-IsSound g p f k h).ledger in
    let (e, t, r) = close_active_connections-SameButOpen changed p p in
    rw (same.cells, same.nodes)
      (
        none_open,
        counted,
        (
          e ∙ ap (λ (n : NodeState). n.enabled) (modify_cell_self g p f),
          t ∙ ap (λ (n : NodeState). n.tombstoned) (modify_cell_self g p f),
          r ∙ ap (λ (n : NodeState). n.remove_after) (modify_cell_self g p f),
        ),
        (close_active_connections-SameMembers changed p).nodes ∙ (unfold modify_cell in refl),
      )

ok-injective {ℓ} : {A : Type ℓ} {a b : A} → Result.ok a ≡ Result.ok b → a ≡ b
ok-injective h = cc

-- Entries that may go are gone from the map.
collect-nodes :
    (g : Group) (now : Time) (entries : Map ℕ) (id : String)
    → lookup id g.nodes ≡ none
    → lookup id (collect g now entries).0.nodes ≡ none
unfolding collect
collect-nodes g now [] id e = e
collect-nodes g now ((j, q) ∷ entries) id e = elim (Bool-cases (remove_ready (g.cells q) now)) [
  | inl f ↦
      rw (f, collect)
        (collect-nodes (drop_member g j) now entries id
          (ground (arith, lookup-delete j id g.nodes)))
  | inr f ↦ rw (f, collect) (collect-nodes g now entries id e)
]

collect_ready :
    (g : Group) (now : Time) (entries : Map ℕ) (id : String) (p : ℕ)
    → lookup id entries ≡ some p
    → remove_ready (g.cells p) now ≡ true
    → lookup id (collect g now entries).0.nodes ≡ none
unfolding collect lookup
collect_ready g now [] id p e r = cc
collect_ready g now ((j, q) ∷ entries) id p e r = elim (Bool-cases (str_eq j id)) [
  | inl f ↦
      let same : q ≡ p = ground arith in
      let ready : remove_ready (g.cells q) now ≡ true = rw same r in
      rw (ready, collect)
        (collect-nodes (drop_member g j) now entries id (lookup-delete j id g.nodes ∙ ground arith))
  | inr f ↦
      let rest : lookup id entries ≡ some p = ground arith in
      elim (Bool-cases (remove_ready (g.cells q) now)) [
        | inl k ↦ rw (k, collect) (collect_ready (drop_member g j) now entries id p rest r)
        | inr k ↦ rw (k, collect) (collect_ready g now entries id p rest r)
      ]
]

-- A tombstoned node with no connection may go at any time.
remove_ready_idle :
    (n : NodeState) (now : Time)
    → n.tombstoned ≡ true
    → n.active_count ≡ pos 0
    → remove_ready n now ≡ true
unfolding remove_ready
remove_ready_idle n now t c = ground arith

mark_tombstone_lem :
    (n : NodeState) (ttl : Duration) (now : Time)
    → Keeps n (mark_tombstone n ttl now) × ((mark_tombstone n ttl now).tombstoned ≡ true)
unfolding mark_tombstone
mark_tombstone_lem n ttl now = (ground arith, ground arith)

collect-cells :
    (g : Group) (now : Time) (entries : Map ℕ) → (collect g now entries).0.cells ≡ g.cells
unfolding collect
collect-cells g now [] = refl
collect-cells g now ((j, q) ∷ entries) = elim (Bool-cases (remove_ready (g.cells q) now)) [
  | inl f ↦ rw (f, collect) (collect-cells (drop_member g j) now entries)
  | inr f ↦ rw (f, collect) (collect-cells g now entries)
]

-- A member of a sound group that is removed is gone from the group when RemoveNode returns, whatever
-- the TTL and the clock, and its node has no connection left and a count of zero.
pub remove_node_lem :
    (g g' : Group) (id : String) (p : ℕ) (ttl : Duration) (clock : Clock)
    (ready : List (List String))
    → IsSound g
    → find_node g id ≡ some p
    → remove_node g id ttl clock ≡ ok (g', ready)
    → (find_node g' id ≡ none) × (open_at g' p ≡ []) × ((g'.cells p).active_count ≡ pos 0)
unfolding remove_node gc find_node
remove_node_lem g g' id p ttl clock ready h f k =
    let mark : NodeState → NodeState = λ n. mark_tombstone n ttl (clock 0) in
    let (kept, marked) = mark_tombstone_lem (g.cells p) ttl (clock 0) in
    let settled = ensure_selected (close_active_connections (modify_cell g p mark) p) (clock 1) in
    let (none_open, idle, (_, tombstoned, _), nodes) = settled_lem g p mark (clock 1) kept h in
    let collected = (collect settled (clock 2) settled.nodes).0 in
    let gone : lookup (trim_space id) collected.nodes ≡ none =
      collect_ready settled (clock 2) settled.nodes (trim_space id) p (rw nodes f)
        (remove_ready_idle (settled.cells p) (clock 2) (tombstoned ∙ marked) idle) in
    let made : gc settled (after_readings 2 clock) ≡ (g', ready) =
      ok-injective (rw (f, remove_node) at k) in
    let last = ensure_selected-SameStore collected (clock 3) in
    let nodes' : g'.nodes ≡ collected.nodes =
      ap (λ (r : Group × List (List String)). r.0.nodes) (sym made) ∙ last.nodes in
    let cells' : g'.cells ≡ settled.cells =
      ap (λ (r : Group × List (List String)). r.0.cells) (sym made)
      ∙ last.cells
      ∙ collect-cells settled (clock 2) settled.nodes in
    (
      rw nodes' gone,
      ap (λ (cells : ℕ → NodeState). (cells p).active_connections) cells' ∙ none_open,
      ap (λ (cells : ℕ → NodeState). (cells p).active_count) cells' ∙ idle,
    )
