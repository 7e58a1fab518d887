-- ===== src/Service/Health/ChangeLaws.antt =====
-- How each call that changes the health of nodes evolves their states (health_batcher.go,
-- health.go).
use proxy_hub.Prelude.{
  ℕ, suc, ◌+◌, ◌%◌, ◌^◌, ◌≡◌, refl, inl, inr, true, false, String, List, [], ◌∷◌, Option, none,
  some, Bool-cases, if◌then◌else◌, arith, length, ap, ◌∙◌,
}
use proxy_hub.Prelude.Maps.{Map, lookup, insert, lookup-insert, DistinctKeys, insert-DistinctKeys}
use proxy_hub.Prelude.Text.{str_eq, str_eq_iff, is_empty}
use proxy_hub.ProxyUri.Unique.{unique_non_empty}
use proxy_hub.Singbox.Time.{Time}
use proxy_hub.Service.Health.State.{
  Snapshot, MemoryState, ResultRecord, HealthConfig, Batcher, HistoryEntry, normalize_health_config,
}
use proxy_hub.Service.Health.Record.{
  apply_probe_record, prepare_snapshot, is_duplicate_failure, snapshot_or_empty, snapshot_after,
  summarize_history,
}
use proxy_hub.Service.Health.Store.{facts}
use proxy_hub.Service.Health.Batcher.{
  loaded_state, ensure_snapshot, ensure_memory_state, updated_state, revive_snapshot, revived_state,
  revive_each, record_result, update_state, revive_states, clean_record,
}
use proxy_hub.Service.Health.Changes.{
  Change, recorded, released, blacklisted, excluded, revived, apply_change, apply_changes,
  change_writes, writes, release_snapshot, blacklist_snapshot, exclude_snapshot,
}
use proxy_hub.Service.Health.Window.{
  IsWindowed, Counted, apply_probe_record-IsWindowed, updated_state-IsWindowed,
  revived_state-IsWindowed,
}
use proxy_hub.Service.Health.Evolution.{
  Evolves, Evolves-refl, Evolves-trans, insert-Evolves, IsNamed, facts_of,
}

-- The state names its node, and its counts are those of its window.
abbrev pub IsKept : String → MemoryState → Type 0
IsKept node m = IsNamed node m × IsWindowed node m

abbrev pub AllKept : Map MemoryState → Type 0
AllKept states = (node : String) (m : MemoryState) → lookup node states ≡ some m → IsKept node m

pub prepare_snapshot-node_id :
    (now : Time) (node : String) (o : Option Snapshot) (s : Snapshot)
    → o ≡ some s
    → s.node_id ≡ node
    → (prepare_snapshot now node o).node_id ≡ node
unfolding prepare_snapshot
prepare_snapshot-node_id now node none s e n = cc
prepare_snapshot-node_id now node (some t) s e n =
    let q : t.node_id ≡ node =
      ap (λ (o : Option Snapshot). (snapshot_or_empty node o).node_id) e ∙ n in
    rw q (if_same node)
  where
    if_same : (n : String) → (if is_empty n then n else n) ≡ n
    if_same n = ground arith

abbrev KeptIn : String → Option MemoryState → Type 0
KeptIn node none = Unit {0}
KeptIn node (some m) = IsKept node m

-- One write of a node's state.
abbrev Writes : String → Option MemoryState → MemoryState → Type 0
Writes node o m' = (Evolves 1 o (some m')) × (IsKept node m')

facts_of-prepare :
    (now : Time) (node : String) (o : Option Snapshot) (s : Snapshot)
    → o ≡ some s
    → some (facts (prepare_snapshot now node (some (snapshot_or_empty node o)))) ≡ facts_of o
unfolding prepare_snapshot
facts_of-prepare now node none s e = cc
facts_of-prepare now node (some t) s e = refl

-- A state that is written and named.
dirty-Writes :
    (node : String) (o : Option MemoryState) (m' : MemoryState)
    → m'.dirty ≡ true
    → m'.revision ≡ ((loaded_state node o).revision + 1) % 2 ^ 64
    → IsKept node m'
    → Writes node o m'
dirty-Writes node none m' d r n = (d, n)
dirty-Writes node (some m) m' d r n = (inr (d, 1, omega arith, omega arith, r), n)

ensured_is_node :
    (now : Time) (node : String) (o : Option MemoryState)
    → KeptIn node o
    → (prepare_snapshot now node (ensure_snapshot node (loaded_state node o)).snapshot).node_id
      ≡ node
ensured_is_node now node none n = prepare_snapshot-node_id now node _ _ refl refl
ensured_is_node now node (some m) ((s, e, n), w) =
    prepare_snapshot-node_id now node (some (snapshot_or_empty node m.snapshot))
      (snapshot_or_empty node m.snapshot) refl
      (ap (λ (o : Option Snapshot). (snapshot_or_empty node o).node_id) e ∙ n)

ensured-IsWindowed :
    (node : String) (o : Option MemoryState)
    → KeptIn node o
    → IsWindowed node (ensure_snapshot node (loaded_state node o))
unfolding summarize_history
ensured-IsWindowed node none n = (omega arith, (refl, refl))
ensured-IsWindowed node (some m) (n, w) = w

apply_probe_record-Evolves :
    (now : Time) (node : String) (r : ResultRecord) (cfg : HealthConfig) (o : Option MemoryState)
    → KeptIn node o
    → (Evolves 1 o
        (some (apply_probe_record now node r cfg (ensure_snapshot node (loaded_state node o)))))
      × IsNamed node
          (apply_probe_record now node r cfg (ensure_snapshot node (loaded_state node o)))
unfolding apply_probe_record snapshot_after is_duplicate_failure
apply_probe_record-Evolves now node r cfg none n =
    rw (nothing_repeated r) (refl, (_, refl, ensured_is_node now node none n))
  where
    nothing_repeated : (r : ResultRecord) → is_duplicate_failure [] r ≡ false
    nothing_repeated r = ground arith
apply_probe_record-Evolves now node r cfg (some m) ((s, e, n), w) =
    let is_node = ensured_is_node now node (some m) ((s, e, n), w) in
    elim (Bool-cases (is_duplicate_failure m.history r)) [
      | inl d ↦ rw d (
        inl (ap (λ x. record m { snapshot = x }) (facts_of-prepare now node m.snapshot s e)),
        (_, refl, is_node),
      )
      | inr d ↦ rw d (inr (refl, 1, omega arith, omega arith, refl), (_, refl, is_node))
    ]

apply_probe_record-Writes :
    (now : Time) (node : String) (r : ResultRecord) (cfg : HealthConfig) (o : Option MemoryState)
    → KeptIn node o
    → Writes node o (apply_probe_record now node r cfg (ensure_snapshot node (loaded_state node o)))
apply_probe_record-Writes now node r cfg o n =
    let m = ensure_snapshot node (loaded_state node o) in
    let w = apply_probe_record-IsWindowed now node r cfg m (ensured-IsWindowed node o n) in
    let (e, i) = apply_probe_record-Evolves now node r cfg o n in (e, (i, w))

abbrev KeepsCounts : (Snapshot → Snapshot) → Type 0
KeepsCounts f = (s : Snapshot) (h : List HistoryEntry) → Counted s h → Counted (f s) h

updated_state-Writes :
    (now : Time) (node : String) (f : Snapshot → Snapshot) (o : Option MemoryState)
    → ((s : Snapshot) → (f s).node_id ≡ s.node_id)
    → KeepsCounts f
    → KeptIn node o
    → Writes node o (updated_state now node f (ensure_snapshot node (loaded_state node o)))
updated_state-Writes now node f o keeps counts n = dirty-Writes node o _ refl refl (
  (_, refl, keeps _ ∙ ensured_is_node now node o n),
  updated_state-IsWindowed now node f (ensure_snapshot node (loaded_state node o)) counts
      (ensured-IsWindowed node o n),
)

revived_state-Writes :
    (now : Time) (node : String) (o : Option MemoryState)
    → KeptIn node o
    → Writes node o (revived_state now node (ensure_snapshot node (loaded_state node o)))
revived_state-Writes now node o n =
    let m = ensure_snapshot node (loaded_state node o) in
    dirty-Writes node o (revived_state now node m) refl refl (
      (revive_snapshot now node (snapshot_or_empty node m.snapshot), refl, refl),
      revived_state-IsWindowed now node m (ensured-IsWindowed node o n),
    )

-- From the one map to the other at most `k` writes lead, all under the names of the nodes.
pub record Evolution (k : ℕ) (before after : Map MemoryState) : Type 0 where
  pub evolves : (node : String) → Evolves k (lookup node before) (lookup node after)
  pub kept : AllKept after
  pub keys : DistinctKeys before → DistinctKeys after

lookup_is_KeptIn :
    (states : Map MemoryState) (node : String) → AllKept states → KeptIn node (lookup node states)
lookup_is_KeptIn states node all = at (lookup node states) (all node)
  where
    at : (o : Option MemoryState) → ((m : MemoryState) → o ≡ some m → IsKept node m) → KeptIn node o
    at none h = tt
    at (some m) h = h m refl

insert-Evolution :
    (node : String) (m : MemoryState) (states : Map MemoryState)
    → AllKept states
    → Writes node (lookup node states) m
    → Evolution 1 states (insert node m states)
insert-Evolution node m states all w = record {
  evolves = λ other. insert-Evolves 1 node other m states w.0;
  kept = λ other m' e. elim (Bool-cases (str_eq node other)) [
    | inl same ↦
        let f : some m ≡ some m' = rw (lookup-insert node other m states, same) at e in
        let g : m ≡ m' = cc in rw (← g, ← (str_eq_iff node other).0 same) w.1
    | inr apart ↦
        let f : lookup other states ≡ some m' =
          rw (lookup-insert node other m states, apart) at e in
        all other m' f
  ];
  keys = insert-DistinctKeys node m states;
}

refl-Evolution : (states : Map MemoryState) → AllKept states → Evolution 0 states states
refl-Evolution states all = record {
  evolves = λ node. Evolves-refl (lookup node states);
  kept = all;
  keys = λ k. k;
}

pub trans-Evolution :
    (k l : ℕ) (a b c : Map MemoryState) → Evolution k a b → Evolution l b c → Evolution (k + l) a c
trans-Evolution k l a b c p q = record {
  evolves = λ node.
      Evolves-trans k l (lookup node a) (lookup node b) (lookup node c) (p.evolves node)
        (q.evolves node);
  kept = q.kept;
  keys = λ k. q.keys (p.keys k);
}

record_result-Evolution :
    (now : Time) (cfg : HealthConfig) (node : String) (r : ResultRecord) (b : Batcher)
    → AllKept b.states
    → Evolution 1 b.states (record_result now cfg node r b).states
unfolding record_result ensure_memory_state
record_result-Evolution now cfg node r b all = insert-Evolution node _ b.states all (
    apply_probe_record-Writes now node (clean_record now r) (normalize_health_config cfg) _
      (lookup_is_KeptIn b.states node all))

update_state-Evolution :
    (now : Time) (f : Snapshot → Snapshot) (node : String) (b : Batcher)
    → ((s : Snapshot) → (f s).node_id ≡ s.node_id)
    → KeepsCounts f
    → AllKept b.states
    → Evolution 1 b.states (update_state now f node b).states
unfolding update_state ensure_memory_state
update_state-Evolution now f node b keeps counts all =
    insert-Evolution node _ b.states all
      (updated_state-Writes now node f _ keeps counts (lookup_is_KeptIn b.states node all))

revive_each-Evolution :
    (now : Time) (nodes : List String) (states : Map MemoryState)
    → AllKept states
    → Evolution (length nodes) states (revive_each now nodes states)
unfolding revive_each ensure_memory_state
revive_each-Evolution now [] states all = refl-Evolution states all
revive_each-Evolution now (node ∷ nodes) states all =
    let m = revived_state now node (ensure_memory_state states node) in
    let known = lookup_is_KeptIn states node all in
    let first = insert-Evolution node m states all (revived_state-Writes now node _ known) in
    let rest = revive_each-Evolution now nodes (insert node m states) first.kept in
    let one : suc (length nodes) ≡ 1 + length nodes = omega arith in
    rw one (trans-Evolution 1 (length nodes) states (insert node m states) _ first rest)

apply_change-Evolution :
    (now : Time) (c : Change) (b : Batcher)
    → AllKept b.states
    → Evolution (change_writes c) b.states (apply_change now c b).states
unfolding apply_change change_writes revive_states
apply_change-Evolution now (recorded cfg node r) b all =
    record_result-Evolution now cfg node r b all
apply_change-Evolution now (released node) b all =
    update_state-Evolution now release_snapshot node b (λ s. refl) (λ s h c. c) all
apply_change-Evolution now (blacklisted duration node) b all =
    update_state-Evolution now (blacklist_snapshot now duration) node b (λ s. refl) (λ s h c. c) all
apply_change-Evolution now (excluded cfg error node) b all =
    update_state-Evolution now (exclude_snapshot now cfg error) node b (λ s. refl) (λ s h c. c) all
apply_change-Evolution now (revived nodes) b all =
    revive_each-Evolution now (unique_non_empty nodes) b.states all

pub apply_changes-Evolution :
    (cs : List (Time × Change)) (b : Batcher)
    → AllKept b.states
    → Evolution (writes cs) b.states (apply_changes cs b).states
unfolding apply_changes writes
apply_changes-Evolution [] b all = refl-Evolution b.states all
apply_changes-Evolution ((now, c) ∷ cs) b all =
    let first = apply_change-Evolution now c b all in
    let rest = apply_changes-Evolution cs (apply_change now c b) first.kept in
    trans-Evolution (change_writes c) (writes cs) b.states (apply_change now c b).states
      (apply_changes cs (apply_change now c b)).states first rest
