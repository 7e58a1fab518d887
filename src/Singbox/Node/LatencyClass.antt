-- ===== src/Singbox/Node/LatencyClass.antt =====
-- core/singboxcore/node.go: the latency class of a node (candidate, stale fallback, slow), over
-- every method that changes a node.
use proxy_hub.Prelude.{
  ℕ, suc, ◌+◌, ◌≡◌, Bool, true, false, String, List, [], ◌∷◌, arith, if◌then◌else◌, length,
}
use proxy_hub.Prelude.Int.{ℤ, is_positive, ltb_ℤ}
use proxy_hub.Singbox.Time.{Time, Duration}
use proxy_hub.Singbox.Node.State.{
  Outbound, NodeState, new_node_state, set_latency, dec_active, register_connection,
  unregister_connection, disable, enable,
}
use proxy_hub.Singbox.Node.Marks.{
  ProbeFailurePolicy, mark_alive, mark_failed, mark_tombstone, reaches, record_probe_success,
  record_probe_failure, record_traffic_failure, mark_probe_running,
}
use proxy_hub.Singbox.Node.Revival.{revive_blacklist}

-- The calls that change a node.
pub data NodeCall : Type 0 where
  set_latency_to : Duration → NodeCall
  registers : ℕ → Bool → Time → NodeCall
  unregisters : ℕ → NodeCall
  dec_actives disables enables marks_alive revives : NodeCall
  marks_failed : Duration → String → Time → NodeCall
  marks_tombstone : Duration → Time → NodeCall
  probe_succeeds : Duration → Duration → ℤ → Time → NodeCall
  probe_fails : String → Time → ProbeFailurePolicy → NodeCall
  traffic_fails : String → Time → ProbeFailurePolicy → NodeCall
  probe_starts : Time → NodeCall

pub call_node : NodeState → NodeCall → NodeState
call_node n (set_latency_to d) = set_latency n d
call_node n (registers c ignore now) = (register_connection n c ignore now).0
call_node n (unregisters c) = unregister_connection n c
call_node n dec_actives = dec_active n
call_node n disables = disable n
call_node n enables = enable n
call_node n marks_alive = mark_alive n
call_node n revives = (revive_blacklist n).0
call_node n (marks_failed ttl reason now) = mark_failed n ttl reason now
call_node n (marks_tombstone ttl now) = mark_tombstone n ttl now
call_node n (probe_succeeds latency most slow now) = record_probe_success n latency most slow now
call_node n (probe_fails reason now policy) = record_probe_failure n reason now policy
call_node n (traffic_fails reason now policy) = (record_traffic_failure n reason now policy).0
call_node n (probe_starts now) = mark_probe_running n now

pub call_all : NodeState → List NodeCall → NodeState
call_all n [] = n
call_all n (c ∷ cs) = call_all (call_node n c) cs

-- A latency candidate has no failure counted and is no stale fallback, and a probe start is kept
-- only while the probe runs.
pub record IsClassified (n : NodeState) : Type 0 where
  pub candidate_fresh : n.latency_candidate ≡ true → n.stale_fallback ≡ false
  pub candidate_sound : n.latency_candidate ≡ true → n.failure_count ≡ 0
  pub idle_unstarted : n.probe_running ≡ false → n.probe_started_at ≡ 0

call_node-IsClassified :
    (n : NodeState) (c : NodeCall) → IsClassified n → IsClassified (call_node n c)
unfolding call_node set_latency register_connection unregister_connection dec_active disable enable
    mark_alive revive_blacklist mark_failed mark_tombstone record_probe_success record_probe_failure
    record_traffic_failure mark_probe_running
call_node-IsClassified n (set_latency_to d) h = ground arith
call_node-IsClassified n _ h = ground arith

call_all-IsClassified :
    (n : NodeState) (cs : List NodeCall) → IsClassified n → IsClassified (call_all n cs)
unfolding call_all
call_all-IsClassified n [] h = h
call_all-IsClassified n (c ∷ cs) h =
    call_all-IsClassified (call_node n c) cs (call_node-IsClassified n c h)

-- After any calls of its methods on a new node: a latency candidate has no failure counted and is no
-- stale fallback, and a node whose probe does not run has no start of a probe.
pub new_node_state-IsClassified :
    (id tag : String) (o : Outbound) (cs : List NodeCall)
    → IsClassified (call_all (new_node_state id tag o) cs)
unfolding new_node_state
new_node_state-IsClassified id tag o cs =
    call_all-IsClassified (new_node_state id tag o) cs (ground arith)

-- Slow answers, one after another: the latency and the time of each.
pub slow_all : Duration → ℤ → NodeState → List (Duration × Time) → NodeState
slow_all most threshold n [] = n
slow_all most threshold n ((latency, now) ∷ ls) =
    slow_all most threshold (record_probe_success n latency most threshold now) ls

abbrev pub AllSlow : Duration → List (Duration × Time) → Type 0
AllSlow most [] = Unit {0}
AllSlow most ((latency, now) ∷ ls) = (ltb_ℤ most latency ≡ true) × AllSlow most ls

slow_lem :
    (most : Duration) (threshold : ℤ) (n : NodeState) (latency : Duration) (now : Time)
    → is_positive most ≡ true
    → is_positive threshold ≡ true
    → ltb_ℤ most latency ≡ true
    → ((record_probe_success n latency most threshold now).slow_count ≡ suc n.slow_count)
      × ((record_probe_success n latency most threshold now).latency_candidate
          ≡ (if reaches (suc n.slow_count) threshold then false else n.latency_candidate))
unfolding record_probe_success
slow_lem most threshold n latency now m t s = (ground arith, ground arith)

fast_lem :
    (most : Duration) (threshold : ℤ) (n : NodeState) (fast : Duration) (now : Time)
    → is_positive most ≡ true
    → ltb_ℤ most fast ≡ false
    → ((record_probe_success n fast most threshold now).latency_candidate ≡ true)
      × ((record_probe_success n fast most threshold now).slow_count ≡ 0)
unfolding record_probe_success
fast_lem most threshold n fast now m f = (ground arith, ground arith)

slow_all_lem :
    (most : Duration) (threshold : ℤ) (n : NodeState) (l : Duration × Time)
    (ls : List (Duration × Time))
    → is_positive most ≡ true
    → is_positive threshold ≡ true
    → AllSlow most (l ∷ ls)
    → ((slow_all most threshold n (l ∷ ls)).slow_count ≡ n.slow_count + length (l ∷ ls))
      × ((slow_all most threshold n (l ∷ ls)).latency_candidate ≡ (
          if reaches (n.slow_count + length (l ∷ ls)) threshold
          then false
          else n.latency_candidate))
unfolding slow_all
slow_all_lem most threshold n (latency, at) [] m t h =
    ground (arith, slow_lem most threshold n latency at m t h.0)
slow_all_lem most threshold n (latency, at) (l ∷ ls) m t h = ground (
  arith,
  slow_lem most threshold n latency at m t h.0,
  slow_all_lem most threshold (record_probe_success n latency most threshold at) l ls m t h.1,
)

-- With a positive latency limit and a positive threshold, a run of slow answers is counted on top of
-- those before; the node stays a latency candidate, or none, as long as the count is below the
-- threshold, and is none once it has reached it. A single answer in time then makes it a candidate and
-- starts the count anew.
pub slow_all-latency_candidate :
    (most : Duration) (threshold : ℤ) (n : NodeState) (l : Duration × Time)
    (ls : List (Duration × Time)) (fast : Duration) (now : Time)
    → is_positive most ≡ true
    → is_positive threshold ≡ true
    → AllSlow most (l ∷ ls)
    → ltb_ℤ most fast ≡ false
    → let slowed = slow_all most threshold n (l ∷ ls) in
      (slowed.slow_count ≡ n.slow_count + length (l ∷ ls))
      × (slowed.latency_candidate ≡ (
          if reaches (n.slow_count + length (l ∷ ls)) threshold
          then false
          else n.latency_candidate))
      × ((record_probe_success slowed fast most threshold now).latency_candidate ≡ true)
      × ((record_probe_success slowed fast most threshold now).slow_count ≡ 0)
unfolding slow_all
slow_all-latency_candidate most threshold n l ls fast now m t h f =
    let (counted, class) = slow_all_lem most threshold n l ls m t h in
    let (again, anew) = fast_lem most threshold (slow_all most threshold n (l ∷ ls)) fast now m f in
    (counted, class, again, anew)
