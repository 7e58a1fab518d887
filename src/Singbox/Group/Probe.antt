-- ===== src/Singbox/Group/Probe.antt =====
-- core/singboxcore/group.go: the probes of a group that prefers the lowest latency.
use proxy_hub.Prelude.{ℕ, ◌*◌, Bool, true, false, not, ◌&&◌, String, List, [], ◌∷◌, if◌then◌else◌}
use proxy_hub.Prelude.Int.{pos, is_positive}
use proxy_hub.Singbox.Time.{Time, Duration, add_time}
use proxy_hub.Singbox.Policy.{Policy, is_least_latency}
use proxy_hub.Singbox.Node.Marks.{
  ProbeFailurePolicy, blacklisted_now, mark_probe_running, record_probe_failure,
  record_probe_success,
}
use proxy_hub.Singbox.Group.State.{
  probed, Group, Clock, modify_cell, close_active_connections, ensure_probe_loop,
}
use proxy_hub.Singbox.Group.Candidates.{eligible_nodes, revive_if_none, emit}

-- What a probe of one node meets: no outbound, the end of the context while it waits, an error, or
-- a latency in milliseconds.
pub data ProbeAnswer : Type 0 where
  no_outbound cancelled_meanwhile : ProbeAnswer
  probe_error : String → ProbeAnswer
  measured : ℕ → ProbeAnswer

abbrev pub failure_policy : Policy → ProbeFailurePolicy
failure_policy policy = record {
  threshold = policy.slow_threshold;
  ttl = policy.failure_blacklist_ttl;
}

-- The failed branch: the node's connections are closed by the failure that blacklists it.
unfoldable pub fail_probe : Group → Policy → ℕ → String → Time → Group
unfolding modify_cell
fail_probe g policy p reason now =
    let after = modify_cell g p (λ n. record_probe_failure n reason now (failure_policy policy)) in
    let closed =
      if not (blacklisted_now (g.cells p) now) && blacklisted_now (after.cells p) now
      then close_active_connections after p
      else after in
    emit policy.probe_result_callback
      (probed (g.cells p).id (g.cells p).tag false (pos 0) reason now) closed

abbrev pub milliseconds_long : ℕ → Duration
milliseconds_long ms = pos (ms * 1_000_000)

-- What follows the answer to a probe that has been started.
unfoldable pub probe_answer : Group → Policy → ℕ → ProbeAnswer → Clock → Group
unfolding modify_cell fail_probe
probe_answer g policy p no_outbound clock = fail_probe g policy p "outbound not found" (clock 1)
probe_answer g policy p cancelled_meanwhile clock = record g { cancelled = true }
probe_answer g policy p (probe_error message) clock = fail_probe g policy p message (clock 1)
probe_answer g policy p (measured ms) clock =
    emit policy.probe_result_callback
      (probed (g.cells p).id (g.cells p).tag true (milliseconds_long ms) "" (clock 1))
      (modify_cell g p (λ n.
        record_probe_success n (milliseconds_long ms) policy.max_latency policy.slow_threshold
          (clock 1)))

-- probeLeastLatencyNode. The clock is read when the probe starts and when it is answered.
unfoldable pub probe_node : Group → Policy → ℕ → ProbeAnswer → Clock → Group
unfolding modify_cell probe_answer
probe_node g policy p answer clock =
    if g.cancelled
    then g
    else probe_answer (modify_cell g p (λ n. mark_probe_running n (clock 0))) policy p answer clock

-- The workers of a round, each probe taken as a whole, in the order in which they end.
unfoldable pub probe_all : Group → Policy → List ℕ → (ℕ → ProbeAnswer) → (ℕ → Clock) → Group
unfolding probe_node
probe_all g policy [] answers clocks = g
probe_all g policy (p ∷ ps) answers clocks =
    probe_all (probe_node g policy p (answers p) (clocks p)) policy ps answers clocks

-- probeCandidates.
unfoldable pub probe_candidates : Group → Time → List ℕ × Group
unfolding revive_if_none eligible_nodes
probe_candidates g now =
    let ready = revive_if_none g now (eligible_nodes g now) in (eligible_nodes ready now, ready)

-- runLeastLatencyProbeRound, with the clock of the round itself and those of its probes.
unfoldable pub run_probe_round : Group → Policy → (ℕ → ProbeAnswer) → Clock → (ℕ → Clock) → Group
unfolding probe_candidates probe_all
run_probe_round g policy answers clock clocks =
    if g.cancelled
    then g
    else (let started = record g { last_probe_at = clock 0; probe_round_running = true } in
        let (ps, ready) = probe_candidates started (clock 1) in
        record (probe_all ready policy ps answers clocks) { probe_round_running = false })

-- RunLeastLatencyProbeRound: a round by hand, with the timeout for tests.
unfoldable pub run_probe_round_now : Group → (ℕ → ProbeAnswer) → Clock → (ℕ → Clock) → Group
unfolding run_probe_round
run_probe_round_now g answers clock clocks =
    if is_least_latency g.policy.strategy
    then (let policy =
          if is_positive g.policy.probe_test_timeout
          then record g.policy { probe_timeout = g.policy.probe_test_timeout }
          else g.policy in
        run_probe_round g policy answers clock clocks)
    else g

abbrev pub probe_loop_active : Group → Policy → Bool
probe_loop_active g policy = g.runtime_started && is_least_latency policy.strategy

-- The end of leastLatencyProbeLoop: the loop is over, and is started again if it is wanted.
unfoldable pub end_probe_loop : Group → Group
unfolding ensure_probe_loop
end_probe_loop g = ensure_probe_loop (record g { probe_running = false })

-- One turn of leastLatencyProbeLoop, up to its wait, and whether the loop goes on to wait.
unfoldable pub probe_loop_turn :
    Group → (ℕ → ProbeAnswer) → Clock → (ℕ → Clock) → Time → Group × Bool
unfolding run_probe_round end_probe_loop
probe_loop_turn g answers clock clocks now =
    if not (probe_loop_active g g.policy)
    then (end_probe_loop g, false)
    else (let drained = record g { probe_wake = false } in
        let policy = g.policy in
        let probed = run_probe_round drained policy answers clock clocks in
        (
          record probed { last_probe_at = now; next_probe_at = add_time now policy.probe_interval },
          true,
        ))

-- What ends the wait of the loop.
pub data Wake : Type 0 where
  context_done woken timer_fired : Wake

unfoldable pub end_wait : Group → Wake → Group
unfolding end_probe_loop
end_wait g context_done = end_probe_loop (record g { cancelled = true })
end_wait g woken = record g { probe_wake = false }
end_wait g timer_fired = g
