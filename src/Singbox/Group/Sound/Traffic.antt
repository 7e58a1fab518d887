-- ===== src/Singbox/Group/Sound/Traffic.antt =====
-- core/singboxcore/group.go: the store under reads, writes and probes.
use proxy_hub.Prelude.{
  ℕ, ◌<◌, refl, Bool, true, false, String, Option, none, some, List, [], ◌∷◌, arith, ltb, if_both,
  if◌then◌else◌,
}
use proxy_hub.Prelude.Int.{ℤ}
use proxy_hub.Prelude.Maps.{update}
use proxy_hub.Singbox.Time.{Time, Duration}
use proxy_hub.Singbox.Policy.{Policy}
use proxy_hub.Singbox.Node.State.{NodeState}
use proxy_hub.Singbox.Node.Marks.{
  ProbeFailurePolicy, record_traffic_failure, record_probe_failure, record_probe_success,
  mark_probe_running,
}
use proxy_hub.Singbox.Group.State.{
  Group, Clock, modify_conn, modify_cell, mark_closed, release_active, close_connection,
  ensure_probe_loop,
}
use proxy_hub.Singbox.Group.Candidates.{eligible_nodes}
use proxy_hub.Singbox.Group.Traffic.{
  NetError, failure_reason, traffic_policy, emit_traffic_failure, report_failure, report_if_error,
  read_connection, write_connection,
}
use proxy_hub.Singbox.Group.Probe.{
  ProbeAnswer, no_outbound, cancelled_meanwhile, probe_error, measured, failure_policy,
  milliseconds_long, fail_probe, probe_answer, probe_node, probe_all, probe_candidates,
  run_probe_round, end_probe_loop, probe_loop_turn, Wake, context_done, woken, timer_fired,
  end_wait,
}
use proxy_hub.Singbox.Group.Soundness.{
  IsSound, SameStore-IsSound, ensure_selected-IsSound, Keeps, modify_cell-IsSound,
  modify_conn-IsSound, close_active_connections-IsSound, close_connection-IsSound,
}
use proxy_hub.Singbox.Group.Sound.Candidates.{emit-IsSound, revive_if_none-IsSound}

traffic_failure-Keeps :
    (n : NodeState) (reason : String) (now : Time) (policy : ProbeFailurePolicy)
    → Keeps n (record_traffic_failure n reason now policy).0
unfolding record_traffic_failure
traffic_failure-Keeps n reason now policy = ground arith

emit_traffic_failure-IsSound :
    (g : Group) (p : ℕ) (message : String) (clock : Clock)
    → IsSound g
    → IsSound (emit_traffic_failure g p message clock)
unfolding emit_traffic_failure
emit_traffic_failure-IsSound g p message clock h =
    let reason = failure_reason message in
    let f : NodeState → NodeState =
      λ n. (record_traffic_failure n reason (clock 0) (traffic_policy g.policy)).0 in
    let failed : IsSound (record g { cells = update g.cells p (f (g.cells p)) }) =
      unfold modify_cell in
      modify_cell-IsSound g p f
        (traffic_failure-Keeps (g.cells p) reason (clock 0) (traffic_policy g.policy)) h in
    let settled = ensure_selected-IsSound _ (clock 1) failed in
    if_both IsSound g.cancelled h (
      emit-IsSound _ _ _ (if_both IsSound _ (close_active_connections-IsSound _ p settled) settled))

pub report_failure-IsSound :
    (g : Group) (c : ℕ) (e : NetError) (clock : Clock)
    → c < g.next_conn
    → IsSound g
    → IsSound (report_failure g c e clock)
unfolding report_failure
report_failure-IsSound g c e clock l h =
    let once = modify_conn g c (λ k. record k { failure_done = true }) in
    let sound : IsSound once =
      modify_conn-IsSound g c (λ k. record k { failure_done = true }) refl refl h in
    let released : IsSound (release_active (modify_conn once c mark_closed) c) =
      unfold close_connection in close_connection-IsSound once c (unfold modify_conn in l) sound in
    if_both IsSound _ h
      (if_both IsSound _ h (emit_traffic_failure-IsSound _ _ e.message clock released))

report_if_error-IsSound :
    (g : Group) (c : ℕ) (e : Option NetError) (clock : Clock)
    → c < g.next_conn
    → IsSound g
    → IsSound (report_if_error g c e clock)
report_if_error-IsSound g c none clock l h = h
report_if_error-IsSound g c (some e) clock l h = report_failure-IsSound g c e clock l h

pub read_connection-IsSound :
    (g : Group) (c n : ℕ) (e : Option NetError) (clock : Clock)
    → c < g.next_conn
    → IsSound g
    → IsSound (read_connection g c n e clock)
unfolding read_connection
read_connection-IsSound g c n e clock l h =
    let received : Group = modify_conn g c (λ k. record k { received_response = true }) in
    report_if_error-IsSound (if ltb 0 n then received else g) c e clock
      (if_both (λ (g' : Group). c < g'.next_conn) (ltb 0 n) (unfold modify_conn in l) l)
      (if_both IsSound (ltb 0 n)
        (modify_conn-IsSound g c (λ k. record k { received_response = true }) refl refl h) h)

pub write_connection-IsSound :
    (g : Group) (c : ℕ) (e : Option NetError) (clock : Clock)
    → c < g.next_conn
    → IsSound g
    → IsSound (write_connection g c e clock)
unfolding write_connection
write_connection-IsSound g c e clock l h = report_if_error-IsSound g c e clock l h

mark_probe_running-Keeps : (n : NodeState) (now : Time) → Keeps n (mark_probe_running n now)
unfolding mark_probe_running
mark_probe_running-Keeps n now = ground arith

probe_failure-Keeps :
    (n : NodeState) (reason : String) (now : Time) (policy : ProbeFailurePolicy)
    → Keeps n (record_probe_failure n reason now policy)
unfolding record_probe_failure
probe_failure-Keeps n reason now policy = ground arith

probe_success-Keeps :
    (n : NodeState) (latency most : Duration) (slow : ℤ) (now : Time)
    → Keeps n (record_probe_success n latency most slow now)
unfolding record_probe_success
probe_success-Keeps n latency most slow now = ground arith

fail_probe-IsSound :
    (g : Group) (policy : Policy) (p : ℕ) (reason : String) (now : Time)
    → IsSound g
    → IsSound (fail_probe g policy p reason now)
unfolding fail_probe
fail_probe-IsSound g policy p reason now h =
    let after : IsSound
        (modify_cell g p (λ n. record_probe_failure n reason now (failure_policy policy))) =
      modify_cell-IsSound g p (λ n. record_probe_failure n reason now (failure_policy policy))
        (probe_failure-Keeps (g.cells p) reason now (failure_policy policy)) h in
    emit-IsSound _ _ _ (if_both IsSound _ (close_active_connections-IsSound _ p after) after)

with_cancelled-IsSound : (g : Group) → IsSound g → IsSound (record g { cancelled = true })
with_cancelled-IsSound g =
    SameStore-IsSound g _
      (record { cells = refl; conns = refl; next_cell = refl; next_conn = refl; nodes = refl })

probe_answer-IsSound :
    (g : Group) (policy : Policy) (p : ℕ) (answer : ProbeAnswer) (clock : Clock)
    → IsSound g
    → IsSound (probe_answer g policy p answer clock)
unfolding probe_answer
probe_answer-IsSound g policy p no_outbound clock h = fail_probe-IsSound g policy p _ _ h
probe_answer-IsSound g policy p cancelled_meanwhile clock h = with_cancelled-IsSound g h
probe_answer-IsSound g policy p (probe_error message) clock h = fail_probe-IsSound g policy p _ _ h
probe_answer-IsSound g policy p (measured ms) clock h = emit-IsSound _ _ _ (
    modify_cell-IsSound g p
      (λ n.
        record_probe_success n (milliseconds_long ms) policy.max_latency policy.slow_threshold
          (clock 1))
      (probe_success-Keeps (g.cells p) (milliseconds_long ms) policy.max_latency
        policy.slow_threshold (clock 1))
      h)

pub probe_node-IsSound :
    (g : Group) (policy : Policy) (p : ℕ) (answer : ProbeAnswer) (clock : Clock)
    → IsSound g
    → IsSound (probe_node g policy p answer clock)
unfolding probe_node
probe_node-IsSound g policy p answer clock h = if_both IsSound g.cancelled h (
    probe_answer-IsSound _ policy p answer clock (
      modify_cell-IsSound g p (λ n. mark_probe_running n (clock 0))
        (mark_probe_running-Keeps (g.cells p) (clock 0)) h))

probe_all-IsSound :
    (g : Group) (policy : Policy) (ps : List ℕ) (answers : ℕ → ProbeAnswer) (clocks : ℕ → Clock)
    → IsSound g
    → IsSound (probe_all g policy ps answers clocks)
unfolding probe_all
probe_all-IsSound g policy [] answers clocks h = h
probe_all-IsSound g policy (p ∷ ps) answers clocks h =
    probe_all-IsSound (probe_node g policy p (answers p) (clocks p)) policy ps answers clocks
      (probe_node-IsSound g policy p (answers p) (clocks p) h)

-- Two groups that differ in what the probe loop keeps for itself.
with_probes-IsSound :
    (g : Group) (wake running round : Bool) (last next : Time)
    → IsSound g
    → IsSound (record g {
      probe_wake = wake;
      probe_running = running;
      probe_round_running = round;
      last_probe_at = last;
      next_probe_at = next;
    })
with_probes-IsSound g wake running round last next =
    SameStore-IsSound g _
      (record { cells = refl; conns = refl; next_cell = refl; next_conn = refl; nodes = refl })

round_ended-IsSound : (g : Group) → IsSound g → IsSound (record g { probe_round_running = false })
round_ended-IsSound g =
    SameStore-IsSound g _
      (record { cells = refl; conns = refl; next_cell = refl; next_conn = refl; nodes = refl })

turn_timed-IsSound :
    (g : Group) (last next : Time)
    → IsSound g
    → IsSound (record g { last_probe_at = last; next_probe_at = next })
turn_timed-IsSound g last next =
    SameStore-IsSound g _
      (record { cells = refl; conns = refl; next_cell = refl; next_conn = refl; nodes = refl })

pub run_probe_round-IsSound :
    (g : Group) (policy : Policy) (answers : ℕ → ProbeAnswer) (clock : Clock) (clocks : ℕ → Clock)
    → IsSound g
    → IsSound (run_probe_round g policy answers clock clocks)
unfolding run_probe_round probe_candidates
run_probe_round-IsSound g policy answers clock clocks h =
    let started : Group = record g { last_probe_at = clock 0; probe_round_running = true } in
    let sound : IsSound started =
      with_probes-IsSound g g.probe_wake g.probe_running true (clock 0) g.next_probe_at h in
    let ready = revive_if_none-IsSound started (clock 1) (eligible_nodes started (clock 1)) sound in
    let (ps, found) = probe_candidates started (clock 1) in
    if_both IsSound g.cancelled h (
      round_ended-IsSound (probe_all found policy ps answers clocks)
        (probe_all-IsSound found policy ps answers clocks ready))

end_probe_loop-IsSound : (g : Group) → IsSound g → IsSound (end_probe_loop g)
unfolding end_probe_loop ensure_probe_loop
end_probe_loop-IsSound g h =
    let stopped =
      with_probes-IsSound g g.probe_wake false g.probe_round_running g.last_probe_at g.next_probe_at
        h in
    if_both IsSound _ stopped (
      with_probes-IsSound g g.probe_wake true g.probe_round_running g.last_probe_at g.next_probe_at
        h)

pub probe_loop_turn-IsSound :
    (g : Group) (answers : ℕ → ProbeAnswer) (clock : Clock) (clocks : ℕ → Clock) (now : Time)
    → IsSound g
    → IsSound (probe_loop_turn g answers clock clocks now).0
unfolding probe_loop_turn
probe_loop_turn-IsSound g answers clock clocks now h =
    let drained =
      with_probes-IsSound g false g.probe_running g.probe_round_running g.last_probe_at
        g.next_probe_at h in
    if_both (λ (r : Group × Bool). IsSound r.0) _ (end_probe_loop-IsSound g h)
      (turn_timed-IsSound _ now _ (run_probe_round-IsSound _ g.policy answers clock clocks drained))

pub end_wait-IsSound : (g : Group) (wake : Wake) → IsSound g → IsSound (end_wait g wake)
unfolding end_wait
end_wait-IsSound g context_done h = end_probe_loop-IsSound _ (with_cancelled-IsSound g h)
end_wait-IsSound g woken h =
    with_probes-IsSound g false g.probe_running g.probe_round_running g.last_probe_at
      g.next_probe_at h
end_wait-IsSound g timer_fired h = h
