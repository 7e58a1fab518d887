-- ===== src/Singbox/Group/Blame.antt =====
-- core/singboxcore/group.go: when a broken connection is held against its node.
use proxy_hub.Prelude.Maps.{update}
use proxy_hub.Singbox.Node.Marks.{record_traffic_failure}
use proxy_hub.Prelude.{
  if_both, ◌||◌, not, ap, ◌∙◌, ℕ, suc, Bool, String, List, [], ◌∷◌, if◌then◌else◌, ◌≡◌, ◌⊎◌, inl,
  inr, refl, true, false, Option, none, some, arith,
}
use proxy_hub.Singbox.Group.State.{
  Event, traffic_failed, mark_closed, ensure_selected, Connection, Group, Clock, modify_conn,
  modify_cell, release_active, close_connection, close_connections, close_active_connections,
}
use proxy_hub.Singbox.Group.Candidates.{emit}
use proxy_hub.Singbox.Group.Soundness.{ensure_selected-SameStore}
use proxy_hub.Singbox.Group.Traffic.{
  NetError, is_traffic_failure, failure_reason, traffic_policy, emit_traffic_failure,
  report_failure, report_if_error, read_connection, write_connection,
}

-- A connection that has received its first byte, or that closes, reports nothing.
abbrev pub IsSettled : Connection → Type 0
IsSettled k = (k.received_response ≡ true) ⊎ (k.closing ≡ true)

report_if_error-settled :
    (g : Group) (c : ℕ) (e : Option NetError) (clock : Clock)
    → IsSettled (g.conns c)
    → report_if_error g c e clock ≡ g
unfolding report_failure
report_if_error-settled g c none clock h = refl
report_if_error-settled g c (some e) clock (inl h) = rw h refl
report_if_error-settled g c (some e) clock (inr h) = rw h (ground arith)

abbrev HasReceived : Group → ℕ → Type 0
HasReceived g c = (g.conns c).received_response ≡ true

close_connection-HasReceived :
    (g : Group) (c d : ℕ) → HasReceived g c → HasReceived (close_connection g d) c
unfolding close_connection release_active modify_conn modify_cell
close_connection-HasReceived g c d h = ground arith

close_connections-HasReceived :
    (g : Group) (c : ℕ) (ds : List ℕ) → HasReceived g c → HasReceived (close_connections g ds) c
unfolding close_connections
close_connections-HasReceived g c [] h = h
close_connections-HasReceived g c (d ∷ ds) h =
    close_connections-HasReceived (close_connection g d) c ds (close_connection-HasReceived g c d h)

close_if-HasReceived :
    (g : Group) (c p : ℕ) (closes : Bool)
    → HasReceived g c
    → HasReceived (if closes then close_active_connections g p else g) c
unfolding close_active_connections
close_if-HasReceived g c p true h =
    close_connections-HasReceived g c (g.cells p).active_connections h
close_if-HasReceived g c p false h = h

emit-HasReceived :
    (g : Group) (c : ℕ) (is_set : Bool) (e : Event)
    → HasReceived g c
    → HasReceived (emit is_set e g) c
emit-HasReceived g c true e h = h
emit-HasReceived g c false e h = h

emit_traffic_failure-HasReceived :
    (g : Group) (c p : ℕ) (message : String) (clock : Clock)
    → HasReceived g c
    → HasReceived (emit_traffic_failure g p message clock) c
unfolding emit_traffic_failure
emit_traffic_failure-HasReceived g c p message clock h =
    let reason = failure_reason message in
    let (n, listed) =
      record_traffic_failure (g.cells p) reason (clock 0) (traffic_policy g.policy) in
    let failed = record g { cells = update g.cells p n } in
    let settled = ensure_selected failed (clock 1) in
    let kept : HasReceived settled c =
      ap (λ (conns : ℕ → Connection). (conns c).received_response)
        (ensure_selected-SameStore failed (clock 1)).conns
      ∙ h in
    let closed : Group = if listed then close_active_connections settled p else settled in
    if_both (λ g'. HasReceived g' c) g.cancelled h
      (emit-HasReceived closed c g.policy.traffic_failure_callback
        (traffic_failed n.id n.tag reason (clock 0)) (close_if-HasReceived settled c p listed kept))

report_failure-HasReceived :
    (g : Group) (c d : ℕ) (e : NetError) (clock : Clock)
    → HasReceived g c
    → HasReceived (report_failure g d e clock) c
unfolding report_failure
report_failure-HasReceived g c d e clock h =
    let once = modify_conn g d (λ k. record k { failure_done = true }) in
    let kept : HasReceived once c = unfold modify_conn in ground arith in
    let released : HasReceived (release_active (modify_conn once d mark_closed) d) c =
      unfold close_connection in close_connection-HasReceived once c d kept in
    let cut : Group = release_active (modify_conn once d mark_closed) d in
    let emitted : Group = emit_traffic_failure cut (g.conns d).node e.message clock in
    let told = emit_traffic_failure-HasReceived cut c (g.conns d).node e.message clock released in
    let once_told : HasReceived (if (g.conns d).failure_done then g else emitted) c =
      if_both (λ g'. HasReceived g' c) (g.conns d).failure_done h told in
    if_both (λ g'. HasReceived g' c)
      ((g.conns d).received_response || (g.conns d).closing || not (is_traffic_failure e)) h
      once_told

-- What the users of the connections do: reads, writes and closes.
pub data TrafficCall : Type 0 where
  reads : ℕ → ℕ → Option NetError → Clock → TrafficCall
  writes : ℕ → Option NetError → Clock → TrafficCall
  closes : ℕ → TrafficCall

abbrev pub traffic_call : Group → TrafficCall → Group
traffic_call g (reads c n e clock) = read_connection g c n e clock
traffic_call g (writes c e clock) = write_connection g c e clock
traffic_call g (closes c) = close_connection g c

pub traffic_calls : Group → List TrafficCall → Group
traffic_calls g [] = g
traffic_calls g (t ∷ ts) = traffic_calls (traffic_call g t) ts

report_if_error-HasReceived :
    (g : Group) (c d : ℕ) (e : Option NetError) (clock : Clock)
    → HasReceived g c
    → HasReceived (report_if_error g d e clock) c
report_if_error-HasReceived g c d none clock h = h
report_if_error-HasReceived g c d (some e) clock h = report_failure-HasReceived g c d e clock h

traffic_call-HasReceived :
    (g : Group) (c : ℕ) (t : TrafficCall) → HasReceived g c → HasReceived (traffic_call g t) c
unfolding read_connection write_connection modify_conn
traffic_call-HasReceived g c (reads d n e clock) h =
    report_if_error-HasReceived _ c d e clock (ground arith)
traffic_call-HasReceived g c (writes d e clock) h = report_if_error-HasReceived g c d e clock h
traffic_call-HasReceived g c (closes d) h = close_connection-HasReceived g c d h

traffic_calls-HasReceived :
    (g : Group) (c : ℕ) (ts : List TrafficCall)
    → HasReceived g c
    → HasReceived (traffic_calls g ts) c
unfolding traffic_calls
traffic_calls-HasReceived g c [] h = h
traffic_calls-HasReceived g c (t ∷ ts) h =
    traffic_calls-HasReceived (traffic_call g t) c ts (traffic_call-HasReceived g c t h)

read_connection-HasReceived :
    (g : Group) (c n : ℕ) (e : Option NetError) (clock : Clock)
    → HasReceived (read_connection g c (suc n) e clock) c
unfolding read_connection modify_conn
read_connection-HasReceived g c n e clock = report_if_error-HasReceived _ c c e clock (ground arith)

-- Once a read has brought bytes, with an error or without, no error of that read is held against the
-- node, and after any reads, writes and closes of any connections neither is an error of a write or
-- of a read of that connection: the write changes nothing, and the read as little as without the error.
pub after_bytes_lem :
    (g : Group) (c n m : ℕ) (e later : Option NetError) (clock now : Clock) (ts : List TrafficCall)
    → let received = read_connection g c (suc n) e clock in
      let g' = traffic_calls received ts in
      (received ≡ read_connection g c (suc n) none clock)
      × (write_connection g' c later now ≡ g')
      × (read_connection g' c m later now ≡ read_connection g' c m none now)
unfolding write_connection read_connection modify_conn
after_bytes_lem g c n m e later clock now ts =
    let kept =
      traffic_calls-HasReceived (read_connection g c (suc n) e clock) c ts
        (read_connection-HasReceived g c n e clock) in
    (
      report_if_error-settled _ c e clock (inl (ground arith)),
      report_if_error-settled _ c later now (inl kept),
      report_if_error-settled _ c later now (inl (ground (arith, kept))),
    )

close_connection-closing :
    (g : Group) (c : ℕ)
    → (g.conns c).is_packet ≡ false
    → ((close_connection g c).conns c).closing ≡ true
unfolding close_connection release_active modify_conn modify_cell
close_connection-closing g c h = ground arith

-- Once a stream is closed, no error of a read or of a write is held against its node; the bytes of
-- a late read are noted, and nothing else changes.
pub after_close_lem :
    (g : Group) (c n : ℕ) (e : Option NetError) (clock : Clock)
    → (g.conns c).is_packet ≡ false
    → (write_connection (close_connection g c) c e clock ≡ close_connection g c)
      × (read_connection (close_connection g c) c n e clock
          ≡ read_connection (close_connection g c) c n none clock)
unfolding write_connection read_connection modify_conn
after_close_lem g c n e clock h =
    let closing = close_connection-closing g c h in
    (
      report_if_error-settled (close_connection g c) c e clock (inr closing),
      report_if_error-settled _ c e clock (inr (ground (arith, closing))),
    )

-- A connection is taken off its node once: closing it again changes no node.
pub close_again_lem :
    (g : Group) (c : ℕ)
    → (close_connection (close_connection g c) c).cells ≡ (close_connection g c).cells
unfolding close_connection release_active modify_conn modify_cell
close_again_lem g c = ground arith
