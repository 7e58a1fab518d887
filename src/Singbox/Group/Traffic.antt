-- ===== src/Singbox/Group/Traffic.antt =====
-- core/singboxcore/group.go: reads and writes of a tracked stream, and the failure that it reports
-- when it breaks before its first byte. A packet connection has the reads and writes of the
-- connection below, and reports nothing.
use proxy_hub.Prelude.{
  ℕ, Bool, true, false, not, ◌||◌, String, Option, none, some, List, [], ◌∷◌, ltb, if◌then◌else◌,
}
use proxy_hub.Prelude.Int.{pos}
use proxy_hub.Prelude.Maps.{update}
use proxy_hub.Prelude.Text.{is_empty, trim_space, contains_lower}
use proxy_hub.Singbox.Policy.{Policy}
use proxy_hub.Singbox.Node.Marks.{ProbeFailurePolicy, record_traffic_failure}
use proxy_hub.Singbox.Group.State.{
  traffic_failed, Group, Clock, modify_conn, mark_closed, release_active, close_active_connections,
  ensure_selected,
}
use proxy_hub.Singbox.Group.Candidates.{emit}

-- What errors.Is and errors.As answer of a network error, and its message.
pub record NetError : Type 0 where
  pub is_closed : Bool
  pub is_eof : Bool
  pub is_unexpected_eof : Bool
  pub is_timeout : Bool
  pub message : String

abbrev pub contains_any : String → List String → Bool
contains_any s [] = false
contains_any s (f ∷ fs) = contains_lower s f || contains_any s fs

abbrev pub local_fragments : List String
local_fragments =
    "use of closed network connection" ∷ "context canceled" ∷ "operation was canceled" ∷ []

abbrev pub remote_fragments : List String
remote_fragments =
    "connection reset" ∷ "forcibly closed" ∷ "closed by the remote host" ∷ "broken pipe"
    ∷ "connection aborted" ∷ "connection refused" ∷ "i/o timeout" ∷ "unexpected eof" ∷ []

-- isPreFirstByteTrafficFailure, of an error that is not nil.
unfoldable pub is_traffic_failure : NetError → Bool
is_traffic_failure e =
    if e.is_closed
    then false
    else if e.is_eof || e.is_unexpected_eof
    then true
    else if e.is_timeout
    then true
    else if contains_any e.message local_fragments
    then false
    else contains_any e.message remote_fragments

unfoldable pub failure_reason : String → String
failure_reason message =
    let trimmed = trim_space message in
    if is_empty trimmed then "traffic failed before first response byte" else trimmed

-- A pinned group counts failures and never blacklists for them.
abbrev pub traffic_policy : Policy → ProbeFailurePolicy
traffic_policy policy = record {
  threshold = if policy.force_selected then pos 0 else policy.slow_threshold;
  ttl = policy.failure_blacklist_ttl;
}

-- emitTrafficFailure. Nothing is recorded once the context has ended.
unfoldable pub emit_traffic_failure : Group → ℕ → String → Clock → Group
unfolding failure_reason record_traffic_failure
emit_traffic_failure g p message clock =
    if g.cancelled
    then g
    else (let reason = failure_reason message in
        let (n, listed) =
          record_traffic_failure (g.cells p) reason (clock 0) (traffic_policy g.policy) in
        let settled = ensure_selected (record g { cells = update g.cells p n }) (clock 1) in
        let closed = if listed then close_active_connections settled p else settled in
        emit g.policy.traffic_failure_callback (traffic_failed n.id n.tag reason (clock 0)) closed)

-- reportPreFirstByteFailure: the connection is closed and released, and the failure recorded, at
-- most once, and only before the first response byte and before the connection closes.
unfoldable pub report_failure : Group → ℕ → NetError → Clock → Group
unfolding is_traffic_failure emit_traffic_failure
report_failure g c e clock =
    if (g.conns c).received_response || (g.conns c).closing || not (is_traffic_failure e)
    then g
    else if (g.conns c).failure_done
    then g
    else (let once = modify_conn g c (λ k. record k { failure_done = true }) in
        let released = release_active (modify_conn once c mark_closed) c in
        emit_traffic_failure released (g.conns c).node e.message clock)

abbrev pub report_if_error : Group → ℕ → Option NetError → Clock → Group
report_if_error g c none clock = g
report_if_error g c (some e) clock = report_failure g c e clock

-- Read, by what the connection below returns: a number of bytes and perhaps an error.
unfoldable pub read_connection : Group → ℕ → ℕ → Option NetError → Clock → Group
unfolding report_failure modify_conn
read_connection g c n e clock =
    let received =
      if ltb 0 n then modify_conn g c (λ k. record k { received_response = true }) else g in
    report_if_error received c e clock

-- Write, by the error that the connection below returns.
unfoldable pub write_connection : Group → ℕ → Option NetError → Clock → Group
unfolding report_failure
write_connection g c e clock = report_if_error g c e clock
