-- ===== src/Singbox/Group/Dial.antt =====
-- core/singboxcore/group.go: DialContext and ListenPacket.
use proxy_hub.Prelude.{
  ℕ, suc, Bool, true, false, String, Option, none, some, List, [], ◌∷◌, ◌++◌, if◌then◌else◌,
}
use proxy_hub.Prelude.Maps.{update}
use proxy_hub.Singbox.Time.{Time, Duration}
use proxy_hub.Singbox.Policy.{is_manual}
use proxy_hub.Singbox.Errors.{
  Error, no_available_node, outbound_not_found, external, Result, ok, err,
}
use proxy_hub.Singbox.Node.State.{NodeState, set_latency, register_connection}
use proxy_hub.Singbox.Node.Marks.{mark_alive}
use proxy_hub.Singbox.Group.State.{Connection, Group, Clock, modify_cell}
use proxy_hub.Singbox.Group.Members.{mark_node_failed, set_selected}
use proxy_hub.Singbox.Group.Candidates.{candidates}

-- What the outbound manager and the outbound of a node answer to one attempt.
pub data Answer : Type 0 where
  missing connected : Answer
  refused : String → Answer

-- An attempt: the answer, how long the dial took, and the clock from then on.
pub record Attempt : Type 0 where
  pub answer : Answer
  pub elapsed : Duration
  pub clock : Clock

-- A connection, the errors of all the attempts, or the round robin's panic.
pub data DialResult : Type 0 where
  dialed : ℕ → DialResult
  failed : List Error → DialResult
  panicked : DialResult

-- The error of a MarkNodeFailed is dropped.
unfoldable pub marked_or_same : Group → Result Group → Group
marked_or_same g (ok g') = g'
marked_or_same g (err e) = g

unfoldable pub fail_attempt : Group → ℕ → String → Clock → Group
unfolding marked_or_same mark_node_failed
fail_attempt g p reason clock =
    marked_or_same g (mark_node_failed g (g.cells p).id g.policy.failure_blacklist_ttl reason clock)

-- A connection that was made: the node is alive and, unless the strategy is manual, selected. Only
-- a stream measures the latency.
unfoldable pub accept_node : Bool → Group → ℕ → Duration → Group
unfolding modify_cell set_selected
accept_node is_packet g p elapsed =
    let timed = if is_packet then g else modify_cell g p (λ n. set_latency n elapsed) in
    let alive = modify_cell timed p mark_alive in
    if is_manual g.policy.strategy then alive else set_selected alive (alive.cells p).id

abbrev pub fresh_connection : Bool → ℕ → Connection
fresh_connection is_packet p = record {
  node = p;
  is_packet = is_packet;
  active_done = false;
  failure_done = false;
  received_response = false;
  closing = false;
  closed = false;
}

-- The group with a new connection, and the node that has taken it.
unfoldable pub with_connection : Bool → Group → ℕ → NodeState → Group
with_connection is_packet g p n = record g {
  cells = update g.cells p n;
  conns = update g.conns g.next_conn (fresh_connection is_packet p);
  next_conn = suc g.next_conn;
}

-- The new connection is tracked if the node takes it. Otherwise the connection below is closed,
-- and as nothing keeps the tracked one, it gets no number.
unfoldable pub track : Bool → Group → ℕ → Time → Group × Bool
unfolding register_connection with_connection
track is_packet g p now =
    let (n, taken) = register_connection (g.cells p) g.next_conn g.policy.force_selected now in
    if taken then (with_connection is_packet g p n, true) else (g, false)

-- How one attempt ends: with an error, or with a tracked connection.
pub data Outcome : Type 0 where
  tried : Group → Error → Outcome
  made : Group → ℕ → Outcome

abbrev pub tracked_or_tried : ℕ → Group × Bool → Outcome
tracked_or_tried conn (g, true) = made g conn
tracked_or_tried conn (g, false) = tried g no_available_node

abbrev pub attempt_answer : Bool → Group → ℕ → Duration → Clock → Answer → Outcome
attempt_answer is_packet g p elapsed clock missing =
    tried (fail_attempt g p "outbound not found" clock) (outbound_not_found (g.cells p).tag)
attempt_answer is_packet g p elapsed clock (refused message) =
    tried (fail_attempt g p message clock) (external message)
attempt_answer is_packet g p elapsed clock connected =
    tracked_or_tried g.next_conn (track is_packet (accept_node is_packet g p elapsed) p (clock 0))

-- The body of the loop, for one candidate.
unfoldable pub attempt_node : Bool → Attempt → Group → ℕ → Outcome
unfolding fail_attempt accept_node track
attempt_node is_packet attempt g p =
    attempt_answer is_packet g p attempt.elapsed attempt.clock attempt.answer

-- The loop over the candidates, which ends at the first connection that is tracked. The policy is
-- read once before it, and nothing in it changes the policy.
unfoldable pub dial_loop : Bool → (ℕ → Attempt) → Group → List ℕ → List Error → Group × DialResult
unfolding attempt_node
dial_loop is_packet attempts g [] [] = (g, failed (no_available_node ∷ []))
dial_loop is_packet attempts g [] (e ∷ es) = (g, failed (e ∷ es))
dial_loop is_packet attempts g (p ∷ ps) es = elim (attempt_node is_packet (attempts p) g p) [
  | tried g' e ↦ dial_loop is_packet attempts g' ps (es ++ e ∷ [])
  | made g' c ↦ (g', dialed c)
]

unfoldable pub dial_candidates : Bool → (ℕ → Attempt) → Option (List ℕ) × Group → Group × DialResult
unfolding dial_loop
dial_candidates is_packet attempts (none, g) = (g, panicked)
dial_candidates is_packet attempts (some [], g) = (g, failed (no_available_node ∷ []))
dial_candidates is_packet attempts (some (p ∷ ps), g) = dial_loop is_packet attempts g (p ∷ ps) []

unfoldable pub dial_context : Group → Time → List (ℕ × ℕ) → (ℕ → Attempt) → Group × DialResult
unfolding candidates dial_candidates
dial_context g now swaps attempts = dial_candidates false attempts (candidates g now swaps)

unfoldable pub listen_packet : Group → Time → List (ℕ × ℕ) → (ℕ → Attempt) → Group × DialResult
unfolding candidates dial_candidates
listen_packet g now swaps attempts = dial_candidates true attempts (candidates g now swaps)
