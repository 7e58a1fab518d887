-- ===== src/Singbox/Group/Dialed.antt =====
-- core/singboxcore/group.go: what DialContext and ListenPacket come back with.
use mathlib.Core.List.{append_assoc, append-nil}
use proxy_hub.Singbox.Node.Marks.{mark_alive, mark_failed}
use proxy_hub.Singbox.Group.Soundness.{ensure_selected-SameStore}
use proxy_hub.Prelude.Int.{pos}
use proxy_hub.Prelude.{
  String, map, Option-cases, not, ℕ, ◌<◌, ◌≡◌, refl, Bool, true, false, Option, none, some, List,
  [], ◌∷◌, ◌++◌, arith, Bool-cases, inl, inr, if◌then◌else◌, Nothing, In, ap, sym, ◌∙◌,
}
use proxy_hub.Singbox.Time.{Time, Duration}
use proxy_hub.Singbox.Errors.{Error, no_available_node, outbound_not_found, external}
use proxy_hub.Singbox.Node.State.{
  NodeState, eligible, register_connection, set_latency, dec_active, unregister_connection,
}
use proxy_hub.Singbox.Group.State.{
  Connection, Group, Clock, find_node, modify_cell, modify_conn, release_active, close_connection,
  close_connections, close_active_connections, ensure_selected,
}
use proxy_hub.Singbox.Group.Members.{set_selected, mark_node_failed}
use proxy_hub.Singbox.Group.Candidates.{candidates}
use proxy_hub.Singbox.Group.Sound.Dial.{Outcome-cases}
use proxy_hub.Singbox.Group.Dial.{
  Answer, missing, connected, refused, Attempt, DialResult, dialed, failed, panicked, Outcome,
  tried, made, tracked_or_tried, with_connection, accept_node, track, attempt_answer, attempt_node,
  dial_loop, dial_candidates, listen_packet, fresh_connection, fail_attempt, marked_or_same,
}

-- A connection of the given kind that is tracked, of one of the nodes, and new: nothing has happened
-- to it.
pub record IsNew (is_packet : Bool) (ps : List ℕ) (g : Group) (c : ℕ) : Type 0 where
  pub tracked : c < g.next_conn
  pub fresh : g.conns c ≡ fresh_connection is_packet (g.conns c).node
  pub offered : In (g.conns c).node ps

-- The error of an attempt at a node that brings no connection.
abbrev pub attempt_error : String → Answer → Error
attempt_error tag missing = outbound_not_found tag
attempt_error tag (refused message) = external message
attempt_error tag connected = no_available_node

abbrev pub attempt_errors : Group → (ℕ → Attempt) → List ℕ → List Error
attempt_errors g attempts ps = map (λ p. attempt_error (g.cells p).tag (attempts p).answer) ps

-- What a dial reports after its attempts.
abbrev pub reported : List Error → List Error
reported [] = no_available_node ∷ []
reported (e ∷ es) = e ∷ es

-- How a dial ends that is offered the nodes, by a group with their tags, after the given errors:
-- with a new connection, or with the error of each attempt in order, or with ErrNoAvailableNode
-- alone where there was none.
abbrev pub EndsAfter :
    Bool → Group → (ℕ → Attempt) → List Error → List ℕ → Group × DialResult → Type 0
EndsAfter is_packet g attempts before ps (g', dialed c) = IsNew is_packet ps g' c
EndsAfter is_packet g attempts before ps (g', failed es) =
    es ≡ reported (before ++ attempt_errors g attempts ps)
EndsAfter is_packet g attempts before ps (g', panicked) = Nothing

-- The balancer's panic is the dial's, and what it orders the dial tries.
abbrev pub EndsFor : Bool → (ℕ → Attempt) → Option (List ℕ) × Group → Group × DialResult → Type 0
EndsFor is_packet attempts (none, g) r = r.1 ≡ panicked
EndsFor is_packet attempts (some ps, g) r = EndsAfter is_packet g attempts [] ps r

-- The tags of the nodes stay.
abbrev SameTags : Group → Group → Type 0
SameTags g g' = (p : ℕ) → (g'.cells p).tag ≡ (g.cells p).tag

-- How an attempt at a node ends: with its error, or with a new connection.
abbrev IsAttempt : Bool → Group → ℕ → Answer → Outcome → Type 0
IsAttempt is_packet g p answer (tried g' e) =
    (e ≡ attempt_error (g.cells p).tag answer) × SameTags g g'
IsAttempt is_packet g p answer (made g' c) =
    (c < g'.next_conn) × (g'.conns c ≡ fresh_connection is_packet p)

close_connection-SameTags : (g : Group) (c : ℕ) → SameTags g (close_connection g c)
unfolding close_connection release_active modify_conn modify_cell dec_active unregister_connection
close_connection-SameTags g c p = ground arith

close_connections-SameTags : (g : Group) (cs : List ℕ) → SameTags g (close_connections g cs)
unfolding close_connections
close_connections-SameTags g [] p = refl
close_connections-SameTags g (c ∷ cs) p =
    close_connections-SameTags (close_connection g c) cs p ∙ close_connection-SameTags g c p

mark_failed-SameTags :
    (g : Group) (p : ℕ) (ttl : Duration) (reason : String) (now : Time)
    → SameTags g (modify_cell g p (λ n. mark_failed n ttl reason now))
unfolding modify_cell mark_failed
mark_failed-SameTags g p ttl reason now q = ground arith

-- The connections of a node that is out are closed, and another node is selected.
settled-SameTags :
    (g : Group) (p : ℕ) (closes : Bool) (later : Time)
    → SameTags g (ensure_selected (if closes then close_active_connections g p else g) later)
unfolding close_active_connections
settled-SameTags g p true later q =
    ap (λ (cells : ℕ → NodeState). (cells q).tag)
      (ensure_selected-SameStore (close_active_connections g p) later).cells
    ∙ close_connections-SameTags g (g.cells p).active_connections q
settled-SameTags g p false later q =
    ap (λ (cells : ℕ → NodeState). (cells q).tag) (ensure_selected-SameStore g later).cells

fail_attempt-SameTags :
    (g : Group) (p : ℕ) (reason : String) (clock : Clock)
    → SameTags g (fail_attempt g p reason clock)
unfolding fail_attempt mark_node_failed marked_or_same
fail_attempt-SameTags g p reason clock q = elim (Option-cases (find_node g (g.cells p).id)) [
  | inl e ↦ rw (e, mark_node_failed) refl
  | inr (r, e) ↦
      let ttl = if g.policy.force_selected then pos 0 else g.policy.failure_blacklist_ttl in
      let failed = modify_cell g r (λ n. mark_failed n ttl reason (clock 0)) in
      rw (e, mark_node_failed)
        (settled-SameTags failed r
            (not (eligible (failed.cells r) (clock 1) g.policy.force_selected)) (clock 2) q
          ∙ mark_failed-SameTags g r ttl reason (clock 0) q)
]

accept_node-SameTags :
    (is_packet : Bool) (g : Group) (p : ℕ) (elapsed : Duration)
    → SameTags g (accept_node is_packet g p elapsed)
unfolding accept_node set_selected modify_cell set_latency mark_alive
accept_node-SameTags is_packet g p elapsed q = ground arith

tracked_or_tried-IsAttempt :
    (is_packet : Bool) (g g0 : Group) (p conn : ℕ) (now : Time)
    → conn ≡ g.next_conn
    → SameTags g0 g
    → IsAttempt is_packet g0 p connected (tracked_or_tried conn (track is_packet g p now))
unfolding track with_connection
tracked_or_tried-IsAttempt is_packet g g0 p conn now same tags =
    elim (Bool-cases (register_connection (g.cells p) g.next_conn g.policy.force_selected now).1) [
      | inl e ↦ rw e (ground arith, ground arith)
      | inr e ↦ rw e (refl, tags)
    ]

accept_node-next_conn :
    (is_packet : Bool) (g : Group) (p : ℕ) (elapsed : Duration)
    → (accept_node is_packet g p elapsed).next_conn ≡ g.next_conn
unfolding accept_node set_selected modify_cell
accept_node-next_conn is_packet g p elapsed = ground arith

attempt_node-IsAttempt :
    (is_packet : Bool) (attempt : Attempt) (g : Group) (p : ℕ)
    → IsAttempt is_packet g p attempt.answer (attempt_node is_packet attempt g p)
unfolding attempt_node
attempt_node-IsAttempt is_packet attempt g p = by_answer attempt.answer
  where
    by_answer :
        (a : Answer)
        → IsAttempt is_packet g p a (attempt_answer is_packet g p attempt.elapsed attempt.clock a)
    by_answer missing = (refl, fail_attempt-SameTags g p "outbound not found" attempt.clock)
    by_answer (refused message) = (refl, fail_attempt-SameTags g p message attempt.clock)
    by_answer connected =
        tracked_or_tried-IsAttempt is_packet (accept_node is_packet g p attempt.elapsed) g p
          g.next_conn (attempt.clock 0) (sym (accept_node-next_conn is_packet g p attempt.elapsed))
          (accept_node-SameTags is_packet g p attempt.elapsed)

attempt_errors-SameTags :
    (g g' : Group) (attempts : ℕ → Attempt) (ps : List ℕ)
    → SameTags g g'
    → attempt_errors g' attempts ps ≡ attempt_errors g attempts ps
attempt_errors-SameTags g g' attempts [] t = refl
attempt_errors-SameTags g g' attempts (p ∷ ps) t =
    ap (λ tag. attempt_error tag (attempts p).answer ∷ attempt_errors g' attempts ps) (t p)
    ∙ ap (λ es. attempt_error (g.cells p).tag (attempts p).answer ∷ es)
        (attempt_errors-SameTags g g' attempts ps t)

-- One more failure, and one node fewer to try.
EndsAfter-next :
    (is_packet : Bool) (g g' : Group) (attempts : ℕ → Attempt) (before : List Error) (e : Error)
    (p : ℕ) (ps : List ℕ) (r : Group × DialResult)
    → e ≡ attempt_error (g.cells p).tag (attempts p).answer
    → SameTags g g'
    → EndsAfter is_packet g' attempts (before ++ e ∷ []) ps r
    → EndsAfter is_packet g attempts before (p ∷ ps) r
EndsAfter-next is_packet g g' attempts before e p ps (h, dialed c) q t n = record {
  tracked = n.tracked;
  fresh = n.fresh;
  offered = inr n.offered;
}
EndsAfter-next is_packet g g' attempts before e p ps (h, failed es) q t n =
    n
    ∙ ap reported (
        append_assoc before (e ∷ []) (attempt_errors g' attempts ps)
        ∙ ap (λ x. before ++ x ∷ attempt_errors g' attempts ps) q
        ∙ ap (λ x. before ++ attempt_error (g.cells p).tag (attempts p).answer ∷ x)
            (attempt_errors-SameTags g g' attempts ps t))
EndsAfter-next is_packet g g' attempts before e p ps (h, panicked) q t n = n

dial_loop-EndsAfter :
    (is_packet : Bool) (attempts : ℕ → Attempt) (g : Group) (ps : List ℕ) (es : List Error)
    → EndsAfter is_packet g attempts es ps (dial_loop is_packet attempts g ps es)
unfolding dial_loop
dial_loop-EndsAfter is_packet attempts g [] [] = refl
dial_loop-EndsAfter is_packet attempts g [] (e ∷ es) = ap (λ x. e ∷ x) (sym (append-nil es))
dial_loop-EndsAfter is_packet attempts g (p ∷ ps) es =
    let one = attempt_node-IsAttempt is_packet (attempts p) g p in
    elim (Outcome-cases (attempt_node is_packet (attempts p) g p)) [
      | inl (g', e, q) ↦
          let (error, tags) = (rw q at one) in
          rw (q, dial_loop)
            (EndsAfter-next is_packet g g' attempts es e p ps _ error tags
              (dial_loop-EndsAfter is_packet attempts g' ps (es ++ e ∷ [])))
      | inr (g', c, q) ↦
          let (tracked, fresh) = (rw q at one) in
          rw (q, dial_loop)
            (record {
              tracked = tracked;
              fresh =
                  fresh
                  ∙ ap (fresh_connection is_packet) (sym (ap (λ (k : Connection). k.node) fresh));
              offered = inl (ap (λ (k : Connection). k.node) fresh);
            })
    ]

dial_candidates-EndsFor :
    (is_packet : Bool) (attempts : ℕ → Attempt) (r : Option (List ℕ) × Group)
    → EndsFor is_packet attempts r (dial_candidates is_packet attempts r)
unfolding dial_candidates
dial_candidates-EndsFor is_packet attempts (none, g) = refl
dial_candidates-EndsFor is_packet attempts (some [], g) = refl
dial_candidates-EndsFor is_packet attempts (some (p ∷ ps), g) =
    dial_loop-EndsAfter is_packet attempts g (p ∷ ps) []

-- ListenPacket comes back in the same ways, with a new tracked packet connection.
pub listen_packet-EndsFor :
    (g : Group) (now : Time) (swaps : List (ℕ × ℕ)) (attempts : ℕ → Attempt)
    → EndsFor true attempts (candidates g now swaps) (listen_packet g now swaps attempts)
unfolding listen_packet
listen_packet-EndsFor g now swaps attempts =
    dial_candidates-EndsFor true attempts (candidates g now swaps)
