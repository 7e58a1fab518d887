-- ===== src/Singbox/Group/Sound/Dial.antt =====
-- core/singboxcore/group.go: the store under the dials.
use proxy_hub.Prelude.{
  ℕ, ◌<◌, ◌≡◌, refl, ◌∙◌, Bool, true, false, String, Option, none, some, List, [], ◌∷◌, ◌⊎◌, inl,
  inr, arith, Bool-cases, if_both, ◌==◌, if◌then◌else◌,
}
use proxy_hub.Singbox.Time.{Time, Duration}
use proxy_hub.Singbox.Policy.{is_manual}
use proxy_hub.Singbox.Errors.{Error, Result, ok, err}
use proxy_hub.Singbox.Node.State.{NodeState, has_connection, register_connection, set_latency}
use proxy_hub.Singbox.Node.Accounting.{IsBalanced, register_connection-IsBalanced}
use proxy_hub.Singbox.Node.Marks.{mark_alive}
use proxy_hub.Singbox.Group.State.{Group, Clock, modify_cell}
use proxy_hub.Singbox.Group.Members.{mark_node_failed, set_selected}
use proxy_hub.Singbox.Group.Dial.{
  Answer, missing, connected, refused, Outcome, tried, made, tracked_or_tried, attempt_answer,
  attempt_node, Attempt, marked_or_same, fail_attempt, accept_node, with_connection, track,
  dial_loop, dial_candidates, dial_context, listen_packet,
}
use proxy_hub.Singbox.Group.Ledger.{IsConsistent, open_at}
use proxy_hub.Singbox.Group.Soundness.{IsSound, Keeps, modify_cell-IsSound}
use proxy_hub.Singbox.Group.Sound.Members.{after_call}
use proxy_hub.Singbox.Group.Sound.Removal.{
  mark_alive-Keeps, mark_node_failed-IsSound, mark_node_failed-next_cell, set_selected-IsSound,
}
use proxy_hub.Singbox.Group.Sound.Candidates.{AreCells, IsOffer, candidates-IsOffer}

-- What a node that takes a new connection is afterwards.
taken_lem :
    (n : NodeState) (c : ℕ) (ignore : Bool) (now : Time)
    → has_connection c n.active_connections ≡ false
    → (register_connection n c ignore now).1 ≡ true
    → ((register_connection n c ignore now).0.active_connections ≡ c ∷ n.active_connections)
      × ((register_connection n c ignore now).0.id ≡ n.id)
unfolding register_connection
taken_lem n c ignore now u t = (ground arith, ground arith)

module _ (g : Group) (p : ℕ) (n : NodeState) (is_packet : Bool) (l : p < g.next_cell)
    (h : IsSound g) (b : IsBalanced n) (a : n.active_connections ≡ g.next_conn ∷ open_at g p)
    (i : n.id ≡ (g.cells p).id) where
  -- A set afterwards holds what it held before, and the new connection at its node.
  opened :
      (q c : ℕ)
      → has_connection c (open_at (with_connection is_packet g p n) q) ≡ (
          if q == p
          then (if g.next_conn == c then true else has_connection c (open_at g p))
          else has_connection c (open_at g q))
  unfolding with_connection has_connection
  opened q c = ground arith

  with_connection-IsConsistent : IsConsistent (with_connection is_packet g p n)
  unfolding with_connection
  with_connection-IsConsistent = record {
    balanced = λ q. ground (arith, h.ledger.balanced q);
    owner = λ q c k. ground (
      arith,
      opened q c,
      h.ledger.owner q c,
      h.ledger.owner p c,
      h.ledger.known q c,
      h.ledger.known p c,
    );
    unreleased = λ q c k. ground (
      arith,
      opened q c,
      h.ledger.unreleased q c,
      h.ledger.unreleased p c,
      h.ledger.known q c,
      h.ledger.known p c,
    );
    known = λ q c k. ground (arith, opened q c, h.ledger.known q c, h.ledger.known p c);
    tracked = λ c k u. ground (arith, opened p c, opened (g.conns c).node c, h.ledger.tracked c);
    owned = λ c k. ground (arith, h.ledger.owned c);
  }

  with_connection-IsSound : IsSound (with_connection is_packet g p n)
  unfolding with_connection
  with_connection-IsSound = record {
    ledger = with_connection-IsConsistent;
    member = h.member;
    named = λ id q e. ground (arith, h.named id q e);
  }

module _ (g : Group) (p : ℕ) (now : Time) (l : p < g.next_cell) (h : IsSound g) where
  -- No set holds the number of the next connection.
  next_unused : has_connection g.next_conn (open_at g p) ≡ false
  next_unused = ground (arith, h.ledger.known p g.next_conn)

  pub track-IsSound : (is_packet : Bool) → IsSound (track is_packet g p now).0
  unfolding track
  track-IsSound is_packet =
      elim (Bool-cases
        (register_connection (g.cells p) g.next_conn g.policy.force_selected now).1) [
          | inl e ↦
              let (a, i) =
                taken_lem (g.cells p) g.next_conn g.policy.force_selected now next_unused e in
              rw (e, track)
                (with_connection-IsSound g p _ is_packet l h
                  (register_connection-IsBalanced (g.cells p) g.next_conn g.policy.force_selected
                    now next_unused (h.ledger.balanced p))
                  a i)
          | inr e ↦ rw (e, track) h
        ]

marked-eq-after_call : (g : Group) (r : Result Group) → marked_or_same g r ≡ after_call g r
unfolding marked_or_same
marked-eq-after_call g (ok g') = refl
marked-eq-after_call g (err e) = refl

-- The steps of the loop keep the store sound and the number of cells.
module _ (g : Group) (p : ℕ) (reason : String) (clock : Clock) where
  pub fail_attempt-IsSound : IsSound g → IsSound (fail_attempt g p reason clock)
  unfolding fail_attempt
  fail_attempt-IsSound h =
      rw
        (marked-eq-after_call g
          (mark_node_failed g (g.cells p).id g.policy.failure_blacklist_ttl reason clock))
        (mark_node_failed-IsSound g (g.cells p).id g.policy.failure_blacklist_ttl reason clock h)

  fail_attempt-next_cell : (fail_attempt g p reason clock).next_cell ≡ g.next_cell
  unfolding fail_attempt
  fail_attempt-next_cell =
      rw
        (marked-eq-after_call g
          (mark_node_failed g (g.cells p).id g.policy.failure_blacklist_ttl reason clock))
        (mark_node_failed-next_cell g (g.cells p).id g.policy.failure_blacklist_ttl reason clock)

set_latency-Keeps : (n : NodeState) (d : Duration) → Keeps n (set_latency n d)
unfolding set_latency
set_latency-Keeps n d = ground arith

pub accept_node-IsSound :
    (is_packet : Bool) (g : Group) (p : ℕ) (elapsed : Duration)
    → IsSound g
    → IsSound (accept_node is_packet g p elapsed)
unfolding accept_node
accept_node-IsSound is_packet g p elapsed h =
    let timed =
      if_both IsSound is_packet {x = g} {y = modify_cell g p (λ n. set_latency n elapsed)} h (
        modify_cell-IsSound g p (λ n. set_latency n elapsed) (set_latency-Keeps (g.cells p) elapsed)
          h) in
    let alive = modify_cell-IsSound _ p mark_alive (mark_alive-Keeps _) timed in
    if_both IsSound (is_manual g.policy.strategy) alive (set_selected-IsSound _ _ alive)

accept_node-next_cell :
    (is_packet : Bool) (g : Group) (p : ℕ) (elapsed : Duration)
    → (accept_node is_packet g p elapsed).next_cell ≡ g.next_cell
unfolding accept_node set_selected modify_cell
accept_node-next_cell is_packet g p elapsed = ground arith

track-next_cell :
    (is_packet : Bool) (g : Group) (p : ℕ) (now : Time)
    → (track is_packet g p now).0.next_cell ≡ g.next_cell
unfolding track with_connection
track-next_cell is_packet g p now = ground arith

-- What holds of the group at the end of an attempt.
abbrev pub OutcomeIsSound : ℕ → Outcome → Type 0
OutcomeIsSound cells (tried g e) = IsSound g × (g.next_cell ≡ cells)
OutcomeIsSound cells (made g c) = IsSound g × (g.next_cell ≡ cells)

tracked_or_tried-IsSound :
    (cells conn : ℕ) (r : Group × Bool)
    → IsSound r.0
    → r.0.next_cell ≡ cells
    → OutcomeIsSound cells (tracked_or_tried conn r)
tracked_or_tried-IsSound cells conn (g, true) h e = (h, e)
tracked_or_tried-IsSound cells conn (g, false) h e = (h, e)

attempt_answer-IsSound :
    (is_packet : Bool) (g : Group) (p : ℕ) (elapsed : Duration) (clock : Clock) (a : Answer)
    → p < g.next_cell
    → IsSound g
    → OutcomeIsSound g.next_cell (attempt_answer is_packet g p elapsed clock a)
attempt_answer-IsSound is_packet g p elapsed clock missing l h =
    (fail_attempt-IsSound g p _ clock h, fail_attempt-next_cell g p _ clock)
attempt_answer-IsSound is_packet g p elapsed clock (refused message) l h =
    (fail_attempt-IsSound g p message clock h, fail_attempt-next_cell g p message clock)
attempt_answer-IsSound is_packet g p elapsed clock connected l h =
    let accepted = accept_node is_packet g p elapsed in
    let same = accept_node-next_cell is_packet g p elapsed in
    tracked_or_tried-IsSound g.next_cell g.next_conn (track is_packet accepted p (clock 0))
      (track-IsSound accepted p (clock 0) (rw same l) (accept_node-IsSound is_packet g p elapsed h)
        is_packet)
      (track-next_cell is_packet accepted p (clock 0) ∙ same)

pub Outcome-cases :
    (o : Outcome)
    → ((g : Group) × (e : Error) × (o ≡ tried g e)) ⊎ ((g : Group) × (c : ℕ) × (o ≡ made g c))
Outcome-cases (tried g e) = inl (g, e, refl)
Outcome-cases (made g c) = inr (g, c, refl)

dial_loop-IsSound :
    (is_packet : Bool) (attempts : ℕ → Attempt) (g : Group) (ps : List ℕ) (es : List Error)
    → AreCells g ps
    → IsSound g
    → IsSound (dial_loop is_packet attempts g ps es).0
unfolding dial_loop
dial_loop-IsSound is_packet attempts g [] [] c h = h
dial_loop-IsSound is_packet attempts g [] (e ∷ es) c h = h
dial_loop-IsSound is_packet attempts g (p ∷ ps) es c h =
    let sound : OutcomeIsSound g.next_cell (attempt_node is_packet (attempts p) g p) =
      attempt_answer-IsSound is_packet g p (attempts p).elapsed (attempts p).clock
        (attempts p).answer c.0 h in
    elim (Outcome-cases (attempt_node is_packet (attempts p) g p)) [
      | inl (g', e, q) ↦
          let (h', same) = (rw q at sound) in
          rw (q, dial_loop) (dial_loop-IsSound is_packet attempts g' ps _ (rw same c.1) h')
      | inr (g', conn, q) ↦ let (h', same) = (rw q at sound) in rw (q, dial_loop) h'
    ]

dial_candidates-IsSound :
    (is_packet : Bool) (attempts : ℕ → Attempt) (r : Option (List ℕ) × Group)
    → IsOffer r
    → IsSound (dial_candidates is_packet attempts r).0
unfolding dial_candidates
dial_candidates-IsSound is_packet attempts (none, g) o = o.sound
dial_candidates-IsSound is_packet attempts (some [], g) o = o.sound
dial_candidates-IsSound is_packet attempts (some (p ∷ ps), g) o =
    dial_loop-IsSound is_packet attempts g (p ∷ ps) [] (o.cells (p ∷ ps) refl) o.sound

pub dial_context-IsSound :
    (g : Group) (now : Time) (swaps : List (ℕ × ℕ)) (attempts : ℕ → Attempt)
    → IsSound g
    → IsSound (dial_context g now swaps attempts).0
unfolding dial_context
dial_context-IsSound g now swaps attempts h =
    dial_candidates-IsSound false attempts _ (candidates-IsOffer g now swaps h)

pub listen_packet-IsSound :
    (g : Group) (now : Time) (swaps : List (ℕ × ℕ)) (attempts : ℕ → Attempt)
    → IsSound g
    → IsSound (listen_packet g now swaps attempts).0
unfolding listen_packet
listen_packet-IsSound g now swaps attempts h =
    dial_candidates-IsSound true attempts _ (candidates-IsOffer g now swaps h)
