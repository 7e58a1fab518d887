-- ===== src/Singbox/Group/Sound/Reach.antt =====
-- core/singboxcore/group.go: a group as its callers drive it, and what holds of every group that
-- they can reach.
use proxy_hub.Prelude.{ℕ, ◌<◌, ◌≡◌, refl, false, String, Bool, Option, List}
use proxy_hub.Singbox.Time.{Time, Duration}
use proxy_hub.Singbox.Policy.{Policy}
use proxy_hub.Singbox.Node.State.{Outbound, NodeState, new_node_state}
use proxy_hub.Singbox.Group.State.{Group, Clock, close_connection}
use proxy_hub.Singbox.Group.Members.{
  new_dynamic_group, add_node, update_policy, disable_node, gc, remove_node, select_node,
  mark_node_alive, mark_node_failed, start_probing, stop_probing,
}
use proxy_hub.Singbox.Group.Dial.{
  Attempt, fail_attempt, accept_node, track, dial_context, listen_packet,
}
use proxy_hub.Singbox.Group.Candidates.{candidates}
use proxy_hub.Singbox.Group.Sound.Candidates.{candidates-IsOffer}
use proxy_hub.Singbox.Group.Traffic.{NetError, read_connection, write_connection}
use proxy_hub.Singbox.Group.Probe.{
  ProbeAnswer, probe_node, run_probe_round, probe_loop_turn, Wake, end_wait,
}
use proxy_hub.Singbox.Group.Soundness.{IsSound, close_connection-IsSound}
use proxy_hub.Singbox.Group.Sound.Members.{
  after_call, IsUnused, new_dynamic_group-IsSound, add_node-IsSound, update_policy-IsSound,
}
use proxy_hub.Singbox.Group.Sound.Removal.{
  disable_node-IsSound, gc-IsSound, after_removal, remove_node-IsSound, select_node-IsSound,
  mark_node_alive-IsSound, mark_node_failed-IsSound, start_probing-IsSound, stop_probing-IsSound,
}
use proxy_hub.Singbox.Group.Sound.Dial.{
  fail_attempt-IsSound, accept_node-IsSound, track-IsSound, dial_context-IsSound,
  listen_packet-IsSound,
}
use proxy_hub.Singbox.Group.Sound.Traffic.{
  read_connection-IsSound, write_connection-IsSound, probe_node-IsSound, run_probe_round-IsSound,
  probe_loop_turn-IsSound, end_wait-IsSound,
}

-- A node as the core hands it to a group.
abbrev pub fresh_node : String → String → Outbound → List String → NodeState
fresh_node id tag outbound tags = record (new_node_state id tag outbound) { tags = tags }

-- One call: of the core, of a client's connection, of the network, or of the probe loop. What the
-- network and the clock do is free; a connection is used only after it was made, and the reads and
-- writes of a packet connection are those of the connection below, so only a stream's are here. A dial and a probe round are steps as a whole and also in
-- their parts, the last five, between which other calls may come.
pub data GroupStep (g : Group) : Group → Type 0 where
  adds :
      (id tag : String) (o : Outbound) (tags : List String)
      → GroupStep g (after_call g (add_node g (fresh_node id tag o tags)))
  updates : (policy : Policy) → GroupStep g (update_policy g policy)
  disables : (id : String) (now : Time) → GroupStep g (after_call g (disable_node g id now))
  removes :
      (id : String) (ttl : Duration) (clock : Clock)
      → GroupStep g (after_removal g (remove_node g id ttl clock))
  collects : (clock : Clock) → GroupStep g (gc g clock).0
  selects : (id : String) (now : Time) → GroupStep g (after_call g (select_node g id now))
  marks_alive : (id : String) → GroupStep g (after_call g (mark_node_alive g id))
  marks_failed :
      (id : String) (ttl : Duration) (reason : String) (clock : Clock)
      → GroupStep g (after_call g (mark_node_failed g id ttl reason clock))
  starts : GroupStep g (start_probing g)
  stops : GroupStep g (stop_probing g)
  dials :
      (now : Time) (swaps : List (ℕ × ℕ)) (attempts : ℕ → Attempt)
      → GroupStep g (dial_context g now swaps attempts).0
  listens :
      (now : Time) (swaps : List (ℕ × ℕ)) (attempts : ℕ → Attempt)
      → GroupStep g (listen_packet g now swaps attempts).0
  reads :
      (c n : ℕ) (e : Option NetError) (clock : Clock)
      → c < g.next_conn
      → (g.conns c).is_packet ≡ false
      → GroupStep g (read_connection g c n e clock)
  writes :
      (c : ℕ) (e : Option NetError) (clock : Clock)
      → c < g.next_conn
      → (g.conns c).is_packet ≡ false
      → GroupStep g (write_connection g c e clock)
  closes : (c : ℕ) → c < g.next_conn → GroupStep g (close_connection g c)
  probes :
      (policy : Policy) (answers : ℕ → ProbeAnswer) (clock : Clock) (clocks : ℕ → Clock)
      → GroupStep g (run_probe_round g policy answers clock clocks)
  turns :
      (answers : ℕ → ProbeAnswer) (clock : Clock) (clocks : ℕ → Clock) (now : Time)
      → GroupStep g (probe_loop_turn g answers clock clocks now).0
  wakes : (wake : Wake) → GroupStep g (end_wait g wake)
  offers : (now : Time) (swaps : List (ℕ × ℕ)) → GroupStep g (candidates g now swaps).1
  fails : (p : ℕ) (reason : String) (clock : Clock) → GroupStep g (fail_attempt g p reason clock)
  accepts :
      (is_packet : Bool) (p : ℕ) (elapsed : Duration)
      → GroupStep g (accept_node is_packet g p elapsed)
  tracks :
      (is_packet : Bool) (p : ℕ) (now : Time)
      → p < g.next_cell
      → GroupStep g (track is_packet g p now).0
  probes_node :
      (policy : Policy) (p : ℕ) (answer : ProbeAnswer) (clock : Clock)
      → GroupStep g (probe_node g policy p answer clock)

fresh_node-IsUnused :
    (id tag : String) (o : Outbound) (tags : List String) → IsUnused (fresh_node id tag o tags)
unfolding new_node_state
fresh_node-IsUnused id tag o tags = record { none_open = refl; none_counted = refl }

pub GroupStep-IsSound : {g g' : Group} → GroupStep g g' → IsSound g → IsSound g'
GroupStep-IsSound {g} (adds id tag o tags) h =
    add_node-IsSound g _ (fresh_node-IsUnused id tag o tags) h
GroupStep-IsSound {g} (updates policy) h = update_policy-IsSound g policy h
GroupStep-IsSound {g} (disables id now) h = disable_node-IsSound g id now h
GroupStep-IsSound {g} (removes id ttl clock) h = remove_node-IsSound g id ttl clock h
GroupStep-IsSound {g} (collects clock) h = gc-IsSound g clock h
GroupStep-IsSound {g} (selects id now) h = select_node-IsSound g id now h
GroupStep-IsSound {g} (marks_alive id) h = mark_node_alive-IsSound g id h
GroupStep-IsSound {g} (marks_failed id ttl reason clock) h =
    mark_node_failed-IsSound g id ttl reason clock h
GroupStep-IsSound {g} starts h = start_probing-IsSound g h
GroupStep-IsSound {g} stops h = stop_probing-IsSound g h
GroupStep-IsSound {g} (dials now swaps attempts) h = dial_context-IsSound g now swaps attempts h
GroupStep-IsSound {g} (listens now swaps attempts) h = listen_packet-IsSound g now swaps attempts h
GroupStep-IsSound {g} (reads c n e clock l s) h = read_connection-IsSound g c n e clock l h
GroupStep-IsSound {g} (writes c e clock l s) h = write_connection-IsSound g c e clock l h
GroupStep-IsSound {g} (closes c l) h = close_connection-IsSound g c l h
GroupStep-IsSound {g} (probes policy answers clock clocks) h =
    run_probe_round-IsSound g policy answers clock clocks h
GroupStep-IsSound {g} (turns answers clock clocks now) h =
    probe_loop_turn-IsSound g answers clock clocks now h
GroupStep-IsSound {g} (wakes wake) h = end_wait-IsSound g wake h
GroupStep-IsSound {g} (offers now swaps) h = (candidates-IsOffer g now swaps h).sound
GroupStep-IsSound {g} (fails p reason clock) h = fail_attempt-IsSound g p reason clock h
GroupStep-IsSound {g} (accepts is_packet p elapsed) h = accept_node-IsSound is_packet g p elapsed h
GroupStep-IsSound {g} (tracks is_packet p now l) h = track-IsSound g p now l h is_packet
GroupStep-IsSound {g} (probes_node policy p answer clock) h =
    probe_node-IsSound g policy p answer clock h

pub data Reach (g : Group) : Group → Type 0 where
  here : Reach g g
  next : {h i : Group} → Reach g h → GroupStep h i → Reach g i

-- Whatever the callers, the network and the clock do to a new group: the count of each node's
-- connections is the number of its open ones, every connection in a node's set is that node's and
-- not released, every tracked connection that is not released is in its node's set, and every ID
-- of the map is that of its node.
pub Reach-IsSound :
    (tag : String) (policy : Policy) (cancelled : Bool) {g : Group}
    → Reach (new_dynamic_group tag policy cancelled) g
    → IsSound g
Reach-IsSound tag policy cancelled here = new_dynamic_group-IsSound tag policy cancelled
Reach-IsSound tag policy cancelled (next r s) =
    GroupStep-IsSound s (Reach-IsSound tag policy cancelled r)
