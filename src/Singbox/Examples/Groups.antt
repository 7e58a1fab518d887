-- ===== src/Singbox/Examples/Groups.antt =====
-- core/singboxcore/group.go, on a group of two nodes with an open connection.
use proxy_hub.Prelude.{
  ℕ, ◌==◌, if◌then◌else◌, ◌≡◌, ◌⊎◌, true, false, some, none, [], All, ◌-◌, List, ◌≢◌, ◌∷◌, refl, In,
  inl,
}
use proxy_hub.Prelude.Int.{pos}
use proxy_hub.Singbox.Policy.{round_robin}
use proxy_hub.Singbox.Time.{seconds}
use proxy_hub.Singbox.Node.State.{has_connection, new_node_state}
use proxy_hub.Singbox.Group.State.{
  Group, find_node, is_eligible, ensure_selected, close_connection, close_active_connections,
}
use proxy_hub.Singbox.Group.Candidates.{candidates, member_cells, eligible_nodes, revive_if_none}
use proxy_hub.Singbox.Group.Liveness.{revive_if_none-offers}
use proxy_hub.Prelude.Maps.{lookup}
use proxy_hub.Singbox.Node.Marks.{mark_failed}
use proxy_hub.Singbox.Examples.Sample.{
  failed_node, node_a, with_strategy, tick, two_nodes, one_open, one_open-Reach,
}
use proxy_hub.Singbox.Group.Dial.{Attempt, missing, refused}
use proxy_hub.Singbox.Group.Traffic.{NetError, read_connection, write_connection}
use proxy_hub.Singbox.Group.Ledger.{open_at, close_active_connections-none}
use proxy_hub.Singbox.Group.Soundness.{IsSound}
use proxy_hub.Singbox.Group.Sound.Reach.{Reach-IsSound}
use proxy_hub.Singbox.Group.Selection.{ensure_selected_lem, remove_node_lem}
use proxy_hub.Singbox.Group.Offer.{OffersEligible, candidates_lem}
use proxy_hub.Singbox.Group.Blame.{
  TrafficCall, reads, writes, closes, traffic_calls, after_bytes_lem, after_close_lem,
}
use proxy_hub.Singbox.Examples.OneOpen.{found_a, a_removed, a_ready, removed_a, stream_0}

Reach-IsSound_example : IsSound one_open
Reach-IsSound_example = Reach-IsSound "group" (with_strategy round_robin) false one_open-Reach

one_open-IsSound : IsSound one_open
one_open-IsSound = Reach-IsSound "group" (with_strategy round_robin) false one_open-Reach

close_active_connections-none_example :
    (open_at (close_active_connections one_open 0) 0 ≡ [])
    × (((close_active_connections one_open 0).cells 0).active_count ≡ pos 0)
    × ((q d : ℕ)
        → has_connection d (open_at (close_active_connections one_open 0) q) ≡ true
        → has_connection d (open_at one_open q) ≡ true)
close_active_connections-none_example =
    close_active_connections-none one_open 0 one_open-IsSound.ledger

remove_node_lem_example :
    (find_node a_removed "a" ≡ none)
    × (open_at a_removed 0 ≡ [])
    × ((a_removed.cells 0).active_count ≡ pos 0)
remove_node_lem_example =
    remove_node_lem one_open a_removed "a" 0 (seconds 120) tick a_ready one_open-IsSound found_a
      removed_a

ensure_selected_lem_example :
    (one_open.policy.force_selected ≡ false
      → (is_eligible one_open 20 (ensure_selected one_open 20).selected ≡ true)
        ⊎ (((ensure_selected one_open 20).selected ≡ "")
            × All (λ id. is_eligible one_open 20 id ≡ false) one_open.order))
    × (is_eligible one_open 20 one_open.selected ≡ true
        → (ensure_selected one_open 20).selected ≡ one_open.selected)
    × (one_open.policy.force_selected ≡ true
        → (ensure_selected one_open 20).selected ≡ one_open.selected)
ensure_selected_lem_example = ensure_selected_lem one_open 20

candidates_lem_example :
    OffersEligible two_nodes.policy.force_selected 5 (candidates two_nodes 5 [])
candidates_lem_example = candidates_lem two_nodes 5 []

-- The network refuses the first node, and no outbound has the tag of the second one.
abbrev none_connects : ℕ → Attempt
none_connects p = record {
  answer = if p == 0 then refused "connection refused" else missing;
  elapsed = pos 1_000_000;
  clock = tick;
}

abbrev reset_error : NetError
reset_error = record {
  is_closed = false;
  is_eof = false;
  is_unexpected_eof = false;
  is_timeout = false;
  message = "connection reset by peer";
}

abbrev some_traffic : List TrafficCall
some_traffic = reads 0 0 none tick ∷ closes 1 ∷ writes 0 none tick ∷ []

after_bytes_lem_example :
    let received = read_connection one_open 0 1 (some reset_error) tick in
    let g' = traffic_calls received some_traffic in
    (received ≡ read_connection one_open 0 1 none tick)
    × (write_connection g' 0 (some reset_error) tick ≡ g')
    × (read_connection g' 0 0 (some reset_error) tick ≡ read_connection g' 0 0 none tick)
after_bytes_lem_example =
    after_bytes_lem one_open 0 0 0 (some reset_error) (some reset_error) tick tick some_traffic

after_close_lem_example :
    (write_connection (close_connection one_open 0) 0 (some reset_error) tick
      ≡ close_connection one_open 0)
    × (read_connection (close_connection one_open 0) 0 0 (some reset_error) tick
        ≡ read_connection (close_connection one_open 0) 0 0 none tick)
after_close_lem_example = after_close_lem one_open 0 0 (some reset_error) tick stream_0

-- Both nodes measured, the second one faster.
abbrev measured : Group
measured = record two_nodes {
  cells = λ p. record node_a { latency_candidate = true; last_latency = 30 - p };
}

-- One node, and that one blacklisted.
abbrev all_failed : Group
all_failed = record two_nodes { cells = λ p. failed_node; nodes = ("a", 0) ∷ []; order = "a" ∷ [] }

failed_member : In 0 (member_cells all_failed.nodes all_failed.order)
unfolding member_cells lookup
failed_member = inl refl

revive_if_none-offers_example :
    eligible_nodes (revive_if_none all_failed 20 (eligible_nodes all_failed 20)) 20 ≢ []
unfolding new_node_state mark_failed
revive_if_none-offers_example = revive_if_none-offers all_failed 20 0 failed_member refl refl refl
