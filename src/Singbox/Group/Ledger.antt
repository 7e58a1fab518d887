-- ===== src/Singbox/Group/Ledger.antt =====
-- core/singboxcore/group.go: the connections of a group and the counts of its nodes, and the
-- closing of a node's connections.
use proxy_hub.Prelude.{
  ℕ, ◌<◌, ◌≡◌, ◌≢◌, refl, ap, ◌∙◌, length, true, false, List, [], ◌∷◌, arith, ◌==◌, if◌then◌else◌,
}
use proxy_hub.Prelude.Int.{pos}
use proxy_hub.Singbox.Node.State.{NodeState, has_connection, unregister_connection, dec_active}
use proxy_hub.Singbox.Node.Accounting.{
  IsBalanced, has_connection-remove_connection, release-IsBalanced,
}
use proxy_hub.Singbox.Group.State.{
  Connection, Group, modify_cell, modify_conn, release_active, mark_closed, close_connection,
  close_connections, close_active_connections,
}

abbrev pub open_at : Group → ℕ → List ℕ
open_at g p = (g.cells p).active_connections

-- Every node's count is the size of its set; a connection in a set belongs to that node and has
-- not been released; and a tracked connection that has not been released is in its node's set.
-- The node of a tracked connection is one of the group's cells.
pub record IsConsistent (g : Group) : Type 0 where
  pub balanced : (p : ℕ) → IsBalanced (g.cells p)
  pub owner : (p c : ℕ) → has_connection c (open_at g p) ≡ true → (g.conns c).node ≡ p
  pub unreleased :
      (p c : ℕ) → has_connection c (open_at g p) ≡ true → (g.conns c).active_done ≡ false
  pub known : (p c : ℕ) → has_connection c (open_at g p) ≡ true → c < g.next_conn
  pub tracked :
      (c : ℕ)
      → c < g.next_conn
      → (g.conns c).active_done ≡ false
      → has_connection c (open_at g (g.conns c).node) ≡ true
  pub owned : (c : ℕ) → c < g.next_conn → (g.conns c).node < g.next_cell

-- A connection's own flags do not matter to it.
pub modify_conn-IsConsistent :
    (g : Group) (c : ℕ) (f : Connection → Connection)
    → (f (g.conns c)).node ≡ (g.conns c).node
    → (f (g.conns c)).active_done ≡ (g.conns c).active_done
    → IsConsistent g
    → IsConsistent (modify_conn g c f)
unfolding modify_conn
modify_conn-IsConsistent g c f n d h = record {
  balanced = h.balanced;
  owner = λ p e k. ground (arith, h.owner p e);
  unreleased = λ p e k. ground (arith, h.unreleased p e);
  known = h.known;
  tracked = λ e k u. ground (arith, h.tracked e);
  owned = λ e k. ground (arith, h.owned e);
}

-- Nor does a change of a node that leaves its connections and their count.
pub modify_cell-IsConsistent :
    (g : Group) (p : ℕ) (f : NodeState → NodeState)
    → (f (g.cells p)).active_connections ≡ (g.cells p).active_connections
    → (f (g.cells p)).active_count ≡ (g.cells p).active_count
    → IsConsistent g
    → IsConsistent (modify_cell g p f)
unfolding modify_cell
modify_cell-IsConsistent g p f a n h = record {
  balanced = λ q. ground (arith, h.balanced q, h.balanced p);
  owner = λ q c k. ground (arith, h.owner q c);
  unreleased = λ q c k. ground (arith, h.unreleased q c);
  known = λ q c k. ground (arith, h.known q c);
  tracked = λ c k u. ground (arith, h.tracked c);
  owned = h.owned;
}

-- Once released, a connection is in no node's set.
module _ (g : Group) (c : ℕ) (l : c < g.next_conn) (h : IsConsistent g) where
  node_of : ℕ
  node_of = (g.conns c).node

  released-IsBalanced : (q : ℕ) → IsBalanced ((release_active g c).cells q)
  unfolding release_active node_of
  released-IsBalanced q = ground (
    arith,
    h.balanced q,
    h.tracked c l,
    release-IsBalanced (g.cells node_of) c,
    h.balanced node_of,
  )

  -- What is in a set afterwards was in it before, and is another connection or was released before.
  released-open :
      (q d : ℕ)
      → has_connection d (open_at (release_active g c) q) ≡ true
      → (has_connection d (open_at g q) ≡ true) × (d ≢ c)
  unfolding release_active dec_active unregister_connection node_of
  released-open q d k = ground (
    arith,
    has_connection-remove_connection c d (open_at g node_of),
    h.unreleased q d,
    h.owner q d,
  )

  -- No connection changes its node, and this one alone is released.
  released-conns :
      (d : ℕ)
      → (((release_active g c).conns d).node ≡ (g.conns d).node)
        × (((release_active g c).conns d).active_done
            ≡ (if d == c then true else (g.conns d).active_done))
        × ((release_active g c).next_conn ≡ g.next_conn)
        × ((release_active g c).next_cell ≡ g.next_cell)
  unfolding release_active
  released-conns d = (ground arith, ground arith, ground arith, ground arith)

  released-tracked :
      (d : ℕ)
      → d < g.next_conn
      → ((release_active g c).conns d).active_done ≡ false
      → has_connection d (open_at (release_active g c) (g.conns d).node) ≡ true
  unfolding release_active dec_active unregister_connection node_of
  released-tracked d k u =
      ground (arith, h.tracked d k, has_connection-remove_connection c d (open_at g node_of))

  pub release_active-IsConsistent : IsConsistent (release_active g c)
  release_active-IsConsistent = record {
    balanced = released-IsBalanced;
    owner = λ q d k. (released-conns d).0 ∙ h.owner q d (released-open q d k).0;
    unreleased = λ q d k. ground (arith, released-conns d, released-open q d k, h.unreleased q d);
    known = λ q d k. rw (released-conns d).2 (h.known q d (released-open q d k).0);
    tracked =
        λ d k u. rw (released-conns d).0 (released-tracked d (rw (released-conns d).2 at k) u);
    owned = λ d k. ground (arith, released-conns d, h.owned d);
  }

pub close_connection-IsConsistent :
    (g : Group) (c : ℕ) → c < g.next_conn → IsConsistent g → IsConsistent (close_connection g c)
unfolding close_connection
close_connection-IsConsistent g c l h =
    release_active-IsConsistent (modify_conn g c mark_closed) c (unfold modify_conn in l)
      (modify_conn-IsConsistent g c mark_closed refl refl h)

-- What closing one connection does to the sets of the nodes.
close_connection-open :
    (g : Group) (c : ℕ)
    → c < g.next_conn
    → IsConsistent g
    → (q d : ℕ) → has_connection d (open_at (close_connection g c) q) ≡ true
    → (has_connection d (open_at g q) ≡ true) × (d ≢ c)
unfolding close_connection
close_connection-open g c l h q d k =
    released-open (modify_conn g c mark_closed) c (unfold modify_conn in l)
      (modify_conn-IsConsistent g c mark_closed refl refl h) q d k

close_connection-next_conn : (g : Group) (c : ℕ) → (close_connection g c).next_conn ≡ g.next_conn
unfolding close_connection release_active modify_conn
close_connection-next_conn g c = ground arith

-- The connections of a list, all of them tracked by the group.
abbrev AreKnown : Group → List ℕ → Type 0
AreKnown g cs = (d : ℕ) → has_connection d cs ≡ true → d < g.next_conn

module _ (g : Group) (c : ℕ) (cs : List ℕ) (k : AreKnown g (c ∷ cs)) where
  head_known : c < g.next_conn
  unfolding has_connection
  head_known = k c (ground arith)

  tail_known : AreKnown (close_connection g c) cs
  unfolding has_connection
  tail_known d m = rw (close_connection-next_conn g c) (k d (ground arith))

close_connections-IsConsistent :
    (g : Group) (cs : List ℕ)
    → AreKnown g cs
    → IsConsistent g
    → IsConsistent (close_connections g cs)
unfolding close_connections
close_connections-IsConsistent g [] k h = h
close_connections-IsConsistent g (c ∷ cs) k h =
    close_connections-IsConsistent (close_connection g c) cs (tail_known g c cs k)
      (close_connection-IsConsistent g c (head_known g c cs k) h)

close_connections-open :
    (g : Group) (cs : List ℕ)
    → AreKnown g cs
    → IsConsistent g
    → (q d : ℕ) → has_connection d (open_at (close_connections g cs) q) ≡ true
    → (has_connection d (open_at g q) ≡ true) × (has_connection d cs ≡ false)
unfolding close_connections has_connection
close_connections-open g [] k h q d m = (m, refl)
close_connections-open g (c ∷ cs) k h q d m =
    let l = head_known g c cs k in
    let (before, others) =
      close_connections-open (close_connection g c) cs (tail_known g c cs k)
        (close_connection-IsConsistent g c l h) q d m in
    let (first, differ) = close_connection-open g c l h q d before in (first, ground arith)

none_open : (cs : List ℕ) → ((d : ℕ) → has_connection d cs ≡ true → ⊥) → cs ≡ []
unfolding has_connection
none_open [] n = refl
none_open (c ∷ cs) n = absurd (n c (ground arith))

pub close_active_connections-IsConsistent :
    (g : Group) (p : ℕ) → IsConsistent g → IsConsistent (close_active_connections g p)
unfolding close_active_connections
close_active_connections-IsConsistent g p h =
    close_connections-IsConsistent g (open_at g p) (λ d m. h.known p d m) h

-- Where the counts and sets agree, closing the connections of a node leaves none in its set and its count at zero, and opens none
-- at any other node.
pub close_active_connections-none :
    (g : Group) (p : ℕ)
    → IsConsistent g
    → (open_at (close_active_connections g p) p ≡ [])
      × (((close_active_connections g p).cells p).active_count ≡ pos 0)
      × ((q d : ℕ)
          → has_connection d (open_at (close_active_connections g p) q) ≡ true
          → has_connection d (open_at g q) ≡ true)
unfolding close_active_connections
close_active_connections-none g p h = (empty, count, λ q d m. (opened q d m).0)
  where
    opened :
        (q d : ℕ)
        → has_connection d (open_at (close_connections g (open_at g p)) q) ≡ true
        → (has_connection d (open_at g q) ≡ true) × (has_connection d (open_at g p) ≡ false)
    opened q d m = close_connections-open g (open_at g p) (λ e n. h.known p e n) h q d m

    empty : open_at (close_connections g (open_at g p)) p ≡ []
    empty = none_open _ (λ d m. let (before, not_before) = opened p d m in cc)

    count : ((close_connections g (open_at g p)).cells p).active_count ≡ pos 0
    count =
        ((close_connections-IsConsistent g (open_at g p) (λ e n. h.known p e n) h).balanced
          p).counted
        ∙ ap (λ (cs : List ℕ). pos (length cs)) empty
