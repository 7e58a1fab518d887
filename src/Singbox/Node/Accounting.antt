-- ===== src/Singbox/Node/Accounting.antt =====
-- core/singboxcore/node.go: the count of active connections and the set of them.
use proxy_hub.Prelude.{
  ℕ, suc, ◌≡◌, refl, Bool, true, false, not, ◌&&◌, List, [], ◌∷◌, arith, ◌==◌, length,
}
use proxy_hub.Prelude.Int.{pos}
use proxy_hub.Singbox.Time.{Time}
use proxy_hub.Singbox.Node.State.{
  NodeState, has_connection, remove_connection, register_connection, unregister_connection,
  dec_active,
}

-- No connection twice.
abbrev pub Distinct : List ℕ → Type 0
Distinct [] = Unit {0}
Distinct (c ∷ cs) = (has_connection c cs ≡ false) × Distinct cs

pub has_connection-remove_connection :
    (c d : ℕ) (cs : List ℕ)
    → has_connection d (remove_connection c cs) ≡ not (c == d) && has_connection d cs
unfolding has_connection remove_connection
has_connection-remove_connection c d [] = ground arith
has_connection-remove_connection c d (e ∷ cs) =
    ground (arith, has_connection-remove_connection c d cs)

pub remove_connection_absent :
    (c : ℕ) (cs : List ℕ) → has_connection c cs ≡ false → remove_connection c cs ≡ cs
unfolding has_connection remove_connection
remove_connection_absent c [] h = refl
remove_connection_absent c (e ∷ cs) h = ground (arith, remove_connection_absent c cs)

pub length-remove_connection :
    (c : ℕ) (cs : List ℕ)
    → Distinct cs
    → has_connection c cs ≡ true
    → suc (length (remove_connection c cs)) ≡ length cs
unfolding has_connection remove_connection
length-remove_connection c [] d h = cc
length-remove_connection c (e ∷ cs) d h =
    ground (arith, length-remove_connection c cs d.1, remove_connection_absent e cs d.0)

pub remove_connection-Distinct :
    (c : ℕ) (cs : List ℕ) → Distinct cs → Distinct (remove_connection c cs)
unfolding has_connection remove_connection
remove_connection-Distinct c [] d = tt
remove_connection-Distinct c (e ∷ cs) d =
    ground (arith, remove_connection-Distinct c cs d.1, has_connection-remove_connection c e cs)

-- The set has no repetition and the count is its size.
pub record IsBalanced (n : NodeState) : Type 0 where
  pub distinct : Distinct n.active_connections
  pub counted : n.active_count ≡ pos (length n.active_connections)

-- Registering a connection that is not registered keeps the set without repetition and the count its
-- size, whether or not the node takes the connection.
pub register_connection-IsBalanced :
    (n : NodeState) (c : ℕ) (ignore : Bool) (now : Time)
    → has_connection c n.active_connections ≡ false
    → IsBalanced n
    → IsBalanced (register_connection n c ignore now).0
unfolding register_connection
register_connection-IsBalanced n c ignore now h b = ground arith

-- Releasing a registered connection, that is unregistering it and counting down, keeps the set without
-- repetition and the count its size.
pub release-IsBalanced :
    (n : NodeState) (c : ℕ)
    → has_connection c n.active_connections ≡ true
    → IsBalanced n
    → IsBalanced (dec_active (unregister_connection n c))
unfolding dec_active unregister_connection
release-IsBalanced n c h b = ground (
  arith,
  length-remove_connection c n.active_connections b.distinct h,
  remove_connection-Distinct c n.active_connections b.distinct,
)
