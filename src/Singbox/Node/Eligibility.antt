-- ===== src/Singbox/Node/Eligibility.antt =====
-- core/singboxcore/node.go: when a node may be chosen.
use proxy_hub.Prelude.{◌≤◌, ◌≡◌, ◌↔◌, Bool, true, false, not, ◌&&◌, String, arith}
use proxy_hub.Prelude.Int.{is_positive}
use proxy_hub.Singbox.Time.{Time, Duration, add_time}
use proxy_hub.Singbox.Node.State.{NodeState, is_dead, eligible}
use proxy_hub.Singbox.Node.Marks.{blacklisted_now, mark_failed, mark_tombstone}

-- A node may be chosen exactly when it is enabled, not tombstoned, not dead and not blacklisted at
-- that time, and with its health ignored exactly when it is enabled and not tombstoned.
pub eligible_iff_not-blacklisted_now :
    (n : NodeState) (now : Time)
    → (eligible n now false
        ≡ n.enabled && not n.tombstoned && not (is_dead n.health) && not (blacklisted_now n now))
      × (eligible n now true ≡ n.enabled && not n.tombstoned)
unfolding eligible blacklisted_now
eligible_iff_not-blacklisted_now n now = (ground arith, ground arith)

-- A failure with a positive TTL keeps a node that is enabled and not tombstoned out until the TTL
-- has passed, and no longer; a failure without one keeps it out at every time.
pub eligible-mark_failed :
    (n : NodeState) (ttl : Duration) (reason : String) (now later : Time)
    → n.enabled ≡ true
    → n.tombstoned ≡ false
    → (eligible (mark_failed n ttl reason now) later false ≡ true)
      ↔ ((is_positive ttl ≡ true) × (add_time now ttl ≤ later))
unfolding eligible mark_failed
eligible-mark_failed n ttl reason now later e t = (λ h. ground arith, λ h. ground arith)

-- A tombstone is final for eligibility.
pub eligible-mark_tombstone :
    (n : NodeState) (ttl : Duration) (now later : Time) (ignore : Bool)
    → eligible (mark_tombstone n ttl now) later ignore ≡ false
unfolding eligible mark_tombstone
eligible-mark_tombstone n ttl now later ignore = ground arith
