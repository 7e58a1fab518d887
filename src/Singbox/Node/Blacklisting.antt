-- ===== src/Singbox/Node/Blacklisting.antt =====
-- core/singboxcore/node.go: how failures add up to a blacklisting, and how a revival ends it.
use proxy_hub.Prelude.{
  ℕ, suc, ◌+◌, ◌≤◌, ◌<◌, All, ◌≡◌, refl, ap, ◌∙◌, ◌↔◌, Bool, true, false, ◌&&◌, String, none, some,
  List, [], ◌∷◌, arith, inl, inr, Bool-cases, if◌then◌else◌, length,
}
use proxy_hub.Prelude.Int.{is_positive}
use proxy_hub.Singbox.Time.{Time, add_time}
use proxy_hub.Singbox.Node.State.{blacklisted, NodeState, is_dead, is_blacklisted, eligible}
use proxy_hub.Singbox.Node.Marks.{
  ProbeFailurePolicy, reaches, record_probe_failure, record_traffic_failure,
}
use proxy_hub.Singbox.Node.Revival.{RevivalCandidate, revival_candidate, revive_blacklist}

-- A failed probe, or a connection that failed before its first byte.
pub record Failure : Type 0 where
  pub by_probe : Bool
  pub reason : String
  pub at : Time

pub fail : ProbeFailurePolicy → NodeState → Failure → NodeState
fail policy n f =
    if f.by_probe
    then record_probe_failure n f.reason f.at policy
    else (record_traffic_failure n f.reason f.at policy).0

pub fail_all : ProbeFailurePolicy → NodeState → List Failure → NodeState
fail_all policy n [] = n
fail_all policy n (f ∷ fs) = fail_all policy (fail policy n f) fs

abbrev pub at_threshold : ProbeFailurePolicy → ℕ → Bool
at_threshold policy count = is_positive policy.threshold && reaches count policy.threshold

fail_lem :
    (policy : ProbeFailurePolicy) (n : NodeState) (f : Failure)
    → ((fail policy n f).failure_count ≡ suc n.failure_count)
      × ((fail policy n f).health
          ≡ (if at_threshold policy (suc n.failure_count) then blacklisted else n.health))
      × ((fail policy n f).latency_candidate ≡ false)
unfolding fail record_probe_failure record_traffic_failure
fail_lem policy n f = (ground arith, ground arith, ground arith)

-- A run of failures, of probes and of traffic in any order, counts each of them; the node is
-- blacklisted at its end exactly if the count has reached a positive threshold, and otherwise
-- keeps its health. It is no latency candidate then.
pub fail_all-health :
    (policy : ProbeFailurePolicy) (n : NodeState) (f : Failure) (fs : List Failure)
    → ((fail_all policy n (f ∷ fs)).failure_count ≡ n.failure_count + length (f ∷ fs))
      × ((fail_all policy n (f ∷ fs)).health ≡ (
          if at_threshold policy (n.failure_count + length (f ∷ fs))
          then blacklisted
          else n.health))
      × ((fail_all policy n (f ∷ fs)).latency_candidate ≡ false)
unfolding fail_all
fail_all-health policy n f [] = ground (arith, fail_lem policy n f)
fail_all-health policy n f (g ∷ fs) =
    ground (arith, fail_lem policy n f, fail_all-health policy (fail policy n f) g fs)

-- A node that is enabled, not tombstoned and not dead is either eligible or offered for revival,
-- never both.
pub revival_candidate_iff_not-eligible :
    (cell : ℕ) (n : NodeState) (now : Time) (order : ℕ)
    → n.enabled ≡ true
    → n.tombstoned ≡ false
    → is_dead n.health ≡ false
    → (eligible n now false ≡ true) ↔ (revival_candidate cell n now order ≡ none)
unfolding eligible revival_candidate
revival_candidate_iff_not-eligible cell n now order e t d = (λ h. ground arith, λ h. ground arith)

-- Every node offered for revival is out at that time, its revival succeeds, and afterwards it is
-- eligible at every time, with no failure and no slow probe counted, and a latency candidate.
pub revive_blacklist_of_candidate :
    (cell : ℕ) (n : NodeState) (now : Time) (order : ℕ) (c : RevivalCandidate) (later : Time)
    → revival_candidate cell n now order ≡ some c
    → (eligible n now false ≡ false)
      × ((revive_blacklist n).1 ≡ true)
      × (eligible (revive_blacklist n).0 later false ≡ true)
      × ((revive_blacklist n).0.failure_count ≡ 0)
      × ((revive_blacklist n).0.slow_count ≡ 0)
      × ((revive_blacklist n).0.latency_candidate ≡ true)
unfolding eligible revival_candidate revive_blacklist
revive_blacklist_of_candidate cell n now order c later h =
    (ground arith, ground arith, ground arith, ground arith, ground arith, ground arith)

-- Traffic failures under one policy, and how many of them were reported as a blacklisting.
pub reports : ProbeFailurePolicy → NodeState → List Failure → ℕ
reports policy n [] = 0
reports policy n (f ∷ fs) =
    let (n', reported) = record_traffic_failure n f.reason f.at policy in
    let rest = reports policy n' fs in if reported then suc rest else rest

-- The failure is not before the start, and before a blacklisting of the start would end.
abbrev pub IsWithin : ProbeFailurePolicy → Time → Failure → Type 0
IsWithin policy start f = (start ≤ f.at) × (f.at < add_time start policy.ttl)

reports_listed :
    (policy : ProbeFailurePolicy) (n : NodeState) (start : Time) (fs : List Failure)
    → is_positive policy.ttl ≡ true
    → All (IsWithin policy start) fs
    → n.health ≡ blacklisted
    → add_time start policy.ttl ≤ n.blacklisted_until
    → reports policy n fs ≡ 0
unfolding reports record_traffic_failure
reports_listed policy n start [] t w h u = refl
reports_listed policy n start (f ∷ fs) t w h u = ground (
  arith,
  w.0,
  reports_listed policy (record_traffic_failure n f.reason f.at policy).0 start fs t w.1,
)

-- A traffic failure that does not reach the threshold.
report_below :
    (policy : ProbeFailurePolicy) (n : NodeState) (f : Failure)
    → is_blacklisted n.health ≡ false
    → at_threshold policy (suc n.failure_count) ≡ false
    → let (m, reported) = record_traffic_failure n f.reason f.at policy in
      (reported ≡ false) × (m.health ≡ n.health) × (m.failure_count ≡ suc n.failure_count)
unfolding record_traffic_failure
report_below policy n f b h = (ground arith, ground arith, ground arith)

-- A traffic failure that reaches it, at a TTL that is positive.
report_reached :
    (policy : ProbeFailurePolicy) (n : NodeState) (f : Failure)
    → is_positive policy.ttl ≡ true
    → is_blacklisted n.health ≡ false
    → at_threshold policy (suc n.failure_count) ≡ true
    → let (m, reported) = record_traffic_failure n f.reason f.at policy in
      (reported ≡ true)
      × (m.health ≡ blacklisted)
      × (m.blacklisted_until ≡ add_time f.at policy.ttl)
unfolding record_traffic_failure
report_reached policy n f t b h = (ground arith, ground arith, ground arith)

at_threshold-le :
    (policy : ProbeFailurePolicy) (c d : ℕ)
    → c ≤ d
    → at_threshold policy c ≡ true
    → at_threshold policy d ≡ true
at_threshold-le policy c d l h = ground arith

reports_reached :
    (policy : ProbeFailurePolicy) (n : NodeState) (start : Time) (f : Failure) (fs : List Failure)
    → is_positive policy.ttl ≡ true
    → is_blacklisted n.health ≡ false
    → All (IsWithin policy start) (f ∷ fs)
    → at_threshold policy (suc n.failure_count) ≡ true
    → reports policy n (f ∷ fs)
      ≡ (if at_threshold policy (n.failure_count + length (f ∷ fs)) then 1 else 0)
unfolding reports
reports_reached policy n start f fs t b w h =
    let (told, listed, until) = report_reached policy n f t b h in
    let quiet =
      reports_listed policy (record_traffic_failure n f.reason f.at policy).0 start fs t w.1 listed
        (rw until (omega (arith, w.0.0))) in
    let whole =
      at_threshold-le policy (suc n.failure_count) (n.failure_count + length (f ∷ fs)) (omega arith)
        h in
    rw (told, quiet, whole) refl

-- A run of traffic failures of a node that is not blacklisted, all within one TTL, is reported as a
-- blacklisting exactly once if the count of failures reaches a positive threshold by its end, and
-- otherwise never.
pub reports_lem :
    (policy : ProbeFailurePolicy) (n : NodeState) (start : Time) (f : Failure) (fs : List Failure)
    → is_positive policy.ttl ≡ true
    → is_blacklisted n.health ≡ false
    → All (IsWithin policy start) (f ∷ fs)
    → reports policy n (f ∷ fs)
      ≡ (if at_threshold policy (n.failure_count + length (f ∷ fs)) then 1 else 0)
unfolding reports
reports_lem policy n start f [] t b w =
    elim (Bool-cases (at_threshold policy (suc n.failure_count))) [
      | inl h ↦ reports_reached policy n start f [] t b w h
      | inr h ↦
          let (quiet, _, _) = report_below policy n f b h in
          let last : n.failure_count + 1 ≡ suc n.failure_count = omega arith in
          rw (quiet, last, h) refl
    ]
reports_lem policy n start f (g ∷ gs) t b w =
    elim (Bool-cases (at_threshold policy (suc n.failure_count))) [
      | inl h ↦ reports_reached policy n start f (g ∷ gs) t b w h
      | inr h ↦
          let m = (record_traffic_failure n f.reason f.at policy).0 in
          let (quiet, health, count) = report_below policy n f b h in
          let rest = reports_lem policy m start g gs t (ap is_blacklisted health ∙ b) w.1 in
          let total : m.failure_count + length (g ∷ gs) ≡ n.failure_count + length (f ∷ g ∷ gs) =
            omega arith in
          rw quiet (rest ∙ ap (λ k. if at_threshold policy k then 1 else 0) total)
    ]
