-- ===== src/Singbox/RevivalOrder.antt =====
-- core/singboxcore/group.go: the order in which blacklisted nodes are revived.
pub mod Lexicographic
use proxy_hub.Prelude.{ℕ, Bool, true, false, not, String, List, [], ◌∷◌, ltb, ◌==◌, if◌then◌else◌}
use proxy_hub.Prelude.Sort.{stable_sort}
use proxy_hub.Singbox.Time.{Time, is_zero, is_after, is_before, zero_time}
use proxy_hub.Singbox.Node.Revival.{RevivalCandidate}

abbrev pub bool_eq : Bool → Bool → Bool
bool_eq true b = b
bool_eq false b = not b

-- blacklistRevivalCandidateLess.
unfoldable pub candidate_less : RevivalCandidate → RevivalCandidate → Bool
candidate_less left right =
    if not (left.failure_count == right.failure_count)
    then ltb left.failure_count right.failure_count
    else if not (bool_eq left.has_success right.has_success)
    then left.has_success
    else if not (left.last_success_at == right.last_success_at)
    then is_after left.last_success_at right.last_success_at
    else if not (bool_eq left.has_latency right.has_latency)
    then left.has_latency
    else if not (left.latency_ms == right.latency_ms)
    then ltb left.latency_ms right.latency_ms
    else if not (left.last_checked_at == right.last_checked_at)
    then (if is_zero left.last_checked_at
        then true
        else if is_zero right.last_checked_at
        then false
        else is_before left.last_checked_at right.last_checked_at)
    else if not (left.blacklisted_at == right.blacklisted_at)
    then (if is_zero left.blacklisted_at
        then false
        else if is_zero right.blacklisted_at
        then true
        else is_before left.blacklisted_at right.blacklisted_at)
    else if not (left.blacklisted_until == right.blacklisted_until)
    then (if is_zero left.blacklisted_until
        then false
        else if is_zero right.blacklisted_until
        then true
        else is_before left.blacklisted_until right.blacklisted_until)
    else ltb left.order right.order

-- sortBlacklistRevivalCandidates.
unfoldable pub sort_candidates : List RevivalCandidate → List RevivalCandidate
sort_candidates = stable_sort candidate_less

-- BlacklistRevivalInput, for callers outside the core.
pub record RevivalInput : Type 0 where
  pub node_id : String
  pub order : ℕ
  pub failure_count : ℕ
  pub has_success : Bool
  pub last_success_at : Time
  pub has_latency : Bool
  pub latency_ms : ℕ
  pub last_checked_at : Time
  pub blacklisted_until : Time

-- candidateFromRevivalInput. The input has no time of blacklisting, so that stays the zero time;
-- the node, which no comparison reads, is nil in the source and cell 0 here.
unfoldable pub candidate_from_input : RevivalInput → RevivalCandidate
candidate_from_input i = record {
  node = 0;
  order = i.order;
  failure_count = i.failure_count;
  has_success = i.has_success;
  last_success_at = i.last_success_at;
  has_latency = i.has_latency;
  latency_ms = i.latency_ms;
  last_checked_at = i.last_checked_at;
  blacklisted_at = zero_time;
  blacklisted_until = i.blacklisted_until;
}

unfoldable pub input_less : RevivalInput → RevivalInput → Bool
input_less left right = candidate_less (candidate_from_input left) (candidate_from_input right)

-- SortBlacklistRevivalInputs.
unfoldable pub sort_inputs : List RevivalInput → List RevivalInput
sort_inputs = stable_sort input_less
