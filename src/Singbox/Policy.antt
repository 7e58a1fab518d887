-- ===== src/Singbox/Policy.antt =====
-- core/singboxcore/group.go, Policy and its defaults, and the strategies of balancer.go.
use proxy_hub.Prelude.{
  ◌≡◌, refl, Bool, true, false, String, inl, inr, Bool-cases, arith, if◌then◌else◌,
}
use proxy_hub.Prelude.Int.{ℤ, pos, is_positive}
use proxy_hub.Prelude.Text.{str_eq, is_empty, trim_space}
use proxy_hub.Singbox.Time.{Duration, seconds}

-- BalanceStrategy. `unset` is the empty text, `custom` any text that no constant names.
pub data BalanceStrategy : Type 0 where
  unset manual round_robin least_latency random : BalanceStrategy
  custom : String → BalanceStrategy

abbrev pub is_unset : BalanceStrategy → Bool
is_unset unset = true
is_unset _ = false

abbrev pub is_manual : BalanceStrategy → Bool
is_manual manual = true
is_manual _ = false

abbrev pub is_least_latency : BalanceStrategy → Bool
is_least_latency least_latency = true
is_least_latency _ = false

abbrev pub is_random : BalanceStrategy → Bool
is_random random = true
is_random _ = false

-- Equality of the texts.
unfoldable pub same_strategy : BalanceStrategy → BalanceStrategy → Bool
same_strategy unset unset = true
same_strategy manual manual = true
same_strategy round_robin round_robin = true
same_strategy least_latency least_latency = true
same_strategy random random = true
same_strategy (custom s) (custom t) = str_eq s t
same_strategy _ _ = false

-- A callback is a field that says whether it is set: its calls are events of the group.
pub record Policy : Type 0 where
  pub strategy : BalanceStrategy
  pub force_selected : Bool
  pub failure_blacklist_ttl : Duration
  pub remove_ttl : Duration
  pub probe_url : String
  pub probe_interval : Duration
  pub probe_timeout : Duration
  pub probe_test_timeout : Duration
  pub probe_concurrency : ℤ
  pub max_latency : Duration
  pub slow_threshold : ℤ
  pub blacklist_revival_limit : ℤ
  pub fallback_strategy : BalanceStrategy
  pub probe_result_callback : Bool
  pub blacklist_revival_callback : Bool
  pub traffic_failure_callback : Bool

abbrev pub default_probe_url : String
default_probe_url = "https://www.gstatic.com/generate_204"

abbrev pub default_probe_interval : Duration
default_probe_interval = seconds 180

abbrev pub default_probe_concurrency : ℤ
default_probe_concurrency = pos 5

abbrev pub default_max_latency : Duration
default_max_latency = seconds 3

abbrev pub default_slow_threshold : ℤ
default_slow_threshold = pos 3

abbrev pub default_blacklist_revival_limit : ℤ
default_blacklist_revival_limit = pos 3

-- `if v <= 0 { v = d }`.
abbrev pub or_default : ℤ → ℤ → ℤ
or_default v d = if is_positive v then v else d

unfoldable pub normalized : Policy → Policy
normalized p =
    let timeout = or_default p.probe_timeout default_max_latency in
    record p {
      strategy = if is_unset p.strategy then manual else p.strategy;
      failure_blacklist_ttl = or_default p.failure_blacklist_ttl (seconds 30);
      remove_ttl = or_default p.remove_ttl (seconds 120);
      probe_url = if is_empty (trim_space p.probe_url) then default_probe_url else p.probe_url;
      probe_interval = or_default p.probe_interval default_probe_interval;
      probe_timeout = timeout;
      probe_test_timeout = or_default p.probe_test_timeout timeout;
      probe_concurrency = or_default p.probe_concurrency default_probe_concurrency;
      max_latency = or_default p.max_latency default_max_latency;
      slow_threshold = or_default p.slow_threshold default_slow_threshold;
      blacklist_revival_limit =
          or_default p.blacklist_revival_limit default_blacklist_revival_limit;
      fallback_strategy = if is_unset p.fallback_strategy then round_robin else p.fallback_strategy;
    }

-- What every policy of a group satisfies.
pub record IsNormal (p : Policy) : Type 0 where
  pub strategy_set : is_unset p.strategy ≡ false
  pub fallback_set : is_unset p.fallback_strategy ≡ false
  pub blacklist_ttl_positive : is_positive p.failure_blacklist_ttl ≡ true
  pub remove_ttl_positive : is_positive p.remove_ttl ≡ true
  pub url_set : is_empty (trim_space p.probe_url) ≡ false
  pub interval_positive : is_positive p.probe_interval ≡ true
  pub timeout_positive : is_positive p.probe_timeout ≡ true
  pub test_timeout_positive : is_positive p.probe_test_timeout ≡ true
  pub concurrency_positive : is_positive p.probe_concurrency ≡ true
  pub latency_positive : is_positive p.max_latency ≡ true
  pub threshold_positive : is_positive p.slow_threshold ≡ true
  pub limit_positive : is_positive p.blacklist_revival_limit ≡ true

pub or_default_lem : (v d : ℤ) → is_positive d ≡ true → is_positive (or_default v d) ≡ true
or_default_lem v d h = ground arith

pub or_default_id : (v d : ℤ) → is_positive v ≡ true → or_default v d ≡ v
or_default_id v d h = ground arith

default_url_set : is_empty (trim_space default_probe_url) ≡ false
unfolding trim_space
default_url_set = refl

set_strategy :
    (s d : BalanceStrategy) → is_unset d ≡ false → is_unset (if is_unset s then d else s) ≡ false
set_strategy s d h = ground arith

set_url :
    (u : String)
    → is_empty (trim_space (if is_empty (trim_space u) then default_probe_url else u)) ≡ false
set_url u = elim (Bool-cases (is_empty (trim_space u))) [
  | inl e ↦ rw e default_url_set
  | inr e ↦ rw e e
]

-- Whatever the policy given, its normal form has both strategies and the URL set, and every duration,
-- limit and threshold positive.
pub normalized-IsNormal : (p : Policy) → IsNormal (normalized p)
unfolding normalized
normalized-IsNormal p = record {
  strategy_set = set_strategy p.strategy manual refl;
  fallback_set = set_strategy p.fallback_strategy round_robin refl;
  blacklist_ttl_positive = or_default_lem p.failure_blacklist_ttl _ refl;
  remove_ttl_positive = or_default_lem p.remove_ttl _ refl;
  url_set = set_url p.probe_url;
  interval_positive = or_default_lem p.probe_interval _ refl;
  timeout_positive = or_default_lem p.probe_timeout _ refl;
  test_timeout_positive =
      or_default_lem p.probe_test_timeout _ (or_default_lem p.probe_timeout _ refl);
  concurrency_positive = or_default_lem p.probe_concurrency _ refl;
  latency_positive = or_default_lem p.max_latency _ refl;
  threshold_positive = or_default_lem p.slow_threshold _ refl;
  limit_positive = or_default_lem p.blacklist_revival_limit _ refl;
}

-- The defaults leave a normal policy as it is.
pub normalized_of_IsNormal : (p : Policy) → IsNormal p → normalized p ≡ p
unfolding normalized
normalized_of_IsNormal p h = simp (
  h.strategy_set, h.fallback_set, h.blacklist_ttl_positive, h.remove_ttl_positive, h.url_set,
  h.interval_positive, h.timeout_positive, h.test_timeout_positive, h.concurrency_positive,
  h.latency_positive, h.threshold_positive, h.limit_positive,
)

-- So normalizing twice is normalizing once.
pub normalized_idem : (p : Policy) → normalized (normalized p) ≡ normalized p
normalized_idem p = normalized_of_IsNormal (normalized p) (normalized-IsNormal p)
