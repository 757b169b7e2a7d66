-- ===== src/Limiter/Bucket.antt =====
-- TokenBucket, profile_for and ClientRateLimiterRegistry of execution_bridge/rate_limiter.py. Times
-- are microseconds of a clock that does not turn back, a rate is in thousandths of a token per
-- second, and a bucket counts parts of 1e-9 token, so that time times rate is a number of parts.
-- `str.lower` is a parameter.
use Prim.Native.String.{String}
use option_chain_based_strat.Common.{
  ℕ, zero, suc, ◌+◌, ◌-◌, ◌*◌, Bool, true, false, Option, none, some, List, [], ◌∷◌, string_eq, leb,
  eqb, if◌then◌else◌, min,
}
use option_chain_based_strat.Common.Dict.{Dict, lookup, insert}

abbrev pub token : ℕ
token = 1_000_000_000

-- BrokerRateProfile
pub record Profile : Type 0 where
  pub rate : ℕ
  pub burst : ℕ

abbrev pub default_profile : Profile
default_profile = record { rate = 10_000; burst = 10 }

-- BROKER_RATE_PROFILES
abbrev pub broker_rate_profiles : Dict String Profile
broker_rate_profiles =
    ("fyers", default_profile)
    ∷ ("angelone", default_profile)
    ∷ ("dhan", default_profile)
    ∷ ("upstox", default_profile)
    ∷ ("mock", record { rate = 1_000_000; burst = 1_000 })
    ∷ []

unfoldable pub profile_for : (String → String) → String → Profile
profile_for lower provider = elim (lookup (lower provider) broker_rate_profiles) [
  | none ↦ default_profile
  | some p ↦ p
]

-- A `last_refill` of 0 is not yet set.
pub record Bucket : Type 0 where
  pub rate : ℕ
  pub burst : ℕ
  pub tokens : ℕ
  pub last_refill : ℕ
  pub total_waits : ℕ
  pub total_acquired : ℕ

-- The constructor; a rate of 0 raises.
unfoldable pub new_bucket : ℕ → ℕ → Option Bucket
new_bucket rate burst =
    if eqb rate 0
    then none
    else some (record {
      rate = rate;
      burst = burst;
      tokens = burst * token;
      last_refill = 0;
      total_waits = 0;
      total_acquired = 0;
    })

-- The refill at the top of the loop, behind the lazy first setting.
unfoldable pub refill : ℕ → Bucket → Bucket
refill now b =
    let last = if eqb b.last_refill 0 then now else b.last_refill in
    record b {
      tokens = min (b.burst * token) (b.tokens + (now - last) * b.rate);
      last_refill = now;
    }

-- One round of the loop: whether the tokens are taken. Where they are not, the task sleeps.
unfoldable pub attempt : ℕ → ℕ → Bucket → Bool × Bucket
unfolding refill
attempt now n b =
    let r = refill now b in
    if leb (n * token) r.tokens
    then (true, record r { tokens = r.tokens - n * token; total_acquired = r.total_acquired + 1 })
    else (false, record r { total_waits = r.total_waits + 1 })

-- The parts that are missing; the task sleeps for this many over the rate.
abbrev pub deficit : ℕ → Bucket → ℕ
deficit n b = n * token - b.tokens

-- `acquire`, with the times at which the event loop lets the task run; `false` while it still
-- waits behind the last of them.
unfoldable pub acquire : ℕ → List ℕ → Bucket → Bool × Bucket
unfolding attempt
acquire zero times b = (true, b)
acquire (suc n) [] b = (false, b)
acquire (suc n) (now ∷ times) b = elim (attempt now (suc n) b).0 [
  | true ↦ (true, (attempt now (suc n) b).1)
  | false ↦ acquire (suc n) times (attempt now (suc n) b).1
]

-- The rounds of any number of tasks, in the order in which they run: the time and the tokens asked
-- for. The sum of what is taken comes first.
unfoldable pub serve : List (ℕ × ℕ) → Bucket → ℕ × Bucket
unfolding attempt
serve [] b = (0, b)
serve ((now, n) ∷ rounds) b =
    let (taken, b') = attempt now n b in
    let (rest, b'') = serve rounds b' in ((if taken then n else 0) + rest, b'')

-- The registry of a client: a bucket for each binding.
abbrev pub Limiters : Type 0
Limiters = Dict String Bucket

unfoldable pub get_limiter :
    (String → String) → String → String → Limiters → Option (Bucket × Limiters)
unfolding profile_for new_bucket
get_limiter lower binding_id provider limiters = elim (lookup binding_id limiters) [
  | some b ↦ some (b, limiters)
  | none ↦ elim (new_bucket (profile_for lower provider).rate (profile_for lower provider).burst) [
    | none ↦ none
    | some b ↦ some (b, insert binding_id b limiters)
  ]
]

unfoldable pub override_rate : String → ℕ → ℕ → Limiters → Option Limiters
unfolding new_bucket
override_rate binding_id rate burst limiters = elim (new_bucket rate burst) [
  | none ↦ none
  | some b ↦ some (insert binding_id b limiters)
]
