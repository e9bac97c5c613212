-- ===== src/RateLimit/Check.antt =====
-- RateLimitService (common/rate-limit/rate-limit.service.ts) and TierThrottlerGuard
-- (common/guards/tier-throttler.guard.ts). Redis is an interface: the script of the source, run on
-- one key, counts up a value that expires. Times are milliseconds.
use text.Mathlib.Text.{◌==◌ as str_eq}
use kigali_pack.Base.{
  ℕ, ◌+◌, ◌-◌, ◌*◌, ◌/◌, ◌≡◌, Bool, false, Option, none, some, String, ltb, if◌then◌else◌,
}
use kigali_pack.Data.{ApiKey}

pub data ApiKeyTier : Type 0 where
  free pro enterprise : ApiKeyTier

abbrev pub rate_limit_window_ms : ℕ
rate_limit_window_ms = 3600000

abbrev pub rate_limit_window_seconds : ℕ
rate_limit_window_seconds = rate_limit_window_ms / 1000

-- `maxRequests`; `none` is no limit.
abbrev pub tier_rate_limit_policies : ApiKeyTier → Option ℕ
tier_rate_limit_policies ApiKeyTier.free = some 100
tier_rate_limit_policies ApiKeyTier.pro = some 10000
tier_rate_limit_policies ApiKeyTier.enterprise = none

-- The keys of the source are texts made of these parts.
pub data RedisKey : Type 0 where
  -- An API key and an hour.
  window : ℕ → ℕ → RedisKey
  scope : String → RedisKey

pub record Entry : Type 0 where
  pub value : ℕ
  pub expires_at : ℕ

abbrev pub live_value : ℕ → Option Entry → ℕ
live_value now none = 0
live_value now (some e) = if ltb now e.expires_at then e.value else 0

-- An expiry is set with the first count, and stays.
abbrev pub expiry : ℕ → ℕ → Option Entry → ℕ
expiry now ttl_seconds none = now + ttl_seconds * 1000
expiry now ttl_seconds (some e) =
    if ltb now e.expires_at then e.expires_at else now + ttl_seconds * 1000

-- `connected` is that there is a client and it is connected; `eval` of INCREMENT_WITH_EXPIRE_SCRIPT
-- gives nothing where it throws.
pub record Redis : Type 1 where
  pub State : Type 0
  pub connected : State → Bool
  pub entry : State → RedisKey → Option Entry
  pub eval : ℕ → RedisKey → ℕ → State → Option ℕ × State
  pub eval-value :
      (now : ℕ) (k : RedisKey) (ttl : ℕ) (s : State) {n : ℕ} {s' : State}
      → eval now k ttl s ≡ (some n, s')
      → n ≡ live_value now (entry s k) + 1
  pub eval-entry :
      (now : ℕ) (k : RedisKey) (ttl : ℕ) (s : State) {n : ℕ} {s' : State}
      → eval now k ttl s ≡ (some n, s')
      → entry s' k ≡ some (record { value = n; expires_at = expiry now ttl (entry s k) })

pub record RateLimitCheckResult : Type 0 where
  pub limit : ℕ
  pub remaining : ℕ
  pub reset : ℕ
  pub exceeded : Bool
  pub tier : ApiKeyTier

unfoldable pub build_window_reset_timestamp : ℕ → ℕ
build_window_reset_timestamp now_ms =
    (now_ms / rate_limit_window_ms * rate_limit_window_ms + rate_limit_window_ms) / 1000

abbrev pub build_rate_limit_key : ℕ → ℕ → RedisKey
build_rate_limit_key api_key_id now_ms = window api_key_id (now_ms / rate_limit_window_ms)

abbrev pub allowed : ℕ → ℕ → ApiKeyTier → RateLimitCheckResult
allowed max_requests reset tier = record {
  limit = max_requests;
  remaining = max_requests;
  reset = reset;
  exceeded = false;
  tier = tier;
}

-- `Math.max(maxRequests - currentCount, 0)` is the subtraction of natural numbers.
abbrev pub counted : ℕ → ℕ → ApiKeyTier → ℕ → RateLimitCheckResult
counted max_requests reset tier current_count = record {
  limit = max_requests;
  remaining = max_requests - current_count;
  reset = reset;
  exceeded = ltb max_requests current_count;
  tier = tier;
}

-- A script that throws lets the request pass.
abbrev pub answer_of : ℕ → ℕ → ApiKeyTier → Option ℕ → RateLimitCheckResult
answer_of max_requests reset tier none = allowed max_requests reset tier
answer_of max_requests reset tier (some current_count) =
    counted max_requests reset tier current_count

module _ (redis : Redis) (to_upper : String → String) where
  unfoldable pub resolve_tier_policy : Option String → ApiKeyTier × Option ℕ
  resolve_tier_policy tier =
      let normalized_tier = to_upper (elim tier [ none ↦ "FREE" | some t ↦ t ]) in
      let resolved =
        if str_eq normalized_tier "PRO"
        then ApiKeyTier.pro
        else if str_eq normalized_tier "ENTERPRISE"
        then ApiKeyTier.enterprise
        else ApiKeyTier.free in
      (resolved, tier_rate_limit_policies resolved)

  -- The count of a key, or the open answer where Redis is away or fails.
  unfoldable pub count :
      ℕ → RedisKey → ℕ → ℕ → ℕ → ApiKeyTier → redis.State → RateLimitCheckResult × redis.State
  count now key ttl max_requests reset tier s =
      if redis.connected s
      then (
        answer_of max_requests reset tier (redis.eval now key ttl s).0,
        (redis.eval now key ttl s).1,
      )
      else (allowed max_requests reset tier, s)

  unfoldable pub check_scoped_rate_limit :
      ℕ → String → ℕ → ℕ → redis.State → RateLimitCheckResult × redis.State
  check_scoped_rate_limit now scope_key max_requests window_seconds s =
      count now (scope scope_key) window_seconds max_requests (now / 1000 + window_seconds)
        ApiKeyTier.free s

  -- The check of a resolved policy.
  unfoldable pub check_policy :
      ℕ → ℕ → ApiKeyTier → Option ℕ → redis.State → RateLimitCheckResult × redis.State
  check_policy now api_key_id tier none s = (
    record {
      limit = 0;
      remaining = 0;
      reset = build_window_reset_timestamp now;
      exceeded = false;
      tier = tier;
    },
    s,
  )
  check_policy now api_key_id tier (some max_requests) s =
      count now (build_rate_limit_key api_key_id now) rate_limit_window_seconds max_requests
        (build_window_reset_timestamp now) tier s

  unfoldable pub check_rate_limit :
      ℕ → ℕ → Option String → redis.State → RateLimitCheckResult × redis.State
  check_rate_limit now api_key_id tier s =
      let policy = resolve_tier_policy tier in check_policy now api_key_id policy.0 policy.1 s

  pub data Verdict : Type 0 where
    -- No developer on the request.
    skipped : Verdict
    passed : RateLimitCheckResult → Verdict
    -- The answer 429, with the number of seconds of `Retry-After`.
    too_many_requests : RateLimitCheckResult → ℕ → Verdict

  abbrev retry_after : ℕ → ℕ → ℕ
  retry_after now reset = if ltb (reset - now / 1000) 1 then 1 else reset - now / 1000

  abbrev pub verdict_of : ℕ → RateLimitCheckResult → Verdict
  verdict_of now result =
      if result.exceeded
      then too_many_requests result (retry_after now result.reset)
      else passed result

  -- TierThrottlerGuard.canActivate; the check's figures are the response's headers.
  unfoldable pub can_activate : ℕ → Option ApiKey → redis.State → Verdict × redis.State
  can_activate now none s = (skipped, s)
  can_activate now (some developer) s =
      let r = check_rate_limit now developer.id (some developer.tier) s in (verdict_of now r.0, r.1)
