-- ===== src/RateLimit/Bounds.antt =====
-- What every check reports.
use kigali_pack.Base.{
  ℕ, ◌+◌, ◌*◌, ◌≤◌, ◌<◌, ◌≡◌, refl, true, not, ◌||◌, ◌==◌, Option, none, some, String, arith,
  Bool-cases, inl, inr,
}
use kigali_pack.RateLimit.Check.{
  ApiKeyTier, RedisKey, Redis, RateLimitCheckResult, answer_of, rate_limit_window_ms,
  rate_limit_window_seconds, build_window_reset_timestamp, build_rate_limit_key, count,
  check_policy, check_rate_limit,
}

module _ (redis : Redis) (to_upper : String → String) where
  -- A result with figures that agree: no more remains than the limit, and nothing where it is
  -- exceeded.
  pub Agrees : RateLimitCheckResult → Type 0
  Agrees r = (r.remaining ≤ r.limit) × (not r.exceeded || r.remaining == 0 ≡ true)

  answer_of-Agrees :
      (max reset : ℕ) (tier : ApiKeyTier) (o : Option ℕ) → Agrees (answer_of max reset tier o)
  unfolding Agrees
  answer_of-Agrees max reset tier none = (omega arith, refl)
  answer_of-Agrees max reset tier (some n) = (omega arith, ground arith)

  count-Agrees :
      (now : ℕ) (key : RedisKey) (ttl max reset : ℕ) (tier : ApiKeyTier) (s : redis.State)
      → let r = (count redis to_upper now key ttl max reset tier s).0 in
        Agrees r × (r.reset ≡ reset)
  unfolding count
  count-Agrees now key ttl max reset tier s = elim (Bool-cases (redis.connected s)) [
    | inl up ↦ rw up (answer_of-Agrees max reset tier _, reset_of (redis.eval now key ttl s).0)
    | inr away ↦ rw away (answer_of-Agrees max reset tier none, refl)
  ]
    where
      reset_of : (o : Option ℕ) → (answer_of max reset tier o).reset ≡ reset
      reset_of none = refl
      reset_of (some n) = refl

  reset_bounds :
      (now : ℕ)
      → (now < build_window_reset_timestamp now * 1000)
        × (build_window_reset_timestamp now * 1000 ≤ now + rate_limit_window_ms)
  unfolding build_window_reset_timestamp
  reset_bounds now = omega arith

  check_policy_bounds :
      (now id : ℕ) (tier : ApiKeyTier) (max : Option ℕ) (s : redis.State)
      → let r = (check_policy redis to_upper now id tier max s).0 in
        Agrees r × (now < r.reset * 1000) × (r.reset * 1000 ≤ now + rate_limit_window_ms)
  unfolding check_policy Agrees
  check_policy_bounds now id tier none s =
      let (later, soon) = reset_bounds now in ((omega arith, refl), later, soon)
  check_policy_bounds now id tier (some max) s =
      let (agrees, same) =
        count-Agrees now (build_rate_limit_key id now) rate_limit_window_seconds max
          (build_window_reset_timestamp now) tier s in
      let (later, soon) = reset_bounds now in (agrees, rw same later, rw same soon)

  -- Every check reports no more remaining requests than the limit, none where the limit is
  -- exceeded, and a reset that is later than now and at most an hour away.
  pub check_rate_limit_bounds :
      (now id : ℕ) (tier : Option String) (s : redis.State)
      → let r = (check_rate_limit redis to_upper now id tier s).0 in
        (r.remaining ≤ r.limit)
        × (not r.exceeded || r.remaining == 0 ≡ true)
        × (now < r.reset * 1000)
        × (r.reset * 1000 ≤ now + rate_limit_window_ms)
  unfolding check_rate_limit Agrees
  check_rate_limit_bounds now id tier s =
      let ((low, agrees), later, soon) = check_policy_bounds now id _ _ s in
      (low, agrees, later, soon)
