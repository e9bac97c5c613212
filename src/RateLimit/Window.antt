-- ===== src/RateLimit/Window.antt =====
-- How many requests an API key is granted in one hour.
use kigali_pack.Base.{
  ℕ, ◌+◌, ◌-◌, ◌*◌, ◌/◌, ◌≤◌, ◌≡◌, refl, sym, ap, ◌∙◌, Bool, true, false, ◌&&◌, Option, none, some,
  List, [], ◌∷◌, String, min, ltb, ◌==◌, if◌then◌else◌, arith, length, subst,
}
use kigali_pack.Data.{ApiKey}
use kigali_pack.RateLimit.Check.{
  RateLimitCheckResult, ApiKeyTier, rate_limit_window_ms, rate_limit_window_seconds, RedisKey,
  window, Entry, live_value, expiry, Redis, answer_of, counted, verdict_of, Verdict, skipped,
  passed, too_many_requests, resolve_tier_policy, count, check_policy, check_rate_limit,
  can_activate, build_rate_limit_key, build_window_reset_timestamp,
}

module _ (redis : Redis) (to_upper : String → String) where
  -- Redis is connected and the script never throws.
  pub record IsUp : Type 0 where
    pub is_connected : (s : redis.State) → redis.connected s ≡ true
    pub returns :
        (now : ℕ) (k : RedisKey) (ttl : ℕ) (s : redis.State)
        → (n : ℕ) × (s' : redis.State) × (redis.eval now k ttl s ≡ (some n, s'))

  abbrev pub granted : Verdict redis to_upper → ℕ
  granted skipped = 1
  granted (passed result) = 1
  granted (too_many_requests result retry) = 0

  -- The number of requests that the guard lets pass, of those that come at the given times.
  unfoldable pub grants : ApiKey → List ℕ → redis.State → ℕ
  grants developer [] s = 0
  grants developer (now ∷ times) s =
      let r = can_activate redis to_upper now (some developer) s in
      granted r.0 + grants developer times r.1

  -- All times are in the hour `w`.
  abbrev pub all_in : ℕ → List ℕ → Bool
  all_in w [] = true
  all_in w (now ∷ times) = now / rate_limit_window_ms == w && all_in w times

  -- The requests that were counted before, of a count that outlives the hour.
  pub data Used (w : ℕ) : Option Entry → ℕ → Type 0 where
    fresh : Used w none 0
    used : {e : Entry} → (w + 1) * rate_limit_window_ms ≤ e.expires_at → Used w (some e) e.value

  Used-live_value :
      (w now : ℕ) {o : Option Entry} {c : ℕ}
      → Used w o c
      → now / rate_limit_window_ms ≡ w
      → (live_value now o ≡ c)
        × ((w + 1) * rate_limit_window_ms ≤ expiry now rate_limit_window_seconds o)
  Used-live_value w now fresh h = (refl, omega arith)
  Used-live_value w now (used {e = e} later) h = ground arith

  count_returns :
      (now : ℕ) (k : RedisKey) (ttl max reset : ℕ) (tier : ApiKeyTier) (s : redis.State) {n : ℕ}
      {s' : redis.State}
      → redis.connected s ≡ true
      → redis.eval now k ttl s ≡ (some n, s')
      → count redis to_upper now k ttl max reset tier s ≡ (counted max reset tier n, s')
  unfolding count
  count_returns now k ttl max reset tier s up e =
      rw up (ap (λ r. (answer_of max reset tier r.0, r.1)) e)

  can_activate_returns :
      (now max : ℕ) (developer : ApiKey) (tier : ApiKeyTier) (s : redis.State) {n : ℕ}
      {s' : redis.State}
      → resolve_tier_policy redis to_upper (some developer.tier) ≡ (tier, some max)
      → redis.connected s ≡ true
      → redis.eval now (build_rate_limit_key developer.id now) rate_limit_window_seconds s
        ≡ (some n, s')
      → can_activate redis to_upper now (some developer) s ≡ (
        verdict_of redis to_upper now (counted max (build_window_reset_timestamp now) tier n),
        s',
      )
  unfolding can_activate check_rate_limit check_policy
  can_activate_returns now max developer tier s policy up e =
      ap (λ r. (verdict_of redis to_upper now r.0, r.1))
        (ap (λ p. check_policy redis to_upper now developer.id p.0 p.1 s) policy
          ∙ count_returns now (build_rate_limit_key developer.id now) rate_limit_window_seconds max
              (build_window_reset_timestamp now) tier s up e)

  granted_of_count :
      (now max reset c : ℕ) (tier : ApiKeyTier)
      → granted (verdict_of redis to_upper now (counted max reset tier (c + 1)))
        ≡ (if ltb c max then 1 else 0)
  granted_of_count now max reset c tier = ground arith

  -- One request within the hour.
  can_activate_counts :
      (now w c max : ℕ) (developer : ApiKey) (tier : ApiKeyTier) (s : redis.State)
      → IsUp
      → resolve_tier_policy redis to_upper (some developer.tier) ≡ (tier, some max)
      → now / rate_limit_window_ms ≡ w
      → Used w (redis.entry s (window developer.id w)) c
      → let r = can_activate redis to_upper now (some developer) s in
        (granted r.0 ≡ (if ltb c max then 1 else 0))
        × Used w (redis.entry r.1 (window developer.id w)) (c + 1)
  can_activate_counts now w c max developer tier s up policy hour before =
      let k = window developer.id w in
      let (n, s', e) = up.returns now k rate_limit_window_seconds s in
      let (live, later) = Used-live_value w now before hour in
      let value : n ≡ c + 1 =
        redis.eval-value now k rate_limit_window_seconds s e ∙ ap (λ v. v + 1) live in
      let entry = redis.eval-entry now k rate_limit_window_seconds s e in
      let run = can_activate_returns now max developer tier s policy (up.is_connected s) (
        subst
          (λ v. redis.eval now (window developer.id v) rate_limit_window_seconds s ≡ (some n, s'))
          (sym hour) e) in
      rw run (
        ap
              (λ v. granted (
                verdict_of redis to_upper now
                  (counted max (build_window_reset_timestamp now) tier v)))
              value
            ∙ granted_of_count now max (build_window_reset_timestamp now) c tier,
        rw entry (
            subst
              (λ v.
                Used w
                  (some (record {
                    value = n;
                    expires_at = expiry now rate_limit_window_seconds (redis.entry s k);
                  }))
                  v)
              value (used later)),
      )

  grants_used :
      (developer : ApiKey) (tier : ApiKeyTier) (max w c : ℕ) (times : List ℕ) (s : redis.State)
      → IsUp
      → resolve_tier_policy redis to_upper (some developer.tier) ≡ (tier, some max)
      → all_in w times ≡ true
      → Used w (redis.entry s (window developer.id w)) c
      → grants developer times s ≡ min (max - c) (length times)
  unfolding grants
  grants_used developer tier max w c [] s up policy hours before = omega arith
  grants_used developer tier max w c (now ∷ times) s up policy hours before =
      let r = can_activate redis to_upper now (some developer) s in
      let (first, after) =
        can_activate_counts now w c max developer tier s up policy (ground arith) before in
      let rest =
        grants_used developer tier max w (c + 1) times r.1 up policy (ground arith) after in
      ground (arith, first, rest)

  -- While Redis is up, of any number of requests with one API key within one hour, whose first finds
  -- no count yet, the guard lets exactly as many pass as the tier's limit allows, whatever their
  -- times and order within the hour.
  pub grants_window :
      (developer : ApiKey) (tier : ApiKeyTier) (max w : ℕ) (times : List ℕ) (s : redis.State)
      → IsUp
      → resolve_tier_policy redis to_upper (some developer.tier) ≡ (tier, some max)
      → all_in w times ≡ true
      → redis.entry s (window developer.id w) ≡ none
      → grants developer times s ≡ min max (length times)
  grants_window developer tier max w times s up policy hours clear =
      omega (arith, grants_used developer tier max w 0 times s up policy hours (rw clear fresh))

  check_policy_down :
      (now id : ℕ) (tier : ApiKeyTier) (max : Option ℕ) (s : redis.State)
      → redis.connected s ≡ false
      → let r = check_policy redis to_upper now id tier max s in (r.0.exceeded ≡ false) × (r.1 ≡ s)
  unfolding check_policy count
  check_policy_down now id tier none s down = (refl, refl)
  check_policy_down now id tier (some max) s down = rw down (refl, refl)

  -- Without Redis a check leaves the counters alone, and finds no limit exceeded.
  check_rate_limit_down :
      (now id : ℕ) (tier : Option String) (s : redis.State)
      → redis.connected s ≡ false
      → let r = check_rate_limit redis to_upper now id tier s in (r.0.exceeded ≡ false) × (r.1 ≡ s)
  unfolding check_rate_limit
  check_rate_limit_down now id tier s down =
      let policy = resolve_tier_policy redis to_upper tier in
      check_policy_down now id policy.0 policy.1 s down

  granted_all :
      (now : ℕ) (r : RateLimitCheckResult)
      → r.exceeded ≡ false
      → granted (verdict_of redis to_upper now r) ≡ 1
  granted_all now r h = ground arith

  -- While Redis is away the guard lets every request pass, of whatever key, and however many.
  pub grants_down :
      (developer : ApiKey) (times : List ℕ) (s : redis.State)
      → redis.connected s ≡ false
      → grants developer times s ≡ length times
  unfolding grants can_activate
  grants_down developer [] s down = refl
  grants_down developer (now ∷ times) s down =
      let r = check_rate_limit redis to_upper now developer.id (some developer.tier) s in
      let (fine, same) = check_rate_limit_down now developer.id (some developer.tier) s down in
      let later : grants developer times r.1 ≡ length times =
        ap (grants developer times) same ∙ grants_down developer times s down in
      omega (arith, granted_all now r.0 fine, later)
