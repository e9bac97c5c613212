-- ===== src/RateLimit/Auth.antt =====
-- AuthRateLimitGuard.canActivate and isLocalhostRequest (common/guards/auth-rate-limit.guard.ts).
use Prim.Native.Char.{Char, code}
use Prim.Native.String.{◌++◌ as append}
use kigali_pack.Base.{
  ℕ, ◌≡◌, ap, ◌∙◌, Bool, true, false, ◌||◌, Option, none, some, List, [], ◌∷◌, map, String, ◌==◌,
  if◌then◌else◌, arith,
}
use kigali_pack.Text.{Text, codes, starts_with}
use kigali_pack.Text.Split.{eq_text, split_on, is_space, trim, trim_end}
use kigali_pack.RateLimit.Check.{Redis, RateLimitCheckResult, check_scoped_rate_limit}

abbrev pub auth_rate_limit : ℕ
auth_rate_limit = 20

abbrev pub auth_window_seconds : ℕ
auth_window_seconds = 900

-- The value of a header: `undefined`, a text, or an array of texts.
pub data Header : Type 0 where
  absent : Header
  one : String → Header
  many : List String → Header

pub record AuthRateLimitRequest : Type 0 where
  pub ip : Option String
  pub hostname : Option String
  pub remote_address : Option String
  pub forwarded_for : Header
  pub real_ip : Header

abbrev of_option : Option String → Header
of_option none = absent
of_option (some s) = one s

-- The trimmed values of a candidate.
abbrev values_of : Header → List Text
values_of absent = []
values_of (one s) = map trim (split_on b',' (codes s))
values_of (many values) = map (λ s. trim (codes s)) values

abbrev is_local : Text → Bool
is_local s =
    eq_text s (codes "localhost")
    || (eq_text s (codes "127.0.0.1")
        || (eq_text s (codes "::1")
            || (starts_with (codes "127.") s || starts_with (codes "::ffff:127.") s)))

abbrev any_local : List Text → Bool
any_local [] = false
any_local (s ∷ rest) = is_local s || any_local rest

unfoldable pub is_localhost_request : AuthRateLimitRequest → Bool
is_localhost_request r =
    any_local (values_of (of_option r.ip))
    || (any_local (values_of (of_option r.hostname))
        || (any_local (values_of (of_option r.remote_address))
            || (any_local (values_of r.forwarded_for) || any_local (values_of r.real_ip))))

-- `s.split(',')[0]`
unfoldable pub before_comma : String → String
before_comma String.[] = String.[]
before_comma (String.◌∷◌ c s) =
    let rest = before_comma s in if code c == b',' then String.[] else String.◌∷◌ c rest

abbrev drop_spaces : String → String
drop_spaces String.[] = String.[]
drop_spaces (String.◌∷◌ c s) =
    let rest = drop_spaces s in if is_space (code c) then rest else String.◌∷◌ c s

abbrev shorten : Char → String → String
shorten c String.[] = if is_space (code c) then String.[] else String.◌∷◌ c String.[]
shorten c (String.◌∷◌ d s) = String.◌∷◌ c (String.◌∷◌ d s)

unfoldable pub drop_last_spaces : String → String
drop_last_spaces String.[] = String.[]
drop_last_spaces (String.◌∷◌ c s) = shorten c (drop_last_spaces s)

abbrev first_value : Header → Option String
first_value absent = none
first_value (one s) = some s
first_value (many []) = none
first_value (many (s ∷ rest)) = some s

-- `forwardedValue?.split(',')[0]?.trim() ?? request.ip ?? 'unknown'`
abbrev ip_or_unknown : Option String → Option String → String
ip_or_unknown (some forwarded) ip = drop_last_spaces (drop_spaces (before_comma forwarded))
ip_or_unknown none (some ip) = ip
ip_or_unknown none none = "unknown"

unfoldable pub client_ip : AuthRateLimitRequest → String
client_ip r = ip_or_unknown (first_value r.forwarded_for) r.ip

pub data AuthVerdict : Type 0 where
  -- From the host itself: not counted.
  local : AuthVerdict
  admitted : RateLimitCheckResult → AuthVerdict
  refused : RateLimitCheckResult → AuthVerdict

module _ (redis : Redis) (to_upper : String → String) where
  abbrev verdict_of : RateLimitCheckResult → AuthVerdict
  verdict_of result = if result.exceeded then refused result else admitted result

  unfoldable pub auth_rate_limit_guard :
      ℕ → AuthRateLimitRequest → redis.State → AuthVerdict × redis.State
  auth_rate_limit_guard now r s =
      let checked =
        check_scoped_rate_limit redis to_upper now (append "auth:" (client_ip r)) auth_rate_limit
          auth_window_seconds s in
      if is_localhost_request r then (local, s) else (verdict_of checked.0, checked.1)

  or_true : (a b c d : Bool) → (a || (b || (c || (true || d)))) ≡ true
  or_true a b c d = ground arith

  forged_local :
      (r : AuthRateLimitRequest) → r.forwarded_for ≡ one "127.0.0.1" → is_localhost_request r ≡ true
  unfolding is_localhost_request split_on trim_end
  forged_local r forged =
      let before = any_local (values_of (of_option r.ip)) in
      let named = any_local (values_of (of_option r.hostname)) in
      let remote = any_local (values_of (of_option r.remote_address)) in
      let real = any_local (values_of r.real_ip) in
      ap (λ h. before || (named || (remote || (any_local (values_of h) || real)))) forged
      ∙ or_true before named remote real

  -- A request that claims in X-Forwarded-For to come from the host itself is never counted and
  -- never refused, wherever it comes from.
  pub auth_rate_limit_guard_forged :
      (now : ℕ) (r : AuthRateLimitRequest) (s : redis.State)
      → r.forwarded_for ≡ one "127.0.0.1"
      → auth_rate_limit_guard now r s ≡ (local, s)
  unfolding auth_rate_limit_guard
  auth_rate_limit_guard_forged now r s forged =
      let checked =
        check_scoped_rate_limit redis to_upper now (append "auth:" (client_ip r)) auth_rate_limit
          auth_window_seconds s in
      ap (λ b. if b then (local, s) else (verdict_of checked.0, checked.1)) (forged_local r forged)
