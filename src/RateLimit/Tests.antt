-- ===== src/RateLimit/Tests.antt =====
-- A Redis in memory, and runs of the guard on it.
use text.Mathlib.Text.{◌==◌ as str_eq}
use text.Mathlib.TextPositions.{eq_refl}
use mathlib.Core.Option.{some-injective}
use kigali_pack.Base.{
  ℕ, ◌+◌, ◌*◌, ◌≤◌, ◌<◌, ◌≡◌, refl, ap, Bool, true, false, ◌&&◌, ◌||◌, not, Option, none, some, [],
  ◌∷◌, String, arith, ◌==◌, if◌then◌else◌, min, sym, ◌∙◌,
}
use kigali_pack.Billing.Examples.{free_key}
use kigali_pack.RateLimit.Check.{
  ApiKeyTier, RedisKey, window, scope, Entry, live_value, expiry, Redis, resolve_tier_policy,
  check_rate_limit, rate_limit_window_ms,
}
use kigali_pack.RateLimit.Window.{IsUp, grants, grants_window, grants_down}
use kigali_pack.RateLimit.Bounds.{check_rate_limit_bounds}

abbrev same_key : RedisKey → RedisKey → Bool
same_key (window a b) (window c d) = a == c && b == d
same_key (scope a) (scope b) = str_eq a b
same_key _ _ = false

same_key_refl : (k : RedisKey) → same_key k k ≡ true
same_key_refl (window a b) = ground arith
same_key_refl (scope a) = eq_refl a

abbrev Entries : Type 0
Entries = RedisKey → Option Entry

abbrev counted_up : ℕ → RedisKey → ℕ → Entries → Entry
counted_up now k ttl s = record {
  value = live_value now (s k) + 1;
  expires_at = expiry now ttl (s k);
}

abbrev eval : ℕ → RedisKey → ℕ → Entries → Option ℕ × Entries
eval now k ttl s = (
  some (live_value now (s k) + 1),
  λ j. if same_key k j then some (counted_up now k ttl s) else s j,
)

eval-value :
    (now : ℕ) (k : RedisKey) (ttl : ℕ) (s : Entries) {n : ℕ} {s' : Entries}
    → eval now k ttl s ≡ (some n, s')
    → n ≡ live_value now (s k) + 1
eval-value now k ttl s h = some-injective _ _ (ap (λ r. r.0) (sym h))

eval-entry :
    (now : ℕ) (k : RedisKey) (ttl : ℕ) (s : Entries) {n : ℕ} {s' : Entries}
    → eval now k ttl s ≡ (some n, s')
    → s' k ≡ some (record { value = n; expires_at = expiry now ttl (s k) })
eval-entry now k ttl s {n} h =
    ap (λ f. f k) (ap (λ r. r.1) (sym h))
    ∙ rw (same_key_refl k) (
        ap (λ v. some (record { value = v; expires_at = expiry now ttl (s k) }))
          (sym (eval-value now k ttl s h)))

abbrev in_memory : Bool → Redis
in_memory up = record {
  State = Entries;
  connected = λ s. up;
  entry = λ s k. s k;
  eval = eval;
  eval-value = eval-value;
  eval-entry = eval-entry;
}

abbrev same_text : String → String
same_text t = t

abbrev empty_store : Entries
empty_store k = none

in_memory-IsUp : IsUp (in_memory true) same_text
in_memory-IsUp = record { is_connected = λ s. refl; returns = λ now k ttl s. (_, _, refl) }

free_policy :
    resolve_tier_policy (in_memory true) same_text (some free_key.tier)
    ≡ (ApiKeyTier.free, some 100)
unfolding resolve_tier_policy
free_policy = refl

grants_window_example :
    grants (in_memory true) same_text free_key (30 ∷ 10 ∷ 20 ∷ []) empty_store ≡ min 100 3
grants_window_example =
    grants_window (in_memory true) same_text free_key ApiKeyTier.free 100 0 (30 ∷ 10 ∷ 20 ∷ [])
      empty_store in_memory-IsUp free_policy refl refl

check_rate_limit_bounds_example :
    let r = (check_rate_limit (in_memory true) same_text 5000 7 (some "PRO") empty_store).0 in
    (r.remaining ≤ r.limit)
    × (not r.exceeded || r.remaining == 0 ≡ true)
    × (5000 < r.reset * 1000)
    × (r.reset * 1000 ≤ 5000 + rate_limit_window_ms)
check_rate_limit_bounds_example =
    check_rate_limit_bounds (in_memory true) same_text 5000 7 (some "PRO") empty_store

grants_down_example :
    grants (in_memory false) same_text free_key (30 ∷ 10 ∷ 20 ∷ []) empty_store ≡ 3
grants_down_example =
    grants_down (in_memory false) same_text free_key (30 ∷ 10 ∷ 20 ∷ []) empty_store refl
