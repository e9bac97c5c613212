-- ===== src/ApiKeys/Service.antt =====
-- ApiKeyService (modules/auth/api-key.service.ts) and ApiKeyGuard.authenticateWithApiKey
-- (common/guards/api-key.guard.ts). The random part of a new token is an argument; the digest is a
-- parameter.
use Prim.Native.String.{◌++◌}
use text.Mathlib.Text.{◌==◌ as str_eq}
use kigali_pack.Base.{
  ℕ, zero, suc, Bool, true, false, ◌&&◌, ◌||◌, not, Option, none, some, String, ◌==◌, leb,
  if◌then◌else◌, is_some,
}
use kigali_pack.Service.{
  bad_request, not_found, conflict, unauthorized, Action, pure, ◌>>=◌, ◌>>◌, found, gets, throw_if,
  modify, change, DataSource,
}
use kigali_pack.Data.{ApiKey, ApiKeyEnvironment, api_key_key}
use kigali_pack.Orm.{Repository}

abbrev pub environment_prefix : ApiKeyEnvironment → String
environment_prefix ApiKeyEnvironment.live = "kp_live_"
environment_prefix ApiKeyEnvironment.test = "kp_test_"
environment_prefix ApiKeyEnvironment.sandbox = "kp_sandbox_"

abbrev pub generate_raw_token : ApiKeyEnvironment → String → String
generate_raw_token environment entropy = environment_prefix environment ++ entropy

abbrev first_characters : ℕ → String → String
first_characters zero s = String.[]
first_characters (suc n) String.[] = String.[]
first_characters (suc n) (String.◌∷◌ c s) = String.◌∷◌ c (first_characters n s)

abbrev pub extract_key_prefix : String → String
extract_key_prefix raw_token = first_characters 16 raw_token

-- `expiresAt && expiresAt <= now`
abbrev pub is_past : ℕ → Option ℕ → Bool
is_past now none = false
is_past now (some at) = leb at now

unfoldable pub is_key_valid : ℕ → ApiKey → Bool
is_key_valid now key =
    if not key.is_active || is_some key.revoked_at then false else not (is_past now key.expires_at)

pub record NewKey : Type 0 where
  pub key : ApiKey
  pub raw_token : String
  pub revoked_key_id : Option ℕ

module _ (keys : Repository api_key_key) (data_source : DataSource keys.Rows)
    (hash_token : String → String) where
  abbrev pub new_key : ApiKey → String → ApiKey
  new_key like raw_token = record like {
    id = 0;
    hashed_key = hash_token raw_token;
    key_prefix = extract_key_prefix raw_token;
    is_active = true;
    last_used_at = none;
    revoked_at = none;
  }

  unfoldable pub create :
      ℕ → String → ApiKey → Option String → ApiKeyEnvironment → Option ℕ → Action keys.Rows NewKey
  create now entropy owner name environment expires_at = do
    throw_if (is_past now expires_at) bad_request
    let raw_token = generate_raw_token environment entropy
    existing ← gets (keys.find_one (λ k. str_eq k.hashed_key (hash_token raw_token)))
    throw_if (is_some existing) conflict
    saved ← change (
        keys.insert (
          new_key (record owner { name = name; environment = environment; expires_at = expires_at })
            raw_token))
    pure (record { key = saved; raw_token = raw_token; revoked_key_id = none })

  -- The owner's name is checked on the row that is found.
  unfoldable pub find_owned_key : ApiKey → ℕ → Action keys.Rows ApiKey
  find_owned_key owner key_id = do
    key ← found (keys.find_one (λ k. k.id == key_id)) not_found
    throw_if (not (str_eq key.developer_name owner.developer_name)) not_found
    pure key

  abbrev pub revoked : ℕ → ApiKey → ApiKey
  revoked now key = record key { is_active = false; revoked_at = some now }

  unfoldable pub revoke : ℕ → ApiKey → ℕ → Action keys.Rows ApiKey
  revoke now owner key_id = do
    key ← find_owned_key owner key_id
    throw_if (not key.is_active || is_some key.revoked_at) bad_request
    throw_if (key.id == owner.id) bad_request
    modify (keys.save (revoked now key))
    pure (revoked now key)

  unfoldable pub rotate_body : ℕ → String → ApiKey → Action keys.Rows NewKey
  rotate_body now entropy key = do
    modify (keys.save (revoked now key))
    let raw_token = generate_raw_token key.environment entropy
    saved ← change (keys.insert (new_key key raw_token))
    pure (record { key = saved; raw_token = raw_token; revoked_key_id = some key.id })

  unfoldable pub rotate : ℕ → String → ApiKey → ℕ → Action keys.Rows NewKey
  rotate now entropy owner key_id = do
    key ← find_owned_key owner key_id
    throw_if (not key.is_active || is_some key.revoked_at) bad_request
    data_source.transaction (rotate_body now entropy key)

  -- ApiKeyGuard.authenticateWithApiKey, up to `touch_last_used`, for which it does not wait.
  unfoldable pub authenticate_with_api_key : ℕ → String → Action keys.Rows ApiKey
  authenticate_with_api_key now raw_token = do
    key ←
        found (keys.find_one (λ k. str_eq k.hashed_key (hash_token raw_token) && k.is_active))
          unauthorized
    throw_if (not (is_key_valid now key)) unauthorized
    pure key

  -- The write for which attachDeveloperContext does not wait; it happens some time after an
  -- authentication, or fails without a trace.
  unfoldable pub touch_last_used : ℕ → ℕ → keys.Rows → keys.Rows
  touch_last_used now key_id t =
      keys.update (λ k. k.id == key_id) (λ k. record k { last_used_at = some now }) t
