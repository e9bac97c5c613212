-- ===== src/ApiKeys/Created.antt =====
-- A new key authenticates with its token.
use text.Mathlib.Text.{◌==◌ as str_eq}
use text.Mathlib.TextPositions.{eq_refl}
use mathlib.Core.Path.{subst₂}
use mathlib.Core.Option.{some-injective}
use native.Mathlib.Decide.{ℕ_discrete}
use kigali_pack.Base.{
  ℕ, ◌≡◌, refl, sym, ap, ◌∙◌, subst, Bool, true, false, ◌&&◌, Option, none, some, String,
  Option-cases, inl, inr, is_some, none_of,
}
use kigali_pack.Service.{
  ok, bad_request, conflict, unauthorized, found, DataSource, step, ok-injective, found-some,
}
use kigali_pack.Data.{ApiKey, ApiKeyEnvironment, api_key_key}
use kigali_pack.Orm.{Repository, row-insert_self, row-insert_ne}
use kigali_pack.ApiKeys.Service.{
  is_past, is_key_valid, NewKey, new_key, generate_raw_token, create, authenticate_with_api_key,
}
use kigali_pack.ApiKeys.Retired.{guard_passed}

module _ (keys : Repository api_key_key) (data_source : DataSource keys.Rows)
    (hash_token : String → String) where
  abbrev has_digest : String → ApiKey → Bool
  has_digest raw_token k = str_eq k.hashed_key (hash_token raw_token)

  -- The only key with the digest of a token is found by it.
  found_by_token :
      (raw_token : String) (key : ApiKey) (t : keys.Rows)
      → keys.row t key.id ≡ some key
      → has_digest raw_token key ≡ true
      → key.is_active ≡ true
      → ((q : ApiKey) → keys.row t q.id ≡ some q → has_digest raw_token q ≡ true → q ≡ key)
      → keys.find_one (λ k. has_digest raw_token k && k.is_active) t ≡ some key
  found_by_token raw_token key t stored digest active only =
      elim (Option-cases (keys.find_one (λ k. has_digest raw_token k && k.is_active) t)) [
        | inl gone ↦
            let missed =
              keys.find_one-none (λ k. has_digest raw_token k && k.is_active) t key.id gone
                stored in
            let fits : has_digest raw_token key && key.is_active ≡ true = rw (digest, active) in cc
        | inr (q, e) ↦
            let row = keys.find_one-row (λ k. has_digest raw_token k && k.is_active) t e in
            let fits = keys.find_one-fits (λ k. has_digest raw_token k && k.is_active) t e in
            e ∙ ap some (only q row (left (has_digest raw_token q) q.is_active fits))
      ]
    where
      left : (a b : Bool) → a && b ≡ true → a ≡ true
      left true b h = refl
      left false b h = cc

  authenticates :
      (later : ℕ) (raw_token : String) (key : ApiKey) (t : keys.Rows)
      → keys.find_one (λ k. has_digest raw_token k && k.is_active) t ≡ some key
      → is_key_valid later key ≡ true
      → authenticate_with_api_key keys data_source hash_token later raw_token t ≡ (ok key, t)
  unfolding authenticate_with_api_key
  authenticates later raw_token key t e valid =
      step (found (keys.find_one (λ k. has_digest raw_token k && k.is_active)) unauthorized) _ t
        (found-some (keys.find_one (λ k. has_digest raw_token k && k.is_active)) unauthorized t e)
        (rw valid)

  valid_key :
      (later : ℕ) (k : ApiKey)
      → k.is_active ≡ true
      → k.revoked_at ≡ none
      → is_past later k.expires_at ≡ false
      → is_key_valid later k ≡ true
  unfolding is_key_valid
  valid_key later k active not_revoked unexpired = rw (active, not_revoked, unexpired)

  -- An inserted key is the only one with the digest of its token, if there was none before.
  inserted_only :
      (raw_token : String) (e : ApiKey) (t : keys.Rows)
      → keys.find_one (has_digest raw_token) t ≡ none
      → (q : ApiKey) → keys.row (keys.insert e t).1 q.id ≡ some q
      → has_digest raw_token q ≡ true
      → q ≡ (keys.insert e t).0
  inserted_only raw_token e t free q row fits = elim (ℕ_discrete (keys.insert e t).0.id q.id) [
    | yes same ↦ some-injective _ _ (
        sym row
        ∙ subst (λ i. keys.row (keys.insert e t).1 i ≡ some (keys.insert e t).0) same
            (row-insert_self keys e t))
    | no other ↦
        let before : keys.row t q.id ≡ some q = sym (row-insert_ne keys e t q.id other) ∙ row in
        let missed = keys.find_one-none (has_digest raw_token) t q.id free before in cc
  ]

  -- The key that a creation replies authenticates with the replied token, until it expires.
  pub create-authenticate_with_api_key :
      (now : ℕ) (entropy : String) (owner : ApiKey) (name : Option String)
      (environment : ApiKeyEnvironment) (expires_at : Option ℕ) (t : keys.Rows) {r : NewKey}
      {t' : keys.Rows} (later : ℕ)
      → create keys data_source hash_token now entropy owner name environment expires_at t
        ≡ (ok r, t')
      → is_past later expires_at ≡ false
      → authenticate_with_api_key keys data_source hash_token later r.raw_token t' ≡ (ok r.key, t')
  unfolding create
  create-authenticate_with_api_key now entropy owner name environment expires_at t {r} {t'} later h
        unexpired =
      let raw_token = generate_raw_token environment entropy in
      let e =
        new_key keys data_source hash_token
          (record owner { name = name; environment = environment; expires_at = expires_at })
          raw_token in
      let (future, rest) = guard_passed bad_request (is_past now expires_at) _ t h in
      let (free, rest') =
        guard_passed conflict (is_some (keys.find_one (has_digest raw_token) t)) _ t rest in
      let (reply, rows) = ok-injective rest' in
      let same = keys.insert-same e t in
      let key = (keys.insert e t).0 in
      let digest : has_digest raw_token key ≡ true =
        ap (has_digest raw_token) same ∙ eq_refl (hash_token raw_token) in
      let active = ap (λ k. k.is_active) same in
      subst₂
        (λ r t'.
          authenticate_with_api_key keys data_source hash_token later r.raw_token t'
          ≡ (ok r.key, t'))
        reply rows
        (authenticates later raw_token key (keys.insert e t).1
          (found_by_token raw_token key (keys.insert e t).1 (row-insert_self keys e t) digest active
            (inserted_only raw_token e t (none_of _ free)))
          (valid_key later key active (ap (λ k. k.revoked_at) same)
            (ap (λ k. is_past later k.expires_at) same ∙ unexpired)))
