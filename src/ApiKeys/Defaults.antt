-- ===== src/ApiKeys/Defaults.antt =====
-- ApiKeyService.ensureDefaultKeyForOrganization (modules/auth/api-key.service.ts) and
-- ApiKeyGuard.authenticateWithJwt (common/guards/api-key.guard.ts).
use Prim.Native.String.{◌++◌}
use text.Mathlib.Text.{◌==◌ as str_eq}
use text.Mathlib.TextPositions.{eq_refl}
use mathlib.Core.Option.{some-injective}
use mathlib.Core.Path.{subst₂}
use kigali_pack.Base.{
  ℕ, ◌≡◌, refl, sym, ap, ◌∙◌, inl, inr, Bool, true, false, ◌&&◌, Option, none, some, String, ◌==◌,
  Option-cases, Bool-cases, if◌then◌else◌,
}
use kigali_pack.Service.{
  ok, unauthorized, Action, pure, ◌>>=◌, found, gets, change, zoom, ok-injective,
}
use kigali_pack.Data.{
  ApiKey, ApiKeyEnvironment, api_key_key, Organization, organization_key, JwtPayload,
}
use kigali_pack.Orm.{Repository, row-insert_self}
use kigali_pack.ApiKeys.Service.{extract_key_prefix, generate_raw_token, is_key_valid}

-- `where: { developerName, isActive: true }`
abbrev pub active_key_of : String → ApiKey → Bool
active_key_of name k = str_eq k.developer_name name && k.is_active

-- `${name} — default`
abbrev pub default_label : Organization → String
default_label org = org.name ++ " — default"

module _ (keys : Repository api_key_key) (hash_token : String → String) where
  abbrev pub default_key : String → String → String → ApiKey
  default_key raw_token developer_name label = record {
    id = 0;
    developer_name = developer_name;
    name = some label;
    hashed_key = hash_token raw_token;
    key_prefix = extract_key_prefix raw_token;
    environment = ApiKeyEnvironment.test;
    tier = "FREE";
    is_active = true;
    expires_at = none;
    last_used_at = none;
    revoked_at = none;
  }

  -- `existing && this.isKeyValid(existing)`
  abbrev pub usable : ℕ → Option ApiKey → Option ApiKey
  usable now none = none
  usable now (some k) = if is_key_valid now k then some k else none

  -- The key that is there, or a new one.
  abbrev pub keep_or_insert : String → String → String → Option ApiKey → Action keys.Rows ApiKey
  keep_or_insert entropy developer_name label (some k) = pure k
  keep_or_insert entropy developer_name label none = change (
      keys.insert
        (default_key (generate_raw_token ApiKeyEnvironment.test entropy) developer_name label))

  unfoldable pub ensure_default_key_for_organization :
      ℕ → String → String → String → Action keys.Rows ApiKey
  ensure_default_key_for_organization now entropy developer_name label = do
    existing ← gets (keys.find_one (active_key_of developer_name))
    keep_or_insert entropy developer_name label (usable now existing)

  -- The key is stored, active and valid, and belongs to the developer.
  pub record IsDefault (now : ℕ) (developer_name : String) (t' : keys.Rows) (k : ApiKey)
      : Type 0 where
    pub stored : keys.row t' k.id ≡ some k
    pub owner : str_eq k.developer_name developer_name ≡ true
    pub valid : is_key_valid now k ≡ true

  and_left : (a b : Bool) → a && b ≡ true → a ≡ true
  and_left true b h = refl
  and_left false b h = cc

  fresh_valid :
      (now i : ℕ) (raw_token developer_name label : String)
      → is_key_valid now (record (default_key raw_token developer_name label) { id = i }) ≡ true
  unfolding is_key_valid
  fresh_valid now i raw_token developer_name label = refl

  usable-some :
      (now : ℕ) (o : Option ApiKey) {k : ApiKey}
      → usable now o ≡ some k
      → (o ≡ some k) × (is_key_valid now k ≡ true)
  usable-some now none h = cc
  usable-some now (some q) {k} h = elim (Bool-cases (is_key_valid now q)) [
    | inl y ↦
        let same : q ≡ k = some-injective _ _ (rw y at h) in
        (ap some same, ap (is_key_valid now) (sym same) ∙ y)
    | inr o ↦ cc (rw o at h)
  ]

  pub ensure_default_key_for_organization-IsDefault :
      (now : ℕ) (entropy developer_name label : String) (t : keys.Rows) {k : ApiKey}
      {t' : keys.Rows}
      → ensure_default_key_for_organization now entropy developer_name label t ≡ (ok k, t')
      → IsDefault now developer_name t' k
  unfolding ensure_default_key_for_organization
  ensure_default_key_for_organization-IsDefault now entropy developer_name label t {k} {t'} h =
      let where_ = active_key_of developer_name in
      elim (Option-cases (usable now (keys.find_one where_ t))) [
        | inl gone ↦
            let raw_token = generate_raw_token ApiKeyEnvironment.test entropy in
            let n = default_key raw_token developer_name label in
            let (reply, rows) =
              ok-injective
                (sym (ap (λ o. keep_or_insert entropy developer_name label o t) gone) ∙ h) in
            let same = keys.insert-same n t in
            subst₂ (λ x y. IsDefault now developer_name y x) reply rows
              (record {
                stored = row-insert_self keys n t;
                owner =
                    ap (λ x. str_eq x.developer_name developer_name) same ∙ eq_refl developer_name;
                valid =
                    ap (is_key_valid now) same
                    ∙ fresh_valid now (keys.insert n t).0.id raw_token developer_name label;
              })
        | inr (q, e) ↦
            let (at_q, valid) = usable-some now (keys.find_one where_ t) e in
            let (reply, rows) =
              ok-injective
                (sym (ap (λ o. keep_or_insert entropy developer_name label o t) e) ∙ h) in
            subst₂ (λ x y. IsDefault now developer_name y x) reply rows
              (record {
                stored = keys.find_one-row where_ t at_q;
                owner = and_left _ _ (keys.find_one-fits where_ t at_q);
                valid = valid;
              })
      ]

module _ (org_table : Repository organization_key) (keys : Repository api_key_key)
    (hash_token : String → String) where
  pub record OwnerDb : Type 0 where
    pub organizations : org_table.Rows
    pub api_keys : keys.Rows

  -- What `extractBearerToken` has made of the header is the argument; `verify` is that of the
  -- tokens of the framework. The key becomes the developer of the request.
  pub authenticate_with_jwt :
      (String → Option JwtPayload) → ℕ → String → String → Action OwnerDb (JwtPayload × ApiKey)
  authenticate_with_jwt verify now entropy raw_token = do
    payload ← found (λ db. verify raw_token) unauthorized
    org ←
        found (λ db. org_table.find_one (λ o. o.id == payload.org_id) db.organizations) unauthorized
    key ←
        zoom (λ db. db.api_keys) (λ rows db. record db { api_keys = rows })
          (ensure_default_key_for_organization keys hash_token now entropy org.slug
            (default_label org))
    pure (payload, key)
