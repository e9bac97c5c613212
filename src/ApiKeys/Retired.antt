-- ===== src/ApiKeys/Retired.antt =====
-- A revoked key no longer authenticates, and a rotated one is replaced.
use text.Mathlib.Text.{◌==◌ as str_eq}
use mathlib.Core.Option.{some-injective}
use mathlib.Core.Path.{subst₂}
use kigali_pack.Base.{
  ℕ, ◌≡◌, ◌≢◌, refl, sym, ap, ◌∙◌, subst, ◌⊎◌, inl, inr, Bool, true, false, ◌&&◌, ◌||◌, not, none,
  some, String, ◌==◌, arith, Option-cases, is_some,
}
use kigali_pack.Service.{
  Exception, Action, ok, bad_request, unauthorized, found, throw_if, pure, modify, DataSource, ◌>>◌,
  after_step, transaction_returns, found_same, found_reads, ok-injective,
}
use kigali_pack.Data.{ApiKey, api_key_key}
use kigali_pack.Orm.{
  Repository, find_one-key, row-save_self, row-save_ne, row-insert_self, row-insert_ne,
  row-insert_old,
}
use kigali_pack.ApiKeys.Service.{
  is_past, is_key_valid, NewKey, new_key, generate_raw_token, find_owned_key, revoked, revoke,
  rotate_body, rotate, authenticate_with_api_key,
}

-- A guard that has let pass.
pub guard_passed :
    {S A : Type 0} (e : Exception) (b : Bool) (m : Action S A) (s : S) {a : A} {s' : S}
    → (throw_if b e >> m) s ≡ (ok a, s')
    → (b ≡ false) × (m s ≡ (ok a, s'))
guard_passed e true m s h = cc
guard_passed e false m s h = (refl, h)

is_key_valid-facts :
    (now : ℕ) (k : ApiKey)
    → not (is_key_valid now k) ≡ false
    → (k.is_active ≡ true) × (k.revoked_at ≡ none) × (is_past now k.expires_at ≡ false)
unfolding is_key_valid
is_key_valid-facts now k h = elim (Option-cases k.revoked_at) [
  | inl none_at ↦ ground arith
  | inr (at, e) ↦ ground arith
]

and_left : (a b : Bool) → a && b ≡ true → a ≡ true
and_left true b h = refl
and_left false b h = cc

module _ (keys : Repository api_key_key) (data_source : DataSource keys.Rows)
    (hash_token : String → String) where
  find_owned_key-eq-ok :
      (owner : ApiKey) (id : ℕ) (t : keys.Rows) {key : ApiKey} {t' : keys.Rows}
      → find_owned_key keys data_source hash_token owner id t ≡ (ok key, t')
      → (t' ≡ t)
        × (keys.row t id ≡ some key)
        × (key.id ≡ id)
        × (str_eq key.developer_name owner.developer_name ≡ true)
  unfolding find_owned_key
  find_owned_key-eq-ok owner id t {key} h =
      elim (Option-cases (keys.find_one (λ k. k.id == id) t)) [
        | inl gone ↦ ground arith
        | inr (q, e) ↦ ground (arith, find_one-key keys id t e)
      ]

  -- The key `id` of the owner was active, and is now stored as revoked.
  pub record IsRetired (now id : ℕ) (owner : ApiKey) (t t' : keys.Rows) : Type 0 where
    pub old : ApiKey
    pub before : keys.row t id ≡ some old
    pub owned : str_eq old.developer_name owner.developer_name ≡ true
    pub usable : not old.is_active || is_some old.revoked_at ≡ false
    pub after : keys.row t' id ≡ some (revoked keys data_source hash_token now old)

  revoke-IsRetired :
      (now id : ℕ) (owner : ApiKey) (t : keys.Rows) {key : ApiKey} {t' : keys.Rows}
      → revoke keys data_source hash_token now owner id t ≡ (ok key, t')
      → IsRetired now id owner t t'
  unfolding revoke
  revoke-IsRetired now id owner t {key} {t'} h =
      after_step (find_owned_key keys data_source hash_token owner id) _ t h λ k t1 at_k rest.
        let (same, stored, key_id, owned) = find_owned_key-eq-ok owner id t at_k in
        let (usable, rest') = guard_passed bad_request _ _ t1 rest in
        let gone = revoked keys data_source hash_token now k in
        let (other, rest'') =
          guard_passed bad_request (k.id == owner.id) (modify (keys.save gone) >> pure gone) t1
            rest' in
        let rows : keys.save (revoked keys data_source hash_token now k) t1 ≡ t' =
          ap (λ r. r.1) rest'' in
        record {
          old = k;
          before = stored;
          owned = owned;
          usable = usable;
          after =
              rw (← rows, ← key_id)
                (row-save_self keys (revoked keys data_source hash_token now k) t1);
        }

  -- What a rotation of the key `id` has done: the key is retired; the new key is stored under
  -- another number, is active and not revoked, has the digest of the new token and what the old key
  -- had of its developer, tier, environment and expiry; every other key is as it was.
  pub record IsRotated (now id : ℕ) (owner : ApiKey) (r : NewKey) (t t' : keys.Rows) : Type 0 where
    pub retired : IsRetired now id owner t t'
    pub revoked_id : r.revoked_key_id ≡ some id
    pub other : r.key.id ≢ id
    pub stored : keys.row t' r.key.id ≡ some r.key
    pub active : r.key.is_active ≡ true
    pub not_revoked : r.key.revoked_at ≡ none
    pub digest : r.key.hashed_key ≡ hash_token r.raw_token
    pub same_developer : r.key.developer_name ≡ retired.old.developer_name
    pub same_tier : r.key.tier ≡ retired.old.tier
    pub same_environment : r.key.environment ≡ retired.old.environment
    pub same_expiry : r.key.expires_at ≡ retired.old.expires_at
    pub others : (i : ℕ) → id ≢ i → r.key.id ≢ i → keys.row t' i ≡ keys.row t i

  IsRotated-rows :
      (now id : ℕ) (entropy : String) (owner key : ApiKey) (t : keys.Rows) {r : NewKey}
      {t' : keys.Rows}
      → keys.row t id ≡ some key
      → key.id ≡ id
      → str_eq key.developer_name owner.developer_name ≡ true
      → not key.is_active || is_some key.revoked_at ≡ false
      → rotate_body keys data_source hash_token now entropy key t ≡ (ok r, t')
      → IsRotated now id owner r t t'
  unfolding rotate_body
  IsRotated-rows now id entropy owner key t {r} {t'} stored key_id owned usable h =
      let gone = revoked keys data_source hash_token now key in
      let t1 = keys.save gone t in
      let raw_token = generate_raw_token key.environment entropy in
      let e = new_key keys data_source hash_token key raw_token in
      let same = keys.insert-same e t1 in
      let (reply, rows) = ok-injective h in
      let there : keys.row t1 id ≡ some gone = rw (← key_id) (row-save_self keys gone t) in
      let (fresh, kept) = row-insert_old keys e t1 id there in
      subst₂ (λ r t'. IsRotated now id owner r t t') reply rows
        (record {
          retired = record {
            old = key;
            before = stored;
            owned = owned;
            usable = usable;
            after = kept;
          };
          revoked_id = ap some key_id;
          other = fresh;
          stored = row-insert_self keys e t1;
          active = ap (λ k. k.is_active) same;
          not_revoked = ap (λ k. k.revoked_at) same;
          digest = ap (λ k. k.hashed_key) same;
          same_developer = ap (λ k. k.developer_name) same;
          same_tier = ap (λ k. k.tier) same;
          same_environment = ap (λ k. k.environment) same;
          same_expiry = ap (λ k. k.expires_at) same;
          others = λ i ne ne'.
              row-insert_ne keys e t1 i ne' ∙ row-save_ne keys gone t i (λ q. ne (sym key_id ∙ q));
        })

  -- A rotation that returns has retired the key and stored a replacement: under another number,
  -- active, with the digest of the new token and with the developer, tier, environment and expiry
  -- of the old key; every other key is as it was.
  pub rotate-IsRotated :
      (now id : ℕ) (entropy : String) (owner : ApiKey) (t : keys.Rows) {r : NewKey} {t' : keys.Rows}
      → rotate keys data_source hash_token now entropy owner id t ≡ (ok r, t')
      → IsRotated now id owner r t t'
  unfolding rotate
  rotate-IsRotated now id entropy owner t {r} {t'} h =
      after_step (find_owned_key keys data_source hash_token owner id) _ t h λ k t1 at_k rest.
        let (same, stored, key_id, owned) = find_owned_key-eq-ok owner id t at_k in
        let (usable, rest') = guard_passed bad_request _ _ t1 rest in
        IsRotated-rows now id entropy owner k t stored key_id owned usable (
          subst (λ x. rotate_body keys data_source hash_token now entropy k x ≡ (ok r, t')) same
            (transaction_returns data_source (rotate_body keys data_source hash_token now entropy k)
              t1 rest'))

  -- A key that authenticates is stored, active, unexpired and not revoked, and its digest is that of
  -- the token.
  pub authenticate_with_api_key-eq-ok :
      (now : ℕ) (raw_token : String) (t : keys.Rows) {key : ApiKey} {t' : keys.Rows}
      → authenticate_with_api_key keys data_source hash_token now raw_token t ≡ (ok key, t')
      → (t' ≡ t)
        × (keys.row t key.id ≡ some key)
        × (key.is_active ≡ true)
        × (key.revoked_at ≡ none)
        × (is_past now key.expires_at ≡ false)
        × (str_eq key.hashed_key (hash_token raw_token) ≡ true)
  unfolding authenticate_with_api_key is_key_valid
  authenticate_with_api_key-eq-ok now raw_token t {key} {t'} h =
      let p : ApiKey → Bool = λ k. str_eq k.hashed_key (hash_token raw_token) && k.is_active in
      after_step (found (keys.find_one p) unauthorized) _ t h λ k t1 at_k rest.
        let e = found_reads (keys.find_one p) unauthorized t at_k in
        let (valid, rest') =
          guard_passed unauthorized (not (is_key_valid now k)) (pure k) t1 rest in
        let (same, rows) = ok-injective rest' in
        let (active, not_revoked, unexpired) = is_key_valid-facts now k valid in
        subst
          (λ k.
            (t' ≡ t)
            × (keys.row t k.id ≡ some k)
            × (k.is_active ≡ true)
            × (k.revoked_at ≡ none)
            × (is_past now k.expires_at ≡ false)
            × (str_eq k.hashed_key (hash_token raw_token) ≡ true))
          same
          (
            sym rows ∙ found_same (keys.find_one p) unauthorized t at_k,
            keys.find_one-row p t e,
            active,
            not_revoked,
            unexpired,
            and_left (str_eq k.hashed_key (hash_token raw_token)) k.is_active
                (keys.find_one-fits p t e),
          )

  retired_refused :
      (now id later : ℕ) (owner : ApiKey) (raw_token : String) (t t' : keys.Rows) {key : ApiKey}
      {t'' : keys.Rows}
      → IsRetired now id owner t t'
      → authenticate_with_api_key keys data_source hash_token later raw_token t' ≡ (ok key, t'')
      → key.id ≢ id
  retired_refused now id later owner raw_token t t' {key} retired h same =
      let (rows, stored, active, not_revoked, unexpired, digest) =
        authenticate_with_api_key-eq-ok later raw_token t' h in
      let key_is =
        some-injective _ _
          (sym (subst (λ i. keys.row t' i ≡ some key) same stored) ∙ retired.after) in
      let inactive : key.is_active ≡ false = ap (λ k. k.is_active) key_is in cc

  -- After a revocation or a rotation of a key that has returned, no token authenticates with that
  -- key any more, at any time.
  pub retired_key :
      (now id : ℕ) (entropy : String) (owner : ApiKey) (t : keys.Rows) {t' : keys.Rows} (later : ℕ)
      (raw_token : String) {key : ApiKey} {t'' : keys.Rows}
      → ((k : ApiKey) × (revoke keys data_source hash_token now owner id t ≡ (ok k, t')))
        ⊎ ((r : NewKey) × (rotate keys data_source hash_token now entropy owner id t ≡ (ok r, t')))
      → authenticate_with_api_key keys data_source hash_token later raw_token t' ≡ (ok key, t'')
      → key.id ≢ id
  retired_key now id entropy owner t {t'} later raw_token (inl (k, h)) auth =
      retired_refused now id later owner raw_token t t' (revoke-IsRetired now id owner t h) auth
  retired_key now id entropy owner t {t'} later raw_token (inr (r, h)) auth =
      retired_refused now id later owner raw_token t t'
        (rotate-IsRotated now id entropy owner t h).retired auth
