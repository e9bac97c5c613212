-- ===== src/Billing/Users/Suspended.antt =====
-- What is left of the API keys of a user that was suspended or deleted.
use mathlib.Core.Option.{some-injective}
use text.Mathlib.Text.{◌==◌ as str_eq}
use kigali_pack.Base.{
  ℕ, ◌≡◌, refl, sym, ap, ◌∙◌, inl, inr, true, false, Option, none, some, String, ◌==◌,
  if◌then◌else◌, Bool-cases,
}
use mathlib.Core.Option
use kigali_pack.Service.{
  ok, not_found, after_step, found_same, found_reads, ok-injective, transaction_returns, DataSource,
}
use kigali_pack.Data.{JwtPayload, Member, ApiKey}
use kigali_pack.Orm.{find_one-key}
use kigali_pack.ApiKeys.{authenticate_with_api_key}
use kigali_pack.ApiKeys.Retired.{authenticate_with_api_key-eq-ok}
use kigali_pack.Billing.Db.{Orm, Db, Runtime}
use kigali_pack.Billing.Users.{UserReply, key_of, revoked_key, load_user, suspend_user, delete_user}

module _ (orm : Orm) (data_source : DataSource (Db orm)) (rt : Runtime) where
  open orm use {members, api_keys}

  -- The keys of the organization of the stored user are revoked, every other key is as it was.
  pub record IsSuspended (now id : ℕ) (db db' : Db orm) : Type 0 where
    pub user : Member
    pub stored : members.row db.members id ≡ some user
    pub keys :
        (i : ℕ)
        → api_keys.row db'.api_keys i
          ≡ Option.map
              (λ k. if key_of user.organization.slug k then revoked_key now k else k)
              (api_keys.row db.api_keys i)

  -- From the user that was loaded, and the keys that were updated.
  pub from_load-IsSuspended :
      (now id : ℕ) (m : Member) (db db1 db' : Db orm)
      → load_user orm data_source rt id db ≡ (ok m, db1)
      → db'.api_keys ≡ api_keys.update (key_of m.organization.slug) (revoked_key now) db1.api_keys
      → IsSuspended now id db db'
  from_load-IsSuspended now id m db db1 db' at_m keys =
      let read = λ (d : Db orm). members.find_one (λ x. x.id == id) d.members in
      let same : db1 ≡ db = found_same read not_found db at_m in
      let revoke = api_keys.update (key_of m.organization.slug) (revoked_key now) in
      record {
        user = m;
        stored = (find_one-key members id db.members (found_reads read not_found db at_m)).1;
        keys = λ i.
            ap (λ t. api_keys.row t i) (keys ∙ ap (λ d. revoke d.api_keys) same)
            ∙ api_keys.row-update (key_of m.organization.slug) (revoked_key now) (λ k. refl)
                db.api_keys i;
      }

  pub suspend_user-IsSuspended :
      (now id : ℕ) (admin : JwtPayload) (db : Db orm) {r : UserReply} {db' : Db orm}
      → suspend_user orm data_source rt now id admin db ≡ (ok r, db')
      → IsSuspended now id db db'
  unfolding suspend_user
  suspend_user-IsSuspended now id admin db {r} {db'} h =
      after_step (load_user orm data_source rt id) _ db (transaction_returns data_source _ db h)
        λ m db1 at_m rest.
          from_load-IsSuspended now id m db db1 db' at_m
            (ap (λ d. d.api_keys) (sym (ok-injective rest).1))

  pub delete_user-IsSuspended :
      (now id : ℕ) (admin : JwtPayload) (db : Db orm) {u : Unit {0}} {db' : Db orm}
      → delete_user orm data_source rt now id admin db ≡ (ok u, db')
      → IsSuspended now id db db'
  unfolding delete_user
  delete_user-IsSuspended now id admin db {u} {db'} h =
      after_step (load_user orm data_source rt id) _ db (transaction_returns data_source _ db h)
        λ m db1 at_m rest.
          from_load-IsSuspended now id m db db1 db' at_m
            (ap (λ d. d.api_keys) (sym (ok-injective rest).1))

  -- No key of the organization is active any more.
  inactive :
      (now : ℕ) (slug : String) (old : Option ApiKey) (k : ApiKey)
      → Option.map (λ x. if key_of slug x then revoked_key now x else x) old ≡ some k
      → k.is_active ≡ true
      → key_of slug k ≡ false
  inactive now slug none k h active = cc
  inactive now slug (some x) k h active = elim (Bool-cases (key_of slug x)) [
    | inl y ↦
        let is_k : revoked_key now x ≡ k = some-injective _ _ (rw y at h) in
        cc (ap (λ q. q.is_active) is_k)
    | inr o ↦ let is_k : x ≡ k = some-injective _ _ (rw o at h) in ap (key_of slug) (sym is_k) ∙ o
  ]

  -- In the database that is left, no API key of the organization authenticates.
  pub IsSuspended-authenticate_with_api_key :
      (key_source : DataSource api_keys.Rows) (hash_token : String → String) (now id : ℕ)
      (db : Db orm) {db' : Db orm} {m : Member} (later : ℕ) (raw_token : String) {key : ApiKey}
      {t : api_keys.Rows}
      → members.row db.members id ≡ some m
      → IsSuspended now id db db'
      → authenticate_with_api_key api_keys key_source hash_token later raw_token db'.api_keys
        ≡ (ok key, t)
      → str_eq key.developer_name m.organization.slug ≡ false
  IsSuspended-authenticate_with_api_key key_source hash_token now id db {db'} {m} later raw_token
        {key} {t} at_m suspended h =
      let (rows, stored, active, not_revoked, unexpired, digest) =
        authenticate_with_api_key-eq-ok api_keys key_source hash_token later raw_token db'.api_keys
          h in
      let same : suspended.user ≡ m = some-injective _ _ (sym suspended.stored ∙ at_m) in
      ap (λ x. str_eq key.developer_name x.organization.slug) (sym same)
      ∙ inactive now suspended.user.organization.slug (api_keys.row db.api_keys key.id) key
          (sym (suspended.keys key.id) ∙ stored) active
