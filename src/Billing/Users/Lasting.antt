-- ===== src/Billing/Users/Lasting.antt =====
-- The API keys that a suspension has revoked, through whatever the program does with keys later
-- (modules/billing/billing-admin.service.ts).
use mathlib.Core.Option
use mathlib.Core.Option.{some-injective}
use text.Mathlib.Text.{◌==◌ as str_eq}
use kigali_pack.Base.{
  ℕ, ◌≡◌, refl, sym, ap, ◌∙◌, ◌⊎◌, inl, inr, true, false, some, String, if◌then◌else◌, is_some,
  Bool-cases,
}
use kigali_pack.Service.{ok, DataSource}
use kigali_pack.Data.{ApiKey, JwtPayload, Member}
use kigali_pack.ApiKeys.{authenticate_with_api_key}
use kigali_pack.ApiKeys.Retired.{authenticate_with_api_key-eq-ok}
use kigali_pack.Billing.Db.{Orm, Db, Runtime}
use kigali_pack.Billing.Users.{UserReply, key_of, revoked_key, suspend_user, delete_user}
use kigali_pack.Billing.Users.Suspended.{
  IsSuspended, suspend_user-IsSuspended, delete_user-IsSuspended,
}
use kigali_pack.Billing.Users.Changes.{IsRevoked, Changes, Changes-keep}

module _ (orm : Orm) (data_source : DataSource (Db orm)) (rt : Runtime) where
  open orm use {members, api_keys}

  -- The keys of the organization are revoked by then.
  IsSuspended-IsRevoked :
      (source : DataSource api_keys.Rows) (hash_token : String → String) (now id : ℕ)
      (db db' : Db orm) {old : ApiKey} (i : ℕ) (s : IsSuspended orm data_source rt now id db db')
      → api_keys.row db.api_keys i ≡ some old
      → key_of s.user.organization.slug old ≡ true
      → IsRevoked api_keys source hash_token i db'.api_keys
  IsSuspended-IsRevoked source hash_token now id db db' {old} i s at_i owned = record {
    key = revoked_key now old;
    stored =
        s.keys i
        ∙ ap (Option.map (λ k. if key_of s.user.organization.slug k then revoked_key now k else k))
            at_i
        ∙ ap (λ b. some (if b then revoked_key now old else old)) owned;
    marked = refl;
  }

  -- After a suspension or a removal of a user that has returned, and whatever the program then does
  -- with API keys, any number of times: a key that authenticates, with whatever token and at any
  -- time, is none of those that were stored for the user's organization before. A key that is made
  -- later may authenticate.
  pub suspended_keys :
      (source : DataSource api_keys.Rows) (hash_token : String → String) (now id : ℕ)
      (admin : JwtPayload) (db : Db orm) {db' : Db orm} {m : Member} (later : ℕ)
      (raw_token : String) {key old : ApiKey} {t t' : api_keys.Rows}
      → members.row db.members id ≡ some m
      → ((r : UserReply) × (suspend_user orm data_source rt now id admin db ≡ (ok r, db')))
        ⊎ ((u : Unit {0}) × (delete_user orm data_source rt now id admin db ≡ (ok u, db')))
      → Changes api_keys source hash_token db'.api_keys t
      → authenticate_with_api_key api_keys source hash_token later raw_token t ≡ (ok key, t')
      → api_keys.row db.api_keys key.id ≡ some old
      → str_eq old.developer_name m.organization.slug ≡ false
  suspended_keys source hash_token now id admin db {db'} {m} later raw_token {key} {old} {t} at_m
        done changes h at_old =
      let s : IsSuspended orm data_source rt now id db db' = elim done [
        | inl (r, e) ↦ suspend_user-IsSuspended orm data_source rt now id admin db e
        | inr (u, e) ↦ delete_user-IsSuspended orm data_source rt now id admin db e
      ] in
      let user : s.user ≡ m = some-injective _ _ (sym s.stored ∙ at_m) in
      let (rows, stored, active, not_revoked, unexpired, digest) =
        authenticate_with_api_key-eq-ok api_keys source hash_token later raw_token t h in
      elim (Bool-cases (key_of m.organization.slug old)) [
        | inl y ↦
            let dead = Changes-keep api_keys source hash_token key.id changes (
              IsSuspended-IsRevoked source hash_token now id db db' key.id s at_old
                (ap (λ x. key_of x.organization.slug old) user ∙ y)) in
            let same : dead.key ≡ key = some-injective _ _ (sym dead.stored ∙ stored) in
            cc (sym (ap (λ k. is_some k.revoked_at) same ∙ ap is_some not_revoked) ∙ dead.marked)
        | inr n ↦ n
      ]
