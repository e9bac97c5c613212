-- ===== src/Registration/SignIn.antt =====
-- Whoever has registered can sign in, and what the sign-in opens.
use text.Mathlib.Text.{◌==◌ as str_eq}
use text.Mathlib.TextPositions.{eq_refl}
use kigali_pack.Base.{
  ℕ, ◌≡◌, refl, sym, ap, ◌∙◌, subst, Bool, true, false, not, Option, none, some, String,
}
use kigali_pack.Service.{ok, unauthorized, found, throw_if, DataSource, step, found-some}
use kigali_pack.Data.{Member, Organization, JwtPayload, member_key, organization_key, api_key_key}
use kigali_pack.Orm.{Repository, find_one-insert}
use kigali_pack.Sessions.{
  Crypto, AuthDb, refresh_token_key, AuthReply, issue_token_pair, reply_to, payload_of, login,
}
use kigali_pack.ActionTokens.{action_token_key}
use kigali_pack.Guards.{is_admin_role, admin_guard}
use kigali_pack.Guards.Roles.{is_admin_role-normalize_role, admin_guard_token}
use kigali_pack.Registration.Registered.{register-IsRegistered}
use kigali_pack.Registration.Register.{
  RegisterDto, Entropy, RegisterReply, role_of, AccountDb, new_member, with_email, register,
}

module _ (org_table : Repository organization_key) (member_table : Repository member_key)
    (key_table : Repository api_key_key) (token_table : Repository refresh_token_key)
    (action_table : Repository action_token_key) (crypto : Crypto) where
  abbrev Store : Type 0
  Store = AccountDb org_table member_table key_table token_table action_table crypto

  -- The reply to a member that signs in.
  abbrev signed_in : ℕ → String → Member → AuthReply
  signed_in now fresh m = reply_to member_table token_table crypto m (record {
    access_token = crypto.sign now (payload_of member_table token_table crypto m);
    refresh_token = fresh;
  })

  -- The claims that a reply tells of its member.
  abbrev pub claims : AuthReply → JwtPayload
  claims a = record {
    sub = a.member_id;
    org_id = a.organization_id;
    role = a.role;
    email = a.email;
  }

  abbrev renewed : ℕ → String → AuthReply → AuthReply
  renewed later fresh a = record a {
    tokens = record { access_token = crypto.sign later (claims a); refresh_token = fresh };
  }

  -- The member that was inserted signs in with its password.
  signs_in :
      (later : ℕ) (fresh : String) (dto : RegisterDto) (org : Organization)
      (auth auth' : AuthDb member_table token_table crypto)
      → let n =
          new_member org_table member_table key_table token_table action_table crypto dto org in
        let m = (member_table.insert n auth.members).0 in
        member_table.find_one
            (with_email org_table member_table key_table token_table action_table crypto dto.email)
            auth.members
          ≡ none
        → auth'.members ≡ (member_table.insert n auth.members).1
        → (login member_table token_table crypto later fresh dto.email dto.password auth').0
          ≡ ok (signed_in later fresh m)
  unfolding login issue_token_pair
  signs_in later fresh dto org auth auth' free members =
      let where_ =
        with_email org_table member_table key_table token_table action_table crypto dto.email in
      let n = new_member org_table member_table key_table token_table action_table crypto dto org in
      let m = (member_table.insert n auth.members).0 in
      let same = member_table.insert-same n auth.members in
      let fits : where_ m ≡ true = ap where_ same ∙ eq_refl (crypto.to_lower dto.email) in
      let there : member_table.find_one where_ auth'.members ≡ some m =
        ap (member_table.find_one where_) members
        ∙ find_one-insert member_table where_ n auth.members free fits in
      let accepted : str_eq (crypto.digest dto.password) m.password_hash ≡ true =
        ap (λ x. str_eq (crypto.digest dto.password) x.password_hash) same
        ∙ eq_refl (crypto.digest dto.password) in
      ap (λ x. x.0)
        (step (found (λ db. member_table.find_one where_ db.members) unauthorized) _ auth'
          (found-some (λ db. member_table.find_one where_ db.members) unauthorized auth' there)
          (step (throw_if (not (str_eq (crypto.digest dto.password) m.password_hash)) unauthorized)
            _ auth' (ap (λ b. throw_if (not b) unauthorized auth') accepted) refl))

  -- Whoever has registered can sign in with the e-mail address and the password of the
  -- registration: the reply names the same member, organization, role and e-mail address, with a
  -- new refresh token and with an access token for these that is signed at the time of the sign-in.
  pub register-login :
      (data_source : DataSource Store) (now : ℕ) (entropy : Entropy) (mail_sent : Bool)
      (dto : RegisterDto) (db : Store) {r : RegisterReply} {db' : Store} (later : ℕ)
      (fresh : String)
      → register org_table member_table key_table token_table action_table crypto data_source now
          entropy mail_sent dto db
        ≡ (ok r, db')
      → (login member_table token_table crypto later fresh dto.email dto.password
          db'.actions.auth).0
        ≡ ok (record r.auth {
          tokens = record {
            access_token = crypto.sign later (record {
              sub = r.auth.member_id;
              org_id = r.auth.organization_id;
              role = r.auth.role;
              email = r.auth.email;
            });
            refresh_token = fresh;
          };
        })
  register-login data_source now entropy mail_sent dto db {r} {db'} later fresh h =
      let done =
        register-IsRegistered org_table member_table key_table token_table action_table crypto
          data_source now entropy mail_sent dto db h in
      signs_in later fresh dto r.organization db.actions.auth db'.actions.auth done.free
        done.members
      ∙ ap (λ m. ok (signed_in later fresh m)) (sym done.same_member)
      ∙ ap (λ a. ok (renewed later fresh a)) (sym done.replied)

  -- If a registration asks for no role, or for that of an admin, and returns, then its access token
  -- opens the routes of the platform's admins, with the new member as the admin, where `verify`
  -- gives back what was signed.
  pub register-admin_guard :
      (verify : String → Option JwtPayload) (admin_api_key : Option String)
      (data_source : DataSource Store) (now : ℕ) (entropy : Entropy) (mail_sent : Bool)
      (dto : RegisterDto) (db : Store) {r : RegisterReply} {db' : Store}
      → ((p : JwtPayload) → verify (crypto.sign now p) ≡ some p)
      → is_admin_role (role_of dto) ≡ true
      → register org_table member_table key_table token_table action_table crypto data_source now
          entropy mail_sent dto db
        ≡ (ok r, db')
      → admin_guard verify false admin_api_key none (some r.auth.tokens.access_token)
        ≡ ok (
            some (record {
              sub = r.auth.member_id;
              org_id = r.auth.organization_id;
              role = r.auth.role;
              email = r.auth.email;
            }))
  register-admin_guard verify admin_api_key data_source now entropy mail_sent dto db {r} {db'}
        signed asked h =
      let done =
        register-IsRegistered org_table member_table key_table token_table action_table crypto
          data_source now entropy mail_sent dto db h in
      let m = done.member in
      let payload = payload_of member_table token_table crypto m in
      let role : is_admin_role payload.role ≡ true =
        is_admin_role-normalize_role m.role
        ∙ ap (λ x. is_admin_role x.role)
            (done.same_member
              ∙ member_table.insert-same
                  (new_member org_table member_table key_table token_table action_table crypto dto
                    r.organization)
                  db.actions.auth.members)
        ∙ asked in
      subst
        (λ a.
          admin_guard verify false admin_api_key none (some a.tokens.access_token)
          ≡ ok (
              some (record {
                sub = a.member_id;
                org_id = a.organization_id;
                role = a.role;
                email = a.email;
              })))
        (sym done.replied)
        (admin_guard_token verify admin_api_key (crypto.sign now payload) payload (signed payload)
          role)
