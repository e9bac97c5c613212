-- ===== src/Registration/Registered.antt =====
-- What a registration has stored.
use mathlib.Core.Path.{subst₂}
use kigali_pack.Base.{ℕ, ◌≡◌, refl, sym, subst, Bool, none, some, is_some, none_of}
use kigali_pack.Service.{
  ok, conflict, DataSource, after_step, transaction_returns, ok-injective, zoom-eq-ok,
}
use kigali_pack.Data.{Member, ApiKey, member_key, organization_key, api_key_key}
use kigali_pack.Orm.{Repository, row-insert_self}
use kigali_pack.Sessions.{Crypto, refresh_token_key, issue_token_pair, reply_to, payload_of}
use kigali_pack.ApiKeys.Retired.{guard_passed}
use kigali_pack.ApiKeys.Defaults.{
  IsDefault, ensure_default_key_for_organization, ensure_default_key_for_organization-IsDefault,
  default_label,
}
use kigali_pack.ActionTokens.{
  ActionTokenType, action_token_key, issue_action_token, new_action_token,
}
use kigali_pack.Registration.Register.{
  RegisterDto, Entropy, RegisterReply, AccountDb, in_keys, new_organization, new_member,
  insert_organization, with_email, register_body, register, finish_registration,
}

module _ (org_table : Repository organization_key) (member_table : Repository member_key)
    (key_table : Repository api_key_key) (token_table : Repository refresh_token_key)
    (action_table : Repository action_token_key) (crypto : Crypto) where
  abbrev Store : Type 0
  Store = AccountDb org_table member_table key_table token_table action_table crypto

  -- What a registration has stored: the organization, a valid key of its own, the member with the
  -- asked role and an e-mail address that no member had, and a token with which to verify it.
  pub record IsRegistered (now : ℕ) (entropy : Entropy) (dto : RegisterDto) (db db' : Store)
      (r : RegisterReply) : Type 0 where
    pub free :
        member_table.find_one
          (with_email org_table member_table key_table token_table action_table crypto dto.email)
          db.actions.auth.members
        ≡ none
    pub organization :
        org_table.row db'.owners.organizations r.organization.id ≡ some r.organization
    pub key : ApiKey
    pub has_key : IsDefault key_table crypto.digest now r.organization.slug db'.owners.api_keys key
    pub member : Member
    pub same_member :
        member
        ≡ (member_table.insert
            (new_member org_table member_table key_table token_table action_table crypto dto
              r.organization)
            db.actions.auth.members).0
    pub members :
        db'.actions.auth.members
        ≡ (member_table.insert
            (new_member org_table member_table key_table token_table action_table crypto dto
              r.organization)
            db.actions.auth.members).1
    pub replied :
        r.auth
        ≡ reply_to member_table token_table crypto member (record {
          access_token = crypto.sign now (payload_of member_table token_table crypto member);
          refresh_token = entropy.refresh_token;
        })
    pub action_tokens :
        db'.actions.action_tokens
        ≡ (action_table.insert
            (new_action_token member_table token_table action_table crypto now entropy.action_token
              member.id ActionTokenType.email_verification)
            db.actions.action_tokens).1

  pub register-IsRegistered :
      (data_source : DataSource Store) (now : ℕ) (entropy : Entropy) (mail_sent : Bool)
      (dto : RegisterDto) (db : Store) {r : RegisterReply} {db' : Store}
      → register org_table member_table key_table token_table action_table crypto data_source now
          entropy mail_sent dto db
        ≡ (ok r, db')
      → IsRegistered now entropy dto db db' r
  unfolding register register_body issue_token_pair issue_action_token
  register-IsRegistered data_source now entropy mail_sent dto db {r} {db'} h =
      let taken =
        member_table.find_one
          (with_email org_table member_table key_table token_table action_table crypto dto.email)
          db.actions.auth.members in
      let (free, rest) = guard_passed conflict (is_some taken) _ db h in
      let body = transaction_returns data_source _ db rest in
      let n_org =
        new_organization org_table member_table key_table token_table action_table crypto
          entropy.slug dto in
      let org = (org_table.insert n_org db.owners.organizations).0 in
      let db1 =
        (insert_organization org_table member_table key_table token_table action_table crypto n_org
          db).1 in
      let ensure =
        ensure_default_key_for_organization key_table crypto.digest now entropy.api_key org.slug
          (default_label org) in
      after_step (in_keys org_table member_table key_table token_table action_table crypto ensure) _
        db1 body
        λ k db2 at_k rest'.
          let (rows, made, back) =
            zoom-eq-ok (λ d. d.owners.api_keys)
              (λ rows d. record d { owners = record d.owners { api_keys = rows } }) ensure db1
              at_k in
          let ended =
            subst
              (λ d.
                finish_registration org_table member_table key_table token_table action_table crypto
                  now entropy mail_sent dto org d
                ≡ (ok r, db'))
              (sym back) rest' in
          let (reply, stores) = ok-injective ended in
          subst₂ (λ x y. IsRegistered now entropy dto db y x) reply stores
            (record {
              free = none_of taken free;
              organization = row-insert_self org_table n_org db.owners.organizations;
              key = k;
              has_key =
                  ensure_default_key_for_organization-IsDefault key_table crypto.digest now
                    entropy.api_key org.slug (default_label org) db.owners.api_keys made;
              member =
                  (member_table.insert
                    (new_member org_table member_table key_table token_table action_table crypto dto
                      org)
                    db.actions.auth.members).0;
              same_member = refl;
              members = refl;
              replied = refl;
              action_tokens = refl;
            })
