-- ===== src/Registration/Register.antt =====
-- AuthService.register (modules/auth/auth.service.ts). The slug, which ends in random characters,
-- and the random tokens are arguments, and so is what the mail service answers. The default key is
-- written by the key service's own repository, outside the transaction; since nothing in the
-- callback throws, the two are not told apart here.
use text.Mathlib.Text.{◌==◌ as str_eq}
use kigali_pack.Base.{ℕ, Bool, false, Option, none, some, String, is_some}
use kigali_pack.Service.{
  conflict, Action, pure, ◌>>=◌, ◌>>◌, gets, throw_if, change, zoom, DataSource,
}
use kigali_pack.Data.{
  Member, OrganizationRole, Organization, member_key, organization_key, api_key_key,
}
use kigali_pack.Orm.{Repository}
use kigali_pack.Sessions.{Crypto, AuthDb, refresh_token_key, AuthReply, issue_token_pair, reply_to}
use kigali_pack.ApiKeys.Defaults.{OwnerDb, ensure_default_key_for_organization, default_label}
use kigali_pack.ActionTokens.{ActionDb, ActionTokenType, action_token_key, issue_action_token}

pub record RegisterDto : Type 0 where
  pub organization_name : String
  pub email : String
  pub password : String
  pub role : Option OrganizationRole

-- The random parts of a registration.
pub record Entropy : Type 0 where
  pub slug : String
  pub api_key : String
  pub refresh_token : String
  pub action_token : String

pub record RegisterReply : Type 0 where
  pub auth : AuthReply
  pub email_verified : Bool
  pub verification_email_sent : Bool
  pub organization : Organization

-- `dto.role ?? OrganizationRole.ORG_OWNER`
abbrev pub role_of : RegisterDto → OrganizationRole
role_of dto = elim dto.role [ none ↦ OrganizationRole.org_owner | some role ↦ role ]

module _ (org_table : Repository organization_key) (member_table : Repository member_key)
    (key_table : Repository api_key_key) (token_table : Repository refresh_token_key)
    (action_table : Repository action_token_key) (crypto : Crypto) where
  pub record AccountDb : Type 0 where
    pub actions : ActionDb member_table token_table action_table crypto
    pub owners : OwnerDb org_table key_table crypto.digest

  abbrev pub in_actions :
      {A : Type 0}
      → Action (ActionDb member_table token_table action_table crypto) A
      → Action AccountDb A
  in_actions m = zoom (λ db. db.actions) (λ a db. record db { actions = a }) m

  abbrev pub in_auth :
      {A : Type 0} → Action (AuthDb member_table token_table crypto) A → Action AccountDb A
  in_auth m = in_actions (zoom (λ a. a.auth) (λ t a. record a { auth = t }) m)

  abbrev pub in_keys : {A : Type 0} → Action key_table.Rows A → Action AccountDb A
  in_keys m =
      zoom (λ db. db.owners.api_keys)
        (λ rows db. record db { owners = record db.owners { api_keys = rows } }) m

  abbrev pub new_organization : String → RegisterDto → Organization
  new_organization slug dto = record { id = 0; name = dto.organization_name; slug = slug }

  abbrev pub insert_organization : Organization → Action AccountDb Organization
  insert_organization org = change (λ db.
      let (e, rows) = org_table.insert org db.owners.organizations in
      (e, record db { owners = record db.owners { organizations = rows } }))

  abbrev pub new_member : RegisterDto → Organization → Member
  new_member dto org = record {
    id = 0;
    organization = org;
    email = crypto.to_lower dto.email;
    password_hash = crypto.digest dto.password;
    role = role_of dto;
    email_verified = false;
  }

  abbrev pub insert_member : Member → Action AccountDb Member
  insert_member m = change (λ db.
      let (e, rows) = member_table.insert m db.actions.auth.members in
      (
        e,
        record db {
          actions = record db.actions { auth = record db.actions.auth { members = rows } };
        },
      ))

  abbrev pub with_email : String → Member → Bool
  with_email email m = str_eq m.email (crypto.to_lower email)

  -- From the member to the reply.
  abbrev pub finish_registration :
      ℕ → Entropy → Bool → RegisterDto → Organization → Action AccountDb RegisterReply
  finish_registration now entropy mail_sent dto org = do
    member ← insert_member (new_member dto org)
    tokens ←
        in_auth
          (issue_token_pair member_table token_table crypto now entropy.refresh_token member none)
    issued ← in_actions (
        issue_action_token member_table token_table action_table crypto now entropy.action_token
          member ActionTokenType.email_verification)
    pure (record {
      auth = reply_to member_table token_table crypto member tokens;
      email_verified = member.email_verified;
      verification_email_sent = mail_sent;
      organization = org;
    })

  unfoldable pub register_body : ℕ → Entropy → Bool → RegisterDto → Action AccountDb RegisterReply
  register_body now entropy mail_sent dto = do
    org ← insert_organization (new_organization entropy.slug dto)
    default_key ← in_keys (
        ensure_default_key_for_organization key_table crypto.digest now entropy.api_key org.slug
          (default_label org))
    finish_registration now entropy mail_sent dto org

  unfoldable pub register :
      DataSource AccountDb → ℕ → Entropy → Bool → RegisterDto → Action AccountDb RegisterReply
  register data_source now entropy mail_sent dto = do
    existing ← gets (λ db. member_table.find_one (with_email dto.email) db.actions.auth.members)
    throw_if (is_some existing) conflict
    data_source.transaction (register_body now entropy mail_sent dto)
