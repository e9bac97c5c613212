-- ===== src/ActionTokens/Tokens.antt =====
-- AuthService.forgotPassword, resetPassword, verifyEmail, resendVerificationEmail,
-- getVerificationStatus, assertEmailVerified, issueActionToken, findValidActionToken and
-- invalidateActiveActionTokens (modules/auth/auth.service.ts). The random token is an argument, and
-- so is what the mail service answers; that service does not throw.
use text.Mathlib.Text.{◌==◌ as str_eq}
use kigali_pack.Base.{
  ℕ, Bool, true, false, ◌&&◌, not, Option, none, some, String, ◌==◌, ltb, if◌then◌else◌, refl,
}
use kigali_pack.Service.{
  bad_request, unauthorized, forbidden, not_found, type_error, Action, pure, ◌>>=◌, ◌>>◌, found,
  throw_if, modify, gets,
}
use kigali_pack.Data.{Member, member_key}
use kigali_pack.Orm.{Keyed, Repository}
use kigali_pack.Sessions.{Crypto, AuthDb, refresh_token_key, is_none}

pub data ActionTokenType : Type 0 where
  password_reset email_verification : ActionTokenType

pub record ActionToken : Type 0 where
  pub id : ℕ
  pub member_id : ℕ
  pub token_hash : String
  pub kind : ActionTokenType
  pub expires_at : ℕ
  pub used_at : Option ℕ

abbrev pub action_token_key : Keyed ActionToken
action_token_key = record {
  key = λ e. e.id;
  set_key = λ i e. record e { id = i };
  key-set_key = λ i e. refl;
  set_key-key = λ e. refl;
}

abbrev pub same_type : ActionTokenType → ActionTokenType → Bool
same_type ActionTokenType.password_reset ActionTokenType.password_reset = true
same_type ActionTokenType.email_verification ActionTokenType.email_verification = true
same_type _ _ = false

-- `where: { tokenHash, type, usedAt: IsNull() }`
abbrev pub unused_with : String → ActionTokenType → ActionToken → Bool
unused_with hash kind t = str_eq t.token_hash hash && (same_type t.kind kind && is_none t.used_at)

-- `{ member: { id }, type, usedAt: IsNull() }`
abbrev pub unused_of : ℕ → ActionTokenType → ActionToken → Bool
unused_of member_id kind t =
    t.member_id == member_id && (same_type t.kind kind && is_none t.used_at)

abbrev pub password_reset_ttl_hours : ℕ
password_reset_ttl_hours = 1

abbrev pub email_verification_ttl_minutes : ℕ
email_verification_ttl_minutes = 20

-- The message of the reply is the same in both cases.
pub record ForgotReply : Type 0 where
  pub reset_token : Option String
  pub expires_in_hours : Option ℕ

pub record VerifyReply : Type 0 where
  pub email : String
  pub member_id : ℕ
  pub already_verified : Bool

pub record ResendReply : Type 0 where
  pub email : String
  pub verification_email_sent : Bool
  pub expires_at : ℕ

pub record IssuedToken : Type 0 where
  pub token : String
  pub expires_at : ℕ

module _ (member_table : Repository member_key) (token_table : Repository refresh_token_key)
    (action_table : Repository action_token_key) (crypto : Crypto) where
  pub record ActionDb : Type 0 where
    pub auth : AuthDb member_table token_table crypto
    pub action_tokens : action_table.Rows

  abbrev pub save_member : Member → ActionDb → ActionDb
  save_member m db = record db {
    auth = record db.auth { members = member_table.save m db.auth.members };
  }

  abbrev pub save_action_token : ActionToken → ActionDb → ActionDb
  save_action_token t db = record db { action_tokens = action_table.save t db.action_tokens }

  abbrev pub expiry_of : ℕ → ActionTokenType → ℕ
  expiry_of now ActionTokenType.password_reset = crypto.add_hours password_reset_ttl_hours now
  expiry_of now ActionTokenType.email_verification =
      crypto.add_minutes email_verification_ttl_minutes now

  abbrev pub new_action_token : ℕ → String → ℕ → ActionTokenType → ActionToken
  new_action_token now fresh member_id kind = record {
    id = 0;
    member_id = member_id;
    token_hash = crypto.digest fresh;
    kind = kind;
    expires_at = expiry_of now kind;
    used_at = none;
  }

  unfoldable pub issue_action_token :
      ℕ → String → Member → ActionTokenType → Action ActionDb IssuedToken
  issue_action_token now fresh member kind = do
    modify (λ db. record db {
      action_tokens =
          (action_table.insert (new_action_token now fresh member.id kind) db.action_tokens).1;
    })
    pure (record { token = fresh; expires_at = expiry_of now kind })

  unfoldable pub find_unused : String → ActionTokenType → ActionDb → Option ActionToken
  find_unused raw_token kind db =
      action_table.find_one (unused_with (crypto.digest raw_token) kind) db.action_tokens

  unfoldable pub find_valid_action_token :
      ℕ → String → ActionTokenType → Action ActionDb ActionToken
  find_valid_action_token now raw_token kind = do
    stored ← found (find_unused raw_token kind) unauthorized
    throw_if (ltb stored.expires_at now) unauthorized
    pure stored

  -- `relations: { member: true }`
  abbrev pub member_of : ActionToken → ActionDb → Option Member
  member_of t db = member_table.row db.auth.members t.member_id

  abbrev pub used : ℕ → ActionToken → ActionToken
  used now t = record t { used_at = some now }

  abbrev pub with_password : String → Member → Member
  with_password password m = record m { password_hash = crypto.digest password }

  abbrev pub verified : Member → Member
  verified m = record m { email_verified = true }

  unfoldable pub forgot_password : ℕ → String → String → Action ActionDb ForgotReply
  forgot_password now fresh email = do
    member ←
        gets (λ db.
          member_table.find_one (λ m. str_eq m.email (crypto.to_lower email)) db.auth.members)
    elim member [
      | none ↦ pure (record { reset_token = none; expires_in_hours = none })
      | some m ↦ do
        issued ← issue_action_token now fresh m ActionTokenType.password_reset
        pure (record {
          reset_token = some issued.token;
          expires_in_hours = some password_reset_ttl_hours;
        })
    ]

  unfoldable pub reset_password : ℕ → String → String → Action ActionDb String
  reset_password now raw_token new_password = do
    stored ← find_valid_action_token now raw_token ActionTokenType.password_reset
    member ← found (member_of stored) type_error
    modify (save_member (with_password new_password member))
    modify (save_action_token (used now stored))
    pure member.email

  -- From `if (member.emailVerified)` to the replies.
  unfoldable pub mark_verified : ℕ → ActionToken → Member → Action ActionDb VerifyReply
  mark_verified now stored member =
      if member.email_verified
      then (do
        modify (save_action_token (used now stored))
        pure (record { email = member.email; member_id = member.id; already_verified = true }))
      else (do
        modify (save_member (verified member))
        modify (save_action_token (used now stored))
        pure (record { email = member.email; member_id = member.id; already_verified = false }))

  unfoldable pub verify_email : ℕ → String → Action ActionDb VerifyReply
  verify_email now raw_token = do
    stored ← find_valid_action_token now raw_token ActionTokenType.email_verification
    member ← found (member_of stored) type_error
    mark_verified now stored member

  abbrev pub find_member : ℕ → ActionDb → Option Member
  find_member id db = member_table.find_one (λ m. m.id == id) db.auth.members

  unfoldable pub invalidate_active_action_tokens : ℕ → ℕ → ActionTokenType → ActionDb → ActionDb
  invalidate_active_action_tokens now member_id kind db = record db {
    action_tokens = action_table.update (unused_of member_id kind) (used now) db.action_tokens;
  }

  unfoldable pub resend_verification_email : ℕ → String → Bool → ℕ → Action ActionDb ResendReply
  resend_verification_email now fresh mail_sent member_id = do
    member ← found (find_member member_id) not_found
    throw_if member.email_verified bad_request
    modify (invalidate_active_action_tokens now member.id ActionTokenType.email_verification)
    issued ← issue_action_token now fresh member ActionTokenType.email_verification
    pure (record {
      email = member.email;
      verification_email_sent = mail_sent;
      expires_at = issued.expires_at;
    })

  unfoldable pub get_verification_status : ℕ → Action ActionDb (String × Bool)
  get_verification_status member_id = do
    member ← found (find_member member_id) not_found
    pure (member.email, member.email_verified)

  unfoldable pub assert_email_verified : ℕ → Action ActionDb (Unit {0})
  assert_email_verified member_id = do
    member ← found (find_member member_id) not_found
    throw_if (not member.email_verified) forbidden
