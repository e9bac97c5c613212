-- ===== src/Sessions/Tokens.antt =====
-- AuthService.login, refresh, logout, issueTokenPair and normalizeRole
-- (modules/auth/auth.service.ts). The random refresh token is an argument; the digest, the signing
-- of access tokens and the calendar are parameters.
use text.Mathlib.Text.{◌==◌ as str_eq}
use kigali_pack.Base.{ℕ, Bool, true, false, ◌&&◌, not, Option, none, some, String, ltb, refl}
use kigali_pack.Service.{
  unauthorized, not_found, Action, pure, ◌>>=◌, ◌>>◌, found, throw_if, modify,
}
use kigali_pack.Data.{Member, OrganizationRole, JwtPayload, member_key}
use kigali_pack.Orm.{Keyed, Repository}

-- A refresh token is loaded with its member.
pub record RefreshToken : Type 0 where
  pub id : ℕ
  pub member : Member
  pub token_hash : String
  pub expires_at : ℕ
  pub revoked_at : Option ℕ

abbrev pub refresh_token_key : Keyed RefreshToken
refresh_token_key = record {
  key = λ e. e.id;
  set_key = λ i e. record e { id = i };
  key-set_key = λ i e. refl;
  set_key-key = λ e. refl;
}

abbrev pub is_none {ℓ} : {A : Type ℓ} → Option A → Bool
is_none none = true
is_none (some a) = false

unfoldable pub normalize_role : OrganizationRole → OrganizationRole
normalize_role OrganizationRole.owner = OrganizationRole.org_owner
normalize_role OrganizationRole.viewer = OrganizationRole.org_member
normalize_role role = role

-- `where: { tokenHash, revokedAt: IsNull() }`
abbrev pub live_with : String → RefreshToken → Bool
live_with hash t = str_eq t.token_hash hash && is_none t.revoked_at

pub record TokenPair : Type 0 where
  pub access_token : String
  pub refresh_token : String

pub record AuthReply : Type 0 where
  pub tokens : TokenPair
  pub member_id : ℕ
  pub organization_id : ℕ
  pub role : OrganizationRole
  pub email : String

pub record Crypto : Type 0 where
  -- The digest of SHA-256 in hexadecimal.
  pub digest : String → String
  -- The token that is signed at a time, from which it expires.
  pub sign : ℕ → JwtPayload → String
  pub to_lower : String → String
  -- The time of the local clock that many hours, or minutes, later.
  pub add_hours : ℕ → ℕ → ℕ
  pub add_minutes : ℕ → ℕ → ℕ

abbrev pub refresh_token_ttl_hours : ℕ
refresh_token_ttl_hours = 10

module _ (member_table : Repository member_key) (token_table : Repository refresh_token_key)
    (crypto : Crypto) where
  pub record AuthDb : Type 0 where
    pub members : member_table.Rows
    pub refresh_tokens : token_table.Rows

  abbrev pub payload_of : Member → JwtPayload
  payload_of member = record {
    sub = member.id;
    org_id = member.organization.id;
    role = normalize_role member.role;
    email = member.email;
  }

  abbrev expiry_of : ℕ → Option ℕ → ℕ
  expiry_of now none = crypto.add_hours refresh_token_ttl_hours now
  expiry_of now (some at) = at

  abbrev pub new_token : ℕ → String → Member → Option ℕ → RefreshToken
  new_token now fresh member refresh_expires_at = record {
    id = 0;
    member = member;
    token_hash = crypto.digest fresh;
    expires_at = expiry_of now refresh_expires_at;
    revoked_at = none;
  }

  unfoldable pub issue_token_pair : ℕ → String → Member → Option ℕ → Action AuthDb TokenPair
  issue_token_pair now fresh member refresh_expires_at = do
    modify (λ db. record db {
      refresh_tokens =
          (token_table.insert (new_token now fresh member refresh_expires_at) db.refresh_tokens).1;
    })
    pure (record { access_token = crypto.sign now (payload_of member); refresh_token = fresh })

  abbrev pub reply_to : Member → TokenPair → AuthReply
  reply_to member tokens = record {
    tokens = tokens;
    member_id = member.id;
    organization_id = member.organization.id;
    role = normalize_role member.role;
    email = member.email;
  }

  unfoldable pub login : ℕ → String → String → String → Action AuthDb AuthReply
  login now fresh email password = do
    member ←
        found (λ db. member_table.find_one (λ m. str_eq m.email (crypto.to_lower email)) db.members)
          unauthorized
    throw_if (not (str_eq (crypto.digest password) member.password_hash)) unauthorized
    tokens ← issue_token_pair now fresh member none
    pure (reply_to member tokens)

  abbrev pub revoked_token : ℕ → RefreshToken → RefreshToken
  revoked_token now t = record t { revoked_at = some now }

  unfoldable pub find_live : String → AuthDb → Option RefreshToken
  find_live raw_token db =
      token_table.find_one (live_with (crypto.digest raw_token)) db.refresh_tokens

  abbrev pub save_token : RefreshToken → AuthDb → AuthDb
  save_token t db = record db { refresh_tokens = token_table.save t db.refresh_tokens }

  unfoldable pub refresh : ℕ → String → String → Action AuthDb AuthReply
  refresh now fresh raw_token = do
    stored ← found (find_live raw_token) unauthorized
    throw_if (ltb stored.expires_at now) unauthorized
    modify (save_token (revoked_token now stored))
    tokens ← issue_token_pair now fresh stored.member (some stored.expires_at)
    pure (reply_to stored.member tokens)

  unfoldable pub logout : ℕ → String → Action AuthDb (Unit {0})
  logout now raw_token = do
    stored ← found (find_live raw_token) not_found
    modify (save_token (revoked_token now stored))
    pure tt
