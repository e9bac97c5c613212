-- ===== src/Data/Accounts.antt =====
-- Organizations, their members, and developer API keys.
use kigali_pack.Base.{ℕ, Bool, Option, String, refl}
use kigali_pack.Orm.{Keyed}

pub data OrganizationRole : Type 0 where
  master_admin owner admin developer viewer org_owner org_member : OrganizationRole

pub record Organization : Type 0 where
  pub id : ℕ
  pub name : String
  pub slug : String

-- A member is loaded with its organization, whose row no method changes after it is created.
pub record Member : Type 0 where
  pub id : ℕ
  pub organization : Organization
  pub email : String
  pub password_hash : String
  pub role : OrganizationRole
  pub email_verified : Bool

pub data ApiKeyEnvironment : Type 0 where
  live test sandbox : ApiKeyEnvironment

-- `tier` is a text: billing writes the code of any plan into it.
pub record ApiKey : Type 0 where
  pub id : ℕ
  pub developer_name : String
  pub name : Option String
  pub hashed_key : String
  pub key_prefix : String
  pub environment : ApiKeyEnvironment
  pub tier : String
  pub is_active : Bool
  pub expires_at : Option ℕ
  pub last_used_at : Option ℕ
  pub revoked_at : Option ℕ

-- The claims of an access token.
pub record JwtPayload : Type 0 where
  pub sub : ℕ
  pub org_id : ℕ
  pub role : OrganizationRole
  pub email : String

abbrev pub organization_key : Keyed Organization
organization_key = record {
  key = λ o. o.id;
  set_key = λ i o. record o { id = i };
  key-set_key = λ i o. refl;
  set_key-key = λ o. refl;
}

abbrev pub member_key : Keyed Member
member_key = record {
  key = λ m. m.id;
  set_key = λ i m. record m { id = i };
  key-set_key = λ i m. refl;
  set_key-key = λ m. refl;
}

abbrev pub api_key_key : Keyed ApiKey
api_key_key = record {
  key = λ k. k.id;
  set_key = λ i k. record k { id = i };
  key-set_key = λ i k. refl;
  set_key-key = λ k. refl;
}
