-- ===== src/Profiles/Service.antt =====
-- MeService.getProfile, updateProfile and deleteProfile (modules/me/me.service.ts).
use text.Mathlib.Text.{◌==◌ as str_eq}
use kigali_pack.Base.{ℕ, Bool, false, not, Option, none, some, String, ◌==◌, if◌then◌else◌}
use kigali_pack.Service.{
  unauthorized, not_found, conflict, Action, pure, ◌>>=◌, ◌>>◌, found, gets, throw_if, modify,
}
use kigali_pack.Data.{Member, Organization, OrganizationRole, member_key}
use kigali_pack.Orm.{Repository}
use kigali_pack.Sessions.{Crypto, normalize_role}
use kigali_pack.Organizations.{is_owner_role}

-- An absent field, or an empty text, is left as it is.
pub record UpdateProfile : Type 0 where
  pub email : Option String
  pub password : Option String

pub record Profile : Type 0 where
  pub id : ℕ
  pub email : String
  pub email_verified : Bool
  pub role : OrganizationRole
  pub organization : Organization

abbrev pub to_profile : Member → Profile
to_profile m = record {
  id = m.id;
  email = m.email;
  email_verified = m.email_verified;
  role = normalize_role m.role;
  organization = m.organization;
}

-- `if (text)`
abbrev pub given : Option String → Option String
given none = none
given (some s) = if str_eq s "" then none else some s

module _ (member_table : Repository member_key) (crypto : Crypto) where
  abbrev pub load_member : ℕ → Action member_table.Rows Member
  load_member id = found (member_table.find_one (λ m. m.id == id)) not_found

  unfoldable pub get_profile : ℕ → Action member_table.Rows Profile
  get_profile member_id = do m ← load_member member_id; pure (to_profile m)

  abbrev pub with_email : String → Member → Bool
  with_email email m = str_eq m.email (crypto.to_lower email)

  -- `existing && existing.id !== memberId`
  abbrev pub is_other : ℕ → Option Member → Bool
  is_other member_id none = false
  is_other member_id (some m) = not (m.id == member_id)

  -- The member with the new e-mail address, if one is asked for and nobody else has it.
  unfoldable pub change_email : ℕ → Option String → Member → Action member_table.Rows Member
  change_email member_id none m = pure m
  change_email member_id (some email) m = do
    existing ← gets (member_table.find_one (with_email email))
    throw_if (is_other member_id existing) conflict
    pure (record m { email = crypto.to_lower email })

  abbrev pub change_password : Option String → Member → Member
  change_password none m = m
  change_password (some password) m = record m { password_hash = crypto.digest password }

  unfoldable pub update_profile : ℕ → UpdateProfile → Action member_table.Rows Profile
  update_profile member_id dto = do
    m ← load_member member_id
    renamed ← change_email member_id (given dto.email) m
    modify (member_table.save (change_password (given dto.password) renamed))
    pure (to_profile (change_password (given dto.password) renamed))

  unfoldable pub delete_profile : ℕ → Action member_table.Rows ℕ
  delete_profile member_id = do
    m ← load_member member_id
    throw_if (is_owner_role m.role) unauthorized
    modify (member_table.remove m)
    pure member_id
