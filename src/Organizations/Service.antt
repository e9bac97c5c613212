-- ===== src/Organizations/Service.antt =====
-- OrganizationService.create, login, listForMember, addMember, removeMember, assertMember,
-- assertRole and isOwner (modules/organizations/organization.service.ts). The slug, which ends in
-- random characters, is an argument.
use text.Mathlib.Text.{◌==◌ as str_eq}
use kigali_pack.Base.{
  ℕ, Bool, false, ◌&&◌, ◌||◌, not, Option, none, some, List, [], ◌∷◌, String, ◌==◌, is_some,
}
use kigali_pack.Service.{
  unauthorized, forbidden, not_found, conflict, Action, pure, ◌>>=◌, ◌>>◌, found, gets, throw_if,
  modify, change, DataSource,
}
use kigali_pack.Data.{Member, Organization, OrganizationRole, member_key, organization_key}
use kigali_pack.Orm.{Repository}
use kigali_pack.Sessions.{Crypto}
use kigali_pack.Guards.{same_role, includes}

abbrev pub is_owner_role : OrganizationRole → Bool
is_owner_role role =
    same_role role OrganizationRole.owner || same_role role OrganizationRole.org_owner

-- The roles that may change the members.
abbrev pub managers : List OrganizationRole
managers = OrganizationRole.owner ∷ OrganizationRole.org_owner ∷ OrganizationRole.admin ∷ []

pub record CreateOrganization : Type 0 where
  pub name : String
  pub owner_email : String
  pub owner_password : String

pub record AddMember : Type 0 where
  pub email : String
  pub password : String
  pub role : OrganizationRole

pub record CreateReply : Type 0 where
  pub organization : Organization
  pub owner : Member
  pub access_token : String

pub record LoginReply : Type 0 where
  pub access_token : String
  pub member_id : ℕ
  pub organization_id : ℕ
  pub role : OrganizationRole

-- `where: { id: memberId, organization: { id: orgId } }`
abbrev pub member_of : ℕ → ℕ → Member → Bool
member_of org_id member_id m = m.id == member_id && m.organization.id == org_id

module _ (org_table : Repository organization_key) (member_table : Repository member_key)
    (crypto : Crypto) where
  pub record OrgDb : Type 0 where
    pub organizations : org_table.Rows
    pub members : member_table.Rows

  abbrev issue_token : ℕ → Member → String
  issue_token now m =
      crypto.sign now
        (record { sub = m.id; org_id = m.organization.id; role = m.role; email = m.email })

  abbrev pub with_email : String → Member → Bool
  with_email email m = str_eq m.email (crypto.to_lower email)

  abbrev pub insert_member : Member → Action OrgDb Member
  insert_member m =
      change (λ db.
        let (e, rows) = member_table.insert m db.members in (e, record db { members = rows }))

  abbrev insert_organization : Organization → Action OrgDb Organization
  insert_organization o = change (λ db.
      let (e, rows) = org_table.insert o db.organizations in
      (e, record db { organizations = rows }))

  -- A member that `create` makes.
  abbrev pub new_member : Organization → String → String → OrganizationRole → Member
  new_member org email password role = record {
    id = 0;
    organization = org;
    email = crypto.to_lower email;
    password_hash = crypto.digest password;
    role = role;
    email_verified = false;
  }

  unfoldable pub assert_free : String → Action OrgDb (Unit {0})
  assert_free email = do
    existing ← gets (λ db. member_table.find_one (with_email email) db.members)
    throw_if (is_some existing) conflict

  unfoldable pub create :
      DataSource OrgDb → ℕ → String → CreateOrganization → Action OrgDb CreateReply
  create data_source now slug dto = do
    assert_free dto.owner_email
    data_source.transaction (do
      org ← insert_organization (record { id = 0; name = dto.name; slug = slug })
      owner ←
          insert_member
            (new_member org dto.owner_email dto.owner_password OrganizationRole.org_owner)
      pure (record { organization = org; owner = owner; access_token = issue_token now owner }))

  unfoldable pub login : ℕ → String → String → Action OrgDb LoginReply
  login now email password = do
    m ← found (λ db. member_table.find_one (with_email email) db.members) unauthorized
    throw_if (not (str_eq (crypto.digest password) m.password_hash)) unauthorized
    pure (record {
      access_token = issue_token now m;
      member_id = m.id;
      organization_id = m.organization.id;
      role = m.role;
    })

  unfoldable pub list_for_member : ℕ → Action OrgDb (List (Organization × OrganizationRole))
  list_for_member member_id = do
    m ← found (λ db. member_table.find_one (λ x. x.id == member_id) db.members) not_found
    pure ((m.organization, m.role) ∷ [])

  abbrev pub find_member_of : ℕ → ℕ → OrgDb → Option Member
  find_member_of org_id member_id db = member_table.find_one (member_of org_id member_id) db.members

  abbrev pub assert_member : ℕ → ℕ → Action OrgDb Member
  assert_member org_id member_id = found (find_member_of org_id member_id) not_found

  unfoldable pub assert_role : ℕ → ℕ → List OrganizationRole → Action OrgDb Member
  assert_role org_id member_id roles = do
    m ← assert_member org_id member_id
    throw_if (not (includes roles m.role)) forbidden
    pure m

  abbrev pub owner_or_none : Option Member → Bool
  owner_or_none none = false
  owner_or_none (some m) = is_owner_role m.role

  abbrev pub is_owner : ℕ → ℕ → OrgDb → Bool
  is_owner org_id member_id db = owner_or_none (find_member_of org_id member_id db)

  -- Only an owner may name an owner.
  unfoldable pub assert_may_assign : ℕ → ℕ → OrganizationRole → Action OrgDb (Unit {0})
  assert_may_assign org_id requester_id role = do
    owner ← gets (is_owner org_id requester_id)
    throw_if (is_owner_role role && not owner) conflict

  abbrev pub find_organization : ℕ → OrgDb → Option Organization
  find_organization org_id db = org_table.find_one (λ o. o.id == org_id) db.organizations

  unfoldable pub add_member : ℕ → ℕ → AddMember → Action OrgDb Member
  add_member org_id requester_id dto = do
    requester ← assert_role org_id requester_id managers
    assert_free dto.email
    org ← found (find_organization org_id) not_found
    assert_may_assign org_id requester_id dto.role
    insert_member (new_member org dto.email dto.password dto.role)

  unfoldable pub remove_member : ℕ → ℕ → ℕ → Action OrgDb ℕ
  remove_member org_id requester_id member_id = do
    requester ← assert_role org_id requester_id managers
    target ← found (find_member_of org_id member_id) not_found
    throw_if (is_owner_role target.role) conflict
    modify (λ db. record db { members = member_table.remove target db.members })
    pure member_id
