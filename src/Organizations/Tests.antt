-- ===== src/Organizations/Tests.antt =====
-- Additions and removals in one organization with an owner.
use kigali_pack.Base.{ℕ, ◌≡◌, refl, false, some, List, [], ◌∷◌}
use kigali_pack.Service.{ok, err, Result, conflict}
use kigali_pack.Orm.{Repository}
use kigali_pack.Orm.Memory.{memory, table}
use kigali_pack.Data.{Member, OrganizationRole, member_key, organization_key}
use kigali_pack.Billing.Examples.{acme, alice}
use kigali_pack.Sessions.Examples.{crypto}
use kigali_pack.Organizations.Service.{
  AddMember, OrgDb, add_member, remove_member, assert_role, assert_free, assert_may_assign,
}
use kigali_pack.Organizations.Owners.{
  Holds, MemberOperation, adds, removes, after_all, after_all-keeps_owner,
}
use kigali_pack.Organizations.Members.{IsAdded, add_member-IsAdded}

abbrev org_table : Repository organization_key
unfolding memory
org_table = memory organization_key

abbrev member_table : Repository member_key
unfolding memory
member_table = memory member_key

abbrev db : OrgDb org_table member_table crypto
unfolding memory
db = record {
  organizations = table organization_key (acme ∷ []);
  members = table member_key (alice ∷ []);
}

-- A member who may do everything on the platform: an owner may add one.
abbrev root : AddMember
root = record { email = "eve@acme.rw"; password = "secret99"; role = OrganizationRole.master_admin }

abbrev run : Result Member × OrgDb org_table member_table crypto
unfolding memory add_member
run = add_member org_table member_table crypto 0 0 root db

abbrev eve : Member
eve = record {
  id = 1;
  organization = acme;
  email = "eve@acme.rw";
  password_hash = "secret99";
  role = OrganizationRole.master_admin;
  email_verified = false;
}

add_start : add_member org_table member_table crypto 0 0 root db ≡ (ok eve, run.1)
unfolding memory add_member assert_role assert_free assert_may_assign
add_start = refl

add_member-IsAdded_example : IsAdded org_table member_table crypto 0 0 root db run.1 eve
add_member-IsAdded_example = add_member-IsAdded org_table member_table crypto 0 0 root db add_start

remove_owner : (remove_member org_table member_table crypto 0 0 0 db).0 ≡ err conflict
unfolding memory remove_member assert_role
remove_owner = refl

alice_stored : member_table.row db.members 0 ≡ some alice
unfolding memory
alice_stored = refl

abbrev changes : List (MemberOperation org_table member_table crypto × (ℕ × ℕ))
changes = (adds root, (0, 0)) ∷ (removes 0, (0, 1)) ∷ []

after_all-keeps_owner_example :
    Holds org_table member_table crypto 0 alice (after_all org_table member_table crypto changes db)
after_all-keeps_owner_example =
    after_all-keeps_owner org_table member_table crypto changes db 0 alice refl alice_stored
