-- ===== src/Organizations/Members.antt =====
-- Who may add a member, and with which role.
use mathlib.Core.Path.{subst₂}
use kigali_pack.Base.{
  Bool-cases, ◌≢◌, ◌⊎◌, inl, inr, subst, arith, ◌==◌, ℕ, ◌≡◌, refl, sym, ap, ◌∙◌, ◌&&◌, Bool, true,
  false, not, none, some, List, is_some, none_of,
}
use kigali_pack.Service.{
  ok, found, not_found, conflict, forbidden, found_same, found_reads, after_step, ok-injective,
  throw_if_same, throw_if-false, pure,
}
use kigali_pack.Data.{Member, Organization, OrganizationRole, member_key, organization_key}
use kigali_pack.Orm.{Repository, find_one-key, row-insert_self, row-insert_ne}
use kigali_pack.Sessions.{Crypto}
use kigali_pack.ApiKeys.Retired.{guard_passed}
use kigali_pack.Guards.{includes}
use kigali_pack.Organizations.Service.{
  is_owner_role, managers, member_of, AddMember, OrgDb, with_email, new_member, assert_free,
  assert_role, is_owner, owner_or_none, find_member_of, find_organization, assert_may_assign,
  add_member,
}

module _ (org_table : Repository organization_key) (member_table : Repository member_key)
    (crypto : Crypto) where
  abbrev Store : Type 0
  Store = OrgDb org_table member_table crypto

  assert_role-eq-ok :
      (org_id id : ℕ) (roles : List OrganizationRole) (db : Store) {m : Member} {db' : Store}
      → assert_role org_table member_table crypto org_id id roles db ≡ (ok m, db')
      → (db' ≡ db)
        × (find_member_of org_table member_table crypto org_id id db ≡ some m)
        × (includes roles m.role ≡ true)
  unfolding assert_role
  assert_role-eq-ok org_id id roles db {m} {db'} h =
      let read = find_member_of org_table member_table crypto org_id id in
      after_step (found read not_found) _ db h λ x db1 e rest.
        let (allowed, rest') =
          guard_passed forbidden (not (includes roles x.role)) (pure x) db1 rest in
        let (same, stores) = ok-injective rest' in
        (
          sym stores ∙ found_same read not_found db e,
          found_reads read not_found db e ∙ ap some same,
          ap (λ y. includes roles y.role) (sym same) ∙ not_false (includes roles x.role) allowed,
        )
    where
      not_false : (b : Bool) → not b ≡ false → b ≡ true
      not_false true h = refl
      not_false false h = cc

  -- An owner or an admin.
  abbrev pub IsManager : OrganizationRole → Type 0
  IsManager role =
      (role ≡ OrganizationRole.owner)
      ⊎ (role ≡ OrganizationRole.org_owner)
      ⊎ (role ≡ OrganizationRole.admin)

  abbrev pub IsOwner : OrganizationRole → Type 0
  IsOwner role = (role ≡ OrganizationRole.owner) ⊎ (role ≡ OrganizationRole.org_owner)

  is_owner_role-IsOwner : (role : OrganizationRole) → is_owner_role role ≡ true → IsOwner role
  is_owner_role-IsOwner OrganizationRole.owner h = inl refl
  is_owner_role-IsOwner OrganizationRole.org_owner h = inr refl
  is_owner_role-IsOwner OrganizationRole.admin h = cc
  is_owner_role-IsOwner OrganizationRole.master_admin h = cc
  is_owner_role-IsOwner OrganizationRole.developer h = cc
  is_owner_role-IsOwner OrganizationRole.viewer h = cc
  is_owner_role-IsOwner OrganizationRole.org_member h = cc

  IsOwner-is_owner_role : (role : OrganizationRole) → IsOwner role → is_owner_role role ≡ true
  IsOwner-is_owner_role role h = elim h [ inl o ↦ ap is_owner_role o | inr o ↦ ap is_owner_role o ]

  -- Whoever may assign an owner is one.
  assigned-IsOwner :
      (asked by : OrganizationRole)
      → is_owner_role asked && not (is_owner_role by) ≡ false
      → IsOwner asked
      → IsOwner by
  assigned-IsOwner asked by h o = elim (Bool-cases (is_owner_role by)) [
    | inl y ↦ is_owner_role-IsOwner by y
    | inr n ↦
        cc (
          sym (ap (λ b. b && not (is_owner_role by)) (IsOwner-is_owner_role asked o) ∙ ap not n)
          ∙ h)
  ]

  includes-IsManager : (role : OrganizationRole) → includes managers role ≡ true → IsManager role
  includes-IsManager OrganizationRole.owner h = inl refl
  includes-IsManager OrganizationRole.org_owner h = inr (inl refl)
  includes-IsManager OrganizationRole.admin h = inr (inr refl)
  includes-IsManager OrganizationRole.master_admin h = cc
  includes-IsManager OrganizationRole.developer h = cc
  includes-IsManager OrganizationRole.viewer h = cc
  includes-IsManager OrganizationRole.org_member h = cc

  -- An addition was asked for by a member of the organization with the role of a manager, and by
  -- an owner if it names an owner; the e-mail address was free; the new member is in that
  -- organization, with the asked role, address and password, and no other member has changed.
  pub record IsAdded (org_id requester_id : ℕ) (dto : AddMember) (db db' : Store) (m : Member)
      : Type 0 where
    pub requester : Member
    pub organization : Organization
    pub asking : member_table.row db.members requester_id ≡ some requester
    pub belongs : requester.organization.id ≡ org_id
    pub manages : IsManager requester.role
    pub owns : IsOwner dto.role → IsOwner requester.role
    pub free :
        member_table.find_one (with_email org_table member_table crypto dto.email) db.members ≡ none
    pub there : org_table.row db.organizations org_id ≡ some organization
    pub role : m.role ≡ dto.role
    pub same_organization : m.organization ≡ organization
    pub email : m.email ≡ crypto.to_lower dto.email
    pub password : m.password_hash ≡ crypto.digest dto.password
    pub unverified : m.email_verified ≡ false
    pub new : member_table.row db.members m.id ≡ none
    pub stored : member_table.row db'.members m.id ≡ some m
    pub others : (i : ℕ) → m.id ≢ i → member_table.row db'.members i ≡ member_table.row db.members i
    pub members :
        db'.members
        ≡ (member_table.insert
            (new_member org_table member_table crypto organization dto.email dto.password dto.role)
            db.members).1

  -- What is stored of a member that is inserted, and what the others lose.
  pub record IsInserted (n m : Member) (t t' : member_table.Rows) : Type 0 where
    pub same : m ≡ member_key.set_key m.id n
    pub new : member_table.row t m.id ≡ none
    pub stored : member_table.row t' m.id ≡ some m
    pub others : (i : ℕ) → m.id ≢ i → member_table.row t' i ≡ member_table.row t i

  insert-IsInserted :
      (n : Member) (t : member_table.Rows)
      → let (m, t') = member_table.insert n t in IsInserted n m t t'
  insert-IsInserted n t = record {
    same = member_table.insert-same n t;
    new = member_table.insert-new n t;
    stored = row-insert_self member_table n t;
    others = row-insert_ne member_table n t;
  }

  -- An addition that returns was asked for by an owner or an admin of the organization, and by an
  -- owner if it makes an owner; nobody had the e-mail address; it has stored a new member of that
  -- organization, with the asked role, address and password, and has changed no other member.
  pub add_member-IsAdded :
      (org_id requester_id : ℕ) (dto : AddMember) (db : Store) {m : Member} {db' : Store}
      → add_member org_table member_table crypto org_id requester_id dto db ≡ (ok m, db')
      → IsAdded org_id requester_id dto db db' m
  unfolding add_member assert_free assert_may_assign
  add_member-IsAdded org_id requester_id dto db {m} {db'} h =
      after_step (assert_role org_table member_table crypto org_id requester_id managers) _ db h
        λ r db1 e1 rest1.
          let (same1, found_r, manages) = assert_role-eq-ok org_id requester_id managers db e1 in
          after_step (assert_free org_table member_table crypto dto.email) _ db1 rest1
            λ u db2 e2 rest2.
              let taken = λ (d : Store). is_some (
                member_table.find_one (with_email org_table member_table crypto dto.email)
                  d.members) in
              let same2 : db2 ≡ db = throw_if_same (taken db1) conflict db1 e2 ∙ same1 in
              let read = find_organization org_table member_table crypto org_id in
              after_step (found read not_found) _ db2 rest2 λ org db3 e3 rest3.
                let same3 : db3 ≡ db = found_same read not_found db2 e3 ∙ same2 in
                after_step
                  (assert_may_assign org_table member_table crypto org_id requester_id dto.role) _
                  db3 rest3
                  λ v db4 e4 rest4.
                    let asks = λ (d : Store).
                      is_owner_role dto.role
                      && not (is_owner org_table member_table crypto org_id requester_id d) in
                    let same4 : db4 ≡ db = throw_if_same (asks db3) conflict db3 e4 ∙ same3 in
                    let n =
                      new_member org_table member_table crypto org dto.email dto.password
                        dto.role in
                    let (reply, stores) = ok-injective rest4 in
                    let made : IsInserted n m db.members db'.members =
                      subst₂ (λ x t. IsInserted n x db.members t)
                        (ap (λ d. (member_table.insert n d.members).0) (sym same4) ∙ reply)
                        (ap (λ d. (member_table.insert n d.members).1) (sym same4)
                          ∙ ap (λ d. d.members) stores)
                        (insert-IsInserted n db.members) in
                    let read_r =
                      member_table.find_one-fits (member_of org_id requester_id) db.members
                        found_r in
                    let (is_r, in_org) =
                      both (r.id == requester_id) (r.organization.id == org_id) read_r in
                    record {
                      requester = r;
                      organization = org;
                      asking =
                          subst (λ x. member_table.row db.members x ≡ some r) (ground (arith, is_r))
                            (member_table.find_one-row (member_of org_id requester_id) db.members
                              found_r);
                      belongs = ground (arith, in_org);
                      manages = includes-IsManager r.role manages;
                      owns = assigned-IsOwner dto.role r.role (
                          ap
                            (λ o.
                              is_owner_role dto.role
                              && not (owner_or_none org_table member_table crypto o))
                            (sym (
                              ap (find_member_of org_table member_table crypto org_id requester_id)
                                same3
                              ∙ found_r))
                          ∙ throw_if-false (asks db3) conflict db3 e4);
                      free =
                          none_of _
                            (ap taken (sym same1) ∙ throw_if-false (taken db1) conflict db1 e2);
                      there =
                          (find_one-key org_table org_id db.organizations
                            (ap read (sym same2) ∙ found_reads read not_found db2 e3)).1;
                      role = ap (λ x. x.role) made.same;
                      same_organization = ap (λ x. x.organization) made.same;
                      email = ap (λ x. x.email) made.same;
                      password = ap (λ x. x.password_hash) made.same;
                      unverified = ap (λ x. x.email_verified) made.same;
                      new = made.new;
                      stored = made.stored;
                      others = made.others;
                      members =
                          ap (λ d. d.members) (sym stores)
                          ∙ ap (λ d. (member_table.insert n d.members).1) same4;
                    }
    where
      both : (a b : Bool) → a && b ≡ true → (a ≡ true) × (b ≡ true)
      both true b h = (refl, h)
      both false b h = cc
