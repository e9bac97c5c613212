-- ===== src/Organizations/Owners.antt =====
-- No change of the members takes an owner away.
use mathlib.Core.Option.{some-injective}
use kigali_pack.Base.{
  ℕ, ◌≡◌, sym, ap, ◌∙◌, subst, ◌&&◌, true, false, not, some, List, [], ◌∷◌, String, arith, is_some,
}
use native.Mathlib.Decide.{ℕ_discrete}
use kigali_pack.Service.{
  found, throw_if, not_found, conflict, forbidden, found_same, found_reads, throw_if_same,
  throw_if-false,
}
use kigali_pack.Service.Keeps.{after_any, found_keeps, throw_if_keeps}
use kigali_pack.Data.{Member, OrganizationRole, member_key, organization_key}
use kigali_pack.Orm.{Repository, row-insert_old}
use kigali_pack.Sessions.{Crypto}
use kigali_pack.Guards.{includes}
use kigali_pack.Organizations.Service.{
  is_owner_role, managers, AddMember, member_of, OrgDb, with_email, new_member, assert_free,
  assert_role, is_owner, find_member_of, find_organization, assert_may_assign, add_member,
  remove_member,
}

module _ (org_table : Repository organization_key) (member_table : Repository member_key)
    (crypto : Crypto) where
  abbrev Store : Type 0
  Store = OrgDb org_table member_table crypto

  -- The member is stored.
  abbrev pub Holds : ℕ → Member → Store → Type 0
  Holds i m db = member_table.row db.members i ≡ some m

  pub assert_role_keeps :
      (org_id id : ℕ) (roles : List OrganizationRole) (db : Store) (P : Store → Type 0)
      → P db
      → P (assert_role org_table member_table crypto org_id id roles db).1
  unfolding assert_role
  assert_role_keeps org_id id roles db P p =
      let read = find_member_of org_table member_table crypto org_id id in
      after_any (found read not_found) _ db P (found_keeps read not_found db P p) λ m t e q.
        after_any (throw_if (not (includes roles m.role)) forbidden) _ t P
          (throw_if_keeps (not (includes roles m.role)) forbidden t P q) λ u t' e' q'. q'

  assert_free_keeps :
      (email : String) (db : Store) (P : Store → Type 0)
      → P db
      → P (assert_free org_table member_table crypto email db).1
  unfolding assert_free
  assert_free_keeps email db P p =
      throw_if_keeps
        (is_some
          (member_table.find_one (with_email org_table member_table crypto email) db.members))
        conflict db P p

  assert_may_assign_keeps :
      (org_id id : ℕ) (role : OrganizationRole) (db : Store) (P : Store → Type 0)
      → P db
      → P (assert_may_assign org_table member_table crypto org_id id role db).1
  unfolding assert_may_assign
  assert_may_assign_keeps org_id id role db P p =
      throw_if_keeps
        (is_owner_role role && not (is_owner org_table member_table crypto org_id id db)) conflict
        db P p

  add_member_keeps :
      (org_id requester_id : ℕ) (dto : AddMember) (db : Store) (i : ℕ) (m : Member)
      → Holds i m db
      → Holds i m (add_member org_table member_table crypto org_id requester_id dto db).1
  unfolding add_member
  add_member_keeps org_id requester_id dto db i m h =
      let P = Holds i m in
      after_any (assert_role org_table member_table crypto org_id requester_id managers) _ db P
        (assert_role_keeps org_id requester_id managers db P h)
        λ r db1 e1 h1.
          after_any (assert_free org_table member_table crypto dto.email) _ db1 P
            (assert_free_keeps dto.email db1 P h1)
            λ u db2 e2 h2.
              let read = find_organization org_table member_table crypto org_id in
              after_any (found read not_found) _ db2 P (found_keeps read not_found db2 P h2)
                λ org db3 e3 h3.
                  after_any
                    (assert_may_assign org_table member_table crypto org_id requester_id dto.role) _
                    db3 P (assert_may_assign_keeps org_id requester_id dto.role db3 P h3)
                    λ v db4 e4 h4.
                      (row-insert_old member_table
                        (new_member org_table member_table crypto org dto.email dto.password
                          dto.role)
                        db4.members i h4).1

  -- A member that is no owner is not the row of an owner.
  removed_keeps :
      (target m : Member) (i : ℕ) (t : member_table.Rows)
      → member_table.row t target.id ≡ some target
      → is_owner_role target.role ≡ false
      → is_owner_role m.role ≡ true
      → member_table.row t i ≡ some m
      → member_table.row (member_table.remove target t) i ≡ some m
  removed_keeps target m i t stored other owner h = elim (ℕ_discrete target.id i) [
    | yes same ↦
        let is_m : target ≡ m =
          some-injective _ _ (sym stored ∙ ap (member_table.row t) same ∙ h) in
        cc (ap (λ x. is_owner_role x.role) is_m)
    | no differ ↦ ground (arith, member_table.row-remove target t i)
  ]

  remove_member_keeps :
      (org_id requester_id member_id : ℕ) (db : Store) (i : ℕ) (m : Member)
      → is_owner_role m.role ≡ true
      → Holds i m db
      → Holds i m (remove_member org_table member_table crypto org_id requester_id member_id db).1
  unfolding remove_member
  remove_member_keeps org_id requester_id member_id db i m owner h =
      let P = Holds i m in
      after_any (assert_role org_table member_table crypto org_id requester_id managers) _ db P
        (assert_role_keeps org_id requester_id managers db P h)
        λ r db1 e1 h1.
          let read = find_member_of org_table member_table crypto org_id member_id in
          after_any (found read not_found) _ db1 P (found_keeps read not_found db1 P h1)
            λ target db2 e2 h2.
              let back : db2 ≡ db1 = found_same read not_found db1 e2 in
              let stored : member_table.row db2.members target.id ≡ some target =
                ap (λ d. member_table.row d.members target.id) back
                ∙ member_table.find_one-row (member_of org_id member_id) db1.members
                    (found_reads read not_found db1 e2) in
              after_any (throw_if (is_owner_role target.role) conflict) _ db2 P
                (throw_if_keeps (is_owner_role target.role) conflict db2 P h2)
                λ u db3 e3 h3.
                  subst
                    (λ d. Holds i m (record d { members = member_table.remove target d.members }))
                    (sym (throw_if_same (is_owner_role target.role) conflict db2 e3))
                    (removed_keeps target m i db2.members stored
                      (throw_if-false (is_owner_role target.role) conflict db2 e3) owner h2)

  pub data MemberOperation : Type 0 where
    adds : AddMember → MemberOperation
    removes : ℕ → MemberOperation

  -- An operation of a member on the members of an organization.
  abbrev pub after : MemberOperation → ℕ → ℕ → Store → Store
  after (adds dto) org_id requester_id db =
      (add_member org_table member_table crypto org_id requester_id dto db).1
  after (removes id) org_id requester_id db =
      (remove_member org_table member_table crypto org_id requester_id id db).1

  -- Operations of any members, on any organizations, one after the other.
  abbrev pub after_all : List (MemberOperation × (ℕ × ℕ)) → Store → Store
  after_all [] db = db
  after_all ((op, (org_id, requester_id)) ∷ rest) db =
      after_all rest (after op org_id requester_id db)

  -- Through any sequence of additions and removals of members, by anybody, whether they return or
  -- throw, an owner who is stored stays stored as he was: no organization loses its owner.
  pub after_all-keeps_owner :
      (ops : List (MemberOperation × (ℕ × ℕ))) (db : Store) (i : ℕ) (m : Member)
      → is_owner_role m.role ≡ true
      → Holds i m db
      → Holds i m (after_all ops db)
  after_all-keeps_owner [] db i m owner h = h
  after_all-keeps_owner ((adds dto, (org_id, requester_id)) ∷ rest) db i m owner h =
      after_all-keeps_owner rest (after (adds dto) org_id requester_id db) i m owner
        (add_member_keeps org_id requester_id dto db i m h)
  after_all-keeps_owner ((removes id, (org_id, requester_id)) ∷ rest) db i m owner h =
      after_all-keeps_owner rest (after (removes id) org_id requester_id db) i m owner
        (remove_member_keeps org_id requester_id id db i m owner h)
