-- ===== src/Profiles/Emails.antt =====
-- No two members have the same e-mail address, whichever service has written them.
use text.Mathlib.Text.{◌==◌ as str_eq}
use text.Mathlib.TextPositions.{eq_refl}
use text.Mathlib.TextEquality.{eq_iff}
use kigali_pack.Base.{
  ℕ, ◌≡◌, refl, sym, ap, ◌∙◌, subst, Bool, true, false, Option, none, some, String, ◌==◌, arith,
  Option-cases, inl, inr, is_some, none_of,
}
use kigali_pack.Service.{
  ok, conflict, unauthorized, not_found, after_step, found_same, found_reads, ok-injective,
  DataSource, transaction_returns,
}
use kigali_pack.ApiKeys.Retired.{guard_passed}
use kigali_pack.Data.{Member, member_key, organization_key, api_key_key}
use kigali_pack.Orm.{Repository, find_one-key}
use kigali_pack.Orm.Unique.{Unique, Shrinks-Unique, remove-Shrinks, insert-Unique, save-Unique}
use kigali_pack.Sessions.{Crypto, refresh_token_key}
use kigali_pack.ActionTokens.{action_token_key}
use kigali_pack.Organizations.{
  is_owner_role, AddMember, CreateOrganization, CreateReply, OrgDb, add_member, create, assert_free,
}
use kigali_pack.Organizations.Members.{add_member-IsAdded}
use kigali_pack.Registration.{RegisterDto, Entropy, RegisterReply, AccountDb, register}
use kigali_pack.Registration.Registered.{register-IsRegistered}
use kigali_pack.Profiles.Service.{
  UpdateProfile, Profile, load_member, with_email, is_other, change_email, change_password,
  update_profile, delete_profile, given,
}

abbrev email_of : Member → String
email_of m = m.email

pub keeps_email : (i : ℕ) (m : Member) → email_of (record m { id = i }) ≡ email_of m
keeps_email i m = refl

module _ (org_table : Repository organization_key) (member_table : Repository member_key)
    (key_table : Repository api_key_key) (token_table : Repository refresh_token_key)
    (action_table : Repository action_token_key) (crypto : Crypto) where
  abbrev pub UniqueEmails : member_table.Rows → Type 0
  UniqueEmails t = Unique member_table email_of keeps_email t

  -- What a change of the e-mail address replies: the member, with an address that no other has.
  record IsRenamed (id : ℕ) (t : member_table.Rows) (m m' : Member) : Type 0 where
    same_id : m'.id ≡ m.id
    own : (j : ℕ) (q : Member) → member_table.row t j ≡ some q → q.email ≡ m'.email → j ≡ id

  free_or_own :
      (id : ℕ) (email : String) (t : member_table.Rows) (j : ℕ) (q : Member)
      → UniqueEmails t
      → is_other member_table crypto id
          (member_table.find_one (with_email member_table crypto email) t)
        ≡ false
      → member_table.row t j ≡ some q
      → q.email ≡ crypto.to_lower email
      → j ≡ id
  free_or_own id email t j q unique own at_q same =
      let search = with_email member_table crypto email in
      let fits : search q ≡ true =
        ap (λ e. str_eq e (crypto.to_lower email)) same ∙ eq_refl (crypto.to_lower email) in
      elim (Option-cases (member_table.find_one search t)) [
        | inl gone ↦ let missed = member_table.find_one-none search t j gone at_q in cc
        | inr (e, h) ↦
            let row = member_table.find_one-row search t h in
            let is_email : e.email ≡ crypto.to_lower email =
              (eq_iff e.email (crypto.to_lower email)).0 (member_table.find_one-fits search t h) in
            let mine : e.id ≡ id =
              ground (arith, sym (ap (is_other member_table crypto id) h) ∙ own) in
            unique j e.id q e at_q row (same ∙ sym is_email) ∙ mine
      ]

  change_email-IsRenamed :
      (id : ℕ) (email : Option String) (m : Member) (t : member_table.Rows) {m' : Member}
      {t' : member_table.Rows}
      → UniqueEmails t
      → member_table.row t id ≡ some m
      → change_email member_table crypto id email m t ≡ (ok m', t')
      → (t' ≡ t) × IsRenamed id t m m'
  unfolding change_email
  change_email-IsRenamed id none m t {m'} {t'} unique row h =
      let (same, rows) = ok-injective h in
      (
        sym rows,
        subst (λ x. IsRenamed id t m x) same
            (record { same_id = refl; own = λ j q at_q e. unique j id q m at_q row e }),
      )
  change_email-IsRenamed id (some email) m t {m'} {t'} unique row h =
      let (own, rest) =
        guard_passed conflict
          (is_other member_table crypto id
            (member_table.find_one (with_email member_table crypto email) t))
          _ t h in
      let (same, rows) = ok-injective rest in
      (
        sym rows,
        subst (λ x. IsRenamed id t m x) same
            (record {
              same_id = refl;
              own = λ j q at_q e. free_or_own id email t j q unique own at_q e;
            }),
      )

  stored_unique :
      (id : ℕ) (password : Option String) (m m' : Member) (t : member_table.Rows)
      → m.id ≡ id
      → IsRenamed id t m m'
      → UniqueEmails t
      → UniqueEmails (member_table.save (change_password member_table crypto password m') t)
  stored_unique id none m m' t key renamed unique =
      save-Unique member_table email_of keeps_email m' t
        (λ j q at_q e. renamed.own j q at_q e ∙ sym (renamed.same_id ∙ key)) unique
  stored_unique id (some password) m m' t key renamed unique =
      save-Unique member_table email_of keeps_email
        (change_password member_table crypto (some password) m') t
        (λ j q at_q e. renamed.own j q at_q e ∙ sym (renamed.same_id ∙ key)) unique

  update_profile-Unique :
      (id : ℕ) (dto : UpdateProfile) (t : member_table.Rows) {p : Profile} {t' : member_table.Rows}
      → update_profile member_table crypto id dto t ≡ (ok p, t')
      → UniqueEmails t
      → UniqueEmails t'
  unfolding update_profile
  update_profile-Unique id dto t {p} {t'} h unique =
      let read = member_table.find_one (λ m. m.id == id) in
      after_step (load_member member_table crypto id) _ t h λ m t1 e1 rest1.
        let same : t1 ≡ t = found_same read not_found t e1 in
        let (key, row) = find_one-key member_table id t (found_reads read not_found t e1) in
        after_step (change_email member_table crypto id (given dto.email) m) _ t1 rest1
          λ m' t2 e2 rest2.
            let (back, renamed) =
              change_email-IsRenamed id (given dto.email) m t unique row
                (ap (change_email member_table crypto id (given dto.email) m) (sym same) ∙ e2) in
            let rows = (ok-injective rest2).1 in
            subst UniqueEmails
              (ap (member_table.save (change_password member_table crypto (given dto.password) m'))
                  (sym back)
                ∙ rows)
              (stored_unique id (given dto.password) m m' t key renamed unique)

  delete_profile-Unique :
      (id : ℕ) (t : member_table.Rows) {n : ℕ} {t' : member_table.Rows}
      → delete_profile member_table crypto id t ≡ (ok n, t')
      → UniqueEmails t
      → UniqueEmails t'
  unfolding delete_profile
  delete_profile-Unique id t {n} {t'} h unique =
      let read = member_table.find_one (λ m. m.id == id) in
      after_step (load_member member_table crypto id) _ t h λ m t1 e1 rest1.
        let same : t1 ≡ t = found_same read not_found t e1 in
        let (allowed, rest) = guard_passed unauthorized (is_owner_role m.role) _ t1 rest1 in
        subst UniqueEmails (ap (member_table.remove m) (sym same) ∙ (ok-injective rest).1) (
          Shrinks-Unique member_table email_of keeps_email t (member_table.remove m t)
            (remove-Shrinks member_table email_of keeps_email m t) unique)

  -- Whoever is inserted with an e-mail address that a search does not find.
  inserted_unique :
      (email : String) (n : Member) (t : member_table.Rows)
      → n.email ≡ crypto.to_lower email
      → member_table.find_one (λ m. str_eq m.email (crypto.to_lower email)) t ≡ none
      → UniqueEmails t
      → UniqueEmails (member_table.insert n t).1
  inserted_unique email n t is_email free unique =
      insert-Unique member_table email_of keeps_email n t
        (λ m. str_eq m.email (crypto.to_lower email)) free
        (λ e same.
          ap (λ x. str_eq x (crypto.to_lower email)) (same ∙ is_email)
          ∙ eq_refl (crypto.to_lower email))
        unique

  create-Unique :
      (data_source : DataSource (OrgDb org_table member_table crypto)) (now : ℕ) (slug : String)
      (dto : CreateOrganization) (db : OrgDb org_table member_table crypto) {r : CreateReply}
      {db' : OrgDb org_table member_table crypto}
      → create org_table member_table crypto data_source now slug dto db ≡ (ok r, db')
      → UniqueEmails db.members
      → UniqueEmails db'.members
  unfolding create assert_free
  create-Unique data_source now slug dto db {r} {db'} h unique =
      let search = λ (m : Member). str_eq m.email (crypto.to_lower dto.owner_email) in
      let (free, rest) =
        guard_passed conflict (is_some (member_table.find_one search db.members)) _ db h in
      let stores = (ok-injective (transaction_returns data_source _ db rest)).1 in
      subst (λ d. UniqueEmails d.members) stores
        (inserted_unique dto.owner_email _ db.members refl (none_of _ free) unique)

  -- A change of the members by one run of the code, by any service and for anybody.
  pub data Changed : member_table.Rows → member_table.Rows → Type 1 where
    registered :
        (data_source : DataSource
          (AccountDb org_table member_table key_table token_table action_table crypto))
        (now : ℕ) (entropy : Entropy) (mail_sent : Bool) (dto : RegisterDto)
        (db db' : AccountDb org_table member_table key_table token_table action_table crypto)
        (r : RegisterReply)
        → register org_table member_table key_table token_table action_table crypto data_source now
            entropy mail_sent dto db
          ≡ (ok r, db')
        → Changed db.actions.auth.members db'.actions.auth.members
    created :
        (data_source : DataSource (OrgDb org_table member_table crypto)) (now : ℕ) (slug : String)
        (dto : CreateOrganization) (db db' : OrgDb org_table member_table crypto) (r : CreateReply)
        → create org_table member_table crypto data_source now slug dto db ≡ (ok r, db')
        → Changed db.members db'.members
    added :
        (org_id requester_id : ℕ) (dto : AddMember) (db db' : OrgDb org_table member_table crypto)
        (m : Member)
        → add_member org_table member_table crypto org_id requester_id dto db ≡ (ok m, db')
        → Changed db.members db'.members
    updated :
        (id : ℕ) (dto : UpdateProfile) (t t' : member_table.Rows) (p : Profile)
        → update_profile member_table crypto id dto t ≡ (ok p, t')
        → Changed t t'
    deleted :
        (id n : ℕ) (t t' : member_table.Rows)
        → delete_profile member_table crypto id t ≡ (ok n, t')
        → Changed t t'

  -- A registration, the creation of an organization, the addition of a member, and a change or a
  -- removal of a profile, that return: if no two members had the same e-mail address before, then
  -- no two have after.
  pub Changed-UniqueEmails :
      (t t' : member_table.Rows) → Changed t t' → UniqueEmails t → UniqueEmails t'
  Changed-UniqueEmails t t' (registered data_source now entropy mail_sent dto db db' r h) unique =
      let done =
        register-IsRegistered org_table member_table key_table token_table action_table crypto
          data_source now entropy mail_sent dto db h in
      subst UniqueEmails (sym done.members)
        (inserted_unique dto.email _ db.actions.auth.members refl done.free unique)
  Changed-UniqueEmails t t' (created data_source now slug dto db db' r h) unique =
      create-Unique data_source now slug dto db h unique
  Changed-UniqueEmails t t' (added org_id requester_id dto db db' m h) unique =
      let done = add_member-IsAdded org_table member_table crypto org_id requester_id dto db h in
      subst UniqueEmails (sym done.members)
        (inserted_unique dto.email _ db.members refl done.free unique)
  Changed-UniqueEmails t t' (updated id dto rows rows' p h) unique =
      update_profile-Unique id dto rows h unique
  Changed-UniqueEmails t t' (deleted id n rows rows' h) unique =
      delete_profile-Unique id rows h unique
