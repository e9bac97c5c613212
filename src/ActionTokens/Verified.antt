-- ===== src/ActionTokens/Verified.antt =====
-- What a verification of an e-mail address does, and what is left of a token that was used.
use mathlib.Core.Option.{some-injective}
use kigali_pack.Base.{
  ℕ, ◌≡◌, ◌≢◌, refl, sym, ap, ◌∙◌, subst, ◌⊎◌, inl, inr, true, false, not, some, String, ◌==◌,
  arith, Bool-cases, Option-cases,
}
use kigali_pack.Service.{
  ok, err, unauthorized, not_found, forbidden, type_error, found, throw_if, after_step, found_same,
  found_reads, found-some, ok-injective, step,
}
use kigali_pack.Data.{Member, member_key}
use kigali_pack.Orm.{Repository, find_one-key, row-save_self, row-save_ne}
use kigali_pack.Sessions.{Crypto, refresh_token_key}
use kigali_pack.ActionTokens.Tokens.{
  ActionTokenType, ActionToken, action_token_key, VerifyReply, ActionDb, find_valid_action_token,
  member_of, used, verified, find_member, reset_password, mark_verified, verify_email,
  assert_email_verified,
}
use kigali_pack.ActionTokens.Spent.{
  IsValidToken, find_valid_action_token-eq-ok, unused_at, spent_none, spent_token,
  reset_password-IsReset,
}

module _ (member_table : Repository member_key) (token_table : Repository refresh_token_key)
    (action_table : Repository action_token_key) (crypto : Crypto) where
  abbrev Store : Type 0
  Store = ActionDb member_table token_table action_table crypto

  abbrev used_now : ℕ → ActionToken → ActionToken
  used_now now t = used member_table token_table action_table crypto now t

  -- What marking a loaded member as verified has done.
  pub record IsMarked (now : ℕ) (t : ActionToken) (m : Member) (db db' : Store) (r : VerifyReply)
      : Type 0 where
    pub replied : r.member_id ≡ m.id
    pub after :
        member_table.row db'.auth.members m.id
        ≡ some (verified member_table token_table action_table crypto m)
    pub tokens : db'.action_tokens ≡ action_table.save (used_now now t) db.action_tokens
    pub other_members :
        (i : ℕ)
        → i ≢ m.id
        → member_table.row db'.auth.members i ≡ member_table.row db.auth.members i

  already :
      (m : Member)
      → m.email_verified ≡ true
      → m ≡ verified member_table token_table action_table crypto m
  already m h = ap (λ b. record m { email_verified = b }) h

  mark_verified-IsMarked :
      (now : ℕ) (t : ActionToken) (m : Member) (db : Store) {r : VerifyReply} {db' : Store}
      → member_table.row db.auth.members m.id ≡ some m
      → mark_verified member_table token_table action_table crypto now t m db ≡ (ok r, db')
      → IsMarked now t m db db' r
  unfolding mark_verified
  mark_verified-IsMarked now t m db {r} {db'} row h = elim (Bool-cases m.email_verified) [
    | inl y ↦
        let (reply, stores) = ok-injective (rw y at h) in
        record {
          replied = ap (λ x. x.member_id) (sym reply);
          after =
              ap (λ d. member_table.row d.auth.members m.id) (sym stores)
              ∙ row
              ∙ ap some (already m y);
          tokens = ap (λ d. d.action_tokens) (sym stores);
          other_members = λ i other. ap (λ d. member_table.row d.auth.members i) (sym stores);
        }
    | inr o ↦
        let (reply, stores) = ok-injective (rw o at h) in
        let m' = verified member_table token_table action_table crypto m in
        record {
          replied = ap (λ x. x.member_id) (sym reply);
          after =
              ap (λ d. member_table.row d.auth.members m.id) (sym stores)
              ∙ row-save_self member_table m' db.auth.members;
          tokens = ap (λ d. d.action_tokens) (sym stores);
          other_members = λ i other.
              ap (λ d. member_table.row d.auth.members i) (sym stores)
              ∙ row-save_ne member_table m' db.auth.members i (λ e. other (sym e));
        }
  ]

  -- A verification had a valid verification token of a member, whom it has marked as verified.
  pub record IsVerified (now : ℕ) (raw_token : String) (db db' : Store) (r : VerifyReply)
      : Type 0 where
    pub stored : ActionToken
    pub member : Member
    pub valid :
        IsValidToken member_table token_table action_table crypto now raw_token
          ActionTokenType.email_verification db stored
    pub owner : member_table.row db.auth.members stored.member_id ≡ some member
    pub marked : IsMarked now stored member db db' r

  pub verify_email-IsVerified :
      (now : ℕ) (raw_token : String) (db : Store) {r : VerifyReply} {db' : Store}
      → verify_email member_table token_table action_table crypto now raw_token db ≡ (ok r, db')
      → IsVerified now raw_token db db' r
  unfolding verify_email
  verify_email-IsVerified now raw_token db {r} {db'} h =
      let find =
        find_valid_action_token member_table token_table action_table crypto now raw_token
          ActionTokenType.email_verification in
      after_step find _ db h λ t db1 at_t rest.
        let (same, valid) =
          find_valid_action_token-eq-ok member_table token_table action_table crypto now raw_token
            ActionTokenType.email_verification db at_t in
        let owner_of = member_of member_table token_table action_table crypto t in
        after_step (found owner_of type_error) _ db1 rest λ m db2 at_m rest'.
          let back : db2 ≡ db = found_same owner_of type_error db1 at_m ∙ same in
          let owner : member_table.row db.auth.members t.member_id ≡ some m =
            ap owner_of (sym same) ∙ found_reads owner_of type_error db1 at_m in
          let key = member_table.key-row db.auth.members t.member_id owner in
          record {
            stored = t;
            member = m;
            valid = valid;
            owner = owner;
            marked =
                mark_verified-IsMarked now t m db
                  (ap (member_table.row db.auth.members) key ∙ owner)
                  (ap (mark_verified member_table token_table action_table crypto now t m)
                      (sym back)
                    ∙ rest');
          }

  verified_passes :
      (id : ℕ) (db : Store) {m : Member}
      → member_table.row db.auth.members id ≡ some m
      → m.email_verified ≡ true
      → assert_email_verified member_table token_table action_table crypto id db ≡ (ok tt, db)
  unfolding assert_email_verified
  verified_passes id db {m} row ok_m =
      let read = find_member member_table token_table action_table crypto id in
      elim (Option-cases (read db)) [
        | inl gone ↦
            let missed = member_table.find_one-none (λ x. x.id == id) db.auth.members id gone row in
            let key = member_table.key-row db.auth.members id row in absurd (ground arith)
        | inr (q, e) ↦
            let (key, at_q) = find_one-key member_table id db.auth.members e in
            let is_m : q ≡ m = some-injective _ _ (sym at_q ∙ row) in
            step (found read not_found) _ db (found-some read not_found db e)
              (ap (λ b. throw_if (not b) forbidden db) (ap (λ x. x.email_verified) is_m ∙ ok_m))
      ]

  -- After a verification that has returned, the member that it replies passes the check that
  -- guards the making of API keys.
  pub verify_email-assert_email_verified :
      (now : ℕ) (raw_token : String) (db : Store) {r : VerifyReply} {db' : Store}
      → verify_email member_table token_table action_table crypto now raw_token db ≡ (ok r, db')
      → assert_email_verified member_table token_table action_table crypto r.member_id db'
        ≡ (ok tt, db')
  verify_email-assert_email_verified now raw_token db {r} {db'} h =
      let done = verify_email-IsVerified now raw_token db h in
      verified_passes r.member_id db'
        (ap (member_table.row db'.auth.members) done.marked.replied ∙ done.marked.after) refl

  spends :
      (now i : ℕ) (raw_token : String) (kind : ActionTokenType) (t : ActionToken) (db db' : Store)
      → ((j : ℕ)
          → unused_at member_table token_table action_table crypto raw_token j db ≡ true
          → j ≡ i)
      → IsValidToken member_table token_table action_table crypto now raw_token kind db t
      → db'.action_tokens ≡ action_table.save (used_now now t) db.action_tokens
      → (j : ℕ) → unused_at member_table token_table action_table crypto raw_token j db' ≡ false
  spends now i raw_token kind t db db' single valid tokens j =
      subst
        (λ rows.
          unused_at member_table token_table action_table crypto raw_token j
            (record db' { action_tokens = rows })
          ≡ false)
        (sym tokens)
        (spent_none member_table token_table action_table crypto now i (crypto.digest raw_token)
          kind t db.action_tokens single valid.before valid.fits j)

  -- If at most one unused token has its digest, then a token with which a password was reset or an
  -- e-mail address verified is refused ever after: by every reset and every verification, which
  -- then change nothing.
  pub action_token_once :
      (now i : ℕ) (raw_token password : String) (db : Store) {db' : Store} (later : ℕ)
      (next_password : String)
      → ((j : ℕ)
          → unused_at member_table token_table action_table crypto raw_token j db ≡ true
          → j ≡ i)
      → ((email : String) × (reset_password member_table token_table action_table crypto now
              raw_token password db
            ≡ (ok email, db')))
        ⊎ ((r : VerifyReply) × (verify_email member_table token_table action_table crypto now
                raw_token db
              ≡ (ok r, db')))
      → (reset_password member_table token_table action_table crypto later raw_token next_password
            db'
          ≡ (err unauthorized, db'))
        × (verify_email member_table token_table action_table crypto later raw_token db'
            ≡ (err unauthorized, db'))
  action_token_once now i raw_token password db {db'} later next_password single (inl (email, h)) =
      let done =
        reset_password-IsReset member_table token_table action_table crypto now raw_token password
          db h in
      spent_token member_table token_table action_table crypto later raw_token next_password db' (
        spends now i raw_token ActionTokenType.password_reset done.stored db db' single done.valid
          done.tokens)
  action_token_once now i raw_token password db {db'} later next_password single (inr (r, h)) =
      let done = verify_email-IsVerified now raw_token db h in
      spent_token member_table token_table action_table crypto later raw_token next_password db' (
        spends now i raw_token ActionTokenType.email_verification done.stored db db' single
          done.valid done.marked.tokens)
