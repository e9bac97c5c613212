-- ===== src/ActionTokens/Spent.antt =====
-- A token for a password or an e-mail address works once.
use text.Mathlib.Text.{◌==◌ as str_eq}
use kigali_pack.Base.{
  ℕ, ◌≡◌, ◌≢◌, sym, ap, ◌∙◌, subst, inl, inr, Bool, true, false, ◌&&◌, Option, none, some, String,
  ltb, arith, Option-cases,
}
use kigali_pack.Service.{
  ok, err, unauthorized, type_error, found, pure, after_step, found_same, found_reads, ok-injective,
  found-none, step_throws,
}
use kigali_pack.Data.{Member, member_key}
use kigali_pack.Orm.{Repository, row-save_self, row-save_ne}
use kigali_pack.Sessions.{Crypto, refresh_token_key, is_none}
use kigali_pack.ApiKeys.Retired.{guard_passed}
use kigali_pack.ActionTokens.Tokens.{
  ActionTokenType, ActionToken, action_token_key, unused_with, ActionDb, find_unused,
  find_valid_action_token, member_of, used, with_password, reset_password, verify_email,
}

module _ (member_table : Repository member_key) (token_table : Repository refresh_token_key)
    (action_table : Repository action_token_key) (crypto : Crypto) where
  abbrev Store : Type 0
  Store = ActionDb member_table token_table action_table crypto

  -- A token that is found is stored, unused, of that type and not expired.
  pub record IsValidToken (now : ℕ) (raw_token : String) (kind : ActionTokenType) (db : Store)
      (t : ActionToken) : Type 0 where
    pub before : action_table.row db.action_tokens t.id ≡ some t
    pub fits : unused_with (crypto.digest raw_token) kind t ≡ true
    pub unexpired : ltb t.expires_at now ≡ false

  pub find_valid_action_token-eq-ok :
      (now : ℕ) (raw_token : String) (kind : ActionTokenType) (db : Store) {t : ActionToken}
      {db' : Store}
      → find_valid_action_token member_table token_table action_table crypto now raw_token kind db
        ≡ (ok t, db')
      → (db' ≡ db) × IsValidToken now raw_token kind db t
  unfolding find_valid_action_token find_unused
  find_valid_action_token-eq-ok now raw_token kind db {t} {db'} h =
      let read = find_unused member_table token_table action_table crypto raw_token kind in
      after_step (found read unauthorized) _ db h λ s db1 at_s rest.
        let (live, rest') = guard_passed unauthorized (ltb s.expires_at now) (pure s) db1 rest in
        let e = found_reads read unauthorized db at_s in
        let same = found_same read unauthorized db at_s in
        let where_ = unused_with (crypto.digest raw_token) kind in
        let (is_t, back) = ok-injective rest' in
        (
          sym back ∙ same,
          subst (λ x. IsValidToken now raw_token kind db x) is_t
              (record {
                before = action_table.find_one-row where_ db.action_tokens e;
                fits = action_table.find_one-fits where_ db.action_tokens e;
                unexpired = live;
              }),
        )

  -- Whether the token under a key is unused and has a digest, of whatever type.
  abbrev pub unused_row : String → Option ActionToken → Bool
  unused_row hash none = false
  unused_row hash (some t) = str_eq t.token_hash hash && is_none t.used_at

  abbrev pub unused_at : String → ℕ → Store → Bool
  unused_at raw_token j db =
      unused_row (crypto.digest raw_token) (action_table.row db.action_tokens j)

  unused_with→unused_row :
      (hash : String) (kind : ActionTokenType) (t : ActionToken)
      → unused_with hash kind t ≡ true
      → unused_row hash (some t) ≡ true
  unused_with→unused_row hash kind t h = ground arith

  -- The saved token was the only unused one with its digest, so none is left.
  pub spent_none :
      (now i : ℕ) (hash : String) (kind : ActionTokenType) (t : ActionToken)
      (rows : action_table.Rows)
      → ((j : ℕ) → unused_row hash (action_table.row rows j) ≡ true → j ≡ i)
      → action_table.row rows t.id ≡ some t
      → unused_with hash kind t ≡ true
      → (j : ℕ)
      → unused_row hash (
          action_table.row
            (action_table.save (used member_table token_table action_table crypto now t) rows)
            j)
        ≡ false
  spent_none now i hash kind t rows single row fits j = ground (
    arith,
    single t.id,
    single j,
    unused_with→unused_row hash kind t,
    action_table.row-save (used member_table token_table action_table crypto now t) rows j,
  )

  nothing_found :
      (raw_token : String) (kind : ActionTokenType) (db : Store)
      → ((j : ℕ) → unused_at raw_token j db ≡ false)
      → find_unused member_table token_table action_table crypto raw_token kind db ≡ none
  unfolding find_unused
  nothing_found raw_token kind db clear =
      let where_ = unused_with (crypto.digest raw_token) kind in
      elim (Option-cases (action_table.find_one where_ db.action_tokens)) [
        | inl gone ↦ gone
        | inr (q, e) ↦
            let row = action_table.find_one-row where_ db.action_tokens e in
            let fits = action_table.find_one-fits where_ db.action_tokens e in
            let live = unused_with→unused_row (crypto.digest raw_token) kind q fits in
            let dead : unused_row (crypto.digest raw_token) (some q) ≡ false =
              ap (unused_row (crypto.digest raw_token)) (sym row) ∙ clear q.id in
            cc
      ]

  -- A token that is used is of no use.
  pub spent_token :
      (later : ℕ) (raw_token password : String) (db : Store)
      → ((j : ℕ) → unused_at raw_token j db ≡ false)
      → (reset_password member_table token_table action_table crypto later raw_token password db
          ≡ (err unauthorized, db))
        × (verify_email member_table token_table action_table crypto later raw_token db
            ≡ (err unauthorized, db))
  unfolding reset_password verify_email find_valid_action_token
  spent_token later raw_token password db clear =
      let read = find_unused member_table token_table action_table crypto raw_token in
      let fails : (kind : ActionTokenType)
          → find_valid_action_token member_table token_table action_table crypto later raw_token
              kind db
            ≡ (err unauthorized, db) =
        λ kind.
          step_throws (found (read kind) unauthorized) _ db
            (found-none (read kind) unauthorized db (nothing_found raw_token kind db clear)) in
      (
        step_throws
            (find_valid_action_token member_table token_table action_table crypto later raw_token
              ActionTokenType.password_reset)
            _ db (fails ActionTokenType.password_reset),
        step_throws
            (find_valid_action_token member_table token_table action_table crypto later raw_token
              ActionTokenType.email_verification)
            _ db (fails ActionTokenType.email_verification),
      )

  -- A reset has stored the new password, for the member of a valid reset token, and has marked that
  -- token as used; it touches no other member, no other token, and no session.
  pub record IsReset (now : ℕ) (raw_token password email : String) (db db' : Store) : Type 0 where
    pub stored : ActionToken
    pub member : Member
    pub valid : IsValidToken now raw_token ActionTokenType.password_reset db stored
    pub owner : member_table.row db.auth.members stored.member_id ≡ some member
    pub replied : email ≡ member.email
    pub after :
        member_table.row db'.auth.members stored.member_id
        ≡ some (with_password member_table token_table action_table crypto password member)
    pub tokens :
        db'.action_tokens
        ≡ action_table.save
            (used member_table token_table action_table crypto now stored)
            db.action_tokens
    pub other_members :
        (i : ℕ)
        → i ≢ stored.member_id
        → member_table.row db'.auth.members i ≡ member_table.row db.auth.members i
    pub same_sessions : db'.auth.refresh_tokens ≡ db.auth.refresh_tokens

  -- A reset that returns had a valid reset token of a member, and has stored the new password for
  -- that member and marked the token as used; it touches no other member and no other token, and it
  -- leaves every session of the member open.
  pub reset_password-IsReset :
      (now : ℕ) (raw_token password : String) (db : Store) {email : String} {db' : Store}
      → reset_password member_table token_table action_table crypto now raw_token password db
        ≡ (ok email, db')
      → IsReset now raw_token password email db db'
  unfolding reset_password
  reset_password-IsReset now raw_token password db {email} {db'} h =
      let find =
        find_valid_action_token member_table token_table action_table crypto now raw_token
          ActionTokenType.password_reset in
      after_step find _ db h λ t db1 at_t rest.
        let (same, valid) =
          find_valid_action_token-eq-ok now raw_token ActionTokenType.password_reset db at_t in
        let owner_of = member_of member_table token_table action_table crypto t in
        after_step (found owner_of type_error) _ db1 rest λ m db2 at_m rest'.
          let back : db2 ≡ db = found_same owner_of type_error db1 at_m ∙ same in
          let owner : member_table.row db.auth.members t.member_id ≡ some m =
            ap owner_of (sym same) ∙ found_reads owner_of type_error db1 at_m in
          let key = member_table.key-row db.auth.members t.member_id owner in
          let m' = with_password member_table token_table action_table crypto password m in
          let (reply, stores) = ok-injective rest' in
          let members : db'.auth.members ≡ member_table.save m' db.auth.members =
            ap (λ d. d.auth.members) (sym stores)
            ∙ ap (λ d. member_table.save m' d.auth.members) back in
          record {
            stored = t;
            member = m;
            valid = valid;
            owner = owner;
            replied = sym reply;
            after =
                subst (λ i. member_table.row db'.auth.members i ≡ some m') key
                  (ap (λ x. member_table.row x m.id) members
                    ∙ row-save_self member_table m' db.auth.members);
            tokens =
                ap (λ d. d.action_tokens) (sym stores)
                ∙ ap
                    (λ d.
                      action_table.save (used member_table token_table action_table crypto now t)
                        d.action_tokens)
                    back;
            other_members = λ i other.
                ap (λ x. member_table.row x i) members
                ∙ row-save_ne member_table m' db.auth.members i (λ e. other (sym e ∙ key));
            same_sessions =
                ap (λ d. d.auth.refresh_tokens) (sym stores) ∙ ap (λ d. d.auth.refresh_tokens) back;
          }
