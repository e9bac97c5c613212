-- ===== src/ActionTokens/Resent.antt =====
-- A verification mail that is sent again makes the earlier ones void.
use kigali_pack.Base.{
  ℕ, ◌≡◌, refl, sym, ap, ◌∙◌, subst, Bool, true, false, Option, none, some, String, arith,
  Option-cases, inl, inr,
}
use kigali_pack.Service.{ok, not_found, bad_request, found, after_step, found_reads, ok-injective}
use kigali_pack.Data.{Member, member_key}
use kigali_pack.Orm.{Repository, find_one-key, row-insert_self}
use kigali_pack.Sessions.{Crypto, refresh_token_key}
use kigali_pack.ApiKeys.Retired.{guard_passed}
use kigali_pack.ActionTokens.Tokens.{
  ActionTokenType, ActionToken, action_token_key, unused_of, ResendReply, ActionDb,
  new_action_token, issue_action_token, find_member, used, invalidate_active_action_tokens,
  resend_verification_email,
}

-- Whether a row is an unused verification token of a member.
abbrev pub open_row : ℕ → Option ActionToken → Bool
open_row member_id none = false
open_row member_id (some t) = unused_of member_id ActionTokenType.email_verification t

module _ (member_table : Repository member_key) (token_table : Repository refresh_token_key)
    (action_table : Repository action_token_key) (crypto : Crypto) where
  abbrev Store : Type 0
  Store = ActionDb member_table token_table action_table crypto

  closed_none :
      (now id : ℕ) (rows : action_table.Rows) (j : ℕ)
      → open_row id (
          action_table.row
            (action_table.update
              (unused_of id ActionTokenType.email_verification)
              (used member_table token_table action_table crypto now)
              rows)
            j)
        ≡ false
  closed_none now id rows j =
      let changed =
        action_table.row-update (unused_of id ActionTokenType.email_verification)
          (used member_table token_table action_table crypto now) (λ e. refl) rows j in
      elim (Option-cases (action_table.row rows j)) [
        | inl gone ↦ ground arith
        | inr (t, e) ↦ ground arith
      ]

  inserted_alone :
      (id : ℕ) (e : ActionToken) (rows : action_table.Rows)
      → ((j : ℕ) → open_row id (action_table.row rows j) ≡ false)
      → (j : ℕ) → open_row id (action_table.row (action_table.insert e rows).1 j) ≡ true
      → j ≡ (action_table.insert e rows).0.id
  inserted_alone id e rows clear j h = ground (arith, clear j, action_table.row-insert e rows j)

  -- The new token is the only unused verification token of the member.
  pub record IsResent (now id : ℕ) (fresh : String) (db db' : Store) (r : ResendReply)
      : Type 0 where
    pub member : Member
    pub new : ActionToken
    pub owner : member_table.row db.auth.members id ≡ some member
    pub unverified : member.email_verified ≡ false
    pub stored : action_table.row db'.action_tokens new.id ≡ some new
    pub digest : new.token_hash ≡ crypto.digest fresh
    pub usable : open_row id (some new) ≡ true
    pub expiry : new.expires_at ≡ r.expires_at
    pub alone : (j : ℕ) → open_row id (action_table.row db'.action_tokens j) ≡ true → j ≡ new.id

  usable_new :
      (id i : ℕ) (e : ActionToken)
      → e.member_id ≡ id
      → e.kind ≡ ActionTokenType.email_verification
      → e.used_at ≡ none
      → open_row id (some (record e { id = i })) ≡ true
  usable_new id i e of_member is_kind fresh = rw (of_member, is_kind, fresh) (ground arith)

  -- A resend that returns was for a member who is stored and not verified; it has stored the new
  -- token, unused, and no other unused verification token of that member is left.
  pub resend_verification_email-IsResent :
      (now id : ℕ) (fresh : String) (mail_sent : Bool) (db : Store) {r : ResendReply} {db' : Store}
      → resend_verification_email member_table token_table action_table crypto now fresh mail_sent
          id db
        ≡ (ok r, db')
      → IsResent now id fresh db db' r
  unfolding resend_verification_email issue_action_token invalidate_active_action_tokens
  resend_verification_email-IsResent now id fresh mail_sent db {r} {db'} h =
      let read = find_member member_table token_table action_table crypto id in
      after_step (found read not_found) _ db h λ m db1 at_m rest.
        let (unverified, rest') = guard_passed bad_request m.email_verified _ db1 rest in
        let (key, row) =
          find_one-key member_table id db.auth.members (found_reads read not_found db at_m) in
        let (reply, stores) = ok-injective rest' in
        let rows =
          action_table.update (unused_of m.id ActionTokenType.email_verification)
            (used member_table token_table action_table crypto now) db1.action_tokens in
        let n =
          new_action_token member_table token_table action_table crypto now fresh m.id
            ActionTokenType.email_verification in
        let e = (action_table.insert n rows).0 in
        let same : e ≡ record n { id = e.id } = action_table.insert-same n rows in
        let tokens : db'.action_tokens ≡ (action_table.insert n rows).1 =
          ap (λ d. d.action_tokens) (sym stores) in
        record {
          member = m;
          new = e;
          owner = row;
          unverified = unverified;
          stored = ap (λ x. action_table.row x e.id) tokens ∙ row-insert_self action_table n rows;
          digest = ap (λ x. x.token_hash) same;
          usable = ap (λ x. open_row id (some x)) same ∙ usable_new id e.id n key refl refl;
          expiry = ap (λ x. x.expires_at) same ∙ ap (λ x. x.expires_at) reply;
          alone = λ j live.
              inserted_alone id n rows
                (λ k.
                  subst
                    (λ i.
                      open_row id (
                        action_table.row
                          (action_table.update (unused_of i ActionTokenType.email_verification)
                            (used member_table token_table action_table crypto now)
                            db1.action_tokens)
                          k)
                      ≡ false)
                    (sym key) (closed_none now id db1.action_tokens k))
                j (ap (λ x. open_row id (action_table.row x j)) (sym tokens) ∙ live);
        }
