-- ===== src/Sessions/Session.antt =====
-- What a refresh hands on.
use kigali_pack.Base.{ℕ, ◌≡◌, sym, ap, ◌∙◌, true, false, none, some, String, ltb}
use kigali_pack.Service.{
  ok, unauthorized, found, throw_if, after_step, found_same, found_reads, ok-injective,
  throw_if_same, throw_if-false,
}
use kigali_pack.Data.{member_key}
use kigali_pack.Orm.{Repository, row-insert_self}
use kigali_pack.Sessions.Tokens.{
  RefreshToken, refresh_token_key, live_with, AuthReply, Crypto, AuthDb, new_token,
  issue_token_pair, payload_of, revoked_token, find_live, refresh,
}

module _ (member_table : Repository member_key) (token_table : Repository refresh_token_key)
    (crypto : Crypto) where
  -- The session of the old token goes on with a new one: the old token was stored, live and not
  -- expired; the new one is stored with the digest of the replied token, for the same member, and
  -- expires when the old one would have; the access token is signed for that member.
  pub record IsContinued (now : ℕ) (raw_token : String)
      (db db' : AuthDb member_table token_table crypto) (reply : AuthReply) : Type 0 where
    pub old : RefreshToken
    pub new : RefreshToken
    pub before : token_table.row db.refresh_tokens old.id ≡ some old
    pub live : live_with (crypto.digest raw_token) old ≡ true
    pub unexpired : ltb old.expires_at now ≡ false
    pub stored : token_table.row db'.refresh_tokens new.id ≡ some new
    pub digest : new.token_hash ≡ crypto.digest reply.tokens.refresh_token
    pub same_member : new.member ≡ old.member
    pub same_expiry : new.expires_at ≡ old.expires_at
    pub not_revoked : new.revoked_at ≡ none
    pub access :
        reply.tokens.access_token
        ≡ crypto.sign now (payload_of member_table token_table crypto old.member)
    pub same_members : db'.members ≡ db.members

  -- A refresh that returns has continued the session of the token that it was given; it does not
  -- lengthen it.
  pub refresh-IsContinued :
      (now : ℕ) (fresh raw_token : String) (db : AuthDb member_table token_table crypto)
      {reply : AuthReply} {db' : AuthDb member_table token_table crypto}
      → refresh member_table token_table crypto now fresh raw_token db ≡ (ok reply, db')
      → IsContinued now raw_token db db' reply
  unfolding refresh find_live issue_token_pair
  refresh-IsContinued now fresh raw_token db {reply} {db'} h =
      after_step (found (find_live member_table token_table crypto raw_token) unauthorized) _ db h
        λ s db1 at_s rest.
          let same =
            found_same (find_live member_table token_table crypto raw_token) unauthorized db at_s in
          let e =
            found_reads (find_live member_table token_table crypto raw_token) unauthorized db
              at_s in
          after_step (throw_if (ltb s.expires_at now) unauthorized) _ db1 rest λ u db2 at_u rest'.
            let back : db2 ≡ db =
              throw_if_same (ltb s.expires_at now) unauthorized db1 at_u ∙ same in
            let (replied, rows) = ok-injective rest' in
            let n =
              new_token member_table token_table crypto now fresh s.member (some s.expires_at) in
            let t =
              token_table.save (revoked_token member_table token_table crypto now s)
                db2.refresh_tokens in
            let key = token_table.insert-same n t in
            record {
              old = s;
              new = (token_table.insert n t).0;
              before =
                  token_table.find_one-row (live_with (crypto.digest raw_token)) db.refresh_tokens
                    e;
              live =
                  token_table.find_one-fits (live_with (crypto.digest raw_token)) db.refresh_tokens
                    e;
              unexpired = throw_if-false (ltb s.expires_at now) unauthorized db1 at_u;
              stored =
                  ap (λ d. token_table.row d.refresh_tokens (token_table.insert n t).0.id)
                    (sym rows)
                  ∙ row-insert_self token_table n t;
              digest =
                  ap (λ x. x.token_hash) key
                  ∙ ap (λ r. crypto.digest r.tokens.refresh_token) replied;
              same_member = ap (λ x. x.member) key;
              same_expiry = ap (λ x. x.expires_at) key;
              not_revoked = ap (λ x. x.revoked_at) key;
              access = ap (λ r. r.tokens.access_token) (sym replied);
              same_members = ap (λ d. d.members) (sym rows) ∙ ap (λ d. d.members) back;
            }
