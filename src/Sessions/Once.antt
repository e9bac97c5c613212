-- ===== src/Sessions/Once.antt =====
-- A refresh token works once.
use text.Mathlib.Text.{◌==◌ as str_eq}
use kigali_pack.Base.{
  ℕ, ◌≡◌, sym, ap, ◌∙◌, inl, inr, Bool, true, false, ◌&&◌, Option, none, some, String, ◌==◌, ltb,
  if◌then◌else◌, arith, Option-cases,
}
use kigali_pack.Service.{
  ok, err, unauthorized, not_found, found, throw_if, after_step, found_same, found_reads,
  ok-injective, found-none, step_throws, throw_if_same,
}
use kigali_pack.Data.{Member, member_key}
use kigali_pack.Orm.{Repository}
use kigali_pack.Sessions.Tokens.{
  RefreshToken, refresh_token_key, is_none, live_with, AuthReply, Crypto, AuthDb, new_token,
  issue_token_pair, revoked_token, find_live, refresh, logout,
}

module _ (member_table : Repository member_key) (token_table : Repository refresh_token_key)
    (crypto : Crypto) where
  -- Whether the token under a key can still be used with a digest.
  abbrev pub live_row : String → Option RefreshToken → Bool
  live_row hash none = false
  live_row hash (some t) = live_with hash t

  abbrev pub live_at : String → ℕ → AuthDb member_table token_table crypto → Bool
  live_at raw_token j db = live_row (crypto.digest raw_token) (token_table.row db.refresh_tokens j)

  not_found_live :
      (raw_token : String) (db : AuthDb member_table token_table crypto)
      → ((j : ℕ) → live_at raw_token j db ≡ false)
      → find_live member_table token_table crypto raw_token db ≡ none
  unfolding find_live
  not_found_live raw_token db clear =
      elim (Option-cases
        (token_table.find_one (live_with (crypto.digest raw_token)) db.refresh_tokens)) [
          | inl gone ↦ gone
          | inr (q, e) ↦
              let row =
                token_table.find_one-row (live_with (crypto.digest raw_token)) db.refresh_tokens
                  e in
              let fits =
                token_table.find_one-fits (live_with (crypto.digest raw_token)) db.refresh_tokens
                  e in
              let dead : live_with (crypto.digest raw_token) q ≡ false =
                ap (live_row (crypto.digest raw_token)) (sym row) ∙ clear q.id in
              cc
        ]

  -- A token that is not live is of no use: it refreshes nothing, and cannot be revoked.
  dead_token :
      (later : ℕ) (fresh raw_token : String) (db : AuthDb member_table token_table crypto)
      → ((j : ℕ) → live_at raw_token j db ≡ false)
      → (refresh member_table token_table crypto later fresh raw_token db ≡ (err unauthorized, db))
        × (logout member_table token_table crypto later raw_token db ≡ (err not_found, db))
  unfolding refresh logout
  dead_token later fresh raw_token db clear =
      let e = not_found_live raw_token db clear in
      let find = find_live member_table token_table crypto raw_token in
      (
        step_throws (found find unauthorized) _ db (found-none find unauthorized db e),
        step_throws (found find not_found) _ db (found-none find not_found db e),
      )

  -- The saved token was the only live one with its digest, so none is left.
  revoked_none :
      (now i : ℕ) (hash : String) (s : RefreshToken) (t : token_table.Rows)
      → ((j : ℕ) → live_row hash (token_table.row t j) ≡ (j == i))
      → token_table.find_one (live_with hash) t ≡ some s
      → (j : ℕ)
      → live_row hash (
          token_table.row
            (token_table.save (revoked_token member_table token_table crypto now s) t)
            j)
        ≡ false
  revoked_none now i hash s t single e j = ground (
    arith,
    single s.id,
    single j,
    token_table.find_one-row (live_with hash) t e,
    token_table.find_one-fits (live_with hash) t e,
    token_table.row-save (revoked_token member_table token_table crypto now s) t j,
  )

  either_dead :
      (hash : String) (b : Bool) (e : RefreshToken) (old : Option RefreshToken)
      → live_with hash e ≡ false
      → live_row hash old ≡ false
      → live_row hash (if b then some e else old) ≡ false
  either_dead hash true e old h k = h
  either_dead hash false e old h k = k

  issued_none :
      (now : ℕ) (hash fresh : String) (member : Member) (at : Option ℕ) (t : token_table.Rows)
      → str_eq (crypto.digest fresh) hash ≡ false
      → ((j : ℕ) → live_row hash (token_table.row t j) ≡ false)
      → let (e, t') =
          token_table.insert (new_token member_table token_table crypto now fresh member at) t in
        (j : ℕ) → live_row hash (token_table.row t' j) ≡ false
  issued_none now hash fresh member at t other clear j =
      let n = new_token member_table token_table crypto now fresh member at in
      let e = (token_table.insert n t).0 in
      let dead : live_with hash e ≡ false =
        ap (λ x. str_eq x.token_hash hash && is_none x.revoked_at) (token_table.insert-same n t)
        ∙ ap (λ b. b && true) other in
      ap (live_row hash) (token_table.row-insert n t j)
      ∙ either_dead hash (e.id == j) e (token_table.row t j) dead (clear j)

  refresh_spends :
      (now i : ℕ) (fresh raw_token : String) (db : AuthDb member_table token_table crypto)
      {reply : AuthReply} {db' : AuthDb member_table token_table crypto}
      → ((j : ℕ) → live_at raw_token j db ≡ (j == i))
      → str_eq (crypto.digest fresh) (crypto.digest raw_token) ≡ false
      → refresh member_table token_table crypto now fresh raw_token db ≡ (ok reply, db')
      → (j : ℕ) → live_at raw_token j db' ≡ false
  unfolding refresh find_live issue_token_pair
  refresh_spends now i fresh raw_token db {reply} {db'} single other h j =
      after_step (found (find_live member_table token_table crypto raw_token) unauthorized) _ db h
        λ s db1 at_s rest.
          let same =
            found_same (find_live member_table token_table crypto raw_token) unauthorized db at_s in
          let e =
            found_reads (find_live member_table token_table crypto raw_token) unauthorized db
              at_s in
          let hash = crypto.digest raw_token in
          let saved : AuthDb member_table token_table crypto → token_table.Rows = λ d.
            token_table.save (revoked_token member_table token_table crypto now s)
              d.refresh_tokens in
          let spent = revoked_none now i hash s db.refresh_tokens single e in
          after_step (throw_if (ltb s.expires_at now) unauthorized) _ db1 rest λ u db2 at_u rest'.
            let rows : db'.refresh_tokens
                ≡ (token_table.insert
                    (new_token member_table token_table crypto now fresh s.member
                      (some s.expires_at))
                    (saved db2)).1 =
              ap (λ d. d.refresh_tokens) (sym (ok-injective rest').1) in
            let back : db2 ≡ db =
              throw_if_same (ltb s.expires_at now) unauthorized db1 at_u ∙ same in
            ap (λ t. live_row hash (token_table.row t j))
              (rows
                ∙ ap
                    (λ d.
                      (token_table.insert
                        (new_token member_table token_table crypto now fresh s.member
                          (some s.expires_at))
                        (saved d)).1)
                    back)
            ∙ issued_none now hash fresh s.member (some s.expires_at) (saved db) other spent j

  -- A refresh that returns spends the token that it is given, if at most one live token has its
  -- digest and the new token has another digest: no later refresh and no later logout accepts it,
  -- and none of them changes anything.
  pub refresh_once :
      (now i : ℕ) (fresh raw_token : String) (db : AuthDb member_table token_table crypto)
      {reply : AuthReply} {db' : AuthDb member_table token_table crypto} (later : ℕ) (next : String)
      → ((j : ℕ) → live_at raw_token j db ≡ (j == i))
      → str_eq (crypto.digest fresh) (crypto.digest raw_token) ≡ false
      → refresh member_table token_table crypto now fresh raw_token db ≡ (ok reply, db')
      → (refresh member_table token_table crypto later next raw_token db' ≡ (err unauthorized, db'))
        × (logout member_table token_table crypto later raw_token db' ≡ (err not_found, db'))
  refresh_once now i fresh raw_token db {reply} {db'} later next single other h =
      dead_token later next raw_token db' (refresh_spends now i fresh raw_token db single other h)
