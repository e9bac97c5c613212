-- ===== src/Sessions/Examples.antt =====
-- A database in memory with one member and one live refresh token, for the tests.
use kigali_pack.Base.{◌+◌, ◌*◌, none, [], ◌∷◌}
use kigali_pack.Orm.{Repository}
use kigali_pack.Orm.Memory.{memory, table}
use kigali_pack.Data.{member_key}
use kigali_pack.Billing.Examples.{alice}
use kigali_pack.Sessions.Tokens.{RefreshToken, refresh_token_key, Crypto, AuthDb}

abbrev pub member_table : Repository member_key
unfolding memory
member_table = memory member_key

abbrev pub token_table : Repository refresh_token_key
unfolding memory
token_table = memory refresh_token_key

abbrev pub crypto : Crypto
crypto = record {
  digest = λ t. t;
  sign = λ now p. p.email;
  to_lower = λ t. t;
  add_hours = λ hours t. t + hours * 3600000;
  add_minutes = λ minutes t. t + minutes * 60000;
}

abbrev pub token : RefreshToken
token = record { id = 0; member = alice; token_hash = "old"; expires_at = 1000; revoked_at = none }

abbrev pub start_db : AuthDb member_table token_table crypto
unfolding memory
start_db = record {
  members = table member_key (alice ∷ []);
  refresh_tokens = table refresh_token_key (token ∷ []);
}
