-- ===== src/Sessions/Tests.antt =====
-- A refresh on a database with one member and one live token.
use kigali_pack.Base.{ℕ, ◌≡◌, refl, arith, ◌==◌}
use kigali_pack.Service.{ok, err, Result, unauthorized, not_found}
use kigali_pack.Orm.Memory.{memory}
use kigali_pack.Data.{OrganizationRole}
use kigali_pack.Sessions.Tokens.{
  AuthDb, AuthReply, refresh, logout, find_live, issue_token_pair, normalize_role,
}
use kigali_pack.Sessions.Examples.{member_table, token_table, crypto, start_db}
use kigali_pack.Sessions.Once.{live_at, refresh_once}
use kigali_pack.Sessions.Session.{IsContinued, refresh-IsContinued}

only_token : (j : ℕ) → live_at member_table token_table crypto "old" j start_db ≡ (j == 0)
unfolding memory
only_token j = ground arith

abbrev refreshed_run : Result AuthReply × AuthDb member_table token_table crypto
unfolding memory refresh
refreshed_run = refresh member_table token_table crypto 100 "new" "old" start_db

abbrev reply : AuthReply
reply = record {
  tokens = record { access_token = "alice@acme.rw"; refresh_token = "new" };
  member_id = 0;
  organization_id = 0;
  role = OrganizationRole.org_owner;
  email = "alice@acme.rw";
}

refresh_start :
    refresh member_table token_table crypto 100 "new" "old" start_db ≡ (ok reply, refreshed_run.1)
unfolding memory refresh find_live issue_token_pair normalize_role
refresh_start = refl

refresh_once_example :
    (refresh member_table token_table crypto 200 "newer" "old" refreshed_run.1
      ≡ (err unauthorized, refreshed_run.1))
    × (logout member_table token_table crypto 200 "old" refreshed_run.1
        ≡ (err not_found, refreshed_run.1))
refresh_once_example =
    refresh_once member_table token_table crypto 100 0 "new" "old" start_db 200 "newer" only_token
      refl refresh_start

refresh-IsContinued_example :
    IsContinued member_table token_table crypto 100 "old" start_db refreshed_run.1 reply
refresh-IsContinued_example =
    refresh-IsContinued member_table token_table crypto 100 "new" "old" start_db refresh_start
