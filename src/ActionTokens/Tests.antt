-- ===== src/ActionTokens/Tests.antt =====
-- A reset and two mails for one member.
use kigali_pack.Base.{ℕ, ◌≡◌, refl, true, false, none, [], ◌∷◌, arith, inl, String}
use kigali_pack.Service.{ok, err, Result, unauthorized}
use kigali_pack.Orm.{Repository}
use kigali_pack.Orm.Memory.{memory, table}
use kigali_pack.Data.{member_key}
use kigali_pack.Billing.Examples.{alice}
use kigali_pack.Sessions.Examples.{member_table, token_table, crypto, start_db}
use kigali_pack.ActionTokens.Tokens.{
  ActionTokenType, ActionToken, action_token_key, ActionDb, VerifyReply, ResendReply,
  reset_password, verify_email, mark_verified, resend_verification_email, find_valid_action_token,
  find_unused, issue_action_token, invalidate_active_action_tokens,
}
use kigali_pack.ActionTokens.Spent.{unused_at}
use kigali_pack.ActionTokens.Verified.{action_token_once}
use kigali_pack.ActionTokens.Resent.{IsResent, resend_verification_email-IsResent}

abbrev action_table : Repository action_token_key
unfolding memory
action_table = memory action_token_key

abbrev Db : Type 0
Db = ActionDb member_table token_table action_table crypto

-- A reset token and a verification token of the member 0.
abbrev reset_token : ActionToken
reset_token = record {
  id = 0;
  member_id = 0;
  token_hash = "reset";
  kind = ActionTokenType.password_reset;
  expires_at = 1000;
  used_at = none;
}

abbrev verification_token : ActionToken
verification_token = record {
  id = 1;
  member_id = 0;
  token_hash = "verify";
  kind = ActionTokenType.email_verification;
  expires_at = 1000;
  used_at = none;
}

abbrev db : Db
unfolding memory
db = record {
  auth = start_db;
  action_tokens = table action_token_key (reset_token ∷ verification_token ∷ []);
}

abbrev reset_run : Result String × Db
unfolding memory reset_password
reset_run = reset_password member_table token_table action_table crypto 100 "reset" "hunter22" db

reset_start :
    reset_password member_table token_table action_table crypto 100 "reset" "hunter22" db
    ≡ (ok "alice@acme.rw", reset_run.1)
unfolding memory reset_password find_valid_action_token find_unused
reset_start = refl

only_reset :
    (j : ℕ) → unused_at member_table token_table action_table crypto "reset" j db ≡ true → j ≡ 0
unfolding memory
only_reset j h = ground arith

action_token_once_example :
    (reset_password member_table token_table action_table crypto 200 "reset" "again" reset_run.1
      ≡ (err unauthorized, reset_run.1))
    × (verify_email member_table token_table action_table crypto 200 "reset" reset_run.1
        ≡ (err unauthorized, reset_run.1))
action_token_once_example =
    action_token_once member_table token_table action_table crypto 100 0 "reset" "hunter22" db 200
      "again" only_reset (inl ("alice@acme.rw", reset_start))

abbrev verify_run : Result VerifyReply × Db
unfolding memory verify_email
verify_run = verify_email member_table token_table action_table crypto 100 "verify" db

abbrev verify_reply : VerifyReply
verify_reply = record { email = "alice@acme.rw"; member_id = 0; already_verified = true }

verify_start :
    verify_email member_table token_table action_table crypto 100 "verify" db
    ≡ (ok verify_reply, verify_run.1)
unfolding memory verify_email find_valid_action_token find_unused mark_verified
verify_start = refl

abbrev new_alice : Db
unfolding memory
new_alice = record {
  auth = record start_db {
    members = table member_key ((record alice { email_verified = false }) ∷ []);
  };
  action_tokens = table action_token_key (verification_token ∷ []);
}

abbrev resend_run : Result ResendReply × Db
unfolding memory resend_verification_email
resend_run =
    resend_verification_email member_table token_table action_table crypto 100 "second" true 0
      new_alice

abbrev resend_reply : ResendReply
resend_reply = record {
  email = "alice@acme.rw";
  verification_email_sent = true;
  expires_at = 1200100;
}

resend_start :
    resend_verification_email member_table token_table action_table crypto 100 "second" true 0
      new_alice
    ≡ (ok resend_reply, resend_run.1)
unfolding memory resend_verification_email issue_action_token invalidate_active_action_tokens
resend_start = refl

resend_verification_email-IsResent_example :
    IsResent member_table token_table action_table crypto 100 0 "second" new_alice resend_run.1
      resend_reply
resend_verification_email-IsResent_example =
    resend_verification_email-IsResent member_table token_table action_table crypto 100 0 "second"
      true new_alice resend_start
