-- ===== src/Registration/Tests.antt =====
-- A registration on a database with one member.
use kigali_pack.Base.{◌≡◌, refl, true, false, none, some, [], ◌∷◌}
use kigali_pack.Service.{ok, err, Result, conflict}
use kigali_pack.Service.Rollback.{rollback}
use kigali_pack.Orm.{Repository}
use kigali_pack.Orm.Memory.{memory, table}
use kigali_pack.Data.{member_key, organization_key, api_key_key, OrganizationRole}
use kigali_pack.Billing.Examples.{acme, alice, free_key}
use kigali_pack.Sessions.{Crypto, refresh_token_key, login, issue_token_pair, normalize_role}
use kigali_pack.Sessions.Examples.{member_table, token_table, crypto as plain_crypto}
use kigali_pack.Registration.Signing.{sign_payload, verify_payload, verify_payload-sign_payload}
use kigali_pack.ApiKeys.Defaults.{ensure_default_key_for_organization}
use kigali_pack.ActionTokens.{action_token_key, issue_action_token}
use kigali_pack.Guards.{admin_guard}
use kigali_pack.Registration.Register.{
  RegisterDto, Entropy, RegisterReply, AccountDb, register_body, register,
}
use kigali_pack.Registration.SignIn.{register-login, register-admin_guard}

abbrev org_table : Repository organization_key
unfolding memory
org_table = memory organization_key

abbrev key_table : Repository api_key_key
unfolding memory
key_table = memory api_key_key

abbrev action_table : Repository action_token_key
unfolding memory
action_table = memory action_token_key

abbrev crypto : Crypto
crypto = record plain_crypto { sign = sign_payload }

abbrev Db : Type 0
Db = AccountDb org_table member_table key_table token_table action_table crypto

abbrev db : Db
unfolding memory
db = record {
  actions = record {
    auth = record {
      members = table member_key (alice ∷ []);
      refresh_tokens = table refresh_token_key [];
    };
    action_tokens = table action_token_key [];
  };
  owners = record {
    organizations = table organization_key (acme ∷ []);
    api_keys = table api_key_key (free_key ∷ []);
  };
}

abbrev entropy : Entropy
entropy = record { slug = "kivu-1a"; api_key = "k1"; refresh_token = "r1"; action_token = "a1" }

abbrev dto : RegisterDto
dto = record {
  organization_name = "Kivu";
  email = "bob@kivu.rw";
  password = "secret99";
  role = none;
}

abbrev run : Result RegisterReply × Db
unfolding memory register
run =
    register org_table member_table key_table token_table action_table crypto rollback 1 entropy
      true dto db

abbrev reply : RegisterReply
reply = record {
  auth = record {
    tokens = record { access_token = "abababaaaaabbob@kivu.rw"; refresh_token = "r1" };
    member_id = 1;
    organization_id = 1;
    role = OrganizationRole.org_owner;
    email = "bob@kivu.rw";
  };
  email_verified = false;
  verification_email_sent = true;
  organization = record { id = 1; name = "Kivu"; slug = "kivu-1a" };
}

register_start :
    register org_table member_table key_table token_table action_table crypto rollback 1 entropy
      true dto db
    ≡ (ok reply, run.1)
unfolding memory register register_body ensure_default_key_for_organization issue_token_pair
    issue_action_token normalize_role
register_start = refl

-- A second registration with the same e-mail address is refused.
register_again :
    (register org_table member_table key_table token_table action_table crypto rollback 2 entropy
      true dto run.1).0
    ≡ err conflict
unfolding memory register register_body ensure_default_key_for_organization issue_token_pair
    issue_action_token normalize_role
register_again = refl

register-login_example :
    (login member_table token_table crypto 2 "r2" "bob@kivu.rw" "secret99" run.1.actions.auth).0
    ≡ ok (record {
      tokens = record { access_token = "aabababaaaaabbob@kivu.rw"; refresh_token = "r2" };
      member_id = 1;
      organization_id = 1;
      role = OrganizationRole.org_owner;
      email = "bob@kivu.rw";
    })
register-login_example =
    register-login org_table member_table key_table token_table action_table crypto rollback 1
      entropy true dto db 2 "r2" register_start

register-admin_guard_example :
    admin_guard verify_payload false none none (some "abababaaaaabbob@kivu.rw")
    ≡ ok (
        some (record {
          sub = 1;
          org_id = 1;
          role = OrganizationRole.org_owner;
          email = "bob@kivu.rw";
        }))
register-admin_guard_example =
    register-admin_guard org_table member_table key_table token_table action_table crypto
      verify_payload none rollback 1 entropy true dto db (verify_payload-sign_payload 1) refl
      register_start
