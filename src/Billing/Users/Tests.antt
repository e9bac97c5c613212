-- ===== src/Billing/Users/Tests.antt =====
-- A suspension on the example database, with a key of another developer.
use text.Mathlib.Text.{◌==◌ as str_eq}
use kigali_pack.Base.{◌≡◌, refl, false, some, [], ◌∷◌, inl}
use kigali_pack.Service.{ok, err, Result, unauthorized}
use kigali_pack.Service.Rollback.{rollback}
use kigali_pack.Orm.Memory.{memory, table}
use kigali_pack.Data.{ApiKey, api_key_key}
use kigali_pack.ApiKeys.{authenticate_with_api_key, is_key_valid}
use kigali_pack.Billing.Db.{Db}
use kigali_pack.Billing.Examples.{in_memory, runtime, root_admin, start_db, free_key, alice}
use kigali_pack.Billing.Users.{UserReply, suspend_user, activate_user}
use kigali_pack.ApiKeys.Defaults.{ensure_default_key_for_organization}
use kigali_pack.Billing.Users.Lasting.{suspended_keys}
use kigali_pack.Billing.Users.Changes.{changed, unchanged, defaulted}

abbrev other_key : ApiKey
other_key = record free_key { id = 1; developer_name = "kivu"; hashed_key = "h2" }

abbrev db : Db in_memory
unfolding memory
db = record start_db { api_keys = table api_key_key (free_key ∷ other_key ∷ []) }

abbrev run : Result UserReply × Db in_memory
unfolding memory suspend_user
run = suspend_user in_memory rollback runtime 100 0 root_admin db

suspend_start :
    suspend_user in_memory rollback runtime 100 0 root_admin db
    ≡ (ok (record { user_id = 0; email = "alice@acme.rw" }), run.1)
unfolding memory suspend_user
suspend_start = refl

authenticate_other :
    authenticate_with_api_key in_memory.api_keys rollback (λ t. t) 200 "h2" run.1.api_keys
    ≡ (ok other_key, run.1.api_keys)
unfolding memory suspend_user authenticate_with_api_key is_key_valid
authenticate_other = refl

-- Activating the user again does not bring its keys back.
authenticate_activated :
    (authenticate_with_api_key in_memory.api_keys rollback
      (λ t. t)
      200
      "h"
      (activate_user in_memory rollback runtime 0 root_admin run.1).1.api_keys).0
    ≡ err unauthorized
unfolding memory suspend_user activate_user authenticate_with_api_key is_key_valid
authenticate_activated = refl

alice_stored : in_memory.members.row db.members 0 ≡ some alice
unfolding memory
alice_stored = refl

-- Then a sign-in makes the organization a new key, which is number 2 and authenticates.
abbrev later_keys : in_memory.api_keys.Rows
later_keys =
    (ensure_default_key_for_organization in_memory.api_keys (λ t. t) 150 "x" "acme" "Acme"
      run.1.api_keys).1

authenticate_new :
    (r : ApiKey) × (authenticate_with_api_key in_memory.api_keys rollback
        (λ t. t)
        200
        "kp_test_x"
        later_keys
      ≡ (ok r, later_keys))
    × (r.id ≡ 2)
unfolding memory suspend_user authenticate_with_api_key is_key_valid
    ensure_default_key_for_organization
authenticate_new = (_, refl, refl)

authenticate_later :
    authenticate_with_api_key in_memory.api_keys rollback (λ t. t) 200 "h2" later_keys
    ≡ (ok other_key, later_keys)
unfolding memory suspend_user authenticate_with_api_key is_key_valid
    ensure_default_key_for_organization
authenticate_later = refl

other_stored : in_memory.api_keys.row db.api_keys 1 ≡ some other_key
unfolding memory
other_stored = refl

suspended_keys_example : str_eq other_key.developer_name "acme" ≡ false
suspended_keys_example =
    suspended_keys in_memory rollback runtime rollback (λ t. t) 100 0 root_admin db 200 "h2"
      alice_stored (inl (record { user_id = 0; email = "alice@acme.rw" }, suspend_start))
      (changed (defaulted run.1.api_keys 150 "x" "acme" "Acme") unchanged) authenticate_later
      other_stored
