-- ===== src/ApiKeys/Tests.antt =====
-- Runs of the key service: a developer with two keys.
use kigali_pack.Base.{◌≡◌, ◌≢◌, refl, none, some, [], ◌∷◌, String, inr}
use kigali_pack.Service.{ok, err, Result, unauthorized}
use kigali_pack.Service.Rollback.{rollback}
use kigali_pack.Orm.{Repository}
use kigali_pack.Orm.Memory.{memory, table}
use kigali_pack.Data.{ApiKey, ApiKeyEnvironment, api_key_key}
use kigali_pack.Billing.Examples.{free_key}
use kigali_pack.ApiKeys.Created.{create-authenticate_with_api_key}
use kigali_pack.ApiKeys.Service.{
  create, NewKey, find_owned_key, rotate, rotate_body, authenticate_with_api_key, is_key_valid,
}
use kigali_pack.ApiKeys.Retired.{IsRotated, rotate-IsRotated, retired_key}

abbrev in_memory : Repository api_key_key
unfolding memory
in_memory = memory api_key_key

abbrev digest : String → String
digest raw_token = raw_token

abbrev second_key : ApiKey
second_key = record free_key { id = 1; hashed_key = "h1" }

abbrev start_rows : in_memory.Rows
unfolding memory
start_rows = table api_key_key (free_key ∷ second_key ∷ [])

abbrev rotated_run : Result NewKey × in_memory.Rows
unfolding memory rotate
rotated_run = rotate in_memory rollback digest 100 "f00" free_key 1 start_rows

abbrev replacement : NewKey
replacement = record {
  key = record free_key { id = 2; hashed_key = "kp_live_f00"; key_prefix = "kp_live_f00" };
  raw_token = "kp_live_f00";
  revoked_key_id = some 1;
}

rotate_start :
    rotate in_memory rollback digest 100 "f00" free_key 1 start_rows
    ≡ (ok replacement, rotated_run.1)
unfolding memory rotate rotate_body find_owned_key
rotate_start = refl

rotate-IsRotated_example :
    IsRotated in_memory rollback digest 100 1 free_key replacement start_rows rotated_run.1
rotate-IsRotated_example =
    rotate-IsRotated in_memory rollback digest 100 1 "f00" free_key start_rows rotate_start

-- The token of the rotated key is refused, that of the other key is not.
authenticate_rotated :
    authenticate_with_api_key in_memory rollback digest 200 "h1" rotated_run.1
    ≡ (err unauthorized, rotated_run.1)
unfolding memory authenticate_with_api_key rotate rotate_body find_owned_key is_key_valid
authenticate_rotated = refl

authenticate_other :
    authenticate_with_api_key in_memory rollback digest 200 "h" rotated_run.1
    ≡ (ok free_key, rotated_run.1)
unfolding memory authenticate_with_api_key rotate rotate_body find_owned_key is_key_valid
authenticate_other = refl

retired_key_example : free_key.id ≢ 1
retired_key_example =
    retired_key in_memory rollback digest 100 1 "f00" free_key start_rows 200 "h"
      (inr (replacement, rotate_start)) authenticate_other

abbrev created_run : Result NewKey × in_memory.Rows
unfolding memory create
created_run =
    create in_memory rollback digest 100 "f00" free_key none ApiKeyEnvironment.live (some 500)
      start_rows

abbrev created : NewKey
created = record {
  key = record free_key {
    id = 2;
    hashed_key = "kp_live_f00";
    key_prefix = "kp_live_f00";
    expires_at = some 500;
  };
  raw_token = "kp_live_f00";
  revoked_key_id = none;
}

create_start :
    create in_memory rollback digest 100 "f00" free_key none ApiKeyEnvironment.live
      (some 500)
      start_rows
    ≡ (ok created, created_run.1)
unfolding memory create
create_start = refl

create-authenticate_with_api_key_example :
    authenticate_with_api_key in_memory rollback digest 499 "kp_live_f00" created_run.1
    ≡ (ok created.key, created_run.1)
create-authenticate_with_api_key_example =
    create-authenticate_with_api_key in_memory rollback digest 100 "f00" free_key none
      ApiKeyEnvironment.live (some 500) start_rows 499 create_start refl
