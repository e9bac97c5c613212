-- ===== src/Profiles/Tests.antt =====
-- A member who changes the e-mail address.
use kigali_pack.Base.{ℕ, ◌≡◌, refl, none, some, [], ◌∷◌, arith}
use kigali_pack.Service.{ok, Result}
use kigali_pack.Orm.{Repository}
use kigali_pack.Orm.Memory.{memory, table}
use kigali_pack.Data.{Member, member_key, organization_key, api_key_key}
use kigali_pack.Billing.Examples.{alice}
use kigali_pack.Sessions.{refresh_token_key, normalize_role}
use kigali_pack.Sessions.Examples.{crypto}
use kigali_pack.ActionTokens.{action_token_key}
use kigali_pack.Profiles.Service.{UpdateProfile, Profile, change_email, update_profile, to_profile}
use kigali_pack.Profiles.Emails.{UniqueEmails, updated, Changed-UniqueEmails}

abbrev member_table : Repository member_key
unfolding memory
member_table = memory member_key

abbrev rows : member_table.Rows
unfolding memory
rows = table member_key (alice ∷ [])

abbrev dto : UpdateProfile
dto = record { email = some "al@acme.rw"; password = none }

abbrev run : Result Profile × member_table.Rows
unfolding memory update_profile
run = update_profile member_table crypto 0 dto rows

-- The new address counts as verified, like the old one.
abbrev profile : Profile
unfolding normalize_role
profile = to_profile (record alice { email = "al@acme.rw" })

update_start : update_profile member_table crypto 0 dto rows ≡ (ok profile, run.1)
unfolding memory update_profile change_email normalize_role
update_start = refl

one_member :
    (i j : ℕ) (p q : Member)
    → member_table.row rows i ≡ some p
    → member_table.row rows j ≡ some q
    → p.email ≡ q.email
    → i ≡ j
unfolding memory
one_member i j p q at_p at_q same = ground arith

Changed-UniqueEmails_example :
    UniqueEmails
      (memory organization_key)
      member_table
      (memory api_key_key)
      (memory refresh_token_key)
      (memory action_token_key)
      crypto
      run.1
Changed-UniqueEmails_example =
    Changed-UniqueEmails (memory organization_key) member_table (memory api_key_key)
      (memory refresh_token_key) (memory action_token_key) crypto rows run.1
      (updated 0 dto rows run.1 profile update_start) one_member
