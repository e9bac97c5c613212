-- ===== src/Phone/Tests.antt =====
-- Runs of the phone service.
use kigali_pack.Base.{◌≡◌, refl, true, ◌++◌}
use kigali_pack.Text.{Text, codes}
use kigali_pack.Phone.Defs.{
  country_prefix, normalize, is_national, validate, detect_carrier, Carrier, format, international,
}
use kigali_pack.Phone.Formats.{normalize-format}

abbrev local_number : Text
local_number = codes "078 812 3456"

normalize-local_number : normalize local_number ≡ codes "+250788123456"
unfolding normalize
normalize-local_number = refl

detect_carrier-local_number : (detect_carrier local_number).carrier ≡ Carrier.mtn
unfolding detect_carrier
detect_carrier-local_number = refl

local_number_valid : (validate local_number).is_valid ≡ true
unfolding validate
local_number_valid = refl

normalize-format_example :
    (normalize local_number ≡ country_prefix ++ (validate local_number).national_number)
    × (is_national (validate local_number).national_number ≡ true)
    × ((format local_number international).is_valid ≡ true)
    × (normalize (format local_number international).formatted ≡ normalize local_number)
    × ((validate (format local_number international).formatted).is_valid ≡ true)
normalize-format_example = normalize-format local_number international local_number_valid
