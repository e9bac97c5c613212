-- ===== src/Phone/Carriers.antt =====
-- The carrier of a number is that of its national digits, however the number is written.
use kigali_pack.Base.{◌≡◌, sym, ap, ◌∙◌, true, false, Bool-cases, inl, inr, none, if◌then◌else◌}
use kigali_pack.Text.{Text}
use kigali_pack.Phone.Defs.{
  normalize, national_of, is_national, validate, detect_carrier, carrier_of_national, CarrierResult,
  unknown, Style, format,
}
use kigali_pack.Phone.Formats.{normalize-format}

-- The carrier of a normal form.
carrier_of : Text → CarrierResult
carrier_of normalized =
    if is_national (national_of normalized)
    then carrier_of_national (national_of normalized)
    else record { carrier = unknown; network_code = none; is_mobile_money_supported = false }

detect_carrier-carrier_of : (phone : Text) → detect_carrier phone ≡ carrier_of (normalize phone)
unfolding detect_carrier validate carrier_of
detect_carrier-carrier_of phone = elim (Bool-cases (is_national (national_of (normalize phone)))) [
  | inl y ↦ rw y
  | inr n ↦ rw n
]

-- A valid number has the same carrier in whatever style it is printed.
pub detect_carrier-format :
    (phone : Text) (style : Style)
    → (validate phone).is_valid ≡ true
    → detect_carrier (format phone style).formatted ≡ detect_carrier phone
detect_carrier-format phone style h =
    let (shape, digits, valid, same, again) = normalize-format phone style h in
    detect_carrier-carrier_of (format phone style).formatted
    ∙ ap carrier_of same
    ∙ sym (detect_carrier-carrier_of phone)
