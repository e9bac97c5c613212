-- ===== src/Phone/Defs.antt =====
-- PhoneService: normalize, validate, detectCarrier and format.
use kigali_pack.Base.{
  ℕ, Bool, true, false, ◌&&◌, ◌||◌, Option, none, some, [], ◌∷◌, ◌++◌, length, take, drop, ◌==◌,
  if◌then◌else◌,
}
use kigali_pack.Text.{Text, all, is_digit, only_digits, starts_with}

abbrev pub rwanda_country_code : Text
rwanda_country_code = b'2' ∷ b'5' ∷ b'0' ∷ []

-- `+250`
abbrev pub country_prefix : Text
country_prefix = b'+' ∷ rwanda_country_code

unfoldable pub normalize_digits : Text → Text → Text
normalize_digits raw digits =
    if starts_with rwanda_country_code digits
    then b'+' ∷ digits
    else if starts_with (b'0' ∷ []) digits && length digits == 10
    then country_prefix ++ drop 1 digits
    else if length digits == 9
    then country_prefix ++ digits
    else if starts_with (b'+' ∷ []) raw
    then raw
    else b'+' ∷ digits

unfoldable pub normalize : Text → Text
unfolding normalize_digits only_digits
normalize raw = normalize_digits raw (only_digits raw)

-- `normalized.replace(/^\+250/, '')`
abbrev pub national_of : Text → Text
national_of normalized =
    if starts_with country_prefix normalized then drop 4 normalized else normalized

-- `/^[78]\d{8}$/`
abbrev pub is_national : Text → Bool
is_national [] = false
is_national (c ∷ rest) = (c == b'7' || c == b'8') && (length rest == 8 && all is_digit rest)

pub record PhoneValidationResult : Type 0 where
  pub is_valid : Bool
  pub normalized : Text
  pub national_number : Text

-- The result's constant `country` is left out.
unfoldable pub validate : Text → PhoneValidationResult
unfolding normalize
validate phone =
    let normalized = normalize phone in
    let national = national_of normalized in
    let is_valid = is_national national in
    record {
      is_valid = is_valid;
      normalized = if is_valid then normalized else phone;
      national_number = national;
    }

pub data Carrier : Type 0 where
  mtn airtel unknown : Carrier

pub record CarrierResult : Type 0 where
  pub carrier : Carrier
  pub network_code : Option Text
  pub is_mobile_money_supported : Bool

abbrev unknown_carrier : CarrierResult
unknown_carrier = record {
  carrier = unknown;
  network_code = none;
  is_mobile_money_supported = false;
}

abbrev known_carrier : Carrier → ℕ → CarrierResult
known_carrier carrier second = record {
  carrier = carrier;
  network_code = some (rwanda_country_code ++ b'7' ∷ second ∷ []);
  is_mobile_money_supported = true;
}

-- The tests on `charAt(0)` and `charAt(1)` of the national number.
unfoldable pub carrier_of_national : Text → CarrierResult
carrier_of_national (prefix ∷ second ∷ _) =
    if prefix == b'7' && (second == b'8' || second == b'9')
    then known_carrier mtn second
    else if prefix == b'7' && (second == b'2' || second == b'3')
    then known_carrier airtel second
    else unknown_carrier
carrier_of_national _ = unknown_carrier

unfoldable pub detect_carrier : Text → CarrierResult
unfolding validate carrier_of_national
detect_carrier phone =
    let v = validate phone in
    if v.is_valid then carrier_of_national (national_of v.normalized) else unknown_carrier

pub data Style : Type 0 where
  e164 international national : Style

pub record Formatted : Type 0 where
  pub formatted : Text
  pub style : Style
  pub is_valid : Bool

abbrev pub space : ℕ
space = b' '

-- The three styles of a valid number.
unfoldable pub styled : Style → Text → Text → Text
styled national normalized n = b'0' ∷ n
styled international normalized n =
    country_prefix ++ (space ∷ (take 2 n ++ (space ∷ (take 3 (drop 2 n) ++ (space ∷ drop 5 n)))))
styled e164 normalized n = normalized

unfoldable pub format : Text → Style → Formatted
unfolding validate styled
format phone style =
    let v = validate phone in
    if v.is_valid
    then record {
      formatted = styled style v.normalized (national_of v.normalized);
      style = style;
      is_valid = true;
    }
    else record { formatted = phone; style = style; is_valid = false }
