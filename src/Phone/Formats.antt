-- ===== src/Phone/Formats.antt =====
-- Every style in which a valid number is printed reads back as the same number.
use kigali_pack.Base.{
  ◌≡◌, refl, true, [], ◌∷◌, ◌++◌, arith, drop, take, take-append-drop, sym, ap, ◌∙◌,
}
use kigali_pack.Text.{
  Text, all, is_digit, only_digits, starts_with, only_digits_of_all, only_digits-append, all-take,
  all-drop,
}
use kigali_pack.Phone.Defs.{
  rwanda_country_code, country_prefix, normalize_digits, normalize, national_of, is_national,
  validate, Style, e164, international, national, styled, space, format,
}
use kigali_pack.Phone.Normal.{normalize_international}

starts_with_plus :
    (raw digits : Text) → starts_with (b'+' ∷ []) (normalize_digits raw digits) ≡ true
unfolding normalize_digits
starts_with_plus raw digits = ground arith

-- A text that begins with `+` and whose national part is a national number is that number behind
-- the country code.
eq-national_of :
    (s : Text)
    → starts_with (b'+' ∷ []) s ≡ true
    → is_national (national_of s) ≡ true
    → s ≡ country_prefix ++ national_of s
eq-national_of [] h k = cc
eq-national_of (a ∷ []) h k = ground arith
eq-national_of (a ∷ b ∷ []) h k = ground arith
eq-national_of (a ∷ b ∷ c ∷ []) h k = ground arith
eq-national_of (a ∷ b ∷ c ∷ d ∷ s) h k = ground arith

validate_shape :
    (phone : Text)
    → (validate phone).is_valid ≡ true
    → normalize phone ≡ country_prefix ++ national_of (normalize phone)
unfolding validate
validate_shape phone h =
    eq-national_of (normalize phone) (starts_with_plus phone (only_digits phone)) h

all-is_national : (n : Text) → is_national n ≡ true → all is_digit n ≡ true
all-is_national [] h = cc
all-is_national (c ∷ s) h = ground arith

drop-drop : (n : Text) → drop 3 (drop 2 n) ≡ drop 5 n
drop-drop [] = refl
drop-drop (a ∷ []) = refl
drop-drop (a ∷ b ∷ n) = refl

only_digits-space : (s : Text) → only_digits (space ∷ s) ≡ only_digits s
unfolding only_digits
only_digits-space s = refl

-- Dropping the blanks of the international style gives the national number back.
only_digits_groups :
    (n : Text)
    → all is_digit n ≡ true
    → only_digits (take 2 n ++ (space ∷ (take 3 (drop 2 n) ++ (space ∷ drop 5 n)))) ≡ n
only_digits_groups n h =
    simp
      (
        only_digits-append,
        only_digits-space,
        only_digits_of_all (take 2 n) (all-take 2 n h),
        only_digits_of_all (take 3 (drop 2 n)) (all-take 3 (drop 2 n) (all-drop 2 n h)),
        only_digits_of_all (drop 5 n) (all-drop 5 n h),
      )
      (rw (← drop-drop n) (rw (take-append-drop 3 (drop 2 n)) (take-append-drop 2 n)))

normalize_of_digits :
    (raw n : Text)
    → only_digits raw ≡ rwanda_country_code ++ n
    → normalize raw ≡ country_prefix ++ n
unfolding normalize
normalize_of_digits raw n e = rw e

normalize_local :
    (n : Text)
    → is_national n ≡ true
    → only_digits n ≡ n
    → normalize (b'0' ∷ n) ≡ country_prefix ++ n
unfolding normalize
normalize_local [] h e = cc
normalize_local (c ∷ s) h e = rw e (ground arith)

only_digits-international :
    (n : Text)
    → all is_digit n ≡ true
    → only_digits (styled international (country_prefix ++ n) n) ≡ rwanda_country_code ++ n
unfolding only_digits styled
only_digits-international n h = ap (λ t. rwanda_country_code ++ t) (only_digits_groups n h)

-- The three styles of a national number, read back.
normalize-styled :
    (style : Style) (n : Text)
    → is_national n ≡ true
    → normalize (styled style (country_prefix ++ n) n) ≡ country_prefix ++ n
unfolding styled
normalize-styled e164 n h = normalize_international n (all-is_national n h)
normalize-styled international n h =
    normalize_of_digits _ n (only_digits-international n (all-is_national n h))
normalize-styled national n h = normalize_local n h (only_digits_of_all n (all-is_national n h))

validate_number :
    (phone : Text)
    → (validate phone).is_valid ≡ true
    → normalize phone ≡ country_prefix ++ (validate phone).national_number
unfolding validate
validate_number phone h = validate_shape phone h

validate_national :
    (phone : Text)
    → (validate phone).is_valid ≡ true
    → is_national (validate phone).national_number ≡ true
unfolding validate
validate_national phone h = h

format_valid :
    (phone : Text) (style : Style)
    → (validate phone).is_valid ≡ true
    → (format phone style).is_valid ≡ true
unfolding format
format_valid phone style h = rw h

formatted_eq :
    (phone : Text) (style : Style)
    → (validate phone).is_valid ≡ true
    → let n = (validate phone).national_number in
      (format phone style).formatted ≡ styled style (country_prefix ++ n) n
unfolding format
formatted_eq phone style h =
    rw h (ap (λ t. styled style t (national_of (normalize phone))) (validate_shape phone h))

normalize_formatted :
    (phone : Text) (style : Style)
    → (validate phone).is_valid ≡ true
    → normalize (format phone style).formatted ≡ normalize phone
normalize_formatted phone style h =
    ap normalize (formatted_eq phone style h)
    ∙ normalize-styled style _ (validate_national phone h)
    ∙ sym (validate_number phone h)

validate_of_same :
    (phone other : Text)
    → normalize other ≡ normalize phone
    → (validate phone).is_valid ≡ true
    → (validate other).is_valid ≡ true
unfolding validate
validate_of_same phone other e h = rw e h

-- A valid number is the country code before nine national digits; printed in any style it is
-- valid again and has the same normal form.
pub normalize-format :
    (phone : Text) (style : Style)
    → (validate phone).is_valid ≡ true
    → (normalize phone ≡ country_prefix ++ (validate phone).national_number)
      × (is_national (validate phone).national_number ≡ true)
      × ((format phone style).is_valid ≡ true)
      × (normalize (format phone style).formatted ≡ normalize phone)
      × ((validate (format phone style).formatted).is_valid ≡ true)
normalize-format phone style h =
    let same = normalize_formatted phone style h in
    (
      validate_number phone h,
      validate_national phone h,
      format_valid phone style h,
      same,
      validate_of_same phone (format phone style).formatted same h,
    )
