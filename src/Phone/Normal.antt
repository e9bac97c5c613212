-- ===== src/Phone/Normal.antt =====
-- The normal form of a number.
use kigali_pack.Base.{
  ◌≡◌, refl, true, ◌&&◌, [], ◌∷◌, ◌++◌, length, drop, ◌==◌, Bool-cases, inl, inr,
}
use kigali_pack.Text.{
  Text, all, is_digit, only_digits, starts_with, all-only_digits, only_digits_of_all, all-drop,
}
use kigali_pack.Phone.Defs.{rwanda_country_code, country_prefix, normalize_digits, normalize}

-- A normal form that starts with the country code is its own normal form.
pub normalize_international :
    (s : Text) → all is_digit s ≡ true → normalize (country_prefix ++ s) ≡ country_prefix ++ s
unfolding normalize
normalize_international s h = rw (only_digits_of_all s h)

normalize_digits_lem :
    (raw digits : Text)
    → all is_digit digits ≡ true
    → only_digits raw ≡ digits
    → normalize (normalize_digits raw digits) ≡ normalize_digits raw digits
unfolding normalize
normalize_digits_lem raw digits h e = elim (Bool-cases (starts_with rwanda_country_code digits)) [
  | inl a ↦ rw a (rw (only_digits_of_all digits h) (rw a))
  | inr a ↦ rw a (elim (Bool-cases (starts_with (b'0' ∷ []) digits && length digits == 10)) [
    | inl b ↦ rw b (normalize_international (drop 1 digits) (all-drop 1 digits h))
    | inr b ↦ rw b (elim (Bool-cases (length digits == 9)) [
      | inl c ↦ rw c (normalize_international digits h)
      | inr c ↦ rw c (elim (Bool-cases (starts_with (b'+' ∷ []) raw)) [
        | inl d ↦ rw d (rw e (rw (a, b, c, d)))
        | inr d ↦ rw d (rw (only_digits_of_all digits h) (rw (a, b, c)))
      ])
    ])
  ])
]

-- Normalising a number a second time changes nothing.
pub normalize_idempotent : (raw : Text) → normalize (normalize raw) ≡ normalize raw
unfolding normalize
normalize_idempotent raw = normalize_digits_lem raw (only_digits raw) (all-only_digits raw) refl
