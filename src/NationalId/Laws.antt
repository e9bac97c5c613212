-- ===== src/NationalId/Laws.antt =====
-- What the mock lookup accepts, and why it refuses every generated number.
use mathlib.Core.Option.{some-injective}
use kigali_pack.Base.{
  ℕ, ◌+◌, ◌≤◌, ◌≡◌, ◌≢◌, refl, ◌⊎◌, true, false, none, some, [], ◌∷◌, arith, ap, ◌∙◌, sym, inl, inr,
  Bool-cases, ◌/◌, ◌%◌, length, length-append,
}
use kigali_pack.Text.{Text, all, is_digit}
use kigali_pack.Text.Decimal.{
  decimal, pad_start, pad_start_seven, all-append, decimal_two, decimal_four,
}
use kigali_pack.NationalId.Defs.{
  nida_pattern, nida_format_pattern, nida_sixteen_digit_pattern, is_space, scrub,
  run_mock_kyc_profile_lookup, generate_national_id, Identity, identity_of,
}

digit_not_space : (c : ℕ) → is_digit c ≡ true → is_space c ≡ false
digit_not_space c h = ground arith

scrub_of_all : (s : Text) → all is_digit s ≡ true → scrub s ≡ s
unfolding scrub
scrub_of_all [] h = refl
scrub_of_all (c ∷ s) h =
    rw (digit_not_space c (all-head c s h)) (ap (λ t. c ∷ t) (scrub_of_all s (all-tail c s h)))
  where
    all-head : (c : ℕ) (s : Text) → all is_digit (c ∷ s) ≡ true → is_digit c ≡ true
    all-head c s h = ground arith

    all-tail : (c : ℕ) (s : Text) → all is_digit (c ∷ s) ≡ true → all is_digit s ≡ true
    all-tail c s h = ground arith

-- A number that fits the pattern has exactly eight digits and `serial` more.
nida_pattern_digits :
    (serial : ℕ) (s : Text)
    → nida_pattern serial s ≡ true
    → (length s ≡ serial + 8) × (all is_digit s ≡ true)
unfolding nida_pattern
nida_pattern_digits serial [] h = cc
nida_pattern_digits serial (a ∷ []) h = cc
nida_pattern_digits serial (a ∷ b ∷ []) h = cc
nida_pattern_digits serial (a ∷ b ∷ c ∷ []) h = cc
nida_pattern_digits serial (a ∷ b ∷ c ∷ d ∷ []) h = cc
nida_pattern_digits serial (a ∷ b ∷ c ∷ d ∷ e ∷ []) h = cc
nida_pattern_digits serial (a ∷ b ∷ c ∷ d ∷ e ∷ f ∷ rest) h = ground arith

lookup_of_pattern :
    (s : Text)
    → nida_format_pattern (scrub s) ≡ true
    → run_mock_kyc_profile_lookup s ≡ some (identity_of (scrub s))
unfolding run_mock_kyc_profile_lookup
lookup_of_pattern s h = rw h

lookup_of_mismatch :
    (s : Text) → nida_format_pattern (scrub s) ≡ false → run_mock_kyc_profile_lookup s ≡ none
unfolding run_mock_kyc_profile_lookup
lookup_of_mismatch s h = rw h

-- A lookup succeeds only for a number that is, once its white space is dropped, sixteen digits;
-- the reply carries exactly that number, and looking the replied number up gives the same reply.
pub run_mock_kyc_profile_lookup_sound :
    (s : Text) {i : Identity}
    → run_mock_kyc_profile_lookup s ≡ some i
    → (i.national_id ≡ scrub s)
      × (length i.national_id ≡ 16)
      × (all is_digit i.national_id ≡ true)
      × (run_mock_kyc_profile_lookup i.national_id ≡ some i)
run_mock_kyc_profile_lookup_sound s {i} h = elim (Bool-cases (nida_format_pattern (scrub s))) [
  | inl a ↦
      let e : identity_of (scrub s) ≡ i = some-injective _ _ (sym (lookup_of_pattern s a) ∙ h) in
      let (len, digits) = nida_pattern_digits 8 (scrub s) a in
      let same : scrub (scrub s) ≡ scrub s = scrub_of_all (scrub s) digits in
      rw (← e) (
        refl,
        omega arith,
        digits,
        lookup_of_pattern (scrub s) (rw same a) ∙ ap (λ t. some (identity_of t)) same,
      )
  | inr a ↦ cc (lookup_of_mismatch s a)
]

mismatch_of_length : (n : ℕ) (s : Text) → length s ≡ n → n ≢ 16 → nida_format_pattern s ≡ false
mismatch_of_length n s len h = elim (Bool-cases (nida_format_pattern s)) [
  | inl a ↦ absurd (h (sym len ∙ (nida_pattern_digits 8 s a).0))
  | inr a ↦ a
]

module _ (year gender serial checksum : ℕ) where
  -- The ranges that the generator draws from.
  pub record IsDrawn : Type 0 where
    pub year_low : 1985 ≤ year
    pub year_high : year ≤ 2004
    pub gender_digit : (gender ≡ b'7') ⊎ (gender ≡ b'8')
    pub serial_high : serial ≤ 9999999
    pub checksum_low : 10 ≤ checksum
    pub checksum_high : checksum ≤ 99

  generate_national_id-pattern :
      IsDrawn → nida_sixteen_digit_pattern (generate_national_id year gender serial checksum) ≡ true
  unfolding generate_national_id nida_pattern
  generate_national_id-pattern d = rw (decimal_four year (omega arith) (omega arith)) (
      rw (decimal_two checksum (omega arith) (omega arith)) (
        ground (
          arith,
          pad_start_seven serial,
          length-append (pad_start 7 (decimal serial))
              ((b'0' + checksum / 10) ∷ (b'0' + checksum % 10) ∷ []),
          all-append (pad_start 7 (decimal serial))
              ((b'0' + checksum / 10) ∷ (b'0' + checksum % 10) ∷ []),
        )))

  -- Every number that the generator draws has fifteen digits, a digit less than a national ID: it
  -- fits the published pattern, and the mock lookup of the same service refuses it.
  pub generated_refused :
      IsDrawn
      → let id = generate_national_id year gender serial checksum in
        (length id ≡ 15)
        × (nida_sixteen_digit_pattern id ≡ true)
        × (run_mock_kyc_profile_lookup id ≡ none)
  generated_refused d =
      let id = generate_national_id year gender serial checksum in
      let p = generate_national_id-pattern d in
      let (len, digits) = nida_pattern_digits 7 id p in
      (
        len,
        p,
        lookup_of_mismatch id
            (rw (scrub_of_all id digits) (mismatch_of_length 15 id len (omega arith))),
      )
