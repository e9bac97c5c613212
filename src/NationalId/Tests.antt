-- ===== src/NationalId/Tests.antt =====
-- Runs of the lookup and of the generator.
use kigali_pack.Base.{◌≡◌, refl, true, none, some, inr, arith, length}
use kigali_pack.Text.{Text, codes, all, is_digit}
use kigali_pack.NationalId.Defs.{
  scrub, identity_of, Identity, run_mock_kyc_profile_lookup, generate_national_id,
  nida_sixteen_digit_pattern,
}
use kigali_pack.NationalId.Laws.{run_mock_kyc_profile_lookup_sound, IsDrawn, generated_refused}

abbrev spaced_id : Text
spaced_id = codes "1 1990 8 00123456 21"

abbrev spaced_identity : Identity
spaced_identity = identity_of (codes "1199080012345621")

lookup_spaced_id : run_mock_kyc_profile_lookup spaced_id ≡ some spaced_identity
unfolding run_mock_kyc_profile_lookup
lookup_spaced_id = refl

run_mock_kyc_profile_lookup_sound_example :
    (spaced_identity.national_id ≡ scrub spaced_id)
    × (length spaced_identity.national_id ≡ 16)
    × (all is_digit spaced_identity.national_id ≡ true)
    × (run_mock_kyc_profile_lookup spaced_identity.national_id ≡ some spaced_identity)
run_mock_kyc_profile_lookup_sound_example =
    run_mock_kyc_profile_lookup_sound spaced_id lookup_spaced_id

drawn : IsDrawn 1990 b'8' 42 17
drawn = record {
  year_low = omega arith;
  year_high = omega arith;
  gender_digit = inr refl;
  serial_high = omega arith;
  checksum_low = omega arith;
  checksum_high = omega arith;
}

generated_refused_example :
    let id = generate_national_id 1990 b'8' 42 17 in
    (length id ≡ 15)
    × (nida_sixteen_digit_pattern id ≡ true)
    × (run_mock_kyc_profile_lookup id ≡ none)
generated_refused_example = generated_refused 1990 b'8' 42 17 drawn
