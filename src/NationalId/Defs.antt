-- ===== src/NationalId/Defs.antt =====
-- The two patterns, the mock lookup and the generator.
use kigali_pack.Base.{
  ℕ, Bool, false, ◌&&◌, ◌||◌, Option, none, some, [], ◌∷◌, ◌++◌, ◌+◌, length, drop, leb, ◌==◌,
  if◌then◌else◌, not,
}
use kigali_pack.Text.{Text, all, is_digit}
use kigali_pack.Text.Decimal.{decimal, pad_start}

-- `/^1(19|20)\d{2}[78]\d{serial}\d{2}$/`
unfoldable pub nida_pattern : ℕ → Text → Bool
nida_pattern serial (a ∷ b ∷ c ∷ d ∷ e ∷ f ∷ rest) =
    a == b'1'
    && ((b == b'1' && c == b'9') || (b == b'2' && c == b'0'))
    && (is_digit d && is_digit e)
    && (f == b'7' || f == b'8')
    && (length rest == serial + 2 && all is_digit rest)
nida_pattern serial _ = false

-- kyc.controller.ts
abbrev pub nida_format_pattern : Text → Bool
nida_format_pattern = nida_pattern 8

-- master-core-snapshot.controller.ts
abbrev pub nida_sixteen_digit_pattern : Text → Bool
nida_sixteen_digit_pattern = nida_pattern 7

-- `\s`: the white space and line ends of the language.
abbrev pub is_space : ℕ → Bool
is_space c =
    (leb 9 c && leb c 13)
    || c == 32
    || c == 160
    || c == 5760
    || (leb 8192 c && leb c 8202)
    || c == 8232
    || c == 8233
    || c == 8239
    || c == 8287
    || c == 12288
    || c == 65279

-- `replace(/\s+/g, '')`
unfoldable pub scrub : Text → Text
scrub [] = []
scrub (c ∷ s) = if is_space c then scrub s else c ∷ scrub s

pub data Gender : Type 0 where
  male female : Gender

-- The identity of the reply, without the names, which are the developer's, and the constants.
pub record Identity : Type 0 where
  pub national_id : Text
  pub gender : Gender
  pub birth_year : Text

abbrev char_at : ℕ → Text → ℕ
char_at i s = elim (drop i s) [ [] ↦ 0 | c ∷ _ ↦ c ]

abbrev slice_1_5 : Text → Text
slice_1_5 (a ∷ b ∷ c ∷ d ∷ e ∷ _) = b ∷ c ∷ d ∷ e ∷ []
slice_1_5 s = drop 1 s

abbrev pub identity_of : Text → Identity
identity_of scrubbed_id = record {
  national_id = scrubbed_id;
  gender = if char_at 5 scrubbed_id == b'8' then male else female;
  birth_year = slice_1_5 scrubbed_id;
}

-- `none` is the BadRequestException of a malformed number.
unfoldable pub run_mock_kyc_profile_lookup : Text → Option Identity
unfolding scrub nida_pattern
run_mock_kyc_profile_lookup national_id =
    let scrubbed_id = scrub national_id in
    if not (nida_format_pattern scrubbed_id) then none else some (identity_of scrubbed_id)

-- The four random draws are arguments: randomInt(1985, 2004), randomItem(['7', '8']),
-- randomInt(0, 9999999) and randomInt(10, 99).
unfoldable pub generate_national_id : ℕ → ℕ → ℕ → ℕ → Text
generate_national_id birth_year gender_digit serial checksum =
    b'1' ∷ (decimal birth_year ++ gender_digit ∷ (pad_start 7 (decimal serial) ++ decimal checksum))
