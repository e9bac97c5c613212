-- ===== src/Signing/Header.antt =====
-- computeWebhookHmac, buildSignatureHeader, parseSignatureHeader and verifyWebhookSignature
-- (common/utils/webhook-signing.util.ts). Texts are lists of code units, the time is an argument.
use kigali_pack.Base.{
  ℕ, ◌+◌, ◌-◌, ◌≡◌, Bool, true, ◌&&◌, ◌||◌, not, Option, none, some, List, [], ◌∷◌, ◌++◌, leb, ltb,
  ◌==◌, if◌then◌else◌, length,
}
use kigali_pack.Text.{Text, all, is_digit}
use kigali_pack.Text.Decimal.{decimal}
use kigali_pack.Text.Split.{eq_text, split_on, trim}

abbrev pub webhook_signature_tolerance_seconds : ℕ
webhook_signature_tolerance_seconds = 300

abbrev pub is_hex : ℕ → Bool
is_hex c = is_digit c || (leb b'a' c && leb c b'f')

-- The HMAC-SHA256 of a content under a secret, in hexadecimal, and `Number(s)` where it gives a
-- natural number; a header whose timestamp is another finite number is left out.
pub record SigningRuntime : Type 0 where
  pub hmac : Text → Text → Text
  pub number : Text → Option ℕ
  pub hmac_hex : (secret content : Text) → all is_hex (hmac secret content) ≡ true
  pub hmac_length : (secret content : Text) → length (hmac secret content) ≡ 64

pub record ParsedWebhookSignature : Type 0 where
  pub timestamp : ℕ
  pub signature : Text

-- The verdicts; with bytes of different numbers the comparison throws.
pub data Verdict : Type 0 where
  valid malformed outside_tolerance length_mismatch mismatch range_error : Verdict

-- A part before the first `sep`, and what follows it.
unfoldable pub cut : ℕ → Text → Option (Text × Text)
cut sep [] = none
cut sep (c ∷ s) = let rest = cut sep s in if c == sep then some ([], s) else grown c rest
  where
    grown : ℕ → Option (Text × Text) → Option (Text × Text)
    grown c none = none
    grown c (some (k, v)) = some (c ∷ k, v)

-- The value of a part that has the key.
abbrev pub entry : Text → Option (Text × Text) → Option Text
entry key none = none
entry key (some (k, v)) = if eq_text k key then some v else none

abbrev pub later_or : Option Text → Option Text → Option Text
later_or (some v) old = some v
later_or none old = old

-- `parts[key]`, for a key that is not empty: a later part with the key counts.
unfoldable pub value_of : Text → List Text → Option Text
value_of key [] = none
value_of key (part ∷ parts) = later_or (value_of key parts) (entry key (cut b'=' (trim part)))

abbrev pub distance : ℕ → ℕ → ℕ
distance a b = (a - b) + (b - a)

abbrev pub is_ascii : Text → Bool
is_ascii s = all (λ c. ltb c 128) s

module _ (rt : SigningRuntime) where
  unfoldable pub compute_webhook_hmac : Text → Text → ℕ → Text
  compute_webhook_hmac secret raw_payload timestamp =
      rt.hmac secret (decimal timestamp ++ b'.' ∷ raw_payload)

  unfoldable pub build_signature_header : Text → Text → ℕ → Text
  build_signature_header secret raw_payload timestamp =
      (b't' ∷ b'=' ∷ decimal timestamp)
      ++ b',' ∷ b'v' ∷ b'1' ∷ b'=' ∷ compute_webhook_hmac secret raw_payload timestamp

  abbrev pub number_of : Option Text → Option ℕ
  number_of none = none
  number_of (some s) = rt.number s

  abbrev pub parsed : Option ℕ → Option Text → Option ParsedWebhookSignature
  parsed none signature = none
  parsed (some timestamp) none = none
  parsed (some timestamp) (some []) = none
  parsed (some timestamp) (some (c ∷ s)) =
      some (record { timestamp = timestamp; signature = c ∷ s })

  unfoldable pub parse_signature_header : Text → Option ParsedWebhookSignature
  parse_signature_header header_value =
      let parts = split_on b',' header_value in
      parsed (number_of (value_of (b't' ∷ []) parts)) (value_of (b'v' ∷ b'1' ∷ []) parts)

  -- `timingSafeEqual` of texts of the same length, the first of them ASCII.
  abbrev pub timing_safe_equal : Text → Text → Verdict
  timing_safe_equal expected signature =
      if not (is_ascii signature)
      then range_error
      else if eq_text expected signature
      then valid
      else mismatch

  abbrev pub judge : Text → Text → ℕ → ℕ → Option ParsedWebhookSignature → Verdict
  judge secret raw_payload tolerance now none = malformed
  judge secret raw_payload tolerance now (some p) =
      let expected = compute_webhook_hmac secret raw_payload p.timestamp in
      if ltb tolerance (distance now p.timestamp)
      then outside_tolerance
      else if not (length expected == length p.signature)
      then length_mismatch
      else timing_safe_equal expected p.signature

  unfoldable pub verify_webhook_signature : Text → Text → Text → ℕ → ℕ → Verdict
  verify_webhook_signature secret raw_payload header_value tolerance now =
      judge secret raw_payload tolerance now (parse_signature_header header_value)
