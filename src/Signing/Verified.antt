-- ===== src/Signing/Verified.antt =====
-- A header that was built is verified.
use kigali_pack.Base.{
  ℕ, ◌≡◌, refl, ap, ◌∙◌, Bool, true, ◌&&◌, not, none, some, [], ◌∷◌, ◌++◌, arith, ltb, ◌==◌,
  if◌then◌else◌, length,
}
use kigali_pack.Text.{Text, all, is_digit}
use kigali_pack.Text.Decimal.{decimal, all-decimal_from}
use kigali_pack.Text.Split.{
  eq_text, eq_text_refl, split_on, split_on_free, split_on-append, free_of, is_space, solid, trim,
  trim-solid, all_weaken,
}
use kigali_pack.Signing.Header.{
  is_hex, SigningRuntime, valid, outside_tolerance, length_mismatch, mismatch, range_error, cut,
  value_of, later_or, entry, distance, is_ascii, compute_webhook_hmac, build_signature_header,
  number_of, parsed, parse_signature_header, timing_safe_equal, judge, verify_webhook_signature,
}

digits : (n : ℕ) → all is_digit (decimal n) ≡ true
unfolding decimal
digits n = all-decimal_from 20 n

digit_plain : (c : ℕ) → is_digit c ≡ true → not (c == b',') && not (is_space c) ≡ true
digit_plain c h = ground arith

hex_plain : (c : ℕ) → is_hex c ≡ true → not (c == b',') && not (is_space c) ≡ true
hex_plain c h = ground arith

hex_ascii : (c : ℕ) → is_hex c ≡ true → ltb c 128 ≡ true
hex_ascii c h = ground arith

module _ (rt : SigningRuntime) where
  -- The two parts of a header.
  abbrev time_part : ℕ → Text
  time_part timestamp = b't' ∷ b'=' ∷ decimal timestamp

  abbrev hash_part : Text → Text
  hash_part hash = b'v' ∷ b'1' ∷ b'=' ∷ hash

  plain : ℕ → Bool
  plain c = not (c == b',') && not (is_space c)

  plain_free : (s : Text) → all plain s ≡ true → free_of b',' s ≡ true
  unfolding plain
  plain_free s h = all_weaken plain (λ c. not (c == b',')) (λ c k. ground arith) s h

  plain-solid : (s : Text) → all plain s ≡ true → solid s ≡ true
  unfolding plain
  plain-solid s h = all_weaken plain (λ c. not (is_space c)) (λ c k. ground arith) s h

  time_plain : (n : ℕ) → all plain (time_part n) ≡ true
  unfolding plain
  time_plain n = all_weaken is_digit plain digit_plain (decimal n) (digits n)

  hash_plain : (hash : Text) → all is_hex hash ≡ true → all plain (hash_part hash) ≡ true
  unfolding plain
  hash_plain hash h = all_weaken is_hex plain hex_plain hash h

  header_parts :
      (n : ℕ) (hash : Text)
      → all is_hex hash ≡ true
      → split_on b',' (time_part n ++ b',' ∷ hash_part hash) ≡ time_part n ∷ hash_part hash ∷ []
  header_parts n hash h =
      split_on-append b',' (time_part n) (hash_part hash) (plain_free (time_part n) (time_plain n))
      ∙ ap (λ parts. time_part n ∷ parts)
          (split_on_free b',' (hash_part hash) (plain_free (hash_part hash) (hash_plain hash h)))

  cut_time : (n : ℕ) → cut b'=' (trim (time_part n)) ≡ some (b't' ∷ [], decimal n)
  unfolding cut
  cut_time n = ap (cut b'=') (trim-solid (time_part n) (plain-solid (time_part n) (time_plain n)))

  cut_hash :
      (hash : Text)
      → all is_hex hash ≡ true
      → cut b'=' (trim (hash_part hash)) ≡ some (b'v' ∷ b'1' ∷ [], hash)
  unfolding cut
  cut_hash hash h =
      ap (cut b'=') (trim-solid (hash_part hash) (plain-solid (hash_part hash) (hash_plain hash h)))

  -- The values of the two keys.
  values :
      (n : ℕ) (hash : Text)
      → all is_hex hash ≡ true
      → let parts = time_part n ∷ hash_part hash ∷ [] in
        (value_of (b't' ∷ []) parts ≡ some (decimal n))
        × (value_of (b'v' ∷ b'1' ∷ []) parts ≡ some hash)
  unfolding value_of
  values n hash h = (
    ap
          (λ o.
            later_or (later_or none (entry (b't' ∷ []) o))
              (entry (b't' ∷ []) (cut b'=' (trim (time_part n)))))
          (cut_hash hash h)
        ∙ ap (entry (b't' ∷ [])) (cut_time n),
    ap
        (λ o.
          later_or (later_or none (entry (b'v' ∷ b'1' ∷ []) o))
            (entry (b'v' ∷ b'1' ∷ []) (cut b'=' (trim (time_part n)))))
        (cut_hash hash h),
  )

  parsed-some :
      (n : ℕ) (s : Text)
      → length s ≡ 64
      → parsed rt (some n) (some s) ≡ some (record { timestamp = n; signature = s })
  parsed-some n [] h = absurd (omega arith)
  parsed-some n (c ∷ s) h = refl

  hash_hex :
      (secret raw_payload : Text) (timestamp : ℕ)
      → all is_hex (compute_webhook_hmac rt secret raw_payload timestamp) ≡ true
  unfolding compute_webhook_hmac
  hash_hex secret raw_payload timestamp =
      rt.hmac_hex secret (decimal timestamp ++ b'.' ∷ raw_payload)

  hash_length :
      (secret raw_payload : Text) (timestamp : ℕ)
      → length (compute_webhook_hmac rt secret raw_payload timestamp) ≡ 64
  unfolding compute_webhook_hmac
  hash_length secret raw_payload timestamp =
      rt.hmac_length secret (decimal timestamp ++ b'.' ∷ raw_payload)

  same_length : (n : ℕ) → (n == n) ≡ true
  same_length n = ground arith

  judged :
      (hash : Text)
      → is_ascii hash ≡ true
      → (if not (length hash == length hash)
          then length_mismatch
          else timing_safe_equal rt hash hash)
        ≡ valid
  judged hash ascii =
      ap (λ b. if not b then length_mismatch else timing_safe_equal rt hash hash)
        (same_length (length hash))
      ∙ ap (λ b. if not b then range_error else if eq_text hash hash then valid else mismatch) ascii
      ∙ ap (λ b. if b then valid else mismatch) (eq_text_refl hash)

  -- The parts of a built header are read back.
  pub parse_signature_header-build_signature_header :
      (secret raw_payload : Text) (timestamp : ℕ)
      → rt.number (decimal timestamp) ≡ some timestamp
      → parse_signature_header rt (build_signature_header rt secret raw_payload timestamp)
        ≡ some (record {
          timestamp = timestamp;
          signature = compute_webhook_hmac rt secret raw_payload timestamp;
        })
  unfolding parse_signature_header build_signature_header
  parse_signature_header-build_signature_header secret raw_payload timestamp reads =
      let hash = compute_webhook_hmac rt secret raw_payload timestamp in
      let hex = hash_hex secret raw_payload timestamp in
      let (at_t, at_v) = values timestamp hash hex in
      ap
        (λ parts.
          parsed rt (number_of rt (value_of (b't' ∷ []) parts)) (value_of (b'v' ∷ b'1' ∷ []) parts))
        (header_parts timestamp hash hex)
      ∙ ap
          (λ o.
            parsed rt (number_of rt o)
              (value_of (b'v' ∷ b'1' ∷ []) (time_part timestamp ∷ hash_part hash ∷ [])))
          at_t
      ∙ ap (parsed rt (rt.number (decimal timestamp))) at_v
      ∙ ap (λ o. parsed rt o (some hash)) reads
      ∙ parsed-some timestamp hash (hash_length secret raw_payload timestamp)

  -- A header that was built verifies for the same secret and payload as long as its timestamp is
  -- within the tolerance, and is refused for its age otherwise, where `Number` reads the timestamp
  -- back.
  pub verify_webhook_signature-build_signature_header :
      (secret raw_payload : Text) (timestamp tolerance now : ℕ)
      → rt.number (decimal timestamp) ≡ some timestamp
      → verify_webhook_signature rt secret raw_payload
          (build_signature_header rt secret raw_payload timestamp)
          tolerance
          now
        ≡ (if ltb tolerance (distance now timestamp) then outside_tolerance else valid)
  unfolding verify_webhook_signature
  verify_webhook_signature-build_signature_header secret raw_payload timestamp tolerance now reads =
      let hash = compute_webhook_hmac rt secret raw_payload timestamp in
      ap (judge rt secret raw_payload tolerance now)
        (parse_signature_header-build_signature_header secret raw_payload timestamp reads)
      ∙ ap (λ v. if ltb tolerance (distance now timestamp) then outside_tolerance else v)
          (judged hash (
            all_weaken is_hex (λ c. ltb c 128) hex_ascii hash
              (hash_hex secret raw_payload timestamp)))
