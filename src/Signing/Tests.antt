-- ===== src/Signing/Tests.antt =====
-- A header under a digest of sixty-four digits.
use kigali_pack.Base.{
  ℕ, zero, suc, ◌+◌, ◌-◌, ◌*◌, ◌%◌, ◌≡◌, refl, true, some, [], ◌∷◌, ◌++◌, arith, length,
}
use kigali_pack.Text.{Text, all, codes}
use kigali_pack.Text.Decimal.{decimal, decimal_from}
use kigali_pack.Signing.Header.{
  is_hex, SigningRuntime, valid, mismatch, cut, value_of, compute_webhook_hmac,
  build_signature_header, parse_signature_header, verify_webhook_signature,
}
use kigali_pack.Text.Split.{split_on, trim_end}
use kigali_pack.Signing.Verified.{verify_webhook_signature-build_signature_header}

abbrev sum : Text → ℕ
sum [] = 0
sum (c ∷ s) = c + sum s

abbrev fill : ℕ → ℕ → Text
fill zero k = []
fill (suc n) k = (b'0' + (k + n) % 10) ∷ fill n k

fill-hex : (n k : ℕ) → all is_hex (fill n k) ≡ true
fill-hex zero k = refl
fill-hex (suc n) k = ground (arith, fill-hex n k)

length-fill : (n k : ℕ) → length (fill n k) ≡ n
length-fill zero k = refl
length-fill (suc n) k = omega (arith, length-fill n k)

abbrev digits_value : ℕ → Text → ℕ
digits_value n [] = n
digits_value n (c ∷ s) = digits_value (n * 10 + (c - b'0')) s

abbrev runtime : SigningRuntime
unfolding fill-hex length-fill
runtime = record {
  hmac = λ secret content. fill 64 (sum (secret ++ content));
  number = λ s. some (digits_value 0 s);
  hmac_hex = λ secret content. fill-hex 64 (sum (secret ++ content));
  hmac_length = λ secret content. length-fill 64 (sum (secret ++ content));
}

abbrev secret : Text
secret = codes "whsec"

abbrev payload : Text
payload = codes "{\"event\":\"payment.success\"}"

-- Another payload under the same header.
tampered :
    verify_webhook_signature runtime secret
      (codes "{}")
      (build_signature_header runtime secret payload 1700000000)
      300
      1700000100
    ≡ mismatch
unfolding runtime verify_webhook_signature build_signature_header parse_signature_header
    compute_webhook_hmac split_on trim_end cut value_of decimal decimal_from
tampered = refl

reads_back : runtime.number (decimal 1700000000) ≡ some 1700000000
unfolding runtime decimal decimal_from
reads_back = refl

verify_webhook_signature-build_signature_header_example :
    verify_webhook_signature runtime secret payload
      (build_signature_header runtime secret payload 1700000000)
      300
      1700000100
    ≡ valid
verify_webhook_signature-build_signature_header_example =
    verify_webhook_signature-build_signature_header runtime secret payload 1700000000 300 1700000100
      reads_back
