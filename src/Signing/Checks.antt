-- ===== src/Signing/Checks.antt =====
-- A key service that answers with fixed DER, and each theorem about signing at it.
use hashira_be_railway_deplo.Base.{
  ◌⊎◌, ◌≢◌, ℕ, ◌≡◌, text_eq, refl, inr, [], ◌∷◌, ◌++◌, List, some, Text, str, arith, replicate,
  ◌==◌, if◌then◌else◌,
}
use hashira_be_railway_deplo.Base.Hex.{hex_encode}
use hashira_be_railway_deplo.Base.Strings.{to_lower_case, pad_start}
use hashira_be_railway_deplo.Types.{ok, err, other_error}
use hashira_be_railway_deplo.Signing.Der.{parse_der_signature, parse_der_public_key}
use hashira_be_railway_deplo.Signing.Encoding.{LengthField, der_signature, der_integer, contents}
use hashira_be_railway_deplo.Signing.RoundTrip.{
  word, parse_der_signature-word, parse_der_public_key-point,
}
use hashira_be_railway_deplo.Signing.Service.{KeyService, SignedHash, sign_hash}
use hashira_be_railway_deplo.Signing.Signed.{
  Signed, Recovers, words, sign_hash-Signed, sign_hash_complete,
}
use hashira_be_railway_deplo.Samples.Services.{start}

abbrev point : List ℕ
point = replicate 64 9

-- The form of a compressed point.
abbrev compressed : ℕ
compressed = 3

abbrev address : Text
address = str "0xAbcdefabcdefabcdefabcdefabcdefabcdefabcd"

abbrev kms_answer : List ℕ
kms_answer = der_signature (10 ∷ []) 200 (1 ∷ []) 5 (6 ∷ []) []

abbrev fixed : KeyService
fixed = record {
  key_id = some (str "alias/anchor");
  sign = λ n key_id digest. ok (some kms_answer);
  get_public_key = λ n key_id. ok (some (48 ∷ 86 ∷ 4 ∷ point));
  keccak256 = λ bytes. str "0x11abcdefabcdefabcdefabcdefabcdefabcdefabcd";
  get_address = λ s. ok address;
  recover_address = λ hash signature v.
      if v == 28 then ok (to_lower_case address) else err (other_error (str "invalid"));
}

-- 200 stands behind a zero in DER, and 5 does not.
parse_der_signature-word_example :
    parse_der_signature (der_signature (10 ∷ []) 200 (1 ∷ []) 5 (6 ∷ []) [])
    ≡ ok (record {
      r = str "0x" ++ hex_encode (word (200 ∷ 1 ∷ []));
      s = str "0x" ++ hex_encode (word (5 ∷ 6 ∷ []));
    })
parse_der_signature-word_example =
    parse_der_signature-word (10 ∷ []) (1 ∷ []) (6 ∷ []) [] 200 5
      (LengthField.short 10 (omega arith)) (omega arith) (omega arith) (omega arith) (omega arith)

parse_der_public_key-point_example :
    ((compressed ≡ 4) × (parse_der_public_key (48 ∷ 86 ∷ compressed ∷ point) ≡ ok point))
    ⊎ ((compressed ≢ 4)
        × (parse_der_public_key (48 ∷ 86 ∷ compressed ∷ point)
            ≡ err (
                other_error
                  (str "Expected uncompressed secp256k1 public key (0x04 prefix not found)"))))
parse_der_public_key-point_example = parse_der_public_key-point (48 ∷ 86 ∷ []) point compressed refl

abbrev signed : SignedHash
signed = record { signature = words 200 (1 ∷ []) 5 (6 ∷ []); v = 28 }

sign_start : sign_hash ⦃k = fixed⦄ (1 ∷ 2 ∷ []) start ≡ (ok signed, record start { calls = 2 })
unfolding sign_hash parse_der_signature der_integer contents parse_der_public_key text_eq
    to_lower_case hex_encode pad_start
sign_start = refl

sign_hash-Signed_example : Signed ⦃k = fixed⦄ (1 ∷ 2 ∷ []) signed start
sign_hash-Signed_example =
    sign_hash-Signed ⦃k = fixed⦄ (1 ∷ 2 ∷ []) signed start (record start { calls = 2 }) sign_start

by_28 : Recovers ⦃k = fixed⦄ (1 ∷ 2 ∷ []) (words 200 (1 ∷ []) 5 (6 ∷ [])) address 28
unfolding to_lower_case
by_28 = record { recovered = to_lower_case address; outcome = refl; same = refl }

sign_hash_complete_example :
    (u : ℕ) × ((sign_hash ⦃k = fixed⦄ (1 ∷ 2 ∷ []) start).0
      ≡ ok (record { signature = words 200 (1 ∷ []) 5 (6 ∷ []); v = u }))
sign_hash_complete_example =
    sign_hash_complete ⦃k = fixed⦄ (1 ∷ 2 ∷ []) (10 ∷ []) (1 ∷ []) (6 ∷ []) (48 ∷ 86 ∷ []) point 200
      5 28 (str "alias/anchor") address start (LengthField.short 10 (omega arith)) (omega arith)
      (omega arith) (omega arith) (omega arith) refl refl refl refl refl (inr refl) by_28
