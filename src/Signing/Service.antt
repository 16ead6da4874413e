-- ===== src/Signing/Service.antt =====
-- signHash, getSignerAddress and recoverV of src/services/BlockchainSigningService.ts.
use hashira_be_railway_deplo.Base.{
  ℕ, Bool, false, Option, List, [], ◌∷◌, ◌++◌, ◌-◌, Text, str, length, drop, text_eq, if◌then◌else◌,
}
use hashira_be_railway_deplo.Base.Hex.{hex_encode}
use hashira_be_railway_deplo.Base.Strings.{truthy, to_lower_case}
use hashira_be_railway_deplo.Types.{Result, ok, err, other_error}
use hashira_be_railway_deplo.World.Monad.{App, pure, throw, draw, or_throw, from_result, ◌>>=◌}
use hashira_be_railway_deplo.Signing.Der.{Signature, parse_der_signature, parse_der_public_key}

-- AWS KMS and viem. A call of KMS fails, or answers with a field that may be absent.
pub record KeyService : Type 0 where
  -- process.env.KMS_SIGNING_KEY_ID
  pub key_id : Option Text
  -- SignCommand on a digest, and GetPublicKeyCommand
  pub sign : ℕ → Text → List ℕ → Result (Option (List ℕ))
  pub get_public_key : ℕ → Text → Result (Option (List ℕ))
  -- keccak256, as text with 0x, and getAddress, which writes the checksum in capitals
  pub keccak256 : List ℕ → Text
  pub get_address : Text → Result Text
  -- recoverAddress of a hash and a signature with its v
  pub recover_address : Text → Signature → ℕ → Result Text

pub record SignedHash : Type 0 where
  pub signature : Signature
  pub v : ℕ

-- `text.slice(-n)`
unfoldable pub last_units : ℕ → Text → Text
last_units n s = drop (length s - n) s

unfoldable pub hash_text : List ℕ → Text
hash_text digest = str "0x" ++ hex_encode digest

unfoldable pub same_address : Text → Text → Bool
same_address a b = text_eq (to_lower_case a) (to_lower_case b)

module _ ⦃k : KeyService⦄ where
  unfoldable pub get_signer_address : App Text
  unfolding last_units
  get_signer_address = do
    key_id ←
        or_throw (truthy k.key_id)
          (other_error (str "KMS_SIGNING_KEY_ID environment variable is not set"))
    answer ← draw (λ n. k.get_public_key n key_id)
    response ← from_result answer
    public_key ← or_throw response (other_error (str "KMS returned no public key"))
    bytes ← from_result (parse_der_public_key public_key)
    from_result (k.get_address (str "0x" ++ last_units 40 (k.keccak256 bytes)))

  -- Whether this v gives the signer; an error of recoverAddress is swallowed.
  unfoldable pub is_recovery : Text → Signature → Text → ℕ → Bool
  unfolding same_address
  is_recovery hash signature signer v = elim (k.recover_address hash signature v) [
    | ok recovered ↦ same_address recovered signer
    | err e ↦ false
  ]

  unfoldable pub first_recovery : Text → Signature → Text → List ℕ → App ℕ
  unfolding is_recovery
  first_recovery hash signature signer [] = throw (
      other_error
        (str "Could not determine recovery bit: neither v=27 nor v=28 recovers the signer address"))
  first_recovery hash signature signer (v ∷ vs) =
      let next = first_recovery hash signature signer vs in
      if is_recovery hash signature signer v then pure v else next

  unfoldable pub recover_v : List ℕ → Signature → App ℕ
  unfolding get_signer_address first_recovery hash_text
  recover_v digest signature = do
    signer ← get_signer_address
    first_recovery (hash_text digest) signature signer (27 ∷ 28 ∷ [])

  unfoldable pub sign_hash : List ℕ → App SignedHash
  unfolding recover_v
  sign_hash digest = do
    key_id ←
        or_throw (truthy k.key_id)
          (other_error (str "KMS_SIGNING_KEY_ID environment variable is not set"))
    answer ← draw (λ n. k.sign n key_id digest)
    response ← from_result answer
    der ← or_throw response (other_error (str "KMS returned no signature"))
    signature ← from_result (parse_der_signature der)
    v ← recover_v digest signature
    pure (record { signature = signature; v = v })
