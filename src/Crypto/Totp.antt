-- ===== src/Crypto/Totp.antt =====
-- src/utils/totp-encryption.ts: iv, tag and data as hexadecimal text between colons.
use hashira_be_railway_deplo.Base.{ℕ, List, [], ◌∷◌, ◌++◌, Text, str, from_option}
use hashira_be_railway_deplo.Base.Hex.{hex_encode, hex_decode}
use hashira_be_railway_deplo.Base.Strings.{split}
use hashira_be_railway_deplo.Types.{other_error}
use hashira_be_railway_deplo.Platform.{Platform}
use hashira_be_railway_deplo.World.Monad.{App, draw, throw, or_throw, pure, ◌>>=◌}

module _ ⦃p : Platform⦄ where
  unfoldable pub totp_key : List ℕ
  totp_key =
      p.sha256_bytes
        (from_option (str "dev_totp_key_not_for_production_use!!") (λ k. k) p.totp_encryption_key)

  unfoldable pub join_totp : List ℕ → List ℕ × List ℕ → Text
  join_totp iv (tag, sealed) =
      hex_encode iv ++ (b':' ∷ (hex_encode tag ++ (b':' ∷ hex_encode sealed)))

  unfoldable pub encrypt_totp : Text → App Text
  unfolding totp_key join_totp
  encrypt_totp plaintext = do
    iv ← draw p.random_iv
    pure (join_totp iv (p.gcm_seal totp_key iv plaintext))

  unfoldable pub open_totp : List Text → App Text
  unfolding totp_key
  open_totp (iv_hex ∷ tag_hex ∷ data_hex ∷ []) =
      or_throw (p.gcm_open totp_key (hex_decode iv_hex) (hex_decode tag_hex) (hex_decode data_hex))
        (other_error (str "Unsupported state or unable to authenticate data"))
  open_totp _ = throw (other_error (str "Invalid encrypted TOTP format"))

  unfoldable pub decrypt_totp : Text → App Text
  unfolding open_totp
  decrypt_totp stored = open_totp (split b':' stored)
