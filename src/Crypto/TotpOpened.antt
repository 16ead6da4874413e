-- ===== src/Crypto/TotpOpened.antt =====
-- TOTP secrets come back from the database: src/utils/totp-encryption.ts.
use hashira_be_railway_deplo.Base.{◌≡◌, true, List, [], ◌∷◌, ℕ, Text, length, refl}
use hashira_be_railway_deplo.Base.Hex.{hex_encode, hex_decode-hex_encode}
use hashira_be_railway_deplo.Base.Split.{split-join_three, hex_encode-Without}
use hashira_be_railway_deplo.Base.Strings.{split}
use hashira_be_railway_deplo.Types.{ok}
use hashira_be_railway_deplo.Platform.{Platform}
use hashira_be_railway_deplo.World.{World}
use hashira_be_railway_deplo.Crypto.Cipher.{CipherLaws, Bytes, is_well_formed}
use hashira_be_railway_deplo.Crypto.Totp.{
  totp_key, join_totp, open_totp, encrypt_totp, decrypt_totp,
}

module _ ⦃p : Platform⦄ where
  split-join_totp :
      (iv tag sealed : List ℕ)
      → Bytes iv
      → Bytes tag
      → Bytes sealed
      → split b':' (join_totp iv (tag, sealed))
        ≡ hex_encode iv ∷ hex_encode tag ∷ hex_encode sealed ∷ []
  unfolding join_totp
  split-join_totp iv tag sealed hi ht hs =
      split-join_three b':' (hex_encode iv) (hex_encode tag) (hex_encode sealed)
        (hex_encode-Without iv hi) (hex_encode-Without tag ht) (hex_encode-Without sealed hs)

  length-totp_key : CipherLaws p → length totp_key ≡ 32
  unfolding totp_key
  length-totp_key laws = laws.length-sha256_bytes _

  -- Every well-formed secret is encrypted, and what it became is decrypted to the secret, in any
  -- later state.
  pub decrypt_totp-encrypt_totp :
      (secret : Text) (w later : World)
      → CipherLaws p
      → is_well_formed secret ≡ true
      → (stored : Text) × ((encrypt_totp secret w).0 ≡ ok stored)
        × (decrypt_totp stored later ≡ (ok secret, later))
  unfolding encrypt_totp decrypt_totp open_totp
  decrypt_totp-encrypt_totp secret w later laws proper =
      let iv = p.random_iv w.calls in
      let (tag, sealed) = p.gcm_seal totp_key iv secret in
      let hi = laws.random_iv-Bytes w.calls in
      let ht = laws.tag-Bytes totp_key iv secret in
      let hs = laws.sealed-Bytes totp_key iv secret in
      let opened =
        laws.gcm_open-gcm_seal totp_key iv secret (length-totp_key laws)
          (laws.length-random_iv w.calls) proper in
      (
        join_totp iv (tag, sealed),
        refl,
        rw
            (
              split-join_totp iv tag sealed hi ht hs,
              hex_decode-hex_encode iv hi,
              hex_decode-hex_encode tag ht,
              hex_decode-hex_encode sealed hs,
              opened,
            )
            refl,
      )
