-- ===== src/Crypto/Envelope.antt =====
-- src/utils/encryption.ts: iv, tag and data in one base64 text. Empty text stays empty.
use hashira_be_railway_deplo.Base.{
  ℕ, ◌+◌, List, [], ◌∷◌, ◌++◌, Text, str, length, take, drop, ◌==◌, not,
}
use hashira_be_railway_deplo.Base.Strings.{truthy}
use hashira_be_railway_deplo.Types.{other_error}
use hashira_be_railway_deplo.Platform.{Platform}
use hashira_be_railway_deplo.World.Monad.{App, draw, throw_if, or_throw, pure, ◌>>=◌, ◌>>◌}

abbrev pub iv_length : ℕ
iv_length = 12

abbrev pub auth_tag_length : ℕ
auth_tag_length = 16

unfoldable pub join_envelope : List ℕ → List ℕ × List ℕ → List ℕ
join_envelope iv (tag, sealed) = iv ++ (tag ++ sealed)

module _ ⦃p : Platform⦄ where
  unfoldable pub get_key : App (List ℕ)
  get_key = do
    raw ←
        or_throw (truthy p.event_encryption_key)
          (other_error (str "EVENT_ENCRYPTION_KEY environment variable is not set"))
    let key = p.base64_decode raw
    throw_if (not (length key == 32))
        (other_error (str "EVENT_ENCRYPTION_KEY must be a 32-byte base64-encoded key"))
    pure key

  unfoldable pub encrypt : Text → App Text
  unfolding get_key join_envelope
  encrypt [] = pure []
  encrypt (c ∷ cs) = do
    key ← get_key
    iv ← draw p.random_iv
    pure (p.base64_encode (join_envelope iv (p.gcm_seal key iv (c ∷ cs))))

  unfoldable pub decrypt : Text → App Text
  unfolding get_key
  decrypt [] = pure []
  decrypt (c ∷ cs) = do
    key ← get_key
    let buf = p.base64_decode (c ∷ cs)
    or_throw
        (p.gcm_open key (take iv_length buf) (take auth_tag_length (drop iv_length buf))
          (drop (iv_length + auth_tag_length) buf))
        (other_error (str "Unsupported state or unable to authenticate data"))
