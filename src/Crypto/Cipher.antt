-- ===== src/Crypto/Cipher.antt =====
-- What node documents of the cipher, of base64 and of randomBytes, for the code that stores secrets.
use hashira_be_railway_deplo.Base.{
  ℕ, ◌<◌, ◌≡◌, Bool, true, false, not, ◌&&◌, List, [], ◌∷◌, some, Text, length, leb, All,
}
use hashira_be_railway_deplo.Platform.{Platform}

abbrev pub Bytes : List ℕ → Type 0
Bytes = All (λ b. b < 256)

is_high_surrogate : ℕ → Bool
is_high_surrogate c = leb 0xd800 c && leb c 0xdbff

is_low_surrogate : ℕ → Bool
is_low_surrogate c = leb 0xdc00 c && leb c 0xdfff

-- Whether a low surrogate comes next exactly where one must.
well_formed_from : Bool → Text → Bool
unfolding is_high_surrogate is_low_surrogate
well_formed_from expected [] = not expected
well_formed_from true (c ∷ s) = is_low_surrogate c && well_formed_from false s
well_formed_from false (c ∷ s) =
    not (is_low_surrogate c) && well_formed_from (is_high_surrogate c) s

-- `s.isWellFormed()`: UTF-8 keeps no lone surrogate.
unfoldable pub is_well_formed : Text → Bool
unfolding well_formed_from
is_well_formed = well_formed_from false

pub record CipherLaws (p : Platform) : Type 0 where
  pub length-random_iv : (n : ℕ) → length (p.random_iv n) ≡ 12
  pub random_iv-Bytes : (n : ℕ) → Bytes (p.random_iv n)
  pub length-tag : (key iv : List ℕ) (text : Text) → length (p.gcm_seal key iv text).0 ≡ 16
  pub tag-Bytes : (key iv : List ℕ) (text : Text) → Bytes (p.gcm_seal key iv text).0
  pub sealed-Bytes : (key iv : List ℕ) (text : Text) → Bytes (p.gcm_seal key iv text).1
  pub gcm_open-gcm_seal :
      (key iv : List ℕ) (text : Text)
      → length key ≡ 32
      → length iv ≡ 12
      → is_well_formed text ≡ true
      → p.gcm_open key iv (p.gcm_seal key iv text).0 (p.gcm_seal key iv text).1 ≡ some text
  pub base64_decode-base64_encode :
      (bs : List ℕ) → Bytes bs → p.base64_decode (p.base64_encode bs) ≡ bs
  pub base64_decode-[] : p.base64_decode [] ≡ []
  pub length-sha256_bytes : (s : Text) → length (p.sha256_bytes s) ≡ 32
