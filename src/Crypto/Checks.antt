-- ===== src/Crypto/Checks.antt =====
-- A stand-in for the cipher, to run the storage of secrets on concrete text: it counts each code
-- unit out, and its tag is always the same.
use hashira_be_railway_deplo.Base.{
  ℕ, ◌+◌, ◌<◌, suc, zero, ◌≡◌, refl, true, List, [], ◌∷◌, ◌++◌, some, Text, str, All-append,
  if◌then◌else◌, ◌==◌, replicate, arith,
}
use hashira_be_railway_deplo.Types.{ok}
use hashira_be_railway_deplo.Platform.{Platform}
use hashira_be_railway_deplo.Crypto.Cipher.{CipherLaws, Bytes, is_well_formed}
use hashira_be_railway_deplo.Crypto.Envelope.{encrypt, decrypt}
use hashira_be_railway_deplo.Crypto.Opened.{decrypt-encrypt}
use hashira_be_railway_deplo.Crypto.Totp.{encrypt_totp, decrypt_totp}
use hashira_be_railway_deplo.Crypto.TotpOpened.{decrypt_totp-encrypt_totp}
use hashira_be_railway_deplo.Samples.Services.{demo, start}

abbrev count_out : Text → List ℕ
count_out [] = []
count_out (c ∷ s) = replicate c 1 ++ (0 ∷ count_out s)

abbrev count_back : ℕ → List ℕ → Text
count_back n [] = []
count_back n (b ∷ bs) =
    let unit = n ∷ count_back 0 bs in
    let more = count_back (n + 1) bs in if b == 0 then unit else more

count_back-replicate :
    (n c : ℕ) (bs : List ℕ) → count_back n (replicate c 1 ++ (0 ∷ bs)) ≡ (n + c) ∷ count_back 0 bs
count_back-replicate n zero bs = ground arith
count_back-replicate n (suc c) bs = ground (arith, count_back-replicate (n + 1) c bs)

count_back-count_out : (s : Text) → count_back 0 (count_out s) ≡ s
count_back-count_out [] = refl
count_back-count_out (c ∷ s) =
    ground (arith, count_back-replicate 0 c (count_out s), count_back-count_out s)

replicate-Bytes : (n b : ℕ) → b < 256 → Bytes (replicate n b)
replicate-Bytes zero b h = tt
replicate-Bytes (suc n) b h = (h, replicate-Bytes n b h)

count_out-Bytes : (s : Text) → Bytes (count_out s)
count_out-Bytes [] = tt
count_out-Bytes (c ∷ s) =
    All-append (λ b. b < 256) (replicate c 1) (0 ∷ count_out s) (replicate-Bytes c 1 (omega arith))
      (omega arith, count_out-Bytes s)

abbrev pub counting : Platform
counting = record demo {
  random_iv = λ n. replicate 12 5;
  sha256_bytes = λ s. replicate 32 9;
  gcm_seal = λ key iv text. (replicate 16 7, count_out text);
  gcm_open = λ key iv tag sealed. some (count_back 0 sealed);
}

pub counting-CipherLaws : CipherLaws counting
counting-CipherLaws = record {
  length-random_iv = λ n. refl;
  random_iv-Bytes = λ n. replicate-Bytes 12 5 (omega arith);
  length-tag = λ key iv text. refl;
  tag-Bytes = λ key iv text. replicate-Bytes 16 7 (omega arith);
  sealed-Bytes = λ key iv text. count_out-Bytes text;
  gcm_open-gcm_seal = λ key iv text a b c. ground (arith, count_back-count_out text);
  base64_decode-base64_encode = λ bs h. refl;
  base64_decode-[] = refl;
  length-sha256_bytes = λ s. refl;
}

abbrev secret : Text
secret = 3 ∷ 0 ∷ 4 ∷ []

proper_text : is_well_formed secret ≡ true
unfolding is_well_formed
proper_text = refl

decrypt-encrypt_example :
    (stored : Text) × ((encrypt ⦃p = counting⦄ secret start).0 ≡ ok stored)
    × (decrypt ⦃p = counting⦄ stored start ≡ (ok secret, start))
decrypt-encrypt_example =
    decrypt-encrypt ⦃p = counting⦄ (str "0123456789abcdef0123456789abcdef") secret start start
      counting-CipherLaws refl refl proper_text

decrypt_totp-encrypt_totp_example :
    (stored : Text) × ((encrypt_totp ⦃p = counting⦄ secret start).0 ≡ ok stored)
    × (decrypt_totp ⦃p = counting⦄ stored start ≡ (ok secret, start))
decrypt_totp-encrypt_totp_example =
    decrypt_totp-encrypt_totp ⦃p = counting⦄ secret start start counting-CipherLaws proper_text
