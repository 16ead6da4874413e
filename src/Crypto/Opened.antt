-- ===== src/Crypto/Opened.antt =====
-- Secrets at rest come back: src/utils/encryption.ts and src/utils/totp-encryption.ts.
use hashira_be_railway_deplo.Base.{
  ◌≡◌, refl, sym, ap, ◌∙◌, ℕ, ◌+◌, ◌<◌, true, some, List, [], ◌∷◌, ◌++◌, Text, arith, length, take,
  drop, All-append, take-append, drop-append, drop-append_add, length-append,
}
use hashira_be_railway_deplo.Types.{ok}
use hashira_be_railway_deplo.Platform.{Platform}
use hashira_be_railway_deplo.World.{World}
use hashira_be_railway_deplo.Crypto.Cipher.{CipherLaws, is_well_formed}
use hashira_be_railway_deplo.Crypto.Envelope.{
  encrypt, decrypt, get_key, join_envelope, iv_length, auth_tag_length,
}

-- The three pieces of an envelope, by their lengths.
module _ (iv tag sealed : List ℕ) (h12 : length iv ≡ 12) (h16 : length tag ≡ 16) where
  envelope-iv : take iv_length (iv ++ (tag ++ sealed)) ≡ iv
  envelope-iv = rw (sym h12) (take-append iv (tag ++ sealed))

  envelope-rest : drop iv_length (iv ++ (tag ++ sealed)) ≡ tag ++ sealed
  envelope-rest = rw (sym h12) (drop-append iv (tag ++ sealed))

  envelope-tag : take auth_tag_length (drop iv_length (iv ++ (tag ++ sealed))) ≡ tag
  envelope-tag = rw (envelope-rest, sym h16) (take-append tag sealed)

  envelope-data : drop (iv_length + auth_tag_length) (iv ++ (tag ++ sealed)) ≡ sealed
  envelope-data =
      drop-append_add 28 16 iv (tag ++ sealed) (omega (arith, h12))
      ∙ rw (sym h16) (drop-append tag sealed)

module _ ⦃p : Platform⦄ where
  get_key-configured :
      (raw : Text) (w : World)
      → CipherLaws p
      → p.event_encryption_key ≡ some raw
      → length (p.base64_decode raw) ≡ 32
      → get_key w ≡ (ok (p.base64_decode raw), w)
  unfolding get_key
  get_key-configured [] w laws configured fits = absurd (ground (arith, laws.base64_decode-[]))
  get_key-configured (c ∷ raw) w laws configured fits = ground arith

  -- Opening text that holds an envelope.
  decrypt-join_envelope :
      (key iv tag sealed : List ℕ) (stored text : Text) (w : World)
      → p.base64_decode [] ≡ []
      → get_key w ≡ (ok key, w)
      → length iv ≡ 12
      → length tag ≡ 16
      → p.base64_decode stored ≡ iv ++ (tag ++ sealed)
      → p.gcm_open key iv tag sealed ≡ some text
      → decrypt stored w ≡ (ok text, w)
  unfolding decrypt
  decrypt-join_envelope key iv tag sealed [] text w empty known h12 h16 decoded opened =
      absurd (omega (arith, length-append iv (tag ++ sealed), ap length (sym empty ∙ decoded), h12))
  decrypt-join_envelope key iv tag sealed (c ∷ cs) text w empty known h12 h16 decoded opened =
      ground (
        arith,
        envelope-iv iv tag sealed h12 h16,
        envelope-tag iv tag sealed h12 h16,
        envelope-data iv tag sealed h12 h16,
      )

  -- With a key of 32 bytes in EVENT_ENCRYPTION_KEY, every well-formed text is encrypted, and what
  -- it became is decrypted to the text, in any later state; that is so for the empty text, too.
  pub decrypt-encrypt :
      (raw text : Text) (w later : World)
      → CipherLaws p
      → p.event_encryption_key ≡ some raw
      → length (p.base64_decode raw) ≡ 32
      → is_well_formed text ≡ true
      → (stored : Text) × ((encrypt text w).0 ≡ ok stored)
        × (decrypt stored later ≡ (ok text, later))
  unfolding encrypt decrypt join_envelope
  decrypt-encrypt raw [] w later laws configured fits proper = ([], refl, refl)
  decrypt-encrypt raw (c ∷ cs) w later laws configured fits proper =
      let key = p.base64_decode raw in
      let iv = p.random_iv w.calls in
      let (tag, sealed) = p.gcm_seal key iv (c ∷ cs) in
      let stored = p.base64_encode (iv ++ (tag ++ sealed)) in
      let known = get_key-configured raw w laws configured fits in
      (
        stored,
        ground (arith, known, ap (λ r. r.0) known),
        decrypt-join_envelope key iv tag sealed stored (c ∷ cs) later laws.base64_decode-[]
            (get_key-configured raw later laws configured fits) (laws.length-random_iv w.calls)
            (laws.length-tag key iv (c ∷ cs))
            (laws.base64_decode-base64_encode (iv ++ (tag ++ sealed)) (
              All-append (λ b. b < 256) iv (tag ++ sealed) (laws.random_iv-Bytes w.calls)
                (All-append (λ b. b < 256) tag sealed (laws.tag-Bytes key iv (c ∷ cs))
                  (laws.sealed-Bytes key iv (c ∷ cs)))))
            (laws.gcm_open-gcm_seal key iv (c ∷ cs) fits (laws.length-random_iv w.calls) proper),
      )
