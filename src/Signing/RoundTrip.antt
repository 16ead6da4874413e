-- ===== src/Signing/RoundTrip.antt =====
-- What the parsers of src/services/BlockchainSigningService.ts make of well-formed DER.
use hashira_be_railway_deplo.Base.{
  ◌≢◌, ◌⊎◌, inl, inr, Bool-cases, ◌==◌, ℕ, zero, suc, ◌*◌, ◌-◌, ◌<◌, ◌≤◌, ◌≡◌, refl, ap, List, ◌∷◌,
  ◌++◌, str, arith, length, replicate, drop-append_add, length-append,
}
use hashira_be_railway_deplo.Base.Hex.{hex_encode, hex_digit, length-hex_encode}
use hashira_be_railway_deplo.Base.Strings.{pad_start}
use hashira_be_railway_deplo.Types.{ok, err, other_error}
use hashira_be_railway_deplo.Signing.Der.{
  is_byte, quantity, parse_der_signature, parse_der_public_key,
}
use hashira_be_railway_deplo.Signing.Encoding.{
  LengthField, der_signature, parse_der_signature-der_signature,
}

-- A magnitude as 32 big-endian bytes.
abbrev pub word : List ℕ → List ℕ
word m = replicate (32 - length m) 0 ++ m

hex_encode-zeros :
    (j n : ℕ) (m : List ℕ)
    → n ≡ 2 * j
    → replicate n b'0' ++ hex_encode m ≡ hex_encode (replicate j 0 ++ m)
unfolding hex_encode hex_digit
hex_encode-zeros zero n m h = let none_left : n ≡ 0 = omega (arith, h) in rw none_left refl
hex_encode-zeros (suc j) zero m h = absurd (omega (arith, h))
hex_encode-zeros (suc j) (suc zero) m h = absurd (omega (arith, h))
hex_encode-zeros (suc j) (suc (suc n)) m h =
    ap (λ t. b'0' ∷ b'0' ∷ t) (hex_encode-zeros j n m (omega (arith, h)))

quantity-word : (m : List ℕ) → length m ≤ 32 → quantity m ≡ str "0x" ++ hex_encode (word m)
unfolding quantity pad_start
quantity-word m h =
    ap (λ t. b'0' ∷ b'x' ∷ t)
      (hex_encode-zeros (32 - length m) (64 - length (hex_encode m)) m
        (omega (arith, h, length-hex_encode m)))

-- Two positive numbers of at most 32 bytes, encoded in DER as r and s of a signature, with the
-- length of the sequence in either form and whatever behind, are parsed to the hexadecimal text of
-- the 32 bytes of each.
pub parse_der_signature-word :
    (field rs ss rest : List ℕ) (r s : ℕ)
    → LengthField field
    → 0 < r
    → 0 < s
    → length (r ∷ rs) ≤ 32
    → length (s ∷ ss) ≤ 32
    → parse_der_signature (der_signature field r rs s ss rest)
      ≡ ok (record {
        r = str "0x" ++ hex_encode (word (r ∷ rs));
        s = str "0x" ++ hex_encode (word (s ∷ ss));
      })
parse_der_signature-word field rs ss rest r s measured hr hs fit_r fit_s =
    rw
      (
        parse_der_signature-der_signature field rs ss rest r s measured hr hs,
        quantity-word (r ∷ rs) fit_r,
        quantity-word (s ∷ ss) fit_s,
      )
      refl

-- The last 64 bytes of a SubjectPublicKeyInfo are returned if 0x04 stands before them; with any other
-- byte there the call throws the error that says so.
pub parse_der_public_key-point :
    (info point : List ℕ) (form : ℕ)
    → length point ≡ 64
    → ((form ≡ 4) × (parse_der_public_key (info ++ (form ∷ point)) ≡ ok point))
      ⊎ ((form ≢ 4)
          × (parse_der_public_key (info ++ (form ∷ point))
              ≡ err (
                  other_error
                    (str "Expected uncompressed secp256k1 public key (0x04 prefix not found)"))))
unfolding parse_der_public_key is_byte
parse_der_public_key-point info point form h =
    let cut =
      drop-append_add (length (info ++ (form ∷ point)) - 65) 0 info (form ∷ point)
        (omega (arith, h, length-append info (form ∷ point))) in
    elim (Bool-cases (form == 4)) [
      | inl is ↦ inl (ground arith, ground (arith, cut))
      | inr other ↦ inr (ground arith, ground (arith, cut))
    ]
