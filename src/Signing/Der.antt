-- ===== src/Signing/Der.antt =====
-- parseDerSignature and parseDerPublicKey of src/services/BlockchainSigningService.ts, on bytes. An
-- index out of range reads `undefined`, and an offset that has become NaN reads it, too.
use hashira_be_railway_deplo.Base.{
  ℕ, ◌+◌, ◌-◌, ◌/◌, ◌%◌, Bool, false, not, Option, none, some, from_option, List, ◌++◌, Text, str,
  get_elem?, take, drop, length, ◌==◌, if◌then◌else◌,
}
use hashira_be_railway_deplo.Base.Hex.{hex_encode}
use hashira_be_railway_deplo.Base.Strings.{pad_start}
use hashira_be_railway_deplo.Types.{Result, ok, err, other_error}

pub record Signature : Type 0 where
  pub r : Text
  pub s : Text

-- The bytes of an INTEGER without one leading zero, and the offset after it, `none` for NaN.
pub record DerInteger : Type 0 where
  pub bytes : List ℕ
  pub next : Option ℕ

-- `der[offset]`
unfoldable pub byte_at : List ℕ → Option ℕ → Option ℕ
byte_at der none = none
byte_at der (some offset) = get_elem? der offset

-- `der[offset] === b`
unfoldable pub is_byte : ℕ → Option ℕ → Bool
is_byte b read = from_option false (λ c. c == b) read

-- The offset after the tag and the length field of the sequence. `undefined & 0x80` is 0.
unfoldable pub after_header : List ℕ → ℕ
after_header der =
    from_option 2 (λ b. if b / 128 % 2 == 1 then 2 + b % 128 else 2) (get_elem? der 1)

-- From the length field of an INTEGER. The length counts a leading zero, so the end is the same
-- with one and without. With no length the slice ends at NaN, and is empty.
unfoldable pub read_integer : List ℕ → ℕ → DerInteger
unfolding is_byte
read_integer der offset =
    let start = if is_byte 0 (get_elem? der (offset + 1)) then offset + 2 else offset + 1 in
    record {
      bytes =
          from_option (take 0 der) (λ len. take (offset + 1 + len - start) (drop start der))
            (get_elem? der offset);
      next = from_option none (λ len. some (offset + 1 + len)) (get_elem? der offset);
    }

unfoldable pub parse_integer : List ℕ → Option ℕ → Text → Result DerInteger
unfolding byte_at is_byte read_integer
parse_integer der none message = err (other_error message)
parse_integer der (some offset) message =
    if is_byte 2 (byte_at der (some offset))
    then ok (read_integer der (offset + 1))
    else err (other_error message)

-- `0x${Buffer.from(bytes).toString('hex').padStart(64, '0')}`
unfoldable pub quantity : List ℕ → Text
quantity bytes = str "0x" ++ pad_start 64 b'0' (hex_encode bytes)

unfoldable pub signature_of : List ℕ → Result DerInteger → Result Signature
unfolding quantity
signature_of r (err e) = err e
signature_of r (ok s) = ok (record { r = quantity r; s = quantity s.bytes })

unfoldable pub parse_rest : List ℕ → Result DerInteger → Result Signature
unfolding parse_integer signature_of
parse_rest der (err e) = err e
parse_rest der (ok r) =
    signature_of r.bytes
      (parse_integer der r.next (str "Invalid DER signature: expected INTEGER tag 0x02 for s"))

unfoldable pub parse_der_signature : List ℕ → Result Signature
unfolding byte_at is_byte after_header parse_integer parse_rest
parse_der_signature der =
    if not (is_byte 0x30 (byte_at der (some 0)))
    then err (other_error (str "Invalid DER signature: expected SEQUENCE tag 0x30"))
    else parse_rest der (
        parse_integer der (some (after_header der))
          (str "Invalid DER signature: expected INTEGER tag 0x02 for r"))

-- The last 65 bytes, `der.slice(-65)`, are the point: 0x04 and both coordinates.
unfoldable pub parse_der_public_key : List ℕ → Result (List ℕ)
unfolding is_byte
parse_der_public_key der =
    let point = drop (length der - 65) der in
    if not (is_byte 4 (get_elem? point 0))
    then err
        (other_error (str "Expected uncompressed secp256k1 public key (0x04 prefix not found)"))
    else ok (drop 1 point)
