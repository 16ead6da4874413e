-- ===== src/Signing/Encoding.antt =====
-- The DER encoding of an ECDSA signature (X.690, RFC 3279) as an independent description, and that
-- the parser of src/services/BlockchainSigningService.ts reads it.
use hashira_be_railway_deplo.Base.{
  ℕ, suc, ◌+◌, ◌-◌, ◌<◌, ◌≡◌, refl, sym, ap, ◌∙◌, some, List, [], ◌∷◌, ◌++◌, Text, str, arith,
  get_elem?, take, drop, length, ltb, if◌then◌else◌, Bool-cases, inl, inr, get_elem?-append_add,
  drop-append_add, take-append, length-append,
}
use mathlib.Core.List.{append_assoc}
use hashira_be_railway_deplo.Types.{ok}
use hashira_be_railway_deplo.Signing.Der.{
  byte_at, is_byte, after_header, read_integer, parse_integer, quantity, signature_of, parse_rest,
  parse_der_signature,
}

-- The magnitude of a positive number: the big-endian bytes b ∷ bs with b not zero.
-- A zero stands in front where the first bit would be read as a sign.
unfoldable pub contents : ℕ → List ℕ → List ℕ
contents b bs = if ltb b 128 then b ∷ bs else 0 ∷ b ∷ bs

unfoldable pub der_integer : ℕ → List ℕ → List ℕ
unfolding contents
der_integer b bs = 2 ∷ length (contents b bs) ∷ contents b bs

-- A length field, in the short or the long form.
pub data LengthField : List ℕ → Type 0 where
  short : (n : ℕ) → n < 128 → LengthField (n ∷ [])
  long : (bs : List ℕ) → length bs < 128 → LengthField ((128 + length bs) ∷ bs)

after_header-LengthField :
    (field body : List ℕ)
    → LengthField field
    → after_header (0x30 ∷ (field ++ body)) ≡ suc (length field)
unfolding after_header
after_header-LengthField field body (LengthField.short n h) = ground arith
after_header-LengthField field body (LengthField.long bs h) = ground arith

read_integer-plain :
    (d bytes : List ℕ) (offset len b : ℕ)
    → get_elem? d offset ≡ some len
    → get_elem? d (offset + 1) ≡ some b
    → 0 < b
    → take len (drop (offset + 1) d) ≡ bytes
    → read_integer d offset ≡ record { bytes = bytes; next = some (offset + 1 + len) }
unfolding read_integer is_byte
read_integer-plain d bytes offset len b counted first positive sliced =
    let same : offset + 1 + len - (offset + 1) ≡ len = omega arith in ground arith

read_integer-padded :
    (d bytes : List ℕ) (offset len : ℕ)
    → get_elem? d offset ≡ some (suc len)
    → get_elem? d (offset + 1) ≡ some 0
    → take len (drop (offset + 2) d) ≡ bytes
    → read_integer d offset ≡ record { bytes = bytes; next = some (offset + 1 + suc len) }
unfolding read_integer is_byte
read_integer-padded d bytes offset len counted first sliced =
    let same : offset + 1 + suc len - (offset + 2) ≡ len = omega arith in ground arith

-- Where an INTEGER with these contents is the next of the bytes.
module _ (before rest bs : List ℕ) (b n : ℕ) (message : Text) (at : n ≡ length before) where
  parse_integer-plain :
      0 < b
      → parse_integer (before ++ (2 ∷ suc (length bs) ∷ b ∷ (bs ++ rest))) (some n) message
        ≡ ok (record { bytes = b ∷ bs; next = some (n + 3 + length bs) })
  unfolding parse_integer byte_at is_byte
  parse_integer-plain positive =
      let tail = 2 ∷ suc (length bs) ∷ b ∷ (bs ++ rest) in
      let tag = get_elem?-append_add n 0 before tail (omega (arith, at)) in
      let sliced = drop-append_add (n + 1 + 1) 2 before tail (omega (arith, at)) in
      let read =
        read_integer-plain (before ++ tail) (b ∷ bs) (n + 1) (suc (length bs)) b
          (get_elem?-append_add (n + 1) 1 before tail (omega (arith, at)))
          (get_elem?-append_add (n + 1 + 1) 2 before tail (omega (arith, at))) positive
          (rw sliced (take-append (b ∷ bs) rest)) in
      rw (tag, read) (ap (λ m. ok (record { bytes = b ∷ bs; next = some m })) (omega arith))

  parse_integer-padded :
      parse_integer (before ++ (2 ∷ suc (suc (length bs)) ∷ 0 ∷ b ∷ (bs ++ rest))) (some n) message
      ≡ ok (record { bytes = b ∷ bs; next = some (n + 4 + length bs) })
  unfolding parse_integer byte_at is_byte
  parse_integer-padded =
      let tail = 2 ∷ suc (suc (length bs)) ∷ 0 ∷ b ∷ (bs ++ rest) in
      let tag = get_elem?-append_add n 0 before tail (omega (arith, at)) in
      let sliced = drop-append_add (n + 1 + 2) 3 before tail (omega (arith, at)) in
      let read =
        read_integer-padded (before ++ tail) (b ∷ bs) (n + 1) (suc (length bs))
          (get_elem?-append_add (n + 1) 1 before tail (omega (arith, at)))
          (get_elem?-append_add (n + 1 + 1) 2 before tail (omega (arith, at)))
          (rw sliced (take-append (b ∷ bs) rest)) in
      rw (tag, read) (ap (λ m. ok (record { bytes = b ∷ bs; next = some m })) (omega arith))

  parse_integer-der_integer :
      0 < b
      → parse_integer (before ++ (der_integer b bs ++ rest)) (some n) message
        ≡ ok (record { bytes = b ∷ bs; next = some (n + length (der_integer b bs)) })
  unfolding der_integer contents
  parse_integer-der_integer positive = elim (Bool-cases (ltb b 128)) [
    | inl low ↦ rw low (
        parse_integer-plain positive
        ∙ ap (λ m. ok (record { bytes = b ∷ bs; next = some m })) (omega arith))
    | inr high ↦ rw high (
        parse_integer-padded
        ∙ ap (λ m. ok (record { bytes = b ∷ bs; next = some m })) (omega arith))
  ]

-- A signature as a sequence of two INTEGERs.
abbrev pub der_signature : List ℕ → ℕ → List ℕ → ℕ → List ℕ → List ℕ → List ℕ
der_signature field r rs s ss rest =
    0x30 ∷ (field ++ (der_integer r rs ++ (der_integer s ss ++ rest)))

pub parse_der_signature-der_signature :
    (field rs ss rest : List ℕ) (r s : ℕ)
    → LengthField field
    → 0 < r
    → 0 < s
    → parse_der_signature (der_signature field r rs s ss rest)
      ≡ ok (record { r = quantity (r ∷ rs); s = quantity (s ∷ ss) })
unfolding parse_der_signature parse_rest signature_of byte_at is_byte
parse_der_signature-der_signature field rs ss rest r s measured hr hs =
    let before = 0x30 ∷ field in
    let header =
      after_header-LengthField field (der_integer r rs ++ (der_integer s ss ++ rest)) measured in
    let first =
      parse_integer-der_integer before (der_integer s ss ++ rest) rs r (suc (length field))
        (str "Invalid DER signature: expected INTEGER tag 0x02 for r") refl hr in
    let second =
      parse_integer-der_integer (before ++ der_integer r rs) rest ss s
        (suc (length field) + length (der_integer r rs))
        (str "Invalid DER signature: expected INTEGER tag 0x02 for s")
        (sym (length-append before (der_integer r rs))) hs in
    let next = rw (append_assoc before (der_integer r rs) (der_integer s ss ++ rest)) at second in
    rw (header, first, next) refl
