-- ===== src/Signing/Signed.antt =====
-- What src/services/BlockchainSigningService.ts signs, and that it does.
use hashira_be_railway_deplo.Base.{
  ℕ, ◌+◌, ◌<◌, ◌≤◌, ◌≡◌, refl, ap, ◌⊎◌, inl, inr, true, some, List, [], ◌∷◌, ◌++◌, Text, str, arith,
  length, text_eq_iff, Bool-cases, Option-cases,
}
use hashira_be_railway_deplo.Base.Hex.{hex_encode}
use hashira_be_railway_deplo.Base.Strings.{truthy, to_lower_case}
use hashira_be_railway_deplo.Types.{ok}
use hashira_be_railway_deplo.World.{World}
use hashira_be_railway_deplo.World.Monad.{Result-cases}
use hashira_be_railway_deplo.Signing.Der.{Signature, parse_der_signature, parse_der_public_key}
use hashira_be_railway_deplo.Signing.Encoding.{LengthField, der_signature}
use hashira_be_railway_deplo.Signing.RoundTrip.{
  word, parse_der_signature-word, parse_der_public_key-point,
}
use hashira_be_railway_deplo.Signing.Service.{
  KeyService, SignedHash, get_signer_address, is_recovery, same_address, first_recovery, recover_v,
  sign_hash, hash_text, last_units,
}

-- Both numbers as 32 bytes in hexadecimal.
abbrev pub words : ℕ → List ℕ → ℕ → List ℕ → Signature
words r rs s ss = record {
  r = str "0x" ++ hex_encode (word (r ∷ rs));
  s = str "0x" ++ hex_encode (word (s ∷ ss));
}

module _ ⦃k : KeyService⦄ where
  -- The address of the key in KMS, by the last 40 digits of the hash of its point.
  pub record SignerKnown (signer : Text) (w : World) : Type 0 where
    pub key_id : Text
    pub public_key : List ℕ
    pub point : List ℕ
    pub configured : truthy k.key_id ≡ some key_id
    pub published : k.get_public_key w.calls key_id ≡ ok (some public_key)
    pub parsed : parse_der_public_key public_key ≡ ok point
    pub address : k.get_address (str "0x" ++ last_units 40 (k.keccak256 point)) ≡ ok signer

  get_signer_address-SignerKnown :
      (signer : Text) (w w' : World) → get_signer_address w ≡ (ok signer, w') → SignerKnown signer w
  unfolding get_signer_address
  get_signer_address-SignerKnown signer w w' h = elim (Option-cases (truthy k.key_id)) [
    | inl unset ↦ absurd (ground arith)
    | inr (key_id, configured) ↦ elim (Result-cases (k.get_public_key w.calls key_id)) [
      | inr (e, failed) ↦ absurd (ground arith)
      | inl (response, answered) ↦ elim (Option-cases response) [
        | inl empty ↦ absurd (ground arith)
        | inr (public_key, present) ↦ elim (Result-cases (parse_der_public_key public_key)) [
          | inr (e, failed) ↦ absurd (ground arith)
          | inl (point, parsed) ↦ record {
            key_id = key_id;
            public_key = public_key;
            point = point;
            configured = configured;
            published = ground arith;
            parsed = parsed;
            address = ground arith;
          }
        ]
      ]
    ]
  ]

  -- A v with which viem recovers the signer.
  pub record Recovers (digest : List ℕ) (signature : Signature) (signer : Text) (v : ℕ)
      : Type 0 where
    pub recovered : Text
    pub outcome : k.recover_address (str "0x" ++ hex_encode digest) signature v ≡ ok recovered
    pub same : to_lower_case recovered ≡ to_lower_case signer

  is_recovery-Recovers :
      (digest : List ℕ) (signature : Signature) (signer : Text) (v : ℕ)
      → is_recovery (hash_text digest) signature signer v ≡ true
      → Recovers digest signature signer v
  unfolding is_recovery same_address hash_text
  is_recovery-Recovers digest signature signer v h =
      elim (Result-cases (k.recover_address (hash_text digest) signature v)) [
        | inr (e, failed) ↦ absurd (ground arith)
        | inl (recovered, outcome) ↦ record {
          recovered = recovered;
          outcome = outcome;
          same = (text_eq_iff _ _).0 (ground arith);
        }
      ]

  Recovers-is_recovery :
      (digest : List ℕ) (signature : Signature) (signer : Text) (v : ℕ)
      → Recovers digest signature signer v
      → is_recovery (hash_text digest) signature signer v ≡ true
  unfolding is_recovery same_address hash_text
  Recovers-is_recovery digest signature signer v h =
      let same = (text_eq_iff _ _).1 h.same in ground (arith, h.outcome)

  pub record Signed (digest : List ℕ) (out : SignedHash) (w : World) : Type 0 where
    pub key_id : Text
    pub der : List ℕ
    pub signer : Text
    pub configured : truthy k.key_id ≡ some key_id
    pub answered : k.sign w.calls key_id digest ≡ ok (some der)
    pub parsed : parse_der_signature der ≡ ok out.signature
    pub known : SignerKnown signer (record w { calls = w.calls + 1 })
    pub parity : (out.v ≡ 27) ⊎ (out.v ≡ 28)
    pub recovers : Recovers digest out.signature signer out.v

  first_recovery-cases :
      (digest : List ℕ) (signature : Signature) (signer : Text) (v : ℕ) (w : World)
      → (first_recovery (hash_text digest) signature signer (27 ∷ 28 ∷ []) w).0 ≡ ok v
      → ((v ≡ 27) ⊎ (v ≡ 28)) × Recovers digest signature signer v
  unfolding first_recovery
  first_recovery-cases digest signature signer v w h =
      elim (Bool-cases (is_recovery (hash_text digest) signature signer 27)) [
        | inl hit ↦
            let is_v : v ≡ 27 = ground arith in
            (inl is_v, is_recovery-Recovers digest signature signer v (rw is_v hit))
        | inr miss ↦ elim (Bool-cases (is_recovery (hash_text digest) signature signer 28)) [
          | inl hit ↦
              let is_v : v ≡ 28 = ground arith in
              (inr is_v, is_recovery-Recovers digest signature signer v (rw is_v hit))
          | inr missed ↦ absurd (ground arith)
        ]
      ]

  -- A signature that is returned is the one that KMS gave for the digest, and its v is 27 or 28 and
  -- is such that the address recovered from it is that of the key in KMS, letters of either case
  -- being the same.
  pub sign_hash-Signed :
      (digest : List ℕ) (out : SignedHash) (w w' : World)
      → sign_hash digest w ≡ (ok out, w')
      → Signed digest out w
  unfolding sign_hash recover_v
  sign_hash-Signed digest out w w' h = elim (Option-cases (truthy k.key_id)) [
    | inl unset ↦ absurd (ground arith)
    | inr (key_id, configured) ↦ elim (Result-cases (k.sign w.calls key_id digest)) [
      | inr (e, failed) ↦ absurd (ground arith)
      | inl (response, answered) ↦ elim (Option-cases response) [
        | inl empty ↦ absurd (ground arith)
        | inr (der, present) ↦ elim (Result-cases (parse_der_signature der)) [
          | inr (e, failed) ↦ absurd (ground arith)
          | inl (signature, parsed) ↦
              let w1 = record w { calls = w.calls + 1 } in
              elim (Result-cases (get_signer_address w1).0) [
                | inr (e, failed) ↦ absurd (ground arith)
                | inl (signer, found) ↦
                    let w2 = (get_signer_address w1).1 in
                    elim (Result-cases
                      (first_recovery (hash_text digest) signature signer (27 ∷ 28 ∷ []) w2).0) [
                        | inr (e, failed) ↦ absurd (ground arith)
                        | inl (v, hit) ↦
                            let same : out ≡ record { signature = signature; v = v } =
                              ground arith in
                            let (parity, recovers) =
                              first_recovery-cases digest signature signer v w2 hit in
                            rw same (record {
                              key_id = key_id;
                              der = der;
                              signer = signer;
                              configured = configured;
                              answered = ground arith;
                              parsed = parsed;
                              known =
                                  get_signer_address-SignerKnown signer w1 w2
                                    (ap (λ r. (r, w2)) found);
                              parity = parity;
                              recovers = recovers;
                            })
                      ]
              ]
        ]
      ]
    ]
  ]

  get_signer_address_complete :
      (signer : Text) (w : World)
      → SignerKnown signer w
      → get_signer_address w ≡ (ok signer, record w { calls = w.calls + 1 })
  unfolding get_signer_address
  get_signer_address_complete signer w h =
      ground (arith, h.configured, h.published, h.parsed, h.address)

  first_recovery_complete :
      (digest : List ℕ) (signature : Signature) (signer : Text) (v : ℕ) (w : World)
      → (v ≡ 27) ⊎ (v ≡ 28)
      → Recovers digest signature signer v
      → (u : ℕ) × (first_recovery (hash_text digest) signature signer (27 ∷ 28 ∷ []) w ≡ (ok u, w))
  unfolding first_recovery
  first_recovery_complete digest signature signer v w parity recovers =
      let good = Recovers-is_recovery digest signature signer v recovers in
      elim (Bool-cases (is_recovery (hash_text digest) signature signer 27)) [
        | inl hit ↦ (27, ground arith)
        | inr miss ↦ elim parity [
          | inl first ↦ absurd (ground arith)
          | inr second ↦ (28, ground arith)
        ]
      ]

  sign_hash_answered :
      (digest der : List ℕ) (signature : Signature) (v : ℕ) (key_id signer : Text) (w v1 v2 : World)
      → truthy k.key_id ≡ some key_id
      → k.sign w.calls key_id digest ≡ ok (some der)
      → parse_der_signature der ≡ ok signature
      → get_signer_address (record w { calls = w.calls + 1 }) ≡ (ok signer, v1)
      → first_recovery (hash_text digest) signature signer (27 ∷ 28 ∷ []) v1 ≡ (ok v, v2)
      → (sign_hash digest w).0 ≡ ok (record { signature = signature; v = v })
  unfolding sign_hash recover_v
  sign_hash_answered digest der signature v key_id signer w v1 v2 configured answered parsed found
        hit =
      ground arith

  -- Where KMS answers with the DER encoding of two positive numbers of at most 32 bytes, whatever
  -- the form of its length, where its public key is an uncompressed point whose address viem can
  -- form, and where 27 or 28 recovers that address, the digest is signed, and r and s are those
  -- numbers as 32 bytes in hexadecimal.
  pub sign_hash_complete :
      (digest field rs ss info point : List ℕ) (r s v : ℕ) (key_id signer : Text) (w : World)
      → LengthField field
      → 0 < r
      → 0 < s
      → length (r ∷ rs) ≤ 32
      → length (s ∷ ss) ≤ 32
      → length point ≡ 64
      → truthy k.key_id ≡ some key_id
      → k.sign w.calls key_id digest ≡ ok (some (der_signature field r rs s ss []))
      → k.get_public_key (w.calls + 1) key_id ≡ ok (some (info ++ (4 ∷ point)))
      → k.get_address (str "0x" ++ last_units 40 (k.keccak256 point)) ≡ ok signer
      → (v ≡ 27) ⊎ (v ≡ 28)
      → Recovers digest (words r rs s ss) signer v
      → (u : ℕ) × ((sign_hash digest w).0 ≡ ok (record { signature = words r rs s ss; v = u }))
  sign_hash_complete digest field rs ss info point r s v key_id signer w measured hr hs fit_r fit_s
        full configured answered published address parity recovers =
      let parsed = parse_der_signature-word field rs ss [] r s measured hr hs fit_r fit_s in
      let w1 = record w { calls = w.calls + 1 } in
      let found = get_signer_address_complete signer w1 (record {
        key_id = key_id;
        public_key = info ++ (4 ∷ point);
        point = point;
        configured = configured;
        published = published;
        parsed = elim (parse_der_public_key-point info point 4 full) [
          | inl (_, done) ↦ done
          | inr (other, refused) ↦ absurd (other refl)
        ];
        address = address;
      }) in
      let (u, hit) =
        first_recovery_complete digest (words r rs s ss) signer v
          (record w1 { calls = w1.calls + 1 }) parity recovers in
      (
        u,
        sign_hash_answered digest (der_signature field r rs s ss []) (words r rs s ss) u key_id
            signer w (record w1 { calls = w1.calls + 1 }) (record w1 { calls = w1.calls + 1 })
            configured answered parsed found hit,
      )
