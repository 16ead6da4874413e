-- ===== src/ApiKeys/Service/Validation.antt =====
-- Which keys src/services/api-key/api-key.service.ts accepts, and for how long.
use hashira_be_railway_deplo.Base.{
  ◌≡◌, ◌≢◌, sym, ap, ◌∙◌, refl, inl, inr, true, false, List, Memᴰ, Text, arith, Option-cases,
  Bool-cases, ◌==◌, ==_iff, All, All-impl, text_eq_iff,
}
use hashira_be_railway_deplo.Types.{is_active_org, is_active_key, ok}
use hashira_be_railway_deplo.Entities.{Uuid, ApiKey, Organisation}
use hashira_be_railway_deplo.Platform.{Platform}
use hashira_be_railway_deplo.World.{World}
use hashira_be_railway_deplo.Repositories.Sql.{update_where}
use hashira_be_railway_deplo.Repositories.Rows.{
  All-mem, Distinct, Distinct-mem, All-update_where_every,
}
use hashira_be_railway_deplo.Repositories.ApiKeys.{
  find_api_key_by_hash, find_api_key_by_id_and_org, is_live_key, is_key_of, revoke, revoke_api_key,
}
use hashira_be_railway_deplo.Repositories.Organisations.{find_org_by_id}
use hashira_be_railway_deplo.ApiKeys.Service.{
  ValidatedApiKey, validated, validate_api_key, revoke_key, revoke_unless_revoked,
}

module _ ⦃p : Platform⦄ where
  -- What a key that is accepted has shown.
  pub record Validated (plaintext_key : Text) (r : ValidatedApiKey) (w : World) : Type 0 where
    pub key : ApiKey
    pub org : Organisation
    pub listed : Memᴰ key w.api_keys
    pub same_hash : key.key_hash ≡ p.sha256 plaintext_key
    pub live : is_active_key key.status ≡ true
    pub org_listed : Memᴰ org w.organisations
    pub owner : org.org_id ≡ key.org_id
    pub org_active : is_active_org org.status ≡ true
    pub result : r ≡ validated key

  -- A key that is accepted is one of the database, by the hash of what was sent; it is not revoked,
  -- its organisation is active, and its identity and permissions are those of its row.
  pub validate_api_key-Validated :
      (plaintext_key : Text) (r : ValidatedApiKey) (w w' : World)
      → validate_api_key plaintext_key w ≡ (ok r, w')
      → Validated plaintext_key r w
  unfolding validate_api_key find_api_key_by_hash find_org_by_id is_live_key
  validate_api_key-Validated plaintext_key r w w' h =
      elim (Option-cases (p.find_one (is_live_key (p.sha256 plaintext_key)) w.api_keys)) [
        | inl missed ↦ absurd (ground arith)
        | inr (key, found) ↦
            let (listed, fit) = p.query.find_one-sound _ w.api_keys key found in
            elim (Option-cases (p.find_one (λ o. o.org_id == key.org_id) w.organisations)) [
              | inl missed ↦ absurd (ground arith)
              | inr (org, looked) ↦
                  let (org_listed, owner) = p.query.find_one-sound _ w.organisations org looked in
                  record {
                    key = key;
                    org = org;
                    listed = listed;
                    same_hash = (text_eq_iff _ _).0 (ground arith);
                    live = ground arith;
                    org_listed = org_listed;
                    owner = (==_iff _ _).0 owner;
                    org_active = ground arith;
                    result = ground arith;
                  }
            ]
      ]

  -- No key with the id in the organisation is live.
  pub IsRevoked : Uuid → Uuid → List ApiKey → Type 0
  IsRevoked key_id org_id =
      All (λ k. k.key_id ≡ key_id → k.org_id ≡ org_id → is_active_key k.status ≡ false)

  is_key_of-own :
      (key_id org_id : Uuid) (k : ApiKey)
      → k.key_id ≡ key_id
      → k.org_id ≡ org_id
      → is_key_of key_id org_id k ≡ true
  unfolding is_key_of
  is_key_of-own key_id org_id k a b = ground (arith, ==_iff k.key_id key_id, ==_iff k.org_id org_id)

  is_key_of-key_id :
      (key_id org_id : Uuid) (k : ApiKey) → is_key_of key_id org_id k ≡ true → k.key_id ≡ key_id
  unfolding is_key_of
  is_key_of-key_id key_id org_id k h = ground (arith, ==_iff k.key_id key_id)

  IsRevoked-revoke :
      (key_id org_id : Uuid) (rows : List ApiKey)
      → IsRevoked key_id org_id (update_where (is_key_of key_id org_id) revoke rows)
  unfolding IsRevoked revoke
  IsRevoked-revoke key_id org_id rows =
      All-update_where_every
        (λ k. k.key_id ≡ key_id → k.org_id ≡ org_id → is_active_key k.status ≡ false)
        (is_key_of key_id org_id) revoke rows (λ k hit a b. refl)
        (λ k miss a b. absurd (ground (arith, is_key_of-own key_id org_id k a b)))

  -- Where the one row of that id is revoked already.
  IsRevoked-dead :
      (key_id org_id : Uuid) (rows : List ApiKey) (existing : ApiKey)
      → Distinct (λ k. k.key_id) rows
      → Memᴰ existing rows
      → is_key_of key_id org_id existing ≡ true
      → is_active_key existing.status ≡ false
      → IsRevoked key_id org_id rows
  unfolding IsRevoked
  IsRevoked-dead key_id org_id rows existing unique listed fit dead =
      All-impl (λ o. o.key_id ≡ existing.key_id → o ≡ existing)
        (λ k. k.key_id ≡ key_id → k.org_id ≡ org_id → is_active_key k.status ≡ false) rows
        (λ k only a b. rw (only (a ∙ sym (is_key_of-key_id key_id org_id existing fit))) dead)
        (Distinct-mem (λ k. k.key_id) rows existing unique listed)

  -- A revocation that returns leaves no live key with that id in that organisation.
  revoke_key-IsRevoked :
      (key_id org_id : Uuid) (w w' : World)
      → Distinct (λ k. k.key_id) w.api_keys
      → revoke_key key_id org_id w ≡ (ok tt, w')
      → IsRevoked key_id org_id w'.api_keys
  unfolding revoke_key find_api_key_by_id_and_org revoke_api_key revoke_unless_revoked
  revoke_key-IsRevoked key_id org_id w w' unique h =
      elim (Option-cases (p.find_one (is_key_of key_id org_id) w.api_keys)) [
        | inl missed ↦ absurd (ground arith)
        | inr (existing, found) ↦ elim (Bool-cases (is_active_key existing.status)) [
          | inl live ↦
              let same : w'.api_keys ≡ update_where (is_key_of key_id org_id) revoke w.api_keys =
                ground arith in
              rw same (IsRevoked-revoke key_id org_id w.api_keys)
          | inr dead ↦
              let same : w'.api_keys ≡ w.api_keys = ground arith in
              let (listed, fit) = p.query.find_one-sound _ w.api_keys existing found in
              rw same (IsRevoked-dead key_id org_id w.api_keys existing unique listed fit dead)
        ]
      ]

  -- After a revocation that returned, where ids of keys are unique, no key that is accepted is the
  -- revoked one, at any later time at which the keys are as the revocation left them.
  pub validate_api_key-revoke_key :
      (key_id org_id : Uuid) (plaintext_key : Text) (r : ValidatedApiKey) (w w' later last : World)
      → Distinct (λ k. k.key_id) w.api_keys
      → revoke_key key_id org_id w ≡ (ok tt, w')
      → later.api_keys ≡ w'.api_keys
      → validate_api_key plaintext_key later ≡ (ok r, last)
      → r.org_id ≡ org_id
      → r.key_id ≢ key_id
  unfolding IsRevoked validated
  validate_api_key-revoke_key key_id org_id plaintext_key r w w' later last unique h same accepted
        org id =
      let c = validate_api_key-Validated plaintext_key r later last accepted in
      let gone = revoke_key-IsRevoked key_id org_id w w' unique h in
      let dead =
        All-mem (λ k. k.key_id ≡ key_id → k.org_id ≡ org_id → is_active_key k.status ≡ false) gone
          (rw same at c.listed) (sym (ap (λ x. x.key_id) c.result) ∙ id)
          (sym (ap (λ x. x.org_id) c.result) ∙ org) in
      ground (arith, c.live)
