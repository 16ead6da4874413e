-- ===== src/Events/Visible.antt =====
-- What a caller of src/services/event/event-query.service.ts can see.
use hashira_be_railway_deplo.Base.{
  ℕ, zero, suc, ◌≡◌, ap, ◌∙◌, inl, inr, Option, none, some, true, false, [], ◌∷◌, Memᴰ, Text, arith,
  Option-cases, ==_iff,
}
use hashira_be_railway_deplo.Base.Strings.{truthy}
use hashira_be_railway_deplo.Types.{EventStatus, event_status_eq, ok}
use hashira_be_railway_deplo.Entities.{Uuid, Event}
use hashira_be_railway_deplo.Platform.{Platform}
use hashira_be_railway_deplo.World.{World}
use hashira_be_railway_deplo.World.Monad.{Result-cases}
use hashira_be_railway_deplo.Repositories.Events.{find_event_by_id, is_event_of}
use hashira_be_railway_deplo.Events.Query.{
  VerificationData, visible_event, is_hidden_from, get_verification, verification_of, nonzero,
}

truthy-some : (o : Option Text) (s : Text) → truthy o ≡ some s → o ≡ some s
truthy-some none s h = absurd (ground arith)
truthy-some (some []) s h = absurd (ground arith)
truthy-some (some (c ∷ cs)) s h = h

nonzero-some : (o : Option ℕ) (n : ℕ) → nonzero o ≡ some n → o ≡ some n
unfolding nonzero
nonzero-some none n h = absurd (ground arith)
nonzero-some (some zero) n h = absurd (ground arith)
nonzero-some (some (suc m)) n h = h

is_event_of-same :
    (event_id org_id : Uuid) (e : Event)
    → is_event_of event_id org_id e ≡ true
    → (e.event_id ≡ event_id) × (e.org_id ≡ org_id)
unfolding is_event_of
is_event_of-same event_id org_id e h =
    ground (arith, ==_iff e.event_id event_id, ==_iff e.org_id org_id)

module _ ⦃p : Platform⦄ where
  -- An event of the organisation, and of the user if there is a filter.
  pub record Visible (event_id org_id : Uuid) (user_id : Option Uuid) (w : World) (e : Event)
      : Type 0 where
    pub listed : Memᴰ e w.events
    pub id : e.event_id ≡ event_id
    pub org : e.org_id ≡ org_id
    pub shown : is_hidden_from user_id e ≡ false

  visible_event-found :
      (event_id org_id : Uuid) (user_id : Option Uuid) (w w' : World) (e found : Event)
      → p.find_one (is_event_of event_id org_id) w.events ≡ some found
      → visible_event event_id org_id user_id w ≡ (ok e, w')
      → (is_hidden_from user_id found ≡ false) × (found ≡ e) × (w' ≡ w)
  unfolding visible_event find_event_by_id
  visible_event-found event_id org_id user_id w w' e found looked h = ground arith

  visible_event-Visible :
      (event_id org_id : Uuid) (user_id : Option Uuid) (w w' : World) (e : Event)
      → visible_event event_id org_id user_id w ≡ (ok e, w')
      → Visible event_id org_id user_id w e × (w' ≡ w)
  unfolding visible_event find_event_by_id is_event_of
  visible_event-Visible event_id org_id user_id w w' e h =
      elim (Option-cases (p.find_one (is_event_of event_id org_id) w.events)) [
        | inl missed ↦ absurd (ground arith)
        | inr (found, looked) ↦
            let (listed, fit) =
              p.query.find_one-sound (is_event_of event_id org_id) w.events found looked in
            let (shown, same, kept) =
              visible_event-found event_id org_id user_id w w' e found looked h in
            (
              record {
                listed = rw same at listed;
                id = (rw same at (is_event_of-same event_id org_id found fit)).0;
                org = (rw same at (is_event_of-same event_id org_id found fit)).1;
                shown = rw same at shown;
              },
              kept,
            )
      ]

  -- The data of an event whose verification is given.
  pub record Verifies (event : Event) (d : VerificationData) : Type 0 where
    pub anchored : event_status_eq event.status EventStatus.anchored ≡ true
    pub id : d.event_id ≡ event.event_id
    pub tx_hash : event.tx_hash ≡ some d.tx_hash
    pub block_number : event.block_number ≡ some d.block_number
    pub chain_id : event.chain_id ≡ some d.chain_id
    pub anchored_at : event.anchored_at ≡ some d.anchored_at
    pub canonical_hash : event.canonical_hash ≡ some d.canonical_hash

  verification_of-Verifies :
      (event : Event) (w w' : World) (d : VerificationData)
      → verification_of event w ≡ (ok d, w')
      → Verifies event d × (w' ≡ w)
  unfolding verification_of
  verification_of-Verifies event w w' d h = (
    record {
      anchored = ground arith;
      id = ground arith;
      tx_hash = truthy-some event.tx_hash d.tx_hash (ground arith);
      block_number = truthy-some event.block_number d.block_number (ground arith);
      chain_id = nonzero-some event.chain_id d.chain_id (ground arith);
      anchored_at = ground arith;
      canonical_hash = truthy-some event.canonical_hash d.canonical_hash (ground arith);
    },
    ground arith,
  )

  -- What is shown as verified on the blockchain: an event that the caller can see, anchored, with
  -- each datum as its row has it.
  pub record OnChain (event_id org_id : Uuid) (user_id : Option Uuid) (w : World)
      (d : VerificationData) : Type 0 where
    pub event : Event
    pub visible : Visible event_id org_id user_id w event
    pub shown : Verifies event d

  -- A verification that is given is of an event in the database that has the requested id and
  -- organisation and, where there is a filter, that user; it has the status `anchored`, and each
  -- datum is the one in its row. Nothing changes.
  pub get_verification-OnChain :
      (event_id org_id : Uuid) (user_id : Option Uuid) (w w' : World) (d : VerificationData)
      → get_verification event_id org_id user_id w ≡ (ok d, w')
      → OnChain event_id org_id user_id w d × (w' ≡ w)
  unfolding get_verification
  get_verification-OnChain event_id org_id user_id w w' d h =
      elim (Result-cases (visible_event event_id org_id user_id w).0) [
        | inr (e, failed) ↦ absurd (ground arith)
        | inl (event, seen) ↦
            let v = (visible_event event_id org_id user_id w).1 in
            let (visible, same) =
              visible_event-Visible event_id org_id user_id w v event (ap (λ r. (r, v)) seen) in
            let (shown, kept) = verification_of-Verifies event v w' d (ground arith) in
            (record { event = event; visible = visible; shown = shown }, kept ∙ same)
      ]
