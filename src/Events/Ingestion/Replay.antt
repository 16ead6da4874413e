-- ===== src/Events/Ingestion/Replay.antt =====
-- Sending an event twice with one idempotency key.
use hashira_be_railway_deplo.Base.{
  ℕ, ◌≡◌, sym, ap, ◌∙◌, refl, inl, inr, true, false, none, some, [], ◌∷◌, ◌++◌, Text, Option-cases,
  arith, text_eq_iff,
}
use hashira_be_railway_deplo.Types.{EventStatus, ok}
use hashira_be_railway_deplo.Entities.{Uuid, Event}
use hashira_be_railway_deplo.Platform.{Platform}
use hashira_be_railway_deplo.World.{World}
use hashira_be_railway_deplo.Repositories.Rows.{find_one-append}
use hashira_be_railway_deplo.Repositories.Sql.{same_text}
use hashira_be_railway_deplo.Repositories.Events.{
  create_event, find_event_by_idempotency_key, has_idempotency_key,
}
use hashira_be_railway_deplo.Events.Ingestion.{
  IngestEventInput, IngestEventResult, ingest, ingest_new, ingest_result, create_event_input,
  dispatch,
}

module _ ⦃p : Platform⦄ where
  -- What an ingestion that makes a new event writes.
  pub record Created (input : IngestEventInput) (r : IngestEventResult) (w w' : World)
      : Type 0 where
    pub event : Event
    pub org : event.org_id ≡ input.org_id
    pub key : event.idempotency_key ≡ input.idempotency_key
    pub status : event.status ≡ EventStatus.processing
    pub prompt : event.prompt ≡ input.payload.prompt
    pub table : w'.events ≡ w.events ++ event ∷ []
    pub result : r ≡ ingest_result false event

  ingest_new-Created :
      (input : IngestEventInput) (r : IngestEventResult) (w w' : World)
      → ingest_new input w ≡ (ok r, w')
      → Created input r w w'
  unfolding ingest_new create_event create_event_input dispatch
  ingest_new-Created input r w w' h = record {
    event = record {
      event_id = p.uuid w.calls;
      org_id = input.org_id;
      user_id = input.user_id;
      api_key_id = some input.api_key_id;
      idempotency_key = input.idempotency_key;
      prompt = input.payload.prompt;
      output = input.payload.output;
      model_id = input.payload.model_id;
      workflow_id = input.payload.workflow_id;
      metadata = input.payload.metadata;
      timestamp = input.payload.timestamp;
      received_at = w.now;
      canonical_hash = none;
      status = EventStatus.processing;
      tx_hash = none;
      block_number = none;
      chain_id = none;
      anchored_at = none;
      anchor_error = none;
      created_at = w.now;
    };
    org = refl;
    key = refl;
    status = refl;
    prompt = refl;
    table = ground arith;
    result = ground arith;
  }

  has_idempotency_key-own :
      (org_id : Uuid) (key : Text) (e : Event)
      → e.org_id ≡ org_id
      → e.idempotency_key ≡ some key
      → has_idempotency_key org_id key e ≡ true
  unfolding has_idempotency_key same_text
  has_idempotency_key-own org_id key e org k = rw (org, k) (ground (arith, text_eq_iff key key))

  ingest-found :
      (input : IngestEventInput) (c : ℕ) (cs : Text) (existing : Event) (w : World)
      → input.idempotency_key ≡ some (c ∷ cs)
      → p.find_one (has_idempotency_key input.org_id (c ∷ cs)) w.events ≡ some existing
      → ingest input w ≡ (ok (ingest_result true existing), w)
  unfolding ingest find_event_by_idempotency_key
  ingest-found input c cs existing w key found = rw (key, found)

  ingest-missed :
      (input : IngestEventInput) (c : ℕ) (cs : Text) (w : World)
      → input.idempotency_key ≡ some (c ∷ cs)
      → p.find_one (has_idempotency_key input.org_id (c ∷ cs)) w.events ≡ none
      → ingest input w ≡ ingest_new input w
  unfolding ingest find_event_by_idempotency_key
  ingest-missed input c cs w key missed = rw (key, missed)

  -- Once an ingestion with a non-empty idempotency key has returned, another of the same
  -- organisation with the same key, whatever its payload and at any time at which the events are as
  -- the first one left them, gives the first one's event as a replay and changes nothing.
  pub ingest_replay :
      (first second : IngestEventInput) (c : ℕ) (cs : Text) (r : IngestEventResult)
      (w w' later : World)
      → first.idempotency_key ≡ some (c ∷ cs)
      → second.idempotency_key ≡ some (c ∷ cs)
      → second.org_id ≡ first.org_id
      → ingest first w ≡ (ok r, w')
      → later.events ≡ w'.events
      → ingest second later ≡ (ok (record r { idempotent_replay = true }), later)
  unfolding ingest_result
  ingest_replay first second c cs r w w' later k1 k2 org h same =
      let fits = has_idempotency_key first.org_id (c ∷ cs) in
      elim (Option-cases (p.find_one fits w.events)) [
        | inr (existing, found) ↦
            let both = sym (ingest-found first c cs existing w k1 found) ∙ h in
            let result : ingest_result true existing ≡ r = ground arith in
            let kept : later.events ≡ w.events = same ∙ sym (ap (λ o. o.1.events) both) in
            ingest-found second c cs existing later k2 (rw (org, kept) found)
            ∙ ap (λ (x : IngestEventResult). (ok (record x { idempotent_replay = true }), later))
                result
        | inl missed ↦
            let made =
              ingest_new-Created first r w w' (sym (ingest-missed first c cs w k1 missed) ∙ h) in
            let own =
              has_idempotency_key-own first.org_id (c ∷ cs) made.event made.org (made.key ∙ k1) in
            let found =
              find_one-append p.query fits w.events made.event
                (p.query.find_one-complete fits w.events missed) own in
            let second_run =
              ingest-found second c cs made.event later k2 (rw (org, same, made.table) found) in
            second_run
            ∙ ap (λ (x : IngestEventResult). (ok (record x { idempotent_replay = true }), later))
                (sym made.result)
      ]
