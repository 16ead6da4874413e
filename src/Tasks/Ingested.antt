-- ===== src/Tasks/Ingested.antt =====
-- What an ingestion does to the rows and to the work put off, however it ends:
-- src/services/event/event-ingestion.service.ts.
use hashira_be_railway_deplo.Base.{
  ◌+◌, ◌≡◌, refl, ◌⊎◌, inl, inr, true, [], ◌∷◌, ◌++◌, Text, any, arith, Option, some, none,
  Option-cases, Bool-cases,
}
use hashira_be_railway_deplo.Base.Strings.{truthy}
use hashira_be_railway_deplo.Types.{EventStatus}
use hashira_be_railway_deplo.Entities.{Event}
use hashira_be_railway_deplo.Platform.{Platform}
use hashira_be_railway_deplo.World.{World, process_event, ProcessableEvent}
use hashira_be_railway_deplo.Repositories.Events.{
  create_event, clashes, find_event_by_idempotency_key, has_idempotency_key,
}
use hashira_be_railway_deplo.Events.Ingestion.{
  IngestEventInput, ingest, ingest_new, ingest_keyed, replay_or_new, dispatch, processable,
  create_event_input,
}
use hashira_be_railway_deplo.Tasks.Idle.{Idle}
use hashira_be_railway_deplo.Tasks.Sound.{is_whole}

module _ ⦃p : Platform⦄ where
  -- A new row, and a callback for it if there is a processing service.
  pub record Added (w v : World) : Type 0 where
    pub event : Event
    pub table : v.events ≡ w.events ++ event ∷ []
    pub event_id : event.event_id ≡ p.uuid w.calls
    pub whole : is_whole event ≡ true
    pub queue : v.anchor_queue ≡ w.anchor_queue
    pub calls : v.calls ≡ w.calls + 1
    pub tasks :
        (v.tasks ≡ w.tasks)
        ⊎ ((task : ProcessableEvent) × (task.event_id ≡ p.uuid w.calls)
            × (v.tasks ≡ w.tasks ++ process_event task ∷ []))

  abbrev pub Ingested : World → World → Type 0
  Ingested w v = ((v.events ≡ w.events) × Idle w v) ⊎ Added w v

  new_row : IngestEventInput → World → Event
  new_row input w = record {
    event_id = p.uuid w.calls;
    org_id = input.org_id;
    user_id = input.user_id;
    api_key_id = some input.api_key_id;
    idempotency_key = input.idempotency_key;
    prompt = input.payload.prompt;
    output = input.payload.output;
    model_id = input.payload.model_id;
    workflow_id = input.payload.workflow_id;
    metadata = input.payload.metadata;
    timestamp = input.payload.timestamp;
    received_at = w.now;
    canonical_hash = none;
    status = EventStatus.processing;
    tx_hash = none;
    block_number = none;
    chain_id = none;
    anchored_at = none;
    anchor_error = none;
    created_at = w.now;
  }

  ingest_new-Ingested : (input : IngestEventInput) (w : World) → Ingested w (ingest_new input w).1
  unfolding ingest_new create_event dispatch processable create_event_input new_row is_whole
  ingest_new-Ingested input w =
      elim (Bool-cases (any (clashes input.org_id input.idempotency_key) w.events)) [
        | inl taken ↦ inl (ground arith)
        | inr free ↦ elim (Bool-cases w.processing_service) [
          | inl running ↦ inr (record {
            event = new_row input w;
            table = ground arith;
            event_id = refl;
            whole = refl;
            queue = ground arith;
            calls = ground arith;
            tasks = inr (processable input (new_row input w), refl, ground arith);
          })
          | inr stopped ↦ inr (record {
            event = new_row input w;
            table = ground arith;
            event_id = refl;
            whole = refl;
            queue = ground arith;
            calls = ground arith;
            tasks = inl (ground arith);
          })
        ]
      ]

  ingest_keyed-Ingested :
      (input : IngestEventInput) (key : Option Text) (w : World)
      → Ingested w (ingest_keyed input key w).1
  unfolding ingest_keyed replay_or_new find_event_by_idempotency_key
  ingest_keyed-Ingested input none w = ingest_new-Ingested input w
  ingest_keyed-Ingested input (some key) w =
      elim (Option-cases (p.find_one (has_idempotency_key input.org_id key) w.events)) [
        | inl missed ↦ rw missed (ingest_new-Ingested input w)
        | inr (e, found) ↦ inl (ground arith)
      ]

  pub ingest-Ingested : (input : IngestEventInput) (w : World) → Ingested w (ingest input w).1
  unfolding ingest
  ingest-Ingested input w = ingest_keyed-Ingested input (truthy input.idempotency_key) w
