-- ===== src/Events/Ingestion.antt =====
-- src/services/event/event-ingestion.service.ts.
pub mod Replay
use hashira_be_railway_deplo.Base.{
  ℕ, Bool, true, false, Option, none, some, List, [], ◌∷◌, ◌++◌, Text, if◌then◌else◌,
}
use hashira_be_railway_deplo.Base.Strings.{truthy}
use hashira_be_railway_deplo.Types.{EventStatus}
use hashira_be_railway_deplo.Entities.{Uuid, Date, Event}
use hashira_be_railway_deplo.Canonical.Values.{Fields}
use hashira_be_railway_deplo.Platform.{Platform}
use hashira_be_railway_deplo.World.{World, Task, ProcessableEvent, process_event}
use hashira_be_railway_deplo.World.Monad.{App, modify, pure, ◌>>=◌, ◌>>◌}
use hashira_be_railway_deplo.Repositories.Events.{
  CreateEventInput, create_event, find_event_by_idempotency_key,
}

-- CreateEventBody of src/validators/event.validator.ts, with `new Date(timestamp)`.
pub record CreateEventBody : Type 0 where
  pub prompt : Text
  pub output : Text
  pub model_id : Text
  pub workflow_id : Option Text
  pub metadata : Option Fields
  pub timestamp : Date

pub record IngestEventInput : Type 0 where
  pub org_id : Uuid
  pub api_key_id : Uuid
  pub user_id : Option Uuid
  pub payload : CreateEventBody
  pub idempotency_key : Option Text

pub record IngestEventResult : Type 0 where
  pub event_id : Uuid
  pub status : EventStatus
  pub received_at : Date
  pub idempotent_replay : Bool

unfoldable pub ingest_result : Bool → Event → IngestEventResult
ingest_result replay e = record {
  event_id = e.event_id;
  status = e.status;
  received_at = e.received_at;
  idempotent_replay = replay;
}

unfoldable pub create_event_input : IngestEventInput → CreateEventInput
create_event_input input = record {
  org_id = input.org_id;
  api_key_id = some input.api_key_id;
  user_id = input.user_id;
  prompt = input.payload.prompt;
  output = input.payload.output;
  model_id = input.payload.model_id;
  workflow_id = input.payload.workflow_id;
  metadata = input.payload.metadata;
  timestamp = input.payload.timestamp;
  idempotency_key = input.idempotency_key;
}

unfoldable pub processable : IngestEventInput → Event → ProcessableEvent
processable input e = record {
  event_id = e.event_id;
  org_id = e.org_id;
  prompt = input.payload.prompt;
  output = input.payload.output;
  model_id = input.payload.model_id;
  timestamp = e.timestamp;
  workflow_id = e.workflow_id;
  metadata = e.metadata;
}

-- `setImmediate`, if there is a processing service.
unfoldable pub dispatch : ProcessableEvent → App (Unit {0})
dispatch event = modify λ w.
    if w.processing_service then record w { tasks = w.tasks ++ process_event event ∷ [] } else w

module _ ⦃p : Platform⦄ where
  unfoldable pub ingest_new : IngestEventInput → App IngestEventResult
  unfolding ingest_result create_event_input processable dispatch create_event
  ingest_new input = do
    event ← create_event (create_event_input input)
    dispatch (processable input event)
    pure (ingest_result false event)

  unfoldable pub replay_or_new : IngestEventInput → Option Event → App IngestEventResult
  unfolding ingest_new ingest_result
  replay_or_new input none = ingest_new input
  replay_or_new input (some existing) = pure (ingest_result true existing)

  unfoldable pub ingest_keyed : IngestEventInput → Option Text → App IngestEventResult
  unfolding replay_or_new find_event_by_idempotency_key ingest_new
  ingest_keyed input none = ingest_new input
  ingest_keyed input (some key) = do
    existing ← find_event_by_idempotency_key input.org_id key
    replay_or_new input existing

  unfoldable pub ingest : IngestEventInput → App IngestEventResult
  unfolding ingest_keyed
  ingest input = ingest_keyed input (truthy input.idempotency_key)
