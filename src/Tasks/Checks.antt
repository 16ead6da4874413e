-- ===== src/Tasks/Checks.antt =====
-- The life of an event on a concrete state, and each theorem about it at a concrete input.
use hashira_be_railway_deplo.Base.{
  ◌≡◌, refl, [], ◌∷◌, ◌++◌, some, none, str, true, any, text_eq, All, arith,
}
use hashira_be_railway_deplo.Base.Hex.{hex_encode}
use hashira_be_railway_deplo.World.{
  World, Task, AnchorEventJobData, ProcessableEvent, process_event, activate_org,
}
use hashira_be_railway_deplo.Repositories.Events.{is_event_of}
use hashira_be_railway_deplo.Events.Ingestion.{IngestEventInput, ingest}
use hashira_be_railway_deplo.Events.Processing.{hash_event}
use hashira_be_railway_deplo.Anchoring.Service.{processor}
use hashira_be_railway_deplo.Organisations.Service.{CreateOrgBody, create_org}
use hashira_be_railway_deplo.Tasks.{Steps, Step, run_task}
use hashira_be_railway_deplo.Tasks.Settled.{is_settled, processor_settles}
use hashira_be_railway_deplo.Tasks.Reachable.{Sound, UniqueIds, Steps-Sound}
use hashira_be_railway_deplo.Repositories.Organisations.{activate_org_by_id}
use hashira_be_railway_deplo.Samples.Rows.{find_first}
use hashira_be_railway_deplo.Samples.Services.{demo, start}

abbrev empty : World
empty = record start { db = record start.db { events = [] } }

abbrev input : IngestEventInput
input = record {
  org_id = 10;
  api_key_id = 80;
  user_id = some 1;
  payload = record {
    prompt = str "p";
    output = str "o";
    model_id = str "m";
    workflow_id = none;
    metadata = none;
    timestamp = 7;
  };
  idempotency_key = none;
}

demo_ids : UniqueIds ⦃p = demo⦄
demo_ids m n h = omega (arith, h)

-- A signup comes first, whose activation waits.
abbrev body : CreateOrgBody
body = record {
  org_name = str "Globex";
  admin_email = some (str "hank@x.io");
  password = some (str "password");
  google_id_token = none;
}

abbrev signed_up : World
signed_up = (create_org body empty).1

abbrev ingested : World
ingested = (ingest input signed_up).1

abbrev activation : Task
activation = activate_org 101 6000

-- What the ingestion puts off.
abbrev put_off : ProcessableEvent
put_off = record {
  event_id = 106;
  org_id = 10;
  prompt = str "p";
  output = str "o";
  model_id = str "m";
  timestamp = 7;
  workflow_id = none;
  metadata = none;
}

ingested_tasks : ingested.tasks ≡ (activation ∷ []) ++ (process_event put_off ∷ [])
unfolding create_org find_first text_eq ingest any hex_encode
ingested_tasks = refl

abbrev processed : World
processed = (run_task (process_event put_off) (record ingested { tasks = activation ∷ [] })).1

abbrev queued : AnchorEventJobData
queued = record { event_id = 106; org_id = 10; canonical_hash = hash_event put_off }

processed_queue : processed.anchor_queue ≡ [] ++ (queued ∷ [])
unfolding create_org find_first text_eq run_task ingest any hex_encode
processed_queue = refl

processed_tasks : processed.tasks ≡ [] ++ (activation ∷ [])
unfolding create_org find_first text_eq run_task ingest any hex_encode
processed_tasks = refl

-- The activation runs before the job.
abbrev activated : World
activated = (run_task activation (record processed { tasks = [] })).1

activated_queue : activated.anchor_queue ≡ [] ++ (queued ∷ [])
unfolding run_task activate_org_by_id
activated_queue = processed_queue

abbrev anchored : World
anchored = (processor queued (record activated { anchor_queue = [] })).1

whole_life : Steps empty anchored
whole_life =
    Steps.and_then
      (Steps.and_then
        (Steps.and_then
          (Steps.and_then (Steps.and_then Steps.here (Step.signup body)) (Step.request input))
          (Step.callback (activation ∷ []) [] (process_event put_off) ingested_tasks))
        (Step.callback [] [] activation processed_tasks))
      (Step.job [] [] queued activated_queue)

Steps-Sound_example : Sound anchored
Steps-Sound_example = Steps-Sound empty anchored demo_ids refl refl refl whole_life

abbrev a_job : AnchorEventJobData
a_job = record { event_id = 90; org_id = 10; canonical_hash = str "ab" }

processor_settles_example :
    All
      (λ e. is_event_of 90 10 e ≡ true → is_settled e.status ≡ true)
      (processor a_job start).1.events
processor_settles_example = processor_settles a_job start
