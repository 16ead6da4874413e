-- ===== src/Events/Checks.antt =====
-- Runs of the services of events on concrete states, and the theorems about them there.
use hashira_be_railway_deplo.Base.{
  ◌≡◌, ◌≤◌, All, length, keep, refl, str, none, some, true, false, [], ◌∷◌, any,
}
use hashira_be_railway_deplo.Types.{EventStatus, ok}
use hashira_be_railway_deplo.World.{World, ProcessableEvent}
use hashira_be_railway_deplo.Events.Processing.{ProcessedEvent, hash_event, process}
use hashira_be_railway_deplo.Events.Processing.Processed.{Processed, process-Processed}
use hashira_be_railway_deplo.Events.Ingestion.{IngestEventInput, IngestEventResult, ingest}
use hashira_be_railway_deplo.Events.Ingestion.Replay.{ingest_replay}
use hashira_be_railway_deplo.Events.Query.{VerificationData, get_verification}
use hashira_be_railway_deplo.Events.Visible.{OnChain, get_verification-OnChain}
use hashira_be_railway_deplo.Samples.Rows.{find_first, sort}
use hashira_be_railway_deplo.Samples.Services.{demo, start, anchored_event}
use hashira_be_railway_deplo.Repositories.Events.{
  ListEventsInput, ListEventsResult, list_events, is_listed, desc,
}
use hashira_be_railway_deplo.Events.Query.Pages.{Kept, list_events-Kept}

abbrev request : IngestEventInput
request = record {
  org_id = 10;
  api_key_id = 80;
  user_id = none;
  payload = record {
    prompt = str "hi";
    output = str "ho";
    model_id = str "m";
    workflow_id = none;
    metadata = none;
    timestamp = 7;
  };
  idempotency_key = some (str "k1");
}

abbrev answer : IngestEventResult
answer = record {
  event_id = 100;
  status = EventStatus.processing;
  received_at = 1000;
  idempotent_replay = false;
}

abbrev after_ingest : World
after_ingest = (ingest request start).1

ingest-start : ingest request start ≡ (ok answer, after_ingest)
unfolding ingest find_first any
ingest-start = refl

ingest_replay_example :
    ingest request (record after_ingest { now = 5000 })
    ≡ (ok (record answer { idempotent_replay = true }), record after_ingest { now = 5000 })
ingest_replay_example =
    ingest_replay request request b'k' (b'1' ∷ []) answer start after_ingest
      (record after_ingest { now = 5000 }) refl refl refl ingest-start refl

abbrev shown : VerificationData
shown = record {
  event_id = 90;
  canonical_hash = str "ab";
  tx_hash = str "0xfeed";
  block_number = str "42";
  chain_id = 84532;
  chain_name = str "Base Sepolia";
  chain_explorer_url = some (str "https://sepolia.basescan.org/tx/0xfeed");
  anchored_at = 6;
}

verification_start : get_verification 90 10 (some 1) start ≡ (ok shown, start)
unfolding get_verification find_first
verification_start = refl

get_verification-OnChain_example : OnChain 90 10 (some 1) start shown × (start ≡ start)
get_verification-OnChain_example =
    get_verification-OnChain 90 10 (some 1) start start shown verification_start

abbrev pending : ProcessableEvent
pending = record {
  event_id = 90;
  org_id = 10;
  prompt = str "hi";
  output = str "ho";
  model_id = str "m";
  timestamp = 7;
  workflow_id = none;
  metadata = none;
}

abbrev processed : ProcessedEvent
processed = record {
  event_id = 90;
  org_id = 10;
  canonical_hash = hash_event pending;
  status = EventStatus.anchoring;
}

abbrev after_process : World
after_process = (process pending start).1

process-pending : process pending start ≡ (ok processed, after_process)
unfolding process
process-pending = refl

process-Processed_example : Processed pending processed start after_process
process-Processed_example = process-Processed pending processed start after_process process-pending

abbrev first_page : ListEventsInput
first_page = record {
  org_id = 10;
  user_id = some 1;
  page = 1;
  page_size = 20;
  sort = desc;
  statuses = [];
  from = none;
  to = some 100;
  workflow_id = none;
  model_id = none;
}

abbrev one_event : ListEventsResult
one_event = record { events = anchored_event ∷ []; total = 1 }

list_first_page : list_events first_page start ≡ (ok one_event, start)
unfolding list_events sort keep
list_first_page = refl

list_events-Kept_example :
    All (λ e. Kept (is_listed first_page) start.events e × (e.org_id ≡ 10)) one_event.events
    × (length one_event.events ≤ 20)
    × (one_event.total ≡ length (keep (is_listed first_page) start.events))
list_events-Kept_example = list_events-Kept first_page one_event start start list_first_page
