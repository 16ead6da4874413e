-- ===== src/Repositories/Events.antt =====
-- src/repositories/event.repository.ts.
use hashira_be_railway_deplo.Base.{
  ℕ, ◌*◌, ◌-◌, Bool, true, Option, none, some, ◌&&◌, List, [], ◌∷◌, ◌++◌, Text, text_eq, any, keep,
  ◌==◌, length, take, drop, leb,
}
use hashira_be_railway_deplo.Base.Strings.{decimal, truthy}
use hashira_be_railway_deplo.Types.{EventStatus, event_status_eq}
use hashira_be_railway_deplo.Entities.{Uuid, Date, Event}
use hashira_be_railway_deplo.Canonical.Values.{Fields}
use hashira_be_railway_deplo.Platform.{Platform}
use hashira_be_railway_deplo.World.Monad.{App, gets, draw, modify_db, throw_if, pure, ◌>>=◌, ◌>>◌}
use hashira_be_railway_deplo.Repositories.Sql.{update_where, same_text, same_uuid, unique_violation}

pub record CreateEventInput : Type 0 where
  pub org_id : Uuid
  pub api_key_id : Option Uuid
  pub user_id : Option Uuid
  pub prompt : Text
  pub output : Text
  pub model_id : Text
  pub workflow_id : Option Text
  pub metadata : Option Fields
  pub timestamp : Date
  pub idempotency_key : Option Text

pub data Sort : Type 0 where
  asc desc : Sort

pub record ListEventsInput : Type 0 where
  pub org_id : Uuid
  pub user_id : Option Uuid
  pub page : ℕ
  pub page_size : ℕ
  pub sort : Sort
  pub statuses : List EventStatus
  pub from : Option Date
  pub to : Option Date
  pub workflow_id : Option Text
  pub model_id : Option Text

pub record ListEventsResult : Type 0 where
  pub events : List Event
  pub total : ℕ

unfoldable pub is_event_of : Uuid → Uuid → Event → Bool
is_event_of event_id org_id e = e.event_id == event_id && e.org_id == org_id

unfoldable pub has_idempotency_key : Uuid → Text → Event → Bool
unfolding same_text
has_idempotency_key org_id key e = e.org_id == org_id && same_text e.idempotency_key (some key)

-- The rows that the partial unique index events_org_idempotency_uniq forbids beside a new one.
unfoldable pub clashes : Uuid → Option Text → Event → Bool
unfolding same_text
clashes org_id key e = e.org_id == org_id && same_text e.idempotency_key key

unfoldable pub to_anchoring : Text → Text → Text → EventStatus → Event → Event
to_anchoring canonical_hash encrypted_prompt encrypted_output status e = record e {
  canonical_hash = some canonical_hash;
  prompt = encrypted_prompt;
  output = encrypted_output;
  status = status;
}

unfoldable pub to_anchored : Text → ℕ → ℕ → Date → EventStatus → Event → Event
to_anchored tx_hash block_number chain_id anchored_at status e = record e {
  tx_hash = some tx_hash;
  block_number = some (decimal block_number);
  chain_id = some chain_id;
  anchored_at = some anchored_at;
  status = status;
}

unfoldable pub to_anchor_failed : Text → Event → Event
to_anchor_failed anchor_error e = record e {
  status = EventStatus.anchor_failed;
  anchor_error = some anchor_error;
}

unfoldable pub update_event : Uuid → Uuid → (Event → Event) → App (Unit {0})
update_event event_id org_id change =
    modify_db
      λ db. record db { events = update_where (is_event_of event_id org_id) change db.events }

unfoldable pub update_event_to_anchoring :
    Uuid → Uuid → Text → Text → Text → EventStatus → App (Unit {0})
unfolding update_event to_anchoring
update_event_to_anchoring event_id org_id canonical_hash encrypted_prompt encrypted_output status =
    update_event event_id org_id
      (to_anchoring canonical_hash encrypted_prompt encrypted_output status)

unfoldable pub update_event_to_anchored :
    Uuid → Uuid → Text → ℕ → ℕ → Date → EventStatus → App (Unit {0})
unfolding update_event to_anchored
update_event_to_anchored event_id org_id tx_hash block_number chain_id anchored_at status =
    update_event event_id org_id (to_anchored tx_hash block_number chain_id anchored_at status)

unfoldable pub update_event_to_anchor_failed : Uuid → Uuid → Text → App (Unit {0})
unfolding update_event to_anchor_failed
update_event_to_anchor_failed event_id org_id anchor_error =
    update_event event_id org_id (to_anchor_failed anchor_error)

-- The conditions that `listEvents` puts together with `andWhere`; an empty string counts as absent.
abbrev pub when_given {ℓ} : {A : Type ℓ} → Option A → (A → Bool) → Bool
when_given none test = true
when_given (some a) test = test a

unfoldable pub status_in : List EventStatus → Event → Bool
status_in [] e = true
status_in (s ∷ ss) e = any (λ t. event_status_eq t e.status) (s ∷ ss)

unfoldable pub is_listed : ListEventsInput → Event → Bool
unfolding same_uuid same_text status_in
is_listed input e =
    e.org_id == input.org_id
    && when_given input.user_id (λ u. same_uuid e.user_id u)
    && status_in input.statuses e
    && when_given input.from (λ t. leb t e.created_at)
    && when_given input.to (λ t. leb e.created_at t)
    && when_given (truthy input.workflow_id) (λ v. same_text e.workflow_id (some v))
    && when_given (truthy input.model_id) (λ m. text_eq e.model_id m)

module _ ⦃p : Platform⦄ where
  unfoldable pub create_event : CreateEventInput → App Event
  unfolding clashes
  create_event input = do
    throw_if (← gets λ w. any (clashes input.org_id input.idempotency_key) w.events)
        unique_violation
    event_id ← draw p.uuid
    now ← gets (λ w. w.now)
    let event : Event = record {
      event_id = event_id;
      org_id = input.org_id;
      user_id = input.user_id;
      api_key_id = input.api_key_id;
      idempotency_key = input.idempotency_key;
      prompt = input.prompt;
      output = input.output;
      model_id = input.model_id;
      workflow_id = input.workflow_id;
      metadata = input.metadata;
      timestamp = input.timestamp;
      received_at = now;
      canonical_hash = none;
      status = EventStatus.processing;
      tx_hash = none;
      block_number = none;
      chain_id = none;
      anchored_at = none;
      anchor_error = none;
      created_at = now;
    }
    modify_db λ db. record db { events = db.events ++ event ∷ [] }
    pure event

  unfoldable pub find_event_by_idempotency_key : Uuid → Text → App (Option Event)
  unfolding has_idempotency_key
  find_event_by_idempotency_key org_id key =
      gets λ w. p.find_one (has_idempotency_key org_id key) w.events

  unfoldable pub find_event_by_id : Uuid → Uuid → App (Option Event)
  unfolding is_event_of
  find_event_by_id event_id org_id = gets λ w. p.find_one (is_event_of event_id org_id) w.events

  unfoldable pub order_by : Sort → List Event → List Event
  order_by Sort.asc rows = p.order_asc (λ e. e.created_at) rows
  order_by Sort.desc rows = p.order_desc (λ e. e.created_at) rows

  -- OFFSET and LIMIT of the ordered rows, and the number of rows without them.
  unfoldable pub list_events : ListEventsInput → App ListEventsResult
  unfolding is_listed order_by
  list_events input = gets λ w.
      let rows = keep (is_listed input) w.events in
      record {
        events =
            take input.page_size
              (drop ((input.page - 1) * input.page_size) (order_by input.sort rows));
        total = length rows;
      }
