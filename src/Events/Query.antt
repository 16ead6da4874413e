-- ===== src/Events/Query.antt =====
-- src/services/event/event-query.service.ts.
pub mod Pages
use hashira_be_railway_deplo.Base.{
  ℕ, zero, suc, ◌*◌, Option, none, some, Bool, true, false, not, List, [], ◌∷◌, ◌++◌, map, Text,
  str, ◌==◌, ltb, if◌then◌else◌,
}
use hashira_be_railway_deplo.Base.Strings.{truthy, decimal}
use hashira_be_railway_deplo.Types.{
  EventStatus, event_status_eq, not_found_error, unprocessable_error, not_found, unprocessable,
}
use hashira_be_railway_deplo.Entities.{Uuid, Date, Event, User}
use hashira_be_railway_deplo.Canonical.Values.{Fields}
use hashira_be_railway_deplo.Platform.{Platform}
use hashira_be_railway_deplo.World.Monad.{App, pure, throw_if, or_throw, ◌>>=◌, ◌>>◌}
use hashira_be_railway_deplo.Crypto.Envelope.{decrypt}
use hashira_be_railway_deplo.Repositories.Events.{ListEventsInput, list_events, find_event_by_id}
use hashira_be_railway_deplo.Repositories.Users.{find_users_by_ids, find_user_by_id_and_org}

pub record ChainMeta : Type 0 where
  pub name : Text
  pub explorer_base : Option Text

-- CHAIN_META, and the fallback beside it.
unfoldable pub chain_meta : ℕ → ChainMeta
chain_meta chain_id =
    if chain_id == 8453
    then record { name = str "Base"; explorer_base = some (str "https://basescan.org/tx") }
    else if chain_id == 84532
    then record {
      name = str "Base Sepolia";
      explorer_base = some (str "https://sepolia.basescan.org/tx");
    }
    else record { name = str "Chain " ++ decimal chain_id; explorer_base = none }

pub data PublicEventStatus : Type 0 where
  processing anchoring anchored failed : PublicEventStatus

unfoldable pub to_public_status : EventStatus → PublicEventStatus
to_public_status EventStatus.processing = PublicEventStatus.processing
to_public_status EventStatus.anchoring = PublicEventStatus.anchoring
to_public_status EventStatus.anchored = PublicEventStatus.anchored
to_public_status EventStatus.anchor_failed = PublicEventStatus.failed

pub record EventSummary : Type 0 where
  pub event_id : Uuid
  pub user_id : Option Uuid
  pub email : Option Text
  pub model_id : Text
  pub workflow_id : Option Text
  pub status : PublicEventStatus
  pub canonical_hash : Option Text
  pub tx_hash : Option Text
  pub anchored_at : Option Date
  pub created_at : Date

pub record EventDetail : Type 0 where
  pub event_id : Uuid
  pub org_id : Uuid
  pub user_id : Option Uuid
  pub email : Option Text
  pub prompt : Text
  pub output : Text
  pub model_id : Text
  pub workflow_id : Option Text
  pub metadata : Option Fields
  pub timestamp : Date
  pub received_at : Date
  pub canonical_hash : Option Text
  pub status : PublicEventStatus
  pub tx_hash : Option Text
  pub block_number : Option Text
  pub chain_id : Option ℕ
  pub anchored_at : Option Date
  pub created_at : Date

-- `verification_status` is always 'anchored'.
pub record VerificationData : Type 0 where
  pub event_id : Uuid
  pub canonical_hash : Text
  pub tx_hash : Text
  pub block_number : Text
  pub chain_id : ℕ
  pub chain_name : Text
  pub chain_explorer_url : Option Text
  pub anchored_at : Date

pub record Pagination : Type 0 where
  pub page : ℕ
  pub page_size : ℕ
  pub total : ℕ
  pub has_next : Bool

pub record EventPage : Type 0 where
  pub data_rows : List EventSummary
  pub pagination : Pagination

unfoldable pub to_summary : Event → Option Text → EventSummary
unfolding to_public_status
to_summary e owner_email = record {
  event_id = e.event_id;
  user_id = e.user_id;
  email = owner_email;
  model_id = e.model_id;
  workflow_id = e.workflow_id;
  status = to_public_status e.status;
  canonical_hash = e.canonical_hash;
  tx_hash = e.tx_hash;
  anchored_at = e.anchored_at;
  created_at = e.created_at;
}

-- The users that own the events; a Set of them differs only in the query it makes.
unfoldable pub owner_ids : List Event → List Uuid
owner_ids [] = []
owner_ids (e ∷ es) = elim e.user_id [ none ↦ owner_ids es | some id ↦ id ∷ owner_ids es ]

-- `new Map(users.map((u) => [u.user_id, u.email])).get(id)`: the last entry for a key counts.
unfoldable pub email_by_id : Option Uuid → List User → Option Text
email_by_id none users = none
email_by_id (some id) [] = none
email_by_id (some id) (u ∷ us) =
    let later = email_by_id (some id) us in
    elim later [ some email ↦ some email | none ↦ if u.user_id == id then some u.email else none ]

-- `userId && event.user_id !== userId`
unfoldable pub is_hidden_from : Option Uuid → Event → Bool
is_hidden_from none e = false
is_hidden_from (some user_id) e = elim e.user_id [
  | none ↦ true
  | some owner ↦ not (owner == user_id)
]

-- `!n`: zero counts as absent.
unfoldable pub nonzero : Option ℕ → Option ℕ
nonzero none = none
nonzero (some zero) = none
nonzero (some (suc n)) = some (suc n)

unfoldable pub explorer_url : Option Text → Text → Option Text
explorer_url none tx_hash = none
explorer_url (some base) tx_hash = some (base ++ (b'/' ∷ tx_hash))

module _ ⦃p : Platform⦄ where
  unfoldable pub list : ListEventsInput → App EventPage
  unfolding list_events owner_ids find_users_by_ids to_summary email_by_id
  list query = do
    result ← list_events query
    users ← find_users_by_ids (owner_ids result.events)
    pure (record {
      data_rows = map (λ e. to_summary e (email_by_id e.user_id users)) result.events;
      pagination = record {
        page = query.page;
        page_size = query.page_size;
        total = result.total;
        has_next = ltb (query.page * query.page_size) result.total;
      };
    })

  -- The start of `getById` and `getVerification`.
  unfoldable pub visible_event : Uuid → Uuid → Option Uuid → App Event
  unfolding find_event_by_id is_hidden_from
  visible_event event_id org_id user_id = do
    found ← find_event_by_id event_id org_id
    event ← or_throw found (not_found_error not_found)
    throw_if (is_hidden_from user_id event) (not_found_error not_found)
    pure event

  unfoldable pub owner_email : Option Uuid → Uuid → App (Option Text)
  unfolding find_user_by_id_and_org
  owner_email none org_id = pure none
  owner_email (some user_id) org_id = do
    user ← find_user_by_id_and_org user_id org_id
    pure (elim user [ none ↦ none | some u ↦ some u.email ])

  unfoldable pub to_detail : Event → Option Text → App EventDetail
  unfolding decrypt to_public_status
  to_detail e email = do
    prompt ← decrypt e.prompt
    output ← decrypt e.output
    pure (record {
      event_id = e.event_id;
      org_id = e.org_id;
      user_id = e.user_id;
      email = email;
      prompt = prompt;
      output = output;
      model_id = e.model_id;
      workflow_id = e.workflow_id;
      metadata = e.metadata;
      timestamp = e.timestamp;
      received_at = e.received_at;
      canonical_hash = e.canonical_hash;
      status = to_public_status e.status;
      tx_hash = e.tx_hash;
      block_number = e.block_number;
      chain_id = e.chain_id;
      anchored_at = e.anchored_at;
      created_at = e.created_at;
    })

  unfoldable pub get_by_id : Uuid → Uuid → Option Uuid → App EventDetail
  unfolding visible_event owner_email to_detail
  get_by_id event_id org_id user_id = do
    event ← visible_event event_id org_id user_id
    email ← owner_email event.user_id org_id
    to_detail event email

  -- The end of `getVerification`: an event that is not anchored in full is refused.
  unfoldable pub verification_of : Event → App VerificationData
  unfolding nonzero chain_meta explorer_url
  verification_of event = do
    throw_if (not (event_status_eq event.status EventStatus.anchored))
        (unprocessable_error unprocessable)
    tx_hash ← or_throw (truthy event.tx_hash) (unprocessable_error unprocessable)
    block_number ← or_throw (truthy event.block_number) (unprocessable_error unprocessable)
    chain_id ← or_throw (nonzero event.chain_id) (unprocessable_error unprocessable)
    anchored_at ← or_throw event.anchored_at (unprocessable_error unprocessable)
    canonical_hash ← or_throw (truthy event.canonical_hash) (unprocessable_error unprocessable)
    let meta = chain_meta chain_id
    pure (record {
      event_id = event.event_id;
      canonical_hash = canonical_hash;
      tx_hash = tx_hash;
      block_number = block_number;
      chain_id = chain_id;
      chain_name = meta.name;
      chain_explorer_url = explorer_url meta.explorer_base tx_hash;
      anchored_at = anchored_at;
    })

  unfoldable pub get_verification : Uuid → Uuid → Option Uuid → App VerificationData
  unfolding visible_event verification_of
  get_verification event_id org_id user_id = do
    event ← visible_event event_id org_id user_id
    verification_of event
