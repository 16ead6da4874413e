-- ===== src/Controllers/Events.antt =====
-- src/controllers/event/event.controller.ts.
use hashira_be_railway_deplo.Base.{ℕ, Bool, Option, none, some, Text, ltb, length, from_option}
use hashira_be_railway_deplo.Base.Strings.{truthy, trim}
use hashira_be_railway_deplo.Types.{
  auth_error, validation_failed, api_key_required, validation_error,
}
use hashira_be_railway_deplo.Platform.{Platform}
use hashira_be_railway_deplo.World.Monad.{App, pure, or_throw, throw_if, ◌>>=◌, ◌>>◌}
use hashira_be_railway_deplo.Events.Ingestion.{CreateEventBody, IngestEventResult, ingest}
use hashira_be_railway_deplo.Middleware.Access.{Request}
use hashira_be_railway_deplo.Controllers.Http.{Response, reply}

abbrev pub max_idempotency_key_length : ℕ
max_idempotency_key_length = 255

-- The header without the white space around it, `null` if nothing is left.
unfoldable pub idempotency_key_of : Option Text → Option Text
idempotency_key_of none = none
idempotency_key_of (some raw) = truthy (some (trim raw))

unfoldable pub is_too_long : Option Text → Bool
is_too_long key = from_option Bool.false (λ k. ltb max_idempotency_key_length (length k)) key

module _ ⦃p : Platform⦄ where
  unfoldable pub create_event_handler :
      Option Text → CreateEventBody → Request → App (Response IngestEventResult)
  unfolding idempotency_key_of is_too_long reply
  create_event_handler header body req = do
    api_key ← or_throw req.api_key (auth_error api_key_required)
    let key = idempotency_key_of header
    throw_if (is_too_long key) (validation_failed validation_error)
    result ← ingest (record {
      org_id = api_key.org_id;
      api_key_id = api_key.key_id;
      user_id = api_key.user_id;
      payload = body;
      idempotency_key = key;
    })
    pure (reply 202 result)
