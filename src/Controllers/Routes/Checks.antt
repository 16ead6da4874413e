-- ===== src/Controllers/Routes/Checks.antt =====
-- Requests to routes on concrete states, and each theorem about them at a concrete input.
use hashira_be_railway_deplo.Base.{
  ◌≡◌, refl, Bool, none, some, [], ◌∷◌, str, any, text_eq, arith, ◌⊎◌,
}
use hashira_be_railway_deplo.Base.Hex.{hex_encode, hex_decode, cons_byte, hex_byte, hex_value}
use hashira_be_railway_deplo.Types.{ok, UserRole, ApiKeyStatus, EventStatus, has_permission}
use hashira_be_railway_deplo.Entities.{Uuid, User}
use hashira_be_railway_deplo.World.{World}
use hashira_be_railway_deplo.World.Monad.{pure}
use hashira_be_railway_deplo.Repositories.Sql.{update_where}
use hashira_be_railway_deplo.Repositories.ApiKeys.{is_key_of, revoke, is_live_key}
use hashira_be_railway_deplo.Middleware.Access.{Request, auth_user}
use hashira_be_railway_deplo.ApiKeys.Service.{revoke_key}
use hashira_be_railway_deplo.Events.Ingestion.{CreateEventBody, IngestEventResult, ingest}
use hashira_be_railway_deplo.Controllers.Http.{Response}
use hashira_be_railway_deplo.Controllers.Organisations.{RevokedData}
use hashira_be_railway_deplo.Controllers.Routes.{delete_api_key_route, post_event_route}
use hashira_be_railway_deplo.Controllers.Routes.Admitted.{
  Passes, Administrator, delete_api_key_route-Administrator,
}
use hashira_be_railway_deplo.Controllers.Routes.Posted.{Posted, post_event_route-Posted}
use hashira_be_railway_deplo.Samples.Rows.{find_first}
use hashira_be_railway_deplo.Samples.Services.{demo, start, ann}

pure-Passes : Passes pure
pure-Passes req req' w w' h = ground arith

-- Ann as an administrator.
abbrev admins : World
admins = record start { db = record start.db { users = record ann { role = UserRole.admin } ∷ [] } }

abbrev delete_key : Request
delete_key = record {
  method = str "DELETE";
  original_url = str "/v1/organisations/api-keys/80";
  session_cookie = some (str "s");
  api_key_header = none;
  param_org_id = none;
  user = none;
  api_key = none;
}

abbrev deleted : Response RevokedData
deleted = record {
  status = 200;
  cookies = [];
  body = record { key_id = 80; status = ApiKeyStatus.revoked };
}

abbrev after_delete : World
after_delete = (delete_api_key_route pure pure pure 80 delete_key admins).1

delete_returns :
    delete_api_key_route pure pure pure 80 delete_key admins ≡ (ok deleted, after_delete)
unfolding delete_api_key_route find_first any revoke_key is_key_of
delete_returns = refl

delete_api_key_route-Administrator_example :
    (user : User) × (org_id : Uuid) × Administrator pure pure pure delete_key
      (record delete_key { user = some (auth_user user) })
      user
      admins
    × (user.org_id ≡ some org_id)
    × ((after_delete.api_keys ≡ admins.api_keys)
        ⊎ (after_delete.api_keys ≡ update_where (is_key_of 80 org_id) revoke admins.api_keys))
delete_api_key_route-Administrator_example =
    delete_api_key_route-Administrator pure pure pure 80 delete_key deleted admins after_delete
      pure-Passes delete_returns

abbrev post_event : Request
post_event = record {
  method = str "POST";
  original_url = str "/v1/events";
  session_cookie = none;
  api_key_header = some (str " hsk_1");
  param_org_id = none;
  user = none;
  api_key = none;
}

abbrev event_body : CreateEventBody
event_body = record {
  prompt = str "p";
  output = str "o";
  model_id = str "m";
  workflow_id = none;
  metadata = none;
  timestamp = 7;
}

abbrev posted : Response IngestEventResult
posted = record {
  status = 202;
  cookies = [];
  body = record {
    event_id = 100;
    status = EventStatus.processing;
    received_at = 1000;
    idempotent_replay = Bool.false;
  };
}

abbrev after_post : World
after_post = (post_event_route pure pure pure (some (str " k ")) [] event_body post_event start).1

post_returns :
    post_event_route pure pure pure (some (str " k ")) [] event_body post_event start
    ≡ (ok posted, after_post)
unfolding post_event_route find_first is_live_key text_eq hex_encode hex_decode cons_byte hex_byte
    hex_value has_permission ingest any
post_returns = refl

post_event_route-Posted_example :
    Posted (some (str " k ")) [] event_body post_event posted start after_post
post_event_route-Posted_example =
    post_event_route-Posted pure pure pure (some (str " k ")) [] event_body post_event posted start
      after_post pure-Passes pure-Passes post_returns
