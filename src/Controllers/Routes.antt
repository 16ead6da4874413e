-- ===== src/Controllers/Routes.antt =====
-- src/routes: the middleware before each handler. The limiters of express-rate-limit are parameters.
pub mod Admitted
pub mod Posted
pub mod Checks
use hashira_be_railway_deplo.Base.{Option, List, [], ◌∷◌, Text}
use hashira_be_railway_deplo.Types.{UserRole, ApiKeyPermission, forbidden_error, insufficient_role}
use hashira_be_railway_deplo.Entities.{Uuid, Date}
use hashira_be_railway_deplo.Platform.{Platform}
use hashira_be_railway_deplo.World.Monad.{App, pure, or_throw, ◌>>=◌, ◌>>◌}
use hashira_be_railway_deplo.ApiKeys.Service.{CreatedApiKey, ApiKeySummary}
use hashira_be_railway_deplo.Middleware.Access.{
  Request, authenticate, authenticate_flexible, authorize, validate_key_header,
  validate_api_key_permission,
}
use hashira_be_railway_deplo.Events.Ingestion.{CreateEventBody, IngestEventResult}
use hashira_be_railway_deplo.Events.Query.{EventPage, EventDetail, VerificationData}
use hashira_be_railway_deplo.Events.Scope.{
  ListQuery, list_events_handler, get_event_handler, get_verification_handler,
}
use hashira_be_railway_deplo.Organisations.Service.{CreateOrgBody}
use hashira_be_railway_deplo.Organisations.Invitation.{InvitationData}
use hashira_be_railway_deplo.Controllers.Http.{Response}
use hashira_be_railway_deplo.Controllers.Auth.{
  LoginData, MeData, create_session_handler, create_google_session_handler, verify_otp_handler,
  resend_otp_handler, request_password_reset_handler, confirm_password_reset_handler,
  refresh_handler, logout_handler, get_me_handler,
}
use hashira_be_railway_deplo.Controllers.Organisations.{
  CreateApiKeyBody, OrganisationData, RevokedData, create_organisation_handler, create_key_handler,
  list_keys_handler, revoke_key_handler, validate_invitation_handler,
}
use hashira_be_railway_deplo.Controllers.Events.{create_event_handler}
use hashira_be_railway_deplo.Controllers.Validators.{
  validate_body, valid_login, valid_google_token, valid_code, valid_reset, valid_api_key,
  valid_event, valid_organisation,
}

-- The administrators of an organisation.
abbrev pub admin_roles : List UserRole
admin_roles = UserRole.admin ∷ UserRole.super_admin ∷ []

module _ ⦃p : Platform⦄ (ip_rate_limiter : Request → App Request)
    (api_key_burst_limiter api_key_sustained_limiter : Request → App Request) where
  -- src/routes/event/event.routes.ts
  unfoldable pub post_event_route :
      Option Text → Text → CreateEventBody → Request → App (Response IngestEventResult)
  unfolding validate_key_header validate_api_key_permission validate_body valid_event
      create_event_handler
  post_event_route header timestamp body req = do
    with_key ← validate_key_header req
    permitted ← validate_api_key_permission ApiKeyPermission.events_write with_key
    calm ← api_key_burst_limiter permitted
    slow ← api_key_sustained_limiter calm
    validate_body (valid_event timestamp body)
    create_event_handler header body slow

  -- authenticateFlexible and both limiters, before each way of reading events.
  unfoldable pub reader : Request → App Request
  unfolding authenticate_flexible
  reader req = do
    known ← authenticate_flexible req
    calm ← api_key_burst_limiter known
    api_key_sustained_limiter calm

  unfoldable pub get_events_route : ListQuery → Request → App EventPage
  unfolding reader list_events_handler
  get_events_route query req = do known ← reader req; list_events_handler known query

  unfoldable pub get_event_route : Uuid → Request → App EventDetail
  unfolding reader get_event_handler
  get_event_route event_id req = do known ← reader req; get_event_handler known event_id

  unfoldable pub get_verification_route : Uuid → Request → App VerificationData
  unfolding reader get_verification_handler
  get_verification_route event_id req = do
    known ← reader req
    get_verification_handler known event_id

  -- src/routes/organisation/organisation.routes.ts
  unfoldable pub post_organisation_route : CreateOrgBody → Request → App (Response OrganisationData)
  unfolding validate_body valid_organisation create_organisation_handler
  post_organisation_route body req = do
    ip_rate_limiter req
    validate_body (valid_organisation body)
    create_organisation_handler body

  -- A session of an administrator, before each handler of keys.
  unfoldable pub admin_gate : Request → App Request
  unfolding authenticate authorize
  admin_gate req = do
    known ← authenticate req
    allowed ← authorize admin_roles known
    ip_rate_limiter allowed

  unfoldable pub post_api_key_route : CreateApiKeyBody → Request → App (Response CreatedApiKey)
  unfolding admin_gate validate_body valid_api_key create_key_handler
  post_api_key_route body req = do
    known ← admin_gate req
    validate_body (valid_api_key body)
    create_key_handler body known

  unfoldable pub get_api_keys_route : Request → App (Response (List ApiKeySummary))
  unfolding admin_gate list_keys_handler
  get_api_keys_route req = do known ← admin_gate req; list_keys_handler known

  unfoldable pub delete_api_key_route : Uuid → Request → App (Response RevokedData)
  unfolding admin_gate revoke_key_handler
  delete_api_key_route key_id req = do known ← admin_gate req; revoke_key_handler key_id known

  -- src/routes/auth/auth.routes.ts
  unfoldable pub post_session_route : Text → Text → Option Text → Request → App (Response LoginData)
  unfolding validate_body valid_login create_session_handler
  post_session_route email password invitation_token req = do
    ip_rate_limiter req
    validate_body (valid_login email password)
    create_session_handler email password invitation_token

  unfoldable pub post_google_route : Text → Option Text → Request → App (Response LoginData)
  unfolding validate_body valid_google_token create_google_session_handler
  post_google_route google_id_token invitation_token req = do
    ip_rate_limiter req
    validate_body (valid_google_token google_id_token)
    create_google_session_handler google_id_token invitation_token

  unfoldable pub post_otp_verify_route : Text → Text → Request → App (Response LoginData)
  unfolding validate_body valid_code verify_otp_handler
  post_otp_verify_route email otp req = do
    ip_rate_limiter req
    validate_body (valid_code email otp)
    verify_otp_handler email otp

  unfoldable pub post_otp_resend_route : Text → Request → App (Response LoginData)
  unfolding validate_body resend_otp_handler
  post_otp_resend_route email req = do
    ip_rate_limiter req
    validate_body (p.is_email email)
    resend_otp_handler email

  unfoldable pub post_reset_request_route : Text → Request → App (Response (Unit {0}))
  unfolding validate_body request_password_reset_handler
  post_reset_request_route email req = do
    ip_rate_limiter req
    validate_body (p.is_email email)
    request_password_reset_handler email

  unfoldable pub post_reset_confirm_route : Text → Text → Text → Request → App (Response (Unit {0}))
  unfolding validate_body valid_reset confirm_password_reset_handler
  post_reset_confirm_route email otp new_password req = do
    ip_rate_limiter req
    validate_body (valid_reset email otp new_password)
    confirm_password_reset_handler email otp new_password

  unfoldable pub post_refresh_route : Option Text → Request → App (Response (Unit {0}))
  unfolding refresh_handler
  post_refresh_route hashira_refresh req = do ip_rate_limiter req; refresh_handler hashira_refresh

  unfoldable pub post_logout_route : Option Text → Request → App (Response (Unit {0}))
  unfolding authenticate logout_handler
  post_logout_route hashira_refresh req = do authenticate req; logout_handler hashira_refresh

  -- src/routes/invitation/invitation.routes.ts, and GET /v1/me of src/app.ts
  unfoldable pub get_invitation_route : Date → Option Text → Request → App (Response InvitationData)
  unfolding validate_invitation_handler
  get_invitation_route loaded_at token req = do
    ip_rate_limiter req
    validate_invitation_handler loaded_at token

  unfoldable pub get_me_route : Request → App (Response MeData)
  unfolding authenticate get_me_handler
  get_me_route req = do
    known ← authenticate req
    user ← or_throw known.user (forbidden_error insufficient_role)
    get_me_handler user
