-- ===== src/Middleware/Access.antt =====
-- src/middleware: authenticate.ts, authenticateFlexible.ts, authorize.ts, orgIdCrossCheck.ts,
-- validateApiKey.ts and validateApiKeyPermission.ts. `next(err)` is a throw.
pub mod Admission
use hashira_be_railway_deplo.Base.{
  ℕ, Option, none, some, Bool, true, false, not, List, [], ◌∷◌, any, Text, str, text_eq, ◌&&◌, ◌==◌,
  if◌then◌else◌,
}
use hashira_be_railway_deplo.Base.Strings.{truthy, trim, split}
use hashira_be_railway_deplo.Types.{
  UserRole, ApiKeyPermission, role_eq, has_permission, is_suspended, is_active_user, auth_error,
  forbidden_error, unauthorized, org_suspended, insufficient_role, org_access_denied,
  api_key_required, insufficient_permissions,
}
use hashira_be_railway_deplo.Entities.{Uuid, User, Organisation}
use hashira_be_railway_deplo.Platform.{Platform}
use hashira_be_railway_deplo.World.{World}
use hashira_be_railway_deplo.World.Monad.{App, gets, pure, throw, throw_if, or_throw, ◌>>=◌, ◌>>◌}
use hashira_be_railway_deplo.Repositories.Users.{find_user_by_id}
use hashira_be_railway_deplo.Repositories.Organisations.{find_org_by_id}
use hashira_be_railway_deplo.ApiKeys.Service.{ValidatedApiKey, validate_api_key}

pub record AuthUser : Type 0 where
  pub user_id : Uuid
  pub org_id : Option Uuid
  pub role : UserRole
  pub email : Text

-- What the middleware reads of an Express request and writes to it.
pub record Request : Type 0 where
  pub method : Text
  pub original_url : Text
  pub session_cookie : Option Text
  pub api_key_header : Option Text
  pub param_org_id : Option Uuid
  pub user : Option AuthUser
  pub api_key : Option ValidatedApiKey

unfoldable pub auth_user : User → AuthUser
auth_user u = record { user_id = u.user_id; org_id = u.org_id; role = u.role; email = u.email }

-- `url.split('?')[0]`
unfoldable pub path_of : Text → Text
unfolding split
path_of url = elim (split b'?' url) [ [] ↦ [] | s ∷ rest ↦ s ]

-- The two requests that a user of a suspended organisation may still make.
unfoldable pub is_get_me : Request → Bool
unfolding path_of
is_get_me req = text_eq req.method (str "GET") && text_eq (path_of req.original_url) (str "/v1/me")

unfoldable pub is_logout : Request → Bool
unfolding path_of
is_logout req =
    text_eq req.method (str "POST") && text_eq (path_of req.original_url) (str "/v1/auth/logout")

unfoldable pub is_suspended_org : Option Organisation → Bool
is_suspended_org none = false
is_suspended_org (some org) = is_suspended org.status

unfoldable pub authorize : List UserRole → Request → App Request
authorize roles req = do
  user ← or_throw req.user (forbidden_error insufficient_role)
  throw_if (not (any (λ r. role_eq r user.role) roles)) (forbidden_error insufficient_role)
  pure req

unfoldable pub same_org : Option Uuid → Uuid → Bool
same_org none org_id = false
same_org (some own) org_id = own == org_id

unfoldable pub check_param : AuthUser → Option Uuid → Request → App Request
unfolding same_org
check_param user none req = pure req
check_param user (some org_id) req = do
  throw_if (not (role_eq user.role UserRole.super_admin) && not (same_org user.org_id org_id))
      (forbidden_error org_access_denied)
  pure req

unfoldable pub org_id_cross_check : Request → App Request
unfolding check_param
org_id_cross_check req = do
  user ← or_throw req.user (forbidden_error org_access_denied)
  check_param user req.param_org_id req

unfoldable pub validate_api_key_permission : ApiKeyPermission → Request → App Request
validate_api_key_permission required req = do
  key ← or_throw req.api_key (forbidden_error insufficient_permissions)
  throw_if (not (has_permission required key.permissions))
      (forbidden_error insufficient_permissions)
  pure req

module _ ⦃p : Platform⦄ where
  unfoldable pub check_org : User → Option Uuid → Request → App (Unit {0})
  unfolding is_get_me is_logout is_suspended_org find_org_by_id
  check_org user none req = pure tt
  check_org user (some org_id) req = do
    org ← find_org_by_id (some org_id)
    throw_if (is_suspended_org org && not (is_get_me req) && not (is_logout req))
        (forbidden_error org_suspended)

  unfoldable pub authenticate : Request → App Request
  unfolding check_org auth_user find_user_by_id
  authenticate req = do
    token ← or_throw (truthy req.session_cookie) (auth_error unauthorized)
    now ← gets (λ w. w.now)
    payload ← or_throw (p.jwt_verify token now) (auth_error unauthorized)
    found ← find_user_by_id payload.user_id
    user ← or_throw found (auth_error unauthorized)
    throw_if (not (is_active_user user.status)) (auth_error unauthorized)
    check_org user user.org_id req
    pure (record req { user = some (auth_user user) })

  -- The header without the white space around it; `none` if nothing is left.
  unfoldable pub given_key : Request → Option Text
  unfolding trim
  given_key req = elim req.api_key_header [ none ↦ none | some value ↦ truthy (some (trim value)) ]

  unfoldable pub validate_key_header : Request → App Request
  unfolding given_key validate_api_key
  validate_key_header req = do
    key ← or_throw (given_key req) (auth_error api_key_required)
    ctx ← validate_api_key key
    pure (record req { api_key = some ctx })

  unfoldable pub by_key_or_deny : Option Text → Request → App Request
  unfolding validate_key_header
  by_key_or_deny none req = throw (auth_error unauthorized)
  by_key_or_deny (some key) req = validate_key_header req

  unfoldable pub by_cookie_or_key : Option Text → Request → App Request
  unfolding authenticate by_key_or_deny given_key
  by_cookie_or_key none req = by_key_or_deny (given_key req) req
  by_cookie_or_key (some cookie) req = authenticate req

  unfoldable pub authenticate_flexible : Request → App Request
  unfolding by_cookie_or_key
  authenticate_flexible req = by_cookie_or_key (truthy req.session_cookie) req
