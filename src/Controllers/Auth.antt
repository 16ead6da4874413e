-- ===== src/Controllers/Auth.antt =====
-- src/controllers/auth: auth.controller.ts, otp.controller.ts, google-auth.controller.ts,
-- password-reset.controller.ts, refresh.controller.ts, logout.controller.ts and me.controller.ts.
use hashira_be_railway_deplo.Base.{Bool, true, Option, none, some, [], ◌∷◌, Text, str, from_option}
use hashira_be_railway_deplo.Base.Strings.{truthy}
use hashira_be_railway_deplo.Types.{UserRole, OrgStatus, auth_error, unauthorized}
use hashira_be_railway_deplo.Entities.{Uuid, Organisation}
use hashira_be_railway_deplo.Platform.{Platform, JwtPayload}
use hashira_be_railway_deplo.World.Monad.{App, pure, catch, or_throw, ◌>>=◌, ◌>>◌}
use hashira_be_railway_deplo.Repositories.Organisations.{find_org_by_id}
use hashira_be_railway_deplo.Auth.Session.{Session}
use hashira_be_railway_deplo.Auth.Login.{create_email_password_session}
use hashira_be_railway_deplo.Auth.Otp.{
  OtpVerifyResult, mfa_required, authenticated, verify_otp, resend_otp,
}
use hashira_be_railway_deplo.Auth.Google.{create_google_session}
use hashira_be_railway_deplo.Auth.PasswordReset.{request_reset, confirm_reset}
use hashira_be_railway_deplo.Auth.Refresh.{rotate_refresh_token, logout}
use hashira_be_railway_deplo.Middleware.Access.{AuthUser}
use hashira_be_railway_deplo.Controllers.Http.{
  Response, Cookie, SameSite, reply, cookie_pair, session_cookies,
}

-- The `data` of the answers to logins: a status, or who logged in.
pub data LoginData : Type 0 where
  status : Text → LoginData
  logged_in : (user_id : Uuid) (email : Text) (role : UserRole) → LoginData

pub record MeData : Type 0 where
  pub user : AuthUser
  pub org_name : Option Text
  pub org_status : Option OrgStatus

unfoldable pub login_data : JwtPayload → LoginData
login_data user = logged_in user.user_id user.email user.role

-- The controller for one-time codes sets its own attributes.
unfoldable pub otp_answer : OtpVerifyResult → Response LoginData
unfolding reply login_data cookie_pair
otp_answer mfa_required = reply 200 (status (str "mfa_required"))
otp_answer (authenticated s) = record {
  status = 200;
  cookies = cookie_pair true SameSite.none s.session_token s.refresh_token;
  body = login_data s.user;
}

-- COOKIE_CLEAR_OPTIONS: empty cookies that end at once.
unfoldable pub cleared : Bool → Text → Cookie
cleared production name = record {
  name = name;
  value = [];
  http_only = true;
  secure = production;
  same_site = SameSite.strict;
  max_age = 0;
}

module _ ⦃p : Platform⦄ where
  unfoldable pub session_answer : Session → Response LoginData
  unfolding session_cookies login_data
  session_answer s = record {
    status = 200;
    cookies = session_cookies s.session_token s.refresh_token;
    body = login_data s.user;
  }

  unfoldable pub create_session_handler : Text → Text → Option Text → App (Response LoginData)
  unfolding reply
  create_session_handler email password invitation_token = do
    create_email_password_session email password invitation_token
    pure (reply 200 (status (str "otp_required")))

  unfoldable pub verify_otp_handler : Text → Text → App (Response LoginData)
  unfolding otp_answer
  verify_otp_handler email otp = do result ← verify_otp email otp; pure (otp_answer result)

  unfoldable pub resend_otp_handler : Text → App (Response LoginData)
  unfolding reply
  resend_otp_handler email = do resend_otp email; pure (reply 200 (status (str "otp_sent")))

  unfoldable pub create_google_session_handler : Text → Option Text → App (Response LoginData)
  unfolding session_answer
  create_google_session_handler google_id_token invitation_token = do
    session ← create_google_session google_id_token invitation_token
    pure (session_answer session)

  -- The answer does not wait for the request, so that no failure shows in it.
  unfoldable pub request_password_reset_handler : Text → App (Response (Unit {0}))
  unfolding reply
  request_password_reset_handler email = do
    catch (request_reset email) (λ e. pure tt)
    pure (reply 204 tt)

  unfoldable pub confirm_password_reset_handler : Text → Text → Text → App (Response (Unit {0}))
  unfolding reply
  confirm_password_reset_handler email otp new_password = do
    confirm_reset email otp new_password
    pure (reply 204 tt)

  unfoldable pub refresh_handler : Option Text → App (Response (Unit {0}))
  unfolding session_cookies
  refresh_handler hashira_refresh = do
    raw_token ← or_throw (truthy hashira_refresh) (auth_error unauthorized)
    result ← rotate_refresh_token raw_token
    pure (record {
      status = 200;
      cookies = session_cookies result.session_token result.refresh_token;
      body = tt;
    })

  unfoldable pub logout_handler : Option Text → App (Response (Unit {0}))
  unfolding cleared
  logout_handler hashira_refresh = do
    logout hashira_refresh
    pure (record {
      status = 200;
      cookies =
          cleared p.production (str "hashira_session")
          ∷ cleared p.production (str "hashira_refresh")
          ∷ [];
      body = tt;
    })

  unfoldable pub org_of : Option Uuid → App (Option Organisation)
  unfolding find_org_by_id
  org_of none = pure none
  org_of (some org_id) = find_org_by_id (some org_id)

  unfoldable pub get_me_handler : AuthUser → App (Response MeData)
  unfolding reply org_of
  get_me_handler user = do
    org ← org_of user.org_id
    pure (
        reply 200 (record {
          user = user;
          org_name = from_option none (λ o. some o.name) org;
          org_status = from_option none (λ o. some o.status) org;
        }))
