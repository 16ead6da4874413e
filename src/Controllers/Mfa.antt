-- ===== src/Controllers/Mfa.antt =====
-- src/controllers/auth/mfa.controller.ts. Its routes are commented out in src/routes/auth/auth.routes.ts.
use hashira_be_railway_deplo.Base.{Bool, true, false, Text}
use hashira_be_railway_deplo.Platform.{Platform}
use hashira_be_railway_deplo.World.Monad.{App, pure, ◌>>=◌, ◌>>◌}
use hashira_be_railway_deplo.Auth.Mfa.{
  MfaSetupResult, setup_mfa, confirm_mfa, verify_mfa_at_login, disable_mfa,
}
use hashira_be_railway_deplo.Middleware.Access.{AuthUser}
use hashira_be_railway_deplo.Controllers.Http.{Response, reply}
use hashira_be_railway_deplo.Controllers.Auth.{LoginData, session_answer}

module _ ⦃p : Platform⦄ where
  unfoldable pub mfa_setup_handler : AuthUser → App (Response MfaSetupResult)
  unfolding reply
  mfa_setup_handler user = do setup ← setup_mfa user.user_id; pure (reply 200 setup)

  -- The body says whether two-factor login is on.
  unfoldable pub mfa_confirm_handler : AuthUser → Text → App (Response Bool)
  unfolding reply
  mfa_confirm_handler user totp_code = do confirm_mfa user.user_id totp_code; pure (reply 200 true)

  unfoldable pub mfa_verify_handler : Text → Text → App (Response LoginData)
  unfolding session_answer
  mfa_verify_handler email totp_code = do
    session ← verify_mfa_at_login email totp_code
    pure (session_answer session)

  unfoldable pub mfa_disable_handler : AuthUser → Text → App (Response Bool)
  unfolding reply
  mfa_disable_handler user totp_code = do disable_mfa user.user_id totp_code; pure (reply 200 false)
