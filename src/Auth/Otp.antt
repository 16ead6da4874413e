-- ===== src/Auth/Otp.antt =====
-- src/services/auth/otp.service.ts.
pub mod Redeem
pub mod Attempts
mod Checks
use hashira_be_railway_deplo.Base.{
  ℕ, Bool, not, Option, none, some, Text, text_eq, leb, length, ◌==◌, if◌then◌else◌, str,
}
use hashira_be_railway_deplo.Base.Hex.{hex_decode}
use hashira_be_railway_deplo.Base.Strings.{to_lower_case}
use hashira_be_railway_deplo.Types.{
  ok, err, auth_error, forbidden_error, rate_limit_error, other_error, invalid_otp,
  rate_limit_exceeded, org_suspended, is_active_user,
}
use hashira_be_railway_deplo.Entities.{User, OtpToken}
use hashira_be_railway_deplo.Platform.{Platform}
use hashira_be_railway_deplo.World.Monad.{App, throw, throw_if, or_throw, pure, ◌>>=◌, ◌>>◌}
use hashira_be_railway_deplo.Repositories.Users.{find_user_by_email}
use hashira_be_railway_deplo.Repositories.Organisations.{find_org_by_id}
use hashira_be_railway_deplo.Repositories.OtpTokens.{
  find_latest_otp_token, mark_otp_token_used, increment_otp_attempts,
}
use hashira_be_railway_deplo.Auth.Session.{Session, open_session, payload_of}
use hashira_be_railway_deplo.Auth.Login.{issue_otp, suspended_org}

abbrev pub otp_attempt_limit : ℕ
otp_attempt_limit = 5

pub data OtpVerifyResult : Type 0 where
  mfa_required : OtpVerifyResult
  authenticated : Session → OtpVerifyResult

-- crypto.timingSafeEqual throws a RangeError for buffers of different lengths.
unfoldable pub timing_safe_equal : Text → Text → App Bool
timing_safe_equal stored computed w = (
  if length stored == length computed
      then ok (text_eq stored computed)
      else err (other_error (str "Input buffers must have the same byte length")),
  w,
)

-- `!user || user.status !== UserStatus.ACTIVE`
abbrev pub inactive : Option User → Bool
inactive none = Bool.true
inactive (some u) = not (is_active_user u.status)

module _ ⦃p : Platform⦄ where
  -- The checks on the stored code, up to markOtpTokenUsed: a wrong code counts as an attempt.
  unfoldable pub redeem_otp : OtpToken → Text → App (Unit {0})
  unfolding timing_safe_equal mark_otp_token_used increment_otp_attempts
  redeem_otp token otp = do
    throw_if (leb otp_attempt_limit token.attempts) (rate_limit_error rate_limit_exceeded none)
    match ← timing_safe_equal (hex_decode token.otp_hash) (hex_decode (p.sha256 otp))
    if match
        then mark_otp_token_used token.id
        else do increment_otp_attempts token.id; throw (auth_error invalid_otp)

  -- What follows for the user of the address.
  unfoldable pub admit : User → App OtpVerifyResult
  unfolding find_org_by_id open_session
  admit user = do
    throw_if (inactive (some user)) (auth_error invalid_otp)
    org ← find_org_by_id user.org_id
    throw_if (suspended_org org) (forbidden_error org_suspended)
    if user.mfa_enabled
        then pure mfa_required
        else do session ← open_session (payload_of user); pure (authenticated session)

  unfoldable pub verify_otp : Text → Text → App OtpVerifyResult
  unfolding find_latest_otp_token find_user_by_email
  verify_otp email otp = do
    let email_hash = p.sha256 (to_lower_case email)
    found ← find_latest_otp_token email_hash
    token ← or_throw found (auth_error invalid_otp)
    redeem_otp token otp
    user ← find_user_by_email email
    user ← or_throw user (auth_error invalid_otp)
    admit user

  -- The old code is withdrawn; nothing tells the caller whether there was one.
  unfoldable pub resend_for : Text → Option OtpToken → App (Unit {0})
  unfolding mark_otp_token_used issue_otp
  resend_for email none = pure tt
  resend_for email (some token) = do mark_otp_token_used token.id; issue_otp email

  unfoldable pub resend_otp : Text → App (Unit {0})
  unfolding resend_for find_latest_otp_token
  resend_otp email = do
    existing ← find_latest_otp_token (p.sha256 (to_lower_case email))
    resend_for email existing
