-- ===== src/Auth/PasswordReset.antt =====
-- src/services/auth/password-reset.service.ts, and sendPasswordResetEmail of
-- src/utils/ses.client.ts.
pub mod Confirmed
mod Checks
use hashira_be_railway_deplo.Base.{
  ℕ, ◌+◌, ◌*◌, ◌++◌, Option, none, some, Text, is_some, if◌then◌else◌,
}
use hashira_be_railway_deplo.Base.Strings.{to_lower_case}
use hashira_be_railway_deplo.Types.{ok, err, gone_error, forbidden_error, gone, forbidden}
use hashira_be_railway_deplo.Entities.{User, PasswordResetToken}
use hashira_be_railway_deplo.Platform.{Platform}
use hashira_be_railway_deplo.World.{reset_code}
use hashira_be_railway_deplo.World.Monad.{App, gets, draw, modify, or_throw, pure, ◌>>=◌, ◌>>◌}
use hashira_be_railway_deplo.Repositories.Users.{find_user_by_email}
use hashira_be_railway_deplo.Repositories.PasswordResetTokens.{
  find_password_reset_token, insert_password_reset_token, apply_password_reset,
}
use hashira_be_railway_deplo.Auth.Attempts.{lockout, record_failure, delete}
use hashira_be_railway_deplo.Auth.Login.{generate_otp, post}

abbrev pub confirm_attempt_limit : ℕ
confirm_attempt_limit = 5

abbrev pub confirm_attempt_window_ms : ℕ
confirm_attempt_window_ms = 5 * 60 * 1000

abbrev pub reset_expiry_ms : ℕ
reset_expiry_ms = 10 * 60 * 1000

-- `!user || user.password_hash === null` leaves no one to reset.
unfoldable pub with_password : Option User → Option User
with_password none = none
with_password (some u) = if is_some u.password_hash then some u else none

module _ ⦃p : Platform⦄ where
  unfoldable pub send_password_reset_email : Text → Text → App (Unit {0})
  unfolding post
  send_password_reset_email to_email otp =
      if p.skip_ses
      then pure tt
      else do refused ← draw (λ n. p.ses_send n to_email); post (reset_code to_email otp) refused

  unfoldable pub request_for : Text → Option User → App (Unit {0})
  unfolding send_password_reset_email generate_otp
  request_for email none = pure tt
  request_for email (some user) = do
    otp ← generate_otp
    let token_hash = p.sha256 (to_lower_case email ++ otp)
    now ← gets (λ w. w.now)
    insert_password_reset_token user.user_id token_hash (now + reset_expiry_ms)
    send_password_reset_email email otp

  unfoldable pub request_reset : Text → App (Unit {0})
  unfolding request_for with_password
  request_reset email = do user ← find_user_by_email email; request_for email (with_password user)

  unfoldable pub check_confirm_lockout : Text → App (Unit {0})
  check_confirm_lockout email_key w =
      let (r, m) =
        lockout confirm_attempt_limit confirm_attempt_window_ms email_key w.now
          w.confirm_failed_attempts in
      (r, record w { confirm_failed_attempts = m })

  -- A code that is not found counts as a failure.
  unfoldable pub found_or_fail : Text → Option PasswordResetToken → App PasswordResetToken
  found_or_fail email_key (some token) w = (ok token, w)
  found_or_fail email_key none w = (
    err (gone_error gone),
    record w { confirm_failed_attempts = record_failure email_key w.now w.confirm_failed_attempts },
  )

  unfoldable pub confirm_reset : Text → Text → Text → App (Unit {0})
  unfolding check_confirm_lockout found_or_fail with_password
  confirm_reset email otp new_password = do
    let email_key = to_lower_case email
    check_confirm_lockout email_key
    found ← find_password_reset_token (p.sha256 (email_key ++ otp))
    token ← found_or_fail email_key found
    modify λ w. record w { confirm_failed_attempts = delete email_key w.confirm_failed_attempts }
    found_user ← find_user_by_email email
    user ← or_throw (with_password found_user) (forbidden_error forbidden)
    password_hash ← draw (λ n. p.bcrypt_hash n new_password)
    apply_password_reset user.user_id token.token_id password_hash
