-- ===== src/Auth/Login.antt =====
-- src/services/auth/auth.service.ts, and sendOtpEmail of src/utils/ses.client.ts.
pub mod Bounds
pub mod Outcomes
mod Checks
use hashira_be_railway_deplo.Base.{
  ℕ, ◌+◌, ◌*◌, Bool, not, ◌||◌, Option, none, some, [], ◌∷◌, ◌++◌, Text, str, leb, is_some,
  from_option, if◌then◌else◌,
}
use hashira_be_railway_deplo.Base.Strings.{to_lower_case}
use hashira_be_railway_deplo.Types.{
  Result, err, other_error, auth_error, forbidden_error, gone_error, invalid_credentials, gone,
  org_suspended, user_limit_reached, is_suspended,
}
use hashira_be_railway_deplo.Entities.{Organisation, User}
use hashira_be_railway_deplo.Platform.{Platform}
use hashira_be_railway_deplo.World.{World, Mail, login_code}
use hashira_be_railway_deplo.World.Monad.{
  App, gets, draw, throw, throw_if, or_throw, modify, pure, ◌>>=◌, ◌>>◌,
}
use hashira_be_railway_deplo.Repositories.Users.{find_user_by_email, count_active_users_by_org}
use hashira_be_railway_deplo.Repositories.Organisations.{find_org_by_id}
use hashira_be_railway_deplo.Repositories.Invitations.{
  find_invitation_by_token_hash, accept_invitation_and_create_user,
}
use hashira_be_railway_deplo.Repositories.OtpTokens.{insert_otp_token}
use hashira_be_railway_deplo.Auth.Attempts.{lockout, record_failure, delete}

abbrev pub failed_attempt_limit : ℕ
failed_attempt_limit = 10

abbrev pub failed_attempt_window_ms : ℕ
failed_attempt_window_ms = 5 * 60 * 1000

abbrev pub otp_expiry_ms : ℕ
otp_expiry_ms = 10 * 60 * 1000

-- DUMMY_BCRYPT_HASH of src/utils/auth.constants.ts
abbrev pub dummy_bcrypt_hash : Text
dummy_bcrypt_hash = str "$2b$12$NSn./ejYQlDB4Zk/lv6jDe7BGv36mxAIVmq6HhRxztRlNuUIdgWC2"

-- `org?.status === OrgStatus.SUSPENDED`
abbrev pub suspended_org : Option Organisation → Bool
suspended_org = from_option Bool.false (λ o. is_suspended o.status)

-- `org?.user_limit ?? 0`
abbrev pub limit_of : Option Organisation → ℕ
limit_of = from_option 0 (λ o. o.user_limit)

-- `user?.password_hash ?? DUMMY_BCRYPT_HASH`
unfoldable pub hash_to_compare : Option User → Text
hash_to_compare user =
    from_option dummy_bcrypt_hash (λ u. from_option dummy_bcrypt_hash (λ h. h) u.password_hash) user

module _ ⦃p : Platform⦄ where
  -- Without SKIP_SES the message goes to Amazon, which may refuse it.
  unfoldable pub post : Mail → Option Text → App (Unit {0})
  post mail none = modify λ w. record w { outbox = w.outbox ++ mail ∷ [] }
  post mail (some failure) = throw (other_error failure)

  unfoldable pub send_otp_email : Text → Text → App (Unit {0})
  unfolding post
  send_otp_email to_email otp =
      if p.skip_ses
      then pure tt
      else do refused ← draw (λ n. p.ses_send n to_email); post (login_code to_email otp) refused

  unfoldable pub generate_otp : App Text
  generate_otp =
      if p.skip_ses then pure (str "123456") else draw (λ n. p.random_int n 100000 999999)

  -- A fresh code, stored as its hash for ten minutes and mailed.
  unfoldable pub issue_otp : Text → App (Unit {0})
  unfolding generate_otp send_otp_email insert_otp_token
  issue_otp email = do
    otp ← generate_otp
    let email_hash = p.sha256 (to_lower_case email)
    let otp_hash = p.sha256 otp
    now ← gets (λ w. w.now)
    insert_otp_token email_hash otp_hash (now + otp_expiry_ms)
    send_otp_email email otp

  unfoldable pub handle_invited_user_registration : Text → Text → Text → App (Unit {0})
  unfolding issue_otp find_invitation_by_token_hash find_org_by_id count_active_users_by_org
      accept_invitation_and_create_user
  handle_invited_user_registration email password invitation_token = do
    let token_hash = p.sha256 invitation_token
    found ← find_invitation_by_token_hash token_hash
    invitation ← or_throw found (gone_error gone)
    org ← find_org_by_id (some invitation.org_id)
    throw_if (suspended_org org) (forbidden_error org_suspended)
    member_count ← count_active_users_by_org invitation.org_id
    throw_if (leb (limit_of org) member_count) (forbidden_error user_limit_reached)
    password_hash ← draw (λ n. p.bcrypt_hash n password)
    accept_invitation_and_create_user invitation (record {
      org_id = some invitation.org_id;
      email = email;
      password_hash = some password_hash;
      google_sub = none;
      role = invitation.role;
      invited_by = some invitation.invited_by;
    })
    issue_otp email

  -- The lockout at the head of handleReturningUserLogin.
  unfoldable pub check_lockout : Text → App (Unit {0})
  check_lockout email_key w =
      let (r, m) =
        lockout failed_attempt_limit failed_attempt_window_ms email_key w.now
          w.email_failed_attempts in
      (r, record w { email_failed_attempts = m })

  unfoldable pub fail_login : Text → App (Unit {0})
  fail_login email_key w = (
    err (auth_error invalid_credentials),
    record w { email_failed_attempts = record_failure email_key w.now w.email_failed_attempts },
  )

  unfoldable pub handle_returning_user_login : Text → Text → App (Unit {0})
  unfolding check_lockout hash_to_compare fail_login issue_otp find_user_by_email
  handle_returning_user_login email password = do
    let email_key = to_lower_case email
    check_lockout email_key
    user ← find_user_by_email email
    let match = p.bcrypt_compare password (hash_to_compare user)
    if not match || not (is_some user) then fail_login email_key else do
      modify λ w. record w { email_failed_attempts = delete email_key w.email_failed_attempts }
      issue_otp email

  -- An empty invitation token counts as none.
  unfoldable pub create_email_password_session : Text → Text → Option Text → App (Unit {0})
  create_email_password_session email password none = handle_returning_user_login email password
  create_email_password_session email password (some []) =
      handle_returning_user_login email password
  create_email_password_session email password (some (c ∷ cs)) =
      handle_invited_user_registration email password (c ∷ cs)
