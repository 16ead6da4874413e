-- ===== src/Auth/Mfa.antt =====
-- src/services/auth/mfa.service.ts.
use hashira_be_railway_deplo.Base.{true, false, not, Option, none, some, Text, if◌then◌else◌}
use hashira_be_railway_deplo.Base.Strings.{truthy}
use hashira_be_railway_deplo.Types.{
  auth_error, unprocessable_error, unauthorized, invalid_totp, unprocessable,
}
use hashira_be_railway_deplo.Entities.{Uuid, User}
use hashira_be_railway_deplo.Platform.{Platform}
use hashira_be_railway_deplo.World.Monad.{
  App, gets, draw, throw_if, or_throw, pure, transaction, ◌>>=◌, ◌>>◌,
}
use hashira_be_railway_deplo.Repositories.Users.{find_user_by_id, find_user_by_email, update_user}
use hashira_be_railway_deplo.Crypto.Totp.{encrypt_totp, decrypt_totp}
use hashira_be_railway_deplo.Auth.Session.{Session, open_session, payload_of}

pub record MfaSetupResult : Type 0 where
  pub totp_uri : Text
  pub qr_code_data_url : Text

-- The user's active secret, if two-factor login is on: `!user.mfa_enabled || !user.totp_secret`.
unfoldable pub active_secret : User → Option Text
active_secret u = if u.mfa_enabled then truthy u.totp_secret else none

abbrev pub active_secret_of : Option User → Option (User × Text)
active_secret_of none = none
active_secret_of (some u) = elim (active_secret u) [ none ↦ none | some s ↦ some (u, s) ]

module _ ⦃p : Platform⦄ where
  unfoldable pub get_user_or_throw : Uuid → App User
  get_user_or_throw user_id = do
    user ← find_user_by_id user_id
    or_throw user (auth_error unauthorized)

  -- Decrypt the stored secret and check the code against it.
  unfoldable pub require_totp : Text → Text → App (Unit {0})
  require_totp totp_code stored = do
    secret ← decrypt_totp stored
    now ← gets (λ w. w.now)
    throw_if (not (p.totp_verify totp_code secret now)) (auth_error invalid_totp)

  unfoldable pub setup_mfa : Uuid → App MfaSetupResult
  unfolding get_user_or_throw
  setup_mfa user_id = do
    user ← get_user_or_throw user_id
    secret ← draw p.totp_secret
    let totp_uri = p.totp_uri user.email secret
    stored ← encrypt_totp secret
    update_user user_id (λ u. record u { totp_secret_pending = some stored })
    pure (record { totp_uri = totp_uri; qr_code_data_url = p.qr_code totp_uri })

  unfoldable pub confirm_mfa : Uuid → Text → App (Unit {0})
  unfolding get_user_or_throw require_totp
  confirm_mfa user_id totp_code = do
    user ← get_user_or_throw user_id
    pending ← or_throw (truthy user.totp_secret_pending) (unprocessable_error unprocessable)
    require_totp totp_code pending
    transaction (
        update_user user_id (λ u. record u {
          totp_secret = user.totp_secret_pending;
          totp_secret_pending = none;
          mfa_enabled = true;
        }))

  unfoldable pub verify_mfa_at_login : Text → Text → App Session
  unfolding require_totp
  verify_mfa_at_login email totp_code = do
    found ← find_user_by_email email
    (user, stored) ← or_throw (active_secret_of found) (auth_error invalid_totp)
    require_totp totp_code stored
    open_session (payload_of user)

  unfoldable pub disable_mfa : Uuid → Text → App (Unit {0})
  unfolding get_user_or_throw require_totp
  disable_mfa user_id totp_code = do
    user ← get_user_or_throw user_id
    stored ← or_throw (active_secret user) (unprocessable_error unprocessable)
    require_totp totp_code stored
    update_user user_id
        (λ u. record u { mfa_enabled = false; totp_secret = none; totp_secret_pending = none })
