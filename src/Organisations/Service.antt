-- ===== src/Organisations/Service.antt =====
-- src/services/organisation/organisation.service.ts.
use hashira_be_railway_deplo.Base.{
  ℕ, ◌+◌, Option, none, some, [], ◌∷◌, ◌++◌, Text, str, not, true, from_option, is_some,
  if◌then◌else◌,
}
use hashira_be_railway_deplo.Base.Strings.{truthy}
use hashira_be_railway_deplo.Types.{auth_error, conflict_error, other_error, unauthorized, conflict}
use hashira_be_railway_deplo.Entities.{Uuid, Organisation, User}
use hashira_be_railway_deplo.Platform.{Platform, JwtPayload}
use hashira_be_railway_deplo.World.{activate_org}
use hashira_be_railway_deplo.World.Monad.{
  App, gets, draw, pure, throw_if, or_throw, from_result, modify, ◌>>=◌, ◌>>◌,
}
use hashira_be_railway_deplo.Repositories.Organisations.{
  CreateOrgWithAdminResult, find_org_by_name, create_org_with_admin,
}
use hashira_be_railway_deplo.Repositories.Users.{find_user_by_email}
use hashira_be_railway_deplo.Auth.Session.{Session, open_session}

pub record CreateOrgBody : Type 0 where
  pub org_name : Text
  pub admin_email : Option Text
  pub password : Option Text
  pub google_id_token : Option Text

pub record CreateOrgResult : Type 0 where
  pub org : Organisation
  pub stripe_checkout_url : Text
  pub session : Session

-- The administrator to be: an address, with a hashed password or a Google account.
pub record Admin : Type 0 where
  pub admin_email : Option Text
  pub password_hash : Option Text
  pub google_sub : Option Text

abbrev pub activation_delay_ms : ℕ
activation_delay_ms = 5000

-- What the new administrator's session says.
unfoldable pub admin_payload : Text → CreateOrgWithAdminResult → JwtPayload
admin_payload admin_email created = record {
  user_id = created.user.user_id;
  org_id = some created.org.org_id;
  role = created.user.role;
  email = admin_email;
}

-- `setTimeout(…, 5000)`
unfoldable pub schedule_activation : Uuid → App (Unit {0})
schedule_activation org_id =
    modify
      λ w. record w { tasks = w.tasks ++ activate_org org_id (w.now + activation_delay_ms) ∷ [] }

module _ ⦃p : Platform⦄ where
  -- A token that does not verify and one of an address that Google did not verify are answered
  -- alike.
  unfoldable pub google_admin : Text → App Admin
  google_admin google_id_token = do
    verified ← gets (λ w. p.google_verify google_id_token w.now)
    claims ← or_throw verified (auth_error unauthorized)
    throw_if (not claims.email_verified) (auth_error unauthorized)
    pure (record {
      admin_email = some claims.email;
      password_hash = none;
      google_sub = some claims.sub;
    })

  -- bcrypt rejects a password that is undefined.
  unfoldable pub password_admin : Option Text → Option Text → App Admin
  password_admin admin_email password = do
    given ← or_throw password (other_error (str "data and salt arguments required"))
    password_hash ← draw (λ n. p.bcrypt_hash n given)
    pure (record {
      admin_email = admin_email;
      password_hash = some password_hash;
      google_sub = none;
    })

  -- An empty Google token counts as none.
  unfoldable pub choose_admin : CreateOrgBody → App Admin
  unfolding google_admin password_admin
  choose_admin body = elim (truthy body.google_id_token) [
    | none ↦ password_admin body.admin_email body.password
    | some token ↦ google_admin token
  ]

  -- TypeORM leaves an address that is undefined out of the condition, so that any user fits.
  unfoldable pub find_registered : Option Text → App (Option User)
  unfolding find_user_by_email
  find_registered none = gets λ w. p.find_one (λ u. true) w.users
  find_registered (some email) = find_user_by_email email

  unfoldable pub frontend : Text
  frontend = from_option (str "http://localhost:5173") (λ url. url) p.frontend_url

  unfoldable pub checkout_url : Text → Uuid → App Text
  unfolding frontend
  checkout_url email org_id =
      if p.skip_ses then pure (frontend ++ str "/signup/success?session_id=dev_bypass") else do
        answer ← draw (λ n. p.stripe_checkout n email org_id)
        url ← from_result answer
        pure (from_option [] (λ u. u) url)

  -- The payment page and the session.
  unfoldable pub open_account : Text → CreateOrgWithAdminResult → App CreateOrgResult
  unfolding admin_payload checkout_url open_session
  open_account admin_email created = do
    stripe_checkout_url ← checkout_url admin_email created.org.org_id
    session ← open_session (admin_payload admin_email created)
    pure
        (record { org = created.org; stripe_checkout_url = stripe_checkout_url; session = session })

  -- What follows the transaction.
  unfoldable pub finish_signup : Text → CreateOrgWithAdminResult → App CreateOrgResult
  unfolding schedule_activation open_account
  finish_signup admin_email created = do
    if p.production then pure tt else schedule_activation created.org.org_id
    open_account admin_email created

  -- The column of the address is not null, so without one the transaction fails.
  unfoldable pub create_org : CreateOrgBody → App CreateOrgResult
  unfolding find_org_by_name choose_admin find_registered create_org_with_admin finish_signup
  create_org body = do
    existing_org ← find_org_by_name body.org_name
    throw_if (is_some existing_org) (conflict_error conflict)
    admin ← choose_admin body
    existing_user ← find_registered admin.admin_email
    throw_if (is_some existing_user) (conflict_error conflict)
    admin_email ← or_throw admin.admin_email (other_error (str "null value in column \"email\""))
    created ← create_org_with_admin (record {
      org_name = body.org_name;
      admin_email = admin_email;
      password_hash = admin.password_hash;
      google_sub = admin.google_sub;
    })
    finish_signup admin_email created
