-- ===== src/Auth/Google.antt =====
-- src/services/auth/google-auth.service.ts.
use hashira_be_railway_deplo.Base.{
  not, Option, none, some, [], ◌∷◌, Text, leb, is_some, if◌then◌else◌,
}
use hashira_be_railway_deplo.Types.{
  auth_error, forbidden_error, gone_error, unauthorized, no_invitation, gone, org_suspended,
  user_limit_reached,
}
use hashira_be_railway_deplo.Entities.{User}
use hashira_be_railway_deplo.Platform.{Platform, GoogleClaims}
use hashira_be_railway_deplo.World.Monad.{App, gets, throw, throw_if, or_throw, pure, ◌>>=◌, ◌>>◌}
use hashira_be_railway_deplo.Repositories.Users.{
  find_user_by_google_sub, find_user_by_email, update_user_google_sub, count_active_users_by_org,
}
use hashira_be_railway_deplo.Repositories.Organisations.{find_org_by_id}
use hashira_be_railway_deplo.Repositories.Invitations.{
  find_invitation_by_token_hash, accept_invitation_and_create_user,
}
use hashira_be_railway_deplo.Auth.Session.{Session, open_session, payload_of}
use hashira_be_railway_deplo.Auth.Login.{suspended_org, limit_of}

module _ ⦃p : Platform⦄ where
  -- An account with the address and no Google account gets this one.
  unfoldable pub link_existing : GoogleClaims → Option User → App (Option User)
  link_existing claims none = pure none
  link_existing claims (some existing) = if is_some existing.google_sub then pure none else do
    update_user_google_sub existing.user_id claims.sub
    pure (some (record existing { google_sub = some claims.sub }))

  -- The first two lookups: by the Google account, then by the address.
  unfoldable pub find_known : GoogleClaims → Option User → App (Option User)
  unfolding link_existing
  find_known claims (some user) = pure (some user)
  find_known claims none = do
    existing ← find_user_by_email claims.email
    link_existing claims existing

  unfoldable pub register_invited : GoogleClaims → Text → App User
  register_invited claims invitation_token = do
    found ← find_invitation_by_token_hash (p.sha256 invitation_token)
    invitation ← or_throw found (gone_error gone)
    org ← find_org_by_id (some invitation.org_id)
    throw_if (suspended_org org) (forbidden_error org_suspended)
    member_count ← count_active_users_by_org invitation.org_id
    throw_if (leb (limit_of org) member_count) (forbidden_error user_limit_reached)
    accept_invitation_and_create_user invitation (record {
      org_id = some invitation.org_id;
      email = claims.email;
      password_hash = none;
      google_sub = some claims.sub;
      role = invitation.role;
      invited_by = some invitation.invited_by;
    })

  unfoldable pub known_or_invited : GoogleClaims → Option Text → Option User → App User
  unfolding register_invited
  known_or_invited claims invitation_token (some user) = pure user
  known_or_invited claims none none = throw (forbidden_error no_invitation)
  known_or_invited claims (some []) none = throw (forbidden_error no_invitation)
  known_or_invited claims (some (c ∷ cs)) none = register_invited claims (c ∷ cs)

  unfoldable pub create_google_session : Text → Option Text → App Session
  unfolding find_known known_or_invited
  create_google_session id_token invitation_token = do
    verified ← gets (λ w. p.google_verify id_token w.now)
    claims ← or_throw verified (auth_error unauthorized)
    throw_if (not claims.email_verified) (auth_error unauthorized)
    by_sub ← find_user_by_google_sub claims.sub
    known ← find_known claims by_sub
    user ← known_or_invited claims invitation_token known
    org ← find_org_by_id user.org_id
    throw_if (suspended_org org) (forbidden_error org_suspended)
    open_session (payload_of user)
