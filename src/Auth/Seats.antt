-- ===== src/Auth/Seats.antt =====
-- The limit on the members of an organisation, in both ways of registering with an invitation:
-- src/services/auth/auth.service.ts and src/services/auth/google-auth.service.ts.
use hashira_be_railway_deplo.Base.{
  ◌+◌, ◌≤◌, ◌≡◌, ap, inl, inr, true, false, some, none, List, [], ◌∷◌, ◌++◌, Memᴰ, Text, arith,
  Option-cases, Bool-cases, keep, leb, Bool,
}
use hashira_be_railway_deplo.Types.{ok}
use hashira_be_railway_deplo.Entities.{User, Invitation}
use hashira_be_railway_deplo.Platform.{Platform, GoogleClaims}
use hashira_be_railway_deplo.World.{World}
use hashira_be_railway_deplo.World.Monad.{Result-cases}
use hashira_be_railway_deplo.Repositories.Sql.{count_where}
use hashira_be_railway_deplo.Repositories.Users.{
  UserData, save_user, is_active_member, count_active_users_by_org,
}
use hashira_be_railway_deplo.Repositories.Organisations.{find_org_by_id, org_where}
use hashira_be_railway_deplo.Repositories.Invitations.{
  is_open, find_invitation_by_token_hash, accept_invitation_and_create_user,
}
use hashira_be_railway_deplo.Auth.Login.{
  limit_of, suspended_org, issue_otp, generate_otp, send_otp_email, post,
  handle_invited_user_registration,
}
use hashira_be_railway_deplo.Repositories.OtpTokens.{insert_otp_token}
use hashira_be_railway_deplo.Auth.Google.{register_invited}

count_where-append :
    {E : Type 0} (fits : E → Bool) (rows : List E) (e : E)
    → count_where fits (rows ++ e ∷ []) ≤ count_where fits rows + 1
unfolding keep
count_where-append fits [] e = ground arith
count_where-append fits (x ∷ rows) e = ground (arith, count_where-append fits rows e)

module _ ⦃p : Platform⦄ where
  -- An invitation was accepted by a new user.
  accept_invitation_and_create_user-users :
      (invitation : Invitation) (d : UserData) (user : User) (w w' : World)
      → accept_invitation_and_create_user invitation d w ≡ (ok user, w')
      → (w'.users ≡ w.users ++ user ∷ []) × (user.org_id ≡ d.org_id) × (user.email ≡ d.email)
  unfolding accept_invitation_and_create_user save_user
  accept_invitation_and_create_user-users invitation d user w w' h =
      (ground arith, ground arith, ground arith)

  -- A registration that returns had an open invitation to an organisation with a seat left.
  pub record Seated (token : Text) (user : User) (w w' : World) : Type 0 where
    pub invitation : Invitation
    pub listed : Memᴰ invitation w.invitations
    pub open_now : is_open (p.sha256 token) w.now invitation ≡ true
    pub standing :
        suspended_org (p.find_one (org_where (some invitation.org_id)) w.organisations) ≡ false
    pub org : user.org_id ≡ some invitation.org_id
    pub users : w'.users ≡ w.users ++ user ∷ []
    pub seats :
        count_where (is_active_member invitation.org_id) w'.users
        ≤ limit_of (p.find_one (org_where (some invitation.org_id)) w.organisations)

  -- A registration with a Google account that returns had an open invitation to an organisation that
  -- is not suspended; it adds one user, in that organisation and with the address of the account, and
  -- the active members are then no more than the organisation's limit.
  pub register_invited-Seated :
      (claims : GoogleClaims) (token : Text) (user : User) (w w' : World)
      → register_invited claims token w ≡ (ok user, w')
      → Seated token user w w' × (user.email ≡ claims.email)
  unfolding register_invited find_invitation_by_token_hash find_org_by_id count_active_users_by_org
  register_invited-Seated claims token user w w' h =
      elim (Option-cases (p.find_one (is_open (p.sha256 token) w.now) w.invitations)) [
        | inl missed ↦ absurd (ground arith)
        | inr (invitation, found) ↦
            let (listed, fit) = p.query.find_one-sound _ w.invitations invitation found in
            let org = p.find_one (org_where (some invitation.org_id)) w.organisations in
            let members = count_where (is_active_member invitation.org_id) w.users in
            elim (Bool-cases (suspended_org org)) [
              | inl suspended ↦ absurd (ground arith)
              | inr standing ↦ elim (Bool-cases (leb (limit_of org) members)) [
                | inl full ↦ absurd (ground arith)
                | inr room ↦
                    let d : UserData = record {
                      org_id = some invitation.org_id;
                      email = claims.email;
                      password_hash = none;
                      google_sub = some claims.sub;
                      role = invitation.role;
                      invited_by = some invitation.invited_by;
                    } in
                    let made : accept_invitation_and_create_user invitation d w ≡ (ok user, w') =
                      ground arith in
                    let (users, own, email) =
                      accept_invitation_and_create_user-users invitation d user w w' made in
                    let more =
                      count_where-append (is_active_member invitation.org_id) w.users user in
                    (
                      record {
                        invitation = invitation;
                        listed = listed;
                        open_now = fit;
                        standing = standing;
                        org = own;
                        users = users;
                        seats = rw users (ground (arith, more));
                      },
                      email,
                    )
              ]
            ]
      ]

  issue_otp-users : (email : Text) (w : World) → (issue_otp email w).1.users ≡ w.users
  unfolding issue_otp generate_otp send_otp_email insert_otp_token post
  issue_otp-users email w = elim (Bool-cases p.skip_ses) [
    | inl skipped ↦ ground arith
    | inr sent ↦ elim (Option-cases (p.ses_send (w.calls + 1 + 1) email)) [
      | inl accepted ↦ ground arith
      | inr (message, refused) ↦ ground arith
    ]
  ]

  -- A registration with a password that returns had an open invitation to an organisation that is
  -- not suspended; it adds one user, in that organisation and with the address that was given, and
  -- the active members are then no more than the organisation's limit.
  pub handle_invited_user_registration-Seated :
      (email password token : Text) (w w' : World)
      → handle_invited_user_registration email password token w ≡ (ok tt, w')
      → (user : User) × Seated token user w w' × (user.email ≡ email)
  unfolding handle_invited_user_registration find_invitation_by_token_hash find_org_by_id
      count_active_users_by_org
  handle_invited_user_registration-Seated email password token w w' h =
      elim (Option-cases (p.find_one (is_open (p.sha256 token) w.now) w.invitations)) [
        | inl missed ↦ absurd (ground arith)
        | inr (invitation, found) ↦
            let (listed, fit) = p.query.find_one-sound _ w.invitations invitation found in
            let org = p.find_one (org_where (some invitation.org_id)) w.organisations in
            let members = count_where (is_active_member invitation.org_id) w.users in
            elim (Bool-cases (suspended_org org)) [
              | inl suspended ↦ absurd (ground arith)
              | inr standing ↦ elim (Bool-cases (leb (limit_of org) members)) [
                | inl full ↦ absurd (ground arith)
                | inr room ↦
                    let d : UserData = record {
                      org_id = some invitation.org_id;
                      email = email;
                      password_hash = some (p.bcrypt_hash w.calls password);
                      google_sub = none;
                      role = invitation.role;
                      invited_by = some invitation.invited_by;
                    } in
                    let v = record w { calls = w.calls + 1 } in
                    elim (Result-cases (accept_invitation_and_create_user invitation d v).0) [
                      | inr (e, failed) ↦ absurd (ground arith)
                      | inl (user, made) ↦
                          let v2 = (accept_invitation_and_create_user invitation d v).1 in
                          let (users, own, address) =
                            accept_invitation_and_create_user-users invitation d user v v2
                              (ap (λ r. (r, v2)) made) in
                          let more =
                            count_where-append (is_active_member invitation.org_id) w.users user in
                          let last : w'.users ≡ w.users ++ user ∷ [] =
                            ground (arith, issue_otp-users email v2) in
                          (
                            user,
                            record {
                              invitation = invitation;
                              listed = listed;
                              open_now = fit;
                              standing = standing;
                              org = own;
                              users = last;
                              seats = rw last (ground (arith, more));
                            },
                            address,
                          )
                    ]
              ]
            ]
      ]
