-- ===== src/Auth/Joined.antt =====
-- New members and a second factor on concrete states, and each theorem about them at a concrete input.
use hashira_be_railway_deplo.Base.{
  ◌≡◌, ◌∷◌, [], refl, Bool, true, some, none, str, text_eq, any, keep, All,
}
use hashira_be_railway_deplo.Base.Hex.{hex_encode}
use hashira_be_railway_deplo.Types.{ok, UserRole, UserStatus}
use hashira_be_railway_deplo.Entities.{User}
use hashira_be_railway_deplo.Platform.{GoogleClaims}
use hashira_be_railway_deplo.World.{World}
use hashira_be_railway_deplo.Repositories.Sql.{same_text, same_uuid}
use hashira_be_railway_deplo.Repositories.Invitations.{
  find_invitation_by_token_hash, is_open, accept_invitation_and_create_user,
}
use hashira_be_railway_deplo.Repositories.Organisations.{find_org_by_id}
use hashira_be_railway_deplo.Repositories.Users.{
  count_active_users_by_org, find_user_by_id, update_user, find_user_by_google_sub,
  find_user_by_email,
}
use hashira_be_railway_deplo.Crypto.Cipher.{is_well_formed}
use hashira_be_railway_deplo.Crypto.Totp.{encrypt_totp}
use hashira_be_railway_deplo.Crypto.Checks.{counting, counting-CipherLaws}
use hashira_be_railway_deplo.Auth.Google.{register_invited, create_google_session}
use hashira_be_railway_deplo.Auth.Login.{handle_invited_user_registration}
use hashira_be_railway_deplo.Auth.Mfa.{MfaSetupResult, setup_mfa, confirm_mfa}
use hashira_be_railway_deplo.Auth.Enrolment.{confirm_mfa-setup_mfa}
use hashira_be_railway_deplo.Auth.Session.{Session, payload_of, open_session}
use hashira_be_railway_deplo.Auth.SignedIn.{SignedIn, create_google_session-SignedIn}
use hashira_be_railway_deplo.Auth.Seats.{
  Seated, register_invited-Seated, handle_invited_user_registration-Seated,
}
use hashira_be_railway_deplo.Samples.Rows.{find_first}
use hashira_be_railway_deplo.Samples.Services.{demo, start}

abbrev bob_claims : GoogleClaims
bob_claims = record { sub = str "g-bob"; email = str "bob@x.io"; email_verified = true }

abbrev bob : User
bob = record {
  user_id = 100;
  org_id = some 10;
  email = str "bob@x.io";
  password_hash = none;
  google_sub = some (str "g-bob");
  role = UserRole.member;
  status = UserStatus.active;
  mfa_enabled = Bool.false;
  totp_secret = none;
  totp_secret_pending = none;
  invited_by = some 1;
  created_at = 1000;
}

abbrev after_google : World
after_google = (register_invited bob_claims (str "inv") start).1

google_run : register_invited bob_claims (str "inv") start ≡ (ok bob, after_google)
unfolding register_invited find_invitation_by_token_hash find_first is_open text_eq hex_encode
    find_org_by_id count_active_users_by_org keep same_uuid accept_invitation_and_create_user any
    same_text
google_run = refl

register_invited-Seated_example :
    Seated (str "inv") bob start after_google × (bob.email ≡ bob_claims.email)
register_invited-Seated_example =
    register_invited-Seated bob_claims (str "inv") bob start after_google google_run

abbrev after_registration : World
after_registration =
    (handle_invited_user_registration (str "bob@x.io") (str "password") (str "inv") start).1

registration_run :
    handle_invited_user_registration (str "bob@x.io") (str "password") (str "inv") start
    ≡ (ok tt, after_registration)
unfolding handle_invited_user_registration find_first is_open text_eq hex_encode keep same_uuid any
    same_text
registration_run = refl

handle_invited_user_registration-Seated_example :
    (user : User) × Seated (str "inv") user start after_registration × (user.email ≡ str "bob@x.io")
handle_invited_user_registration-Seated_example =
    handle_invited_user_registration-Seated (str "bob@x.io") (str "password") (str "inv") start
      after_registration registration_run

abbrev after_setup : World
after_setup = (setup_mfa ⦃p = counting⦄ 1 start).1

abbrev enrolment : MfaSetupResult
enrolment = record { totp_uri = str "Ann@x.io"; qr_code_data_url = str "Ann@x.io" }

setup_run : setup_mfa ⦃p = counting⦄ 1 start ≡ (ok enrolment, after_setup)
unfolding setup_mfa find_user_by_id find_first encrypt_totp update_user
setup_run = refl

-- The stand-in for otplib takes the secret itself for the code.
secret_proper : is_well_formed (str "JBSWY3DP") ≡ true
unfolding is_well_formed
secret_proper = refl

code_fits : text_eq (str "JBSWY3DP") (str "JBSWY3DP") ≡ true
unfolding text_eq
code_fits = refl

confirm_mfa-setup_mfa_example :
    ((confirm_mfa ⦃p = counting⦄ 1 (str "JBSWY3DP") after_setup).0 ≡ ok tt)
    × All
        (λ u. u.user_id ≡ 1 → u.mfa_enabled ≡ true)
        (confirm_mfa ⦃p = counting⦄ 1 (str "JBSWY3DP") after_setup).1.users
confirm_mfa-setup_mfa_example =
    confirm_mfa-setup_mfa ⦃p = counting⦄ 1 (str "JBSWY3DP") enrolment start after_setup after_setup
      counting-CipherLaws secret_proper setup_run refl code_fits

abbrev bob_session : Session
bob_session = record {
  session_token = str "bob@x.io";
  refresh_token = b't' ∷ 1 ∷ [];
  user = payload_of (record bob { google_sub = some (str "bob@x.io") });
}

abbrev after_sign_in : World
after_sign_in = (create_google_session (str "bob@x.io") (some (str "inv")) start).1

sign_in_run :
    create_google_session (str "bob@x.io") (some (str "inv")) start
    ≡ (ok bob_session, after_sign_in)
unfolding create_google_session find_user_by_google_sub find_first same_text find_user_by_email
    text_eq find_invitation_by_token_hash is_open hex_encode find_org_by_id
    count_active_users_by_org keep same_uuid accept_invitation_and_create_user any open_session
    payload_of
sign_in_run = refl

create_google_session-SignedIn_example :
    SignedIn (str "bob@x.io") (some (str "inv")) bob_session start after_sign_in
create_google_session-SignedIn_example =
    create_google_session-SignedIn (str "bob@x.io") (some (str "inv")) bob_session start
      after_sign_in sign_in_run
