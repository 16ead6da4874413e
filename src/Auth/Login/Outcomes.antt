-- ===== src/Auth/Login/Outcomes.antt =====
-- What a login by password answers, and what it leaves behind.
use hashira_be_railway_deplo.Base.{
  ◌+◌, ◌≡◌, refl, ◌⊎◌, inl, inr, true, false, Option, none, some, [], ◌∷◌, ◌++◌, Memᴰ, Text,
  text_eq_iff, Option-cases, arith, text_eq, if◌then◌else◌, str,
}
use hashira_be_railway_deplo.Base.Strings.{to_lower_case}
use hashira_be_railway_deplo.Types.{ok, err, auth_error, invalid_credentials}
use hashira_be_railway_deplo.Entities.{User, OtpToken}
use hashira_be_railway_deplo.Platform.{Platform}
use hashira_be_railway_deplo.World.{World}
use hashira_be_railway_deplo.Auth.Attempts.{lockout, record_failure}
use hashira_be_railway_deplo.Auth.Attempts.Laws.{lockout-cases}
use hashira_be_railway_deplo.Auth.Login.{
  handle_returning_user_login, failed_attempt_limit, failed_attempt_window_ms, hash_to_compare,
  dummy_bcrypt_hash,
}

module _ ⦃p : Platform⦄ where
  -- The code that goes out at a state, and its row.
  abbrev pub issued_code : World → Text
  issued_code w = if p.skip_ses then str "123456" else p.random_int w.calls 100000 999999

  abbrev pub issued_token : Text → World → OtpToken
  issued_token email w = record {
    id = p.uuid (if p.skip_ses then w.calls else w.calls + 1);
    email_hash = p.sha256 (to_lower_case email);
    otp_hash = p.sha256 (issued_code w);
    expires_at = w.now + 600000;
    used = false;
    attempts = 0;
    created_at = w.now;
  }

  -- What a login that goes through has checked and written.
  pub record LoggedIn (email password : Text) (w w' : World) : Type 0 where
    pub user : User
    pub token : OtpToken
    pub listed : Memᴰ user w.users
    pub address : user.email ≡ email
    pub matched : p.bcrypt_compare password (hash_to_compare (some user)) ≡ true
    pub issued : w'.otp_tokens ≡ w.otp_tokens ++ token ∷ []
    pub for_address : token.email_hash ≡ p.sha256 (to_lower_case email)
    pub unused : token.used ≡ false
    pub lifetime : token.expires_at ≡ w.now + 600000
    pub no_session : w'.refresh_tokens ≡ w.refresh_tokens

  -- A login that returns has found a user of the address such that the compared hash (that of the
  -- user, or the dummy hash if there is none) accepts the password, and has added one unused code for
  -- the address that expires after ten minutes; the refresh tokens are as before.
  pub handle_returning_user_login-LoggedIn :
      (email password : Text) (w w' : World)
      → handle_returning_user_login email password w ≡ (ok tt, w')
      → LoggedIn email password w w'
  unfolding handle_returning_user_login
  handle_returning_user_login-LoggedIn email password w w' h =
      elim (Option-cases (p.find_one (λ u. text_eq u.email email) w.users)) [
        | inl missed ↦ absurd (ground arith)
        | inr (user, found) ↦
            let (listed, fit) = p.query.find_one-sound _ w.users user found in
            elim (lockout-cases failed_attempt_limit failed_attempt_window_ms (to_lower_case email)
              w.now w.email_failed_attempts) [
                | inr (s, refused) ↦ absurd (ground arith)
                | inl allowed ↦
                    let token = issued_token email w in
                    record {
                      user = user;
                      token = token;
                      listed = listed;
                      address = (text_eq_iff _ _).0 fit;
                      matched = ground arith;
                      issued = ground arith;
                      for_address = refl;
                      unused = refl;
                      lifetime = refl;
                      no_session = ground arith;
                    }
              ]
      ]

  -- Where the lockout lets the address through, a password that the compared hash refuses and an
  -- address that the database does not find get the same answer, INVALID_CREDENTIALS, and leave
  -- the same trace: one more failure counted, on what the lockout left of the record, and nothing
  -- else.
  pub login_rejected :
      (email password : Text) (w : World) (found : Option User)
      → p.find_one (λ u. text_eq u.email email) w.users ≡ found
      → (lockout 10 300000 (to_lower_case email) w.now w.email_failed_attempts).0 ≡ ok tt
      → (p.bcrypt_compare password (hash_to_compare found) ≡ false) ⊎ (found ≡ none)
      → handle_returning_user_login email password w ≡ (
        err (auth_error invalid_credentials),
        record w {
          email_failed_attempts =
              record_failure
                (to_lower_case email)
                w.now
                (lockout 10 300000 (to_lower_case email) w.now w.email_failed_attempts).1;
        },
      )
  unfolding handle_returning_user_login
  login_rejected email password w found looked allowed (inl wrong) = ground arith
  login_rejected email password w found looked allowed (inr unknown) = ground arith

  -- Where no mail goes out (SKIP_SES) and the lockout lets the address through: for the row that the
  -- database gives for the address, if it has no password hash (an account opened through Google),
  -- a password that the dummy hash accepts is answered like the right one, and a code is issued.
  pub login_without_password :
      (email password : Text) (w : World) (user : User)
      → p.find_one (λ u. text_eq u.email email) w.users ≡ some user
      → user.password_hash ≡ none
      → p.bcrypt_compare password dummy_bcrypt_hash ≡ true
      → (lockout 10 300000 (to_lower_case email) w.now w.email_failed_attempts).0 ≡ ok tt
      → p.skip_ses ≡ true
      → ((handle_returning_user_login email password w).0 ≡ ok tt)
        × ((handle_returning_user_login email password w).1.otp_tokens
            ≡ w.otp_tokens ++ issued_token email w ∷ [])
  unfolding handle_returning_user_login
  login_without_password email password w user looked bare accepted allowed quiet = ground arith
