-- ===== src/Auth/Login/Checks.antt =====
-- The theorems about logins at a concrete state.
use hashira_be_railway_deplo.Base.{
  ℕ, ◌≡◌, ◌≤◌, refl, str, none, some, inr, [], ◌∷◌, ◌++◌, text_eq, length, arith, true, List, Text,
}
use hashira_be_railway_deplo.Base.Strings.{to_lower_case}
use hashira_be_railway_deplo.Types.{
  ok, err, auth_error, rate_limit_error, invalid_credentials, rate_limit_exceeded,
}
use hashira_be_railway_deplo.Entities.{User, Date}
use hashira_be_railway_deplo.Platform.{Platform}
use hashira_be_railway_deplo.World.{World, FailedAttemptRecord}
use hashira_be_railway_deplo.Auth.Attempts.{get, lockout, record_failure}
use hashira_be_railway_deplo.Auth.Login.{handle_returning_user_login, dummy_bcrypt_hash}
use hashira_be_railway_deplo.Auth.Login.Bounds.{login_locked, login_attempts_bounded}
use hashira_be_railway_deplo.Auth.Login.Outcomes.{
  LoggedIn, handle_returning_user_login-LoggedIn, login_rejected, login_without_password,
  issued_token,
}
use hashira_be_railway_deplo.Samples.Rows.{find_first}
use hashira_be_railway_deplo.Samples.Services.{demo, start, ann}

abbrev ten_failures : FailedAttemptRecord
ten_failures = record { count = 10; window_start = 900 }

abbrev locked : World
locked = record start { email_failed_attempts = (str "ann@x.io", ten_failures) ∷ [] }

login_locked_example :
    (seconds : ℕ) × (handle_returning_user_login (str "Ann@x.io") (str "secret12") locked
      ≡ (err (rate_limit_error rate_limit_exceeded (some seconds)), locked))
    × (seconds ≤ 300)
unfolding get text_eq to_lower_case
login_locked_example =
    login_locked (str "Ann@x.io") (str "secret12") locked ten_failures refl (omega arith)
      (omega arith) (omega arith)

abbrev tries : List (Date × Text)
tries = (1000, str "a") ∷ (2000, str "b") ∷ []

login_attempts_bounded_example : length tries ≤ 10
unfolding handle_returning_user_login find_first text_eq lockout record_failure get to_lower_case
login_attempts_bounded_example =
    login_attempts_bounded (str "Ann@x.io") 1000 (str "a") ((2000, str "b") ∷ []) start refl
      (omega arith, tt) (refl, (refl, tt))

abbrev logged_in : World
logged_in = (handle_returning_user_login (str "Ann@x.io") (str "secret12") start).1

login_start :
    handle_returning_user_login (str "Ann@x.io") (str "secret12") start ≡ (ok tt, logged_in)
unfolding handle_returning_user_login find_first lockout text_eq
login_start = refl

handle_returning_user_login-LoggedIn_example :
    LoggedIn (str "Ann@x.io") (str "secret12") start logged_in
handle_returning_user_login-LoggedIn_example =
    handle_returning_user_login-LoggedIn (str "Ann@x.io") (str "secret12") start logged_in
      login_start

login_rejected_example : handle_returning_user_login (str "Bob@x.io") (str "x") start ≡ (
  err (auth_error invalid_credentials),
  record start {
    email_failed_attempts =
        record_failure
          (to_lower_case (str "Bob@x.io"))
          start.now
          (lockout 10 300000
            (to_lower_case (str "Bob@x.io"))
            start.now
            start.email_failed_attempts).1;
  },
)
unfolding find_first text_eq lockout
login_rejected_example = login_rejected (str "Bob@x.io") (str "x") start none refl refl (inr refl)

-- Ann's account without a password, where no mail goes out.
abbrev quiet : Platform
quiet = record demo { skip_ses = true }

abbrev bare : User
bare = record ann { password_hash = none }

abbrev bare_start : World
bare_start = record start { db = record start.db { users = bare ∷ [] } }

login_without_password_example :
    ((handle_returning_user_login ⦃p = quiet⦄ (str "Ann@x.io") dummy_bcrypt_hash bare_start).0
      ≡ ok tt)
    × ((handle_returning_user_login ⦃p = quiet⦄
          (str "Ann@x.io")
          dummy_bcrypt_hash
          bare_start).1.otp_tokens
        ≡ bare_start.otp_tokens ++ issued_token ⦃p = quiet⦄ (str "Ann@x.io") bare_start ∷ [])
unfolding find_first text_eq lockout
login_without_password_example =
    login_without_password ⦃p = quiet⦄ (str "Ann@x.io") dummy_bcrypt_hash bare_start bare refl refl
      refl refl refl
