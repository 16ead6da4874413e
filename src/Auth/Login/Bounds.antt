-- ===== src/Auth/Login/Bounds.antt =====
-- How many wrong passwords an address admits in one window.
use native.Mathlib.Decide.{dec_lt}
use hashira_be_railway_deplo.Base.{
  ℕ, ◌+◌, ◌-◌, ◌≤◌, ◌<◌, ◌≡◌, refl, inl, inr, none, some, List, [], ◌∷◌, Text, length, All, arith,
}
use hashira_be_railway_deplo.Base.Strings.{to_lower_case}
use hashira_be_railway_deplo.Types.{
  Result, ok, err, auth_error, rate_limit_error, invalid_credentials, rate_limit_exceeded,
}
use hashira_be_railway_deplo.Entities.{Date}
use hashira_be_railway_deplo.Platform.{Platform}
use hashira_be_railway_deplo.World.{World, Attempts, FailedAttemptRecord}
use hashira_be_railway_deplo.Auth.Attempts.{get, ceil_seconds, lockout, record_failure, next_record}
use hashira_be_railway_deplo.Auth.Attempts.Laws.{
  lockout-cases, lockout_inside, lockout-none, lockout_refused, get-record_failure,
}
use hashira_be_railway_deplo.Auth.Login.{
  handle_returning_user_login, failed_attempt_limit, failed_attempt_window_ms,
}

abbrev judged : Text → World → Result (Unit {0}) × Attempts
judged email w =
    lockout failed_attempt_limit failed_attempt_window_ms (to_lower_case email) w.now
      w.email_failed_attempts

module _ ⦃p : Platform⦄ where
  -- A wrong password is counted after the lockout has had its say.
  login_failed :
      (email password : Text) (w : World)
      → (handle_returning_user_login email password w).0 ≡ err (auth_error invalid_credentials)
      → ((judged email w).0 ≡ ok tt)
        × ((handle_returning_user_login email password w).1.email_failed_attempts
            ≡ record_failure (to_lower_case email) w.now (judged email w).1)
  unfolding handle_returning_user_login
  login_failed email password w h =
      elim (lockout-cases 10 300000 (to_lower_case email) w.now w.email_failed_attempts) [
        | inl open_window ↦ ground arith
        | inr (s, refused) ↦ absurd (ground arith)
      ]

  -- While ten or more failures of the address stand in a window that has begun and is not over,
  -- every attempt is refused with RATE_LIMIT_EXCEEDED, whatever the password, and nothing changes;
  -- the caller is told to come back after at most 300 seconds.
  pub login_locked :
      (email password : Text) (w : World) (r : FailedAttemptRecord)
      → get (to_lower_case email) w.email_failed_attempts ≡ some r
      → 10 ≤ r.count
      → r.window_start ≤ w.now
      → w.now ≤ r.window_start + 300000
      → (seconds : ℕ) × (handle_returning_user_login email password w
          ≡ (err (rate_limit_error rate_limit_exceeded (some seconds)), w))
        × (seconds ≤ 300)
  unfolding handle_returning_user_login ceil_seconds
  login_locked email password w r found full started inside = (
    ceil_seconds (300000 + r.window_start - w.now),
    ground (
      arith,
      lockout_refused 10 300000 (to_lower_case email) w.now w.email_failed_attempts r found inside
          full,
    ),
    omega arith,
  )

  -- The attempts of one address in turn, each at its time: all are answered INVALID_CREDENTIALS.
  abbrev pub AllFail : Text → List (Date × Text) → World → Type 0
  AllFail email [] w = Unit
  AllFail email ((t, password) ∷ rest) w =
      ((handle_returning_user_login email password (record w { now = t })).0
        ≡ err (auth_error invalid_credentials))
      × AllFail email rest (handle_returning_user_login email password (record w { now = t })).1

  -- One more failure in an open window needs a count below ten, and raises it.
  failure_counts :
      (email password : Text) (w : World) (r : FailedAttemptRecord)
      → get (to_lower_case email) w.email_failed_attempts ≡ some r
      → w.now ≤ r.window_start + 300000
      → (handle_returning_user_login email password w).0 ≡ err (auth_error invalid_credentials)
      → (r.count < 10)
        × (get
              (to_lower_case email)
              (handle_returning_user_login email password w).1.email_failed_attempts
            ≡ some (record r { count = r.count + 1 }))
  unfolding next_record
  failure_counts email password w r found inside h =
      let key = to_lower_case email in
      let (allowed, written) = login_failed email password w h in
      let same = lockout_inside 10 300000 key w.now w.email_failed_attempts r found inside in
      (
        elim (dec_lt r.count 10) [
          | yes below ↦ below
          | no above ↦ absurd (
              ground
                (arith, lockout_refused 10 300000 key w.now w.email_failed_attempts r found inside))
        ],
        rw (written, same, get-record_failure, found) refl,
      )

  failures_bounded :
      (email : Text) (attempts : List (Date × Text)) (w : World) (r : FailedAttemptRecord)
      → get (to_lower_case email) w.email_failed_attempts ≡ some r
      → r.count ≤ 10
      → All (λ a. a.0 ≤ r.window_start + 300000) attempts
      → AllFail email attempts w
      → r.count + length attempts ≤ 10
  failures_bounded email [] w r found room inside fails = omega arith
  failures_bounded email ((t, password) ∷ rest) w r found room inside fails =
      let (below, next) =
        failure_counts email password (record w { now = t }) r found inside.0 fails.0 in
      omega (
        arith,
        failures_bounded email rest _ (record r { count = r.count + 1 }) next (omega arith) inside.1
            fails.1,
      )

  -- For an address with no failure on record: if an attempt and those after it, none later than
  -- five minutes after the first, are all answered INVALID_CREDENTIALS in turn, they are at most
  -- ten, whatever the passwords.
  pub login_attempts_bounded :
      (email : Text) (t : Date) (password : Text) (rest : List (Date × Text)) (w : World)
      → get (to_lower_case email) w.email_failed_attempts ≡ none
      → All (λ a. a.0 ≤ t + 300000) rest
      → AllFail email ((t, password) ∷ rest) w
      → length ((t, password) ∷ rest) ≤ 10
  unfolding next_record
  login_attempts_bounded email t password rest w clean inside fails =
      let key = to_lower_case email in
      let (allowed, written) = login_failed email password (record w { now = t }) fails.0 in
      let first : FailedAttemptRecord = record { count = 1; window_start = t } in
      let recorded : get key
            (handle_returning_user_login email password
              (record w { now = t })).1.email_failed_attempts
          ≡ some first =
        rw
          (
            written,
            lockout-none 10 300000 key t w.email_failed_attempts clean,
            get-record_failure,
            clean,
          )
          refl in
      omega (arith, failures_bounded email rest _ first recorded (omega arith) inside fails.1)
