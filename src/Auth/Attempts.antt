-- ===== src/Auth/Attempts.antt =====
-- The maps of failed attempts in src/services/auth/auth.service.ts and password-reset.service.ts:
-- a JavaScript Map keyed by the address in small letters, and the lockout that both files write out.
pub mod Laws
use hashira_be_railway_deplo.Base.{
  ℕ, ◌+◌, ◌-◌, ◌/◌, Option, none, some, [], ◌∷◌, Text, text_eq, ltb, leb, if◌then◌else◌,
}
use hashira_be_railway_deplo.Types.{Result, ok, err, rate_limit_error, rate_limit_exceeded}
use hashira_be_railway_deplo.Entities.{Date}
use hashira_be_railway_deplo.World.{Attempts, FailedAttemptRecord}

unfoldable pub get : Text → Attempts → Option FailedAttemptRecord
get key [] = none
get key ((k, r) ∷ m) = if text_eq k key then some r else get key m

unfoldable pub set : Text → FailedAttemptRecord → Attempts → Attempts
set key r [] = (key, r) ∷ []
set key r ((k, q) ∷ m) = if text_eq k key then (k, r) ∷ m else (k, q) ∷ set key r m

unfoldable pub delete : Text → Attempts → Attempts
delete key [] = []
delete key ((k, r) ∷ m) = if text_eq k key then delete key m else (k, r) ∷ delete key m

-- `Math.ceil(ms / 1000)`
unfoldable pub ceil_seconds : ℕ → ℕ
ceil_seconds ms = (ms + 999) / 1000

-- What the lockout does with the record that it finds, for a limit and a window in milliseconds.
unfoldable pub judge :
    ℕ → ℕ → Text → Date → Option FailedAttemptRecord → Attempts → Result (Unit {0}) × Attempts
unfolding delete ceil_seconds
judge limit window key now none m = (ok tt, m)
judge limit window key now (some r) m =
    if ltb (r.window_start + window) now
    then (ok tt, delete key m)
    else if leb limit r.count
    then (
      err (
          rate_limit_error rate_limit_exceeded
            (some (ceil_seconds (window + r.window_start - now)))),
      m,
    )
    else (ok tt, m)

unfoldable pub lockout : ℕ → ℕ → Text → Date → Attempts → Result (Unit {0}) × Attempts
unfolding judge get
lockout limit window key now m = judge limit window key now (get key m) m

-- One more failure: the count goes up, and the window stays where the first failure opened it.
unfoldable pub next_record : Date → Option FailedAttemptRecord → FailedAttemptRecord
next_record now none = record { count = 1; window_start = now }
next_record now (some r) = record r { count = r.count + 1 }

unfoldable pub record_failure : Text → Date → Attempts → Attempts
unfolding get set next_record
record_failure key now m = set key (next_record now (get key m)) m
