-- ===== src/Auth/Attempts/Laws.antt =====
-- The map of failed attempts as a map, and what the lockout decides.
use hashira_be_railway_deplo.Base.{
  ℕ, ◌+◌, ◌-◌, ◌≤◌, ◌<◌, ◌≡◌, refl, ◌⊎◌, inl, inr, Bool-cases, ltb, leb, false, Option, none, some,
  [], ◌∷◌, Text, text_eq, text_eq_iff, if◌then◌else◌, arith,
}
use hashira_be_railway_deplo.Types.{ok, err, rate_limit_error, rate_limit_exceeded}
use hashira_be_railway_deplo.Entities.{Date}
use hashira_be_railway_deplo.World.{Attempts, FailedAttemptRecord}
use hashira_be_railway_deplo.Auth.Attempts.{
  get, set, delete, ceil_seconds, judge, lockout, next_record, record_failure,
}

pub get-set :
    (key j : Text) (r : FailedAttemptRecord) (m : Attempts)
    → get j (set key r m) ≡ (if text_eq key j then some r else get j m)
unfolding get set
get-set key j r [] = refl
get-set key j r ((k, q) ∷ m) =
    ground (arith, text_eq_iff k key, text_eq_iff k j, text_eq_iff key j, get-set key j r m)

pub get-set_self :
    (key : Text) (r : FailedAttemptRecord) (m : Attempts) → get key (set key r m) ≡ some r
get-set_self key r m = ground (arith, get-set key key r m, text_eq_iff key key)

pub get-delete_self : (key : Text) (m : Attempts) → get key (delete key m) ≡ none
unfolding get delete
get-delete_self key [] = refl
get-delete_self key ((k, q) ∷ m) = ground (arith, get-delete_self key m)

pub get-delete_ne :
    (key j : Text) (m : Attempts) → text_eq key j ≡ false → get j (delete key m) ≡ get j m
unfolding get delete
get-delete_ne key j [] h = refl
get-delete_ne key j ((k, q) ∷ m) h =
    ground (arith, text_eq_iff k key, text_eq_iff k j, text_eq_iff key j, get-delete_ne key j m h)

pub get-record_failure :
    (key : Text) (now : Date) (m : Attempts)
    → get key (record_failure key now m) ≡ some (next_record now (get key m))
unfolding record_failure
get-record_failure key now m = get-set_self key (next_record now (get key m)) m

judge-cases :
    (limit window : ℕ) (key : Text) (now : Date) (o : Option FailedAttemptRecord) (m : Attempts)
    → ((judge limit window key now o m).0 ≡ ok tt)
      ⊎ ((s : ℕ) × ((judge limit window key now o m).0
            ≡ err (rate_limit_error rate_limit_exceeded (some s))))
unfolding judge
judge-cases limit window key now none m = inl refl
judge-cases limit window key now (some r) m =
    elim (Bool-cases (ltb (r.window_start + window) now)) [
      | inl late ↦ inl (ground arith)
      | inr early ↦ elim (Bool-cases (leb limit r.count)) [
        | inl full ↦ inr (ceil_seconds (window + r.window_start - now), ground arith)
        | inr room ↦ inl (ground arith)
      ]
    ]

module _ (limit window : ℕ) (key : Text) (now : Date) (m : Attempts) where
  -- With no record, or with one below the limit whose window is open, the attempt may go on.
  pub lockout-none : get key m ≡ none → lockout limit window key now m ≡ (ok tt, m)
  unfolding lockout
  lockout-none h = rw (h, judge)

  pub lockout_open :
      (r : FailedAttemptRecord)
      → get key m ≡ some r
      → now ≤ r.window_start + window
      → r.count < limit
      → lockout limit window key now m ≡ (ok tt, m)
  unfolding lockout
  lockout_open r h inside below = rw (h, judge) (ground arith)

  -- At the limit, while the window is open, it is refused and the map is left alone.
  pub lockout_refused :
      (r : FailedAttemptRecord)
      → get key m ≡ some r
      → now ≤ r.window_start + window
      → limit ≤ r.count
      → lockout limit window key now m ≡ (
        err (
            rate_limit_error rate_limit_exceeded
              (some (ceil_seconds (window + r.window_start - now)))),
        m,
      )
  unfolding lockout
  lockout_refused r h inside above = rw (h, judge) (ground arith)

  -- After the window the record is dropped.
  pub lockout_expired :
      (r : FailedAttemptRecord)
      → get key m ≡ some r
      → r.window_start + window < now
      → lockout limit window key now m ≡ (ok tt, delete key m)
  unfolding lockout
  lockout_expired r h outside = rw (h, judge) (ground arith)

  -- The lockout lets the attempt go on, or refuses it with a time to wait.
  pub lockout-cases :
      ((lockout limit window key now m).0 ≡ ok tt)
      ⊎ ((s : ℕ) × ((lockout limit window key now m).0
            ≡ err (rate_limit_error rate_limit_exceeded (some s))))
  unfolding lockout
  lockout-cases = judge-cases limit window key now (get key m) m

  -- While the window is open the map is left alone.
  pub lockout_inside :
      (r : FailedAttemptRecord)
      → get key m ≡ some r
      → now ≤ r.window_start + window
      → (lockout limit window key now m).1 ≡ m
  unfolding lockout
  lockout_inside r h inside = rw (h, judge) (ground arith)
