-- ===== src/Anchoring/Backoff/Runs.antt =====
-- What the retry loop does, as a relation on runs.
use hashira_be_railway_deplo.Base.{
  ℕ, zero, suc, ◌+◌, ◌≤◌, ◌<◌, ◌≡◌, ◌≢◌, ◌⊎◌, inl, inr, Bool, true, false, not, ◌||◌, Bool-cases,
  arith, ◌==◌, sym, ap,
}
use mathlib.Core.Path.{subst}
use hashira_be_railway_deplo.Types.{Error, Result, ok, err}
use hashira_be_railway_deplo.World.{World}
use hashira_be_railway_deplo.World.Monad.{App, Result-cases}
use hashira_be_railway_deplo.Anchoring.Backoff.{delay_after, sleep, attempts_from, with_backoff}

module _ {T : Type 0} (fn : App T) (retryable : Error → Bool)
    (max_attempts base_delay_ms max_delay_ms : ℕ) where
  -- `Runs n attempt w r w'`: from round `attempt` at `w`, the call made `n` times ends with `r` at
  -- `w'`, sleeping after each failure that is retried.
  pub data Runs : ℕ → ℕ → World → Result T → World → Type 0 where
    succeeds : {attempt : ℕ} {w v : World} {t : T} → fn w ≡ (ok t, v) → Runs 1 attempt w (ok t) v
    gives_up :
        {attempt : ℕ} {w v : World} {e : Error}
        → fn w ≡ (err e, v)
        → (attempt + 1 ≡ max_attempts) ⊎ (retryable e ≡ false)
        → Runs 1 attempt w (err e) v
    retries :
        {n attempt : ℕ} {w v w' : World} {e : Error} {r : Result T}
        → fn w ≡ (err e, v)
        → attempt + 1 < max_attempts
        → retryable e ≡ true
        → Runs n (attempt + 1) (sleep (delay_after base_delay_ms max_delay_ms attempt) v) r w'
        → Runs (suc n) attempt w r w'

  -- The result and the state of a run from a round of the loop.
  attempts_from-ok :
      (left attempt : ℕ) (w v : World) (t : T)
      → fn w ≡ (ok t, v)
      → attempts_from fn retryable max_attempts base_delay_ms max_delay_ms (suc left) attempt w
        ≡ (ok t, v)
  unfolding attempts_from
  attempts_from-ok left attempt w v t e = ground arith

  attempts_from-stop :
      (left attempt : ℕ) (w v : World) (e : Error)
      → fn w ≡ (err e, v)
      → (attempt + 1 == max_attempts || not (retryable e)) ≡ true
      → attempts_from fn retryable max_attempts base_delay_ms max_delay_ms (suc left) attempt w
        ≡ (err e, v)
  unfolding attempts_from
  attempts_from-stop left attempt w v e failed stop = ground arith

  attempts_from-again :
      (left attempt : ℕ) (w v : World) (e : Error)
      → fn w ≡ (err e, v)
      → (attempt + 1 == max_attempts || not (retryable e)) ≡ false
      → attempts_from fn retryable max_attempts base_delay_ms max_delay_ms (suc left) attempt w
        ≡ attempts_from fn retryable max_attempts base_delay_ms max_delay_ms left
            (attempt + 1)
            (sleep (delay_after base_delay_ms max_delay_ms attempt) v)
  unfolding attempts_from
  attempts_from-again left attempt w v e failed again = ground arith

  stop_reason :
      (attempt : ℕ) (e : Error)
      → (attempt + 1 == max_attempts || not (retryable e)) ≡ true
      → (attempt + 1 ≡ max_attempts) ⊎ (retryable e ≡ false)
  stop_reason attempt e stop = ground arith

  again_reason :
      (attempt : ℕ) (e : Error)
      → (attempt + 1 == max_attempts || not (retryable e)) ≡ false
      → (retryable e ≡ true) × (attempt + 1 ≢ max_attempts)
  again_reason attempt e again = ground arith

  rounds_left :
      (left attempt : ℕ) (e : Error)
      → attempt + suc left ≡ max_attempts
      → (attempt + 1 == max_attempts || not (retryable e)) ≡ false
      → 0 < left
  rounds_left left attempt e sum again = let (_, more) = again_reason attempt e again in omega arith

  Ran : ℕ → ℕ → World → Result T × World → Type 0
  Ran left attempt w out = (n : ℕ) × Runs n attempt w out.0 out.1 × (1 ≤ n) × (n ≤ left)

  attempts_from-Ran :
      (left attempt : ℕ) (w : World)
      → attempt + left ≡ max_attempts
      → 0 < left
      → Ran left attempt w
          (attempts_from fn retryable max_attempts base_delay_ms max_delay_ms left attempt w)
  unfolding Ran
  attempts_from-Ran zero attempt w sum pos = absurd (omega arith)
  attempts_from-Ran (suc left) attempt w sum pos = elim (Result-cases (fn w).0) [
    | inl (t, e) ↦
        let done : fn w ≡ (ok t, (fn w).1) = ap (λ r. (r, (fn w).1)) e in
        subst (Ran (suc left) attempt w) (sym (attempts_from-ok left attempt w (fn w).1 t done))
          (1, succeeds done, omega arith, omega arith)
    | inr (e, failed) ↦
        let broke : fn w ≡ (err e, (fn w).1) = ap (λ r. (r, (fn w).1)) failed in
        elim (Bool-cases (attempt + 1 == max_attempts || not (retryable e))) [
          | inl stop ↦
              subst (Ran (suc left) attempt w)
                (sym (attempts_from-stop left attempt w (fn w).1 e broke stop))
                (1, gives_up broke (stop_reason attempt e stop), omega arith, omega arith)
          | inr again ↦
              let (n, run, low, high) =
                attempts_from-Ran left (attempt + 1)
                  (sleep (delay_after base_delay_ms max_delay_ms attempt) (fn w).1) (omega arith)
                  (rounds_left left attempt e sum again) in
              let (retried, more) = again_reason attempt e again in
              let below : attempt + 1 < max_attempts = omega arith in
              subst (Ran (suc left) attempt w)
                (sym (attempts_from-again left attempt w (fn w).1 e broke again))
                (suc n, retries broke below retried run, omega arith, omega arith)
        ]
  ]

  -- With at least one attempt allowed, the loop calls `fn` at least once and at most `max_attempts`
  -- times, and ends as a run of it does: with the first success, or with the error of the last
  -- attempt or of one that is not retryable, having slept `min(base * 2 ** attempt, max)` after each
  -- failure before. So the "unreachable" of the source is not reached.
  pub with_backoff-Runs :
      0 < max_attempts
      → (w : World)
      → (n : ℕ) × Runs n 0 w
          (with_backoff fn retryable max_attempts base_delay_ms max_delay_ms w).0
          (with_backoff fn retryable max_attempts base_delay_ms max_delay_ms w).1
        × (1 ≤ n)
        × (n ≤ max_attempts)
  unfolding with_backoff Ran
  with_backoff-Runs pos w = attempts_from-Ran max_attempts 0 w (omega arith) pos
