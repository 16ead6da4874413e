-- ===== src/Anchoring/Backoff.antt =====
-- src/utils/withExponentialBackoff.ts.
pub mod Runs
use hashira_be_railway_deplo.Base.{
  ℕ, zero, suc, ◌+◌, ◌*◌, ◌^◌, min, Bool, true, false, not, ◌||◌, Option, none, some, List, [], ◌∷◌,
  Text, str, text_eq, any, ◌==◌, if◌then◌else◌,
}
use hashira_be_railway_deplo.Base.Strings.{to_lower_case, to_upper_case, includes, parse_natural}
use hashira_be_railway_deplo.Types.{Error, Result, ok, err, other_error, system_error}
use hashira_be_railway_deplo.Platform.{Platform}
use hashira_be_railway_deplo.World.{World}
use hashira_be_railway_deplo.World.Monad.{App}

abbrev retryable_codes : List Text
retryable_codes = str "ECONNRESET" ∷ str "ECONNREFUSED" ∷ str "ETIMEDOUT" ∷ str "ENOTFOUND" ∷ []

abbrev retryable_patterns : List Text
retryable_patterns =
    str "timeout"
    ∷ str "network"
    ∷ str "fetch failed"
    ∷ str "rate limit"
    ∷ str "rate_limit"
    ∷ str "429"
    ∷ str "socket"
    ∷ []

abbrev non_retryable_patterns : List Text
non_retryable_patterns =
    str "alreadyanchored"
    ∷ str "execution reverted"
    ∷ str "accesscontrolunauthorizedaccount"
    ∷ str "zerovalues"
    ∷ str "zeroaddress"
    ∷ str "invalid argument"
    ∷ str "invalidinput"
    ∷ []

-- By the `code` (empty where there is none) and the `message` of the error.
unfoldable pub is_retryable_parts : Text → Text → Bool
is_retryable_parts code message =
    let lower = to_lower_case message in
    let upper = to_upper_case code in
    if any (λ pattern. includes pattern lower) non_retryable_patterns
    then false
    else if any (λ known. text_eq known upper) retryable_codes
    then true
    else any (λ pattern. includes pattern lower) retryable_patterns

-- The program's own error classes never come out of the calls that are retried. The `code` of an
-- error is a text here, as in node's errors; one that is a number has no toUpperCase.
unfoldable pub is_retryable_error : Error → Bool
unfolding is_retryable_parts
is_retryable_error (other_error message) = is_retryable_parts [] message
is_retryable_error (system_error code message) = is_retryable_parts code message
is_retryable_error _ = false

abbrev pub default_base_delay_ms : ℕ
default_base_delay_ms = 1000

abbrev pub default_max_delay_ms : ℕ
default_max_delay_ms = 30000

-- `Math.min(baseDelayMs * 2 ** attempt, maxDelayMs)`
unfoldable pub delay_after : ℕ → ℕ → ℕ → ℕ
delay_after base_delay_ms max_delay_ms attempt = min (base_delay_ms * 2 ^ attempt) max_delay_ms

unfoldable pub sleep : ℕ → World → World
sleep ms w = record w { now = w.now + ms }

module _ {T : Type 0} (fn : App T) (retryable : Error → Bool)
    (max_attempts base_delay_ms max_delay_ms : ℕ) where
  -- The loop, with the rounds that are left. `onRetry` only logs.
  unfoldable pub attempts_from : ℕ → ℕ → App T
  unfolding sleep delay_after
  attempts_from zero attempt w = (err (other_error (str "unreachable")), w)
  attempts_from (suc left) attempt w =
      let (r, v) = fn w in
      elim r [
        | ok t ↦ (ok t, v)
        | err e ↦
            let rest =
              attempts_from left (attempt + 1)
                (sleep (delay_after base_delay_ms max_delay_ms attempt) v) in
            if attempt + 1 == max_attempts || not (retryable e) then (err e, v) else rest
      ]

  unfoldable pub with_backoff : App T
  unfolding attempts_from
  with_backoff = attempts_from max_attempts 0

unfoldable pub rounds_of : Option Text → ℕ
rounds_of none = 3
rounds_of (some raw) = elim (parse_natural raw) [ none ↦ 0 | some n ↦ n ]

module _ ⦃p : Platform⦄ where
  -- DEFAULT_MAX_ATTEMPTS; a value that is no number lets the loop run no round.
  unfoldable pub default_max_attempts : ℕ
  unfolding rounds_of
  default_max_attempts = rounds_of p.anchor_max_retries

  -- With no options.
  unfoldable pub with_exponential_backoff : {T : Type 0} → App T → App T
  unfolding with_backoff default_max_attempts
  with_exponential_backoff fn =
      with_backoff fn is_retryable_error default_max_attempts default_base_delay_ms
        default_max_delay_ms
