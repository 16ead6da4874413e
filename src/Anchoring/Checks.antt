-- ===== src/Anchoring/Checks.antt =====
-- Runs of the anchoring on concrete states, and the theorems about it there.
use hashira_be_railway_deplo.Base.{ℕ, ◌+◌, ◌≤◌, str, ltb, if◌then◌else◌, arith}
use hashira_be_railway_deplo.Types.{ok, err, system_error}
use hashira_be_railway_deplo.World.Monad.{App}
use hashira_be_railway_deplo.Anchoring.Backoff.{with_backoff, is_retryable_error}
use hashira_be_railway_deplo.Anchoring.Backoff.Runs.{Runs, with_backoff-Runs}
use hashira_be_railway_deplo.Anchoring.Service.{AnchorInput}
use hashira_be_railway_deplo.Samples.Services.{demo, start}

-- Times out twice, then answers.
abbrev third_time : App ℕ
third_time w = (
  if ltb w.calls 2 then err (system_error (str "ETIMEDOUT") (str "slow")) else ok 7,
  record w { calls = w.calls + 1 },
)

with_backoff-Runs_example :
    (n : ℕ) × Runs third_time is_retryable_error 3 1000 30000 n 0 start
      (with_backoff third_time is_retryable_error 3 1000 30000 start).0
      (with_backoff third_time is_retryable_error 3 1000 30000 start).1
    × (1 ≤ n)
    × (n ≤ 3)
with_backoff-Runs_example =
    with_backoff-Runs third_time is_retryable_error 3 1000 30000 (omega arith) start

abbrev anchor_input : AnchorInput
anchor_input = record { event_id = 1; org_id = 10; canonical_hash = str "ab" }
