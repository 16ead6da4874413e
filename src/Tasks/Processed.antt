-- ===== src/Tasks/Processed.antt =====
-- What the callback of src/services/event/event-ingestion.service.ts does to the rows, the queue and
-- the work put off, however it ends.
use mathlib.Core.Path.{subst}
use hashira_be_railway_deplo.Base.{sym, ◌≤◌, ◌≡◌, ◌⊎◌, inl, inr, [], ◌∷◌, ◌++◌, Text, arith}
use hashira_be_railway_deplo.Platform.{Platform}
use hashira_be_railway_deplo.World.{World, ProcessableEvent, process_event}
use hashira_be_railway_deplo.World.Monad.{Result-cases}
use hashira_be_railway_deplo.Repositories.Events.{update_event, update_event_to_anchoring}
use hashira_be_railway_deplo.Crypto.Envelope.{encrypt}
use hashira_be_railway_deplo.Events.Processing.{hash_event, enqueue, process}
use hashira_be_railway_deplo.Events.Processing.Processed.{encrypt-same}
use hashira_be_railway_deplo.Tasks.{run_task}
use hashira_be_railway_deplo.Tasks.Idle.{Idle, encrypt-Idle}
use hashira_be_railway_deplo.Tasks.Sound.{processed_rows}

module _ ⦃p : Platform⦄ where
  -- The rows of the event have its hash, and a job for it is queued.
  pub record Queued (event : ProcessableEvent) (w v : World) : Type 0 where
    pub prompt : Text
    pub output : Text
    pub table :
        v.events
        ≡ processed_rows event.event_id event.org_id (hash_event event) prompt output w.events
    pub queue :
        v.anchor_queue
        ≡ w.anchor_queue
          ++ record {
            event_id = event.event_id;
            org_id = event.org_id;
            canonical_hash = hash_event event;
          }
            ∷ []
    pub tasks : v.tasks ≡ w.tasks
    pub calls : w.calls ≤ v.calls

  process-ends :
      (event : ProcessableEvent) (w : World)
      → ((((process event w).1.events ≡ w.events) × Idle w (process event w).1)
          ⊎ Queued event w (process event w).1)
  unfolding process enqueue update_event_to_anchoring update_event
  process-ends event w =
      let v = (encrypt event.prompt w).1 in
      let (db1, queue1) = encrypt-same event.prompt w in
      let (tasks1, _, calls1) = encrypt-Idle event.prompt w in
      let (db2, queue2) = encrypt-same event.output v in
      let (tasks2, _, calls2) = encrypt-Idle event.output v in
      elim (Result-cases (encrypt event.prompt w).0) [
        | inr (e, failed) ↦ inl (ground arith)
        | inl (prompt, prompt_sealed) ↦ elim (Result-cases (encrypt event.output v).0) [
          | inr (e, failed) ↦ inl (ground arith)
          | inl (output, output_sealed) ↦ inr (record {
            prompt = prompt;
            output = output;
            table = ground arith;
            queue = ground arith;
            tasks = ground arith;
            calls = ground arith;
          })
        ]
      ]

  run_task-process :
      (event : ProcessableEvent) (w : World)
      → (run_task (process_event event) w).1 ≡ (process event w).1
  unfolding run_task
  run_task-process event w = elim (Result-cases (process event w).0) [
    | inl (r, done) ↦ ground arith
    | inr (e, failed) ↦ ground arith
  ]

  pub run_task-ends :
      (event : ProcessableEvent) (w : World)
      → ((((run_task (process_event event) w).1.events ≡ w.events)
            × Idle w (run_task (process_event event) w).1)
          ⊎ Queued event w (run_task (process_event event) w).1)
  run_task-ends event w =
      subst (λ (v : World). ((v.events ≡ w.events) × Idle w v) ⊎ Queued event w v)
        (sym (run_task-process event w)) (process-ends event w)
