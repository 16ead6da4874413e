-- ===== src/Tasks.antt =====
-- The work that a request puts off: the callbacks of setImmediate in
-- src/services/event/event-ingestion.service.ts and of setTimeout in
-- src/services/organisation/organisation.service.ts, and the jobs of src/workers/anchoring.worker.ts.
pub mod Idle
pub mod Ingested
pub mod Signups
pub mod Processed
pub mod Settled
pub mod Reachable
pub mod Sound
pub mod Checks
use hashira_be_railway_deplo.Base.{◌≤◌, ◌≡◌, List, [], ◌∷◌, ◌++◌}
use hashira_be_railway_deplo.Platform.{Platform}
use hashira_be_railway_deplo.World.{World, Task, process_event, activate_org, AnchorEventJobData}
use hashira_be_railway_deplo.World.Monad.{App, pure, catch, ◌>>◌}
use hashira_be_railway_deplo.Repositories.Organisations.{activate_org_by_id}
use hashira_be_railway_deplo.Organisations.Service.{CreateOrgBody, create_org}
use hashira_be_railway_deplo.Events.Ingestion.{IngestEventInput, ingest}
use hashira_be_railway_deplo.Events.Processing.{process}
use hashira_be_railway_deplo.Anchoring.Service.{processor}

module _ ⦃p : Platform⦄ where
  -- Either callback only logs an error.
  unfoldable pub run_task : Task → App (Unit {0})
  unfolding process activate_org_by_id
  run_task (process_event event) = catch (process event >> pure tt) (λ e. pure tt)
  run_task (activate_org org_id due) = catch (activate_org_by_id org_id) (λ e. pure tt)

  -- What can happen next: an ingestion, a signup, a callback or a job in any order, or a request that
  -- neither writes events nor puts off work nor queues a job, as all others.
  pub data Step (w : World) : World → Type 0 where
    request : (input : IngestEventInput) → Step w (ingest input w).1
    signup : (body : CreateOrgBody) → Step w (create_org body w).1
    callback :
        (before after : List Task) (task : Task)
        → w.tasks ≡ before ++ (task ∷ after)
        → Step w (run_task task (record w { tasks = before ++ after })).1
    job :
        (before after : List AnchorEventJobData) (j : AnchorEventJobData)
        → w.anchor_queue ≡ before ++ (j ∷ after)
        → Step w (processor j (record w { anchor_queue = before ++ after })).1
    elsewhere :
        (w' : World)
        → w'.events ≡ w.events
        → w'.tasks ≡ w.tasks
        → w'.anchor_queue ≡ w.anchor_queue
        → w.calls ≤ w'.calls
        → Step w w'

  pub data Steps (w : World) : World → Type 0 where
    here : Steps w w
    and_then : {v w' : World} → Steps w v → Step v w' → Steps w w'
