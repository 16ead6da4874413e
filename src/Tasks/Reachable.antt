-- ===== src/Tasks/Reachable.antt =====
-- What holds of the events in every state that ingestions, signups, callbacks and jobs lead to.
use hashira_be_railway_deplo.Base.{
  ℕ, ◌<◌, ◌≤◌, ◌≡◌, refl, sym, ap, ◌∙◌, inl, inr, true, List, [], ◌∷◌, ◌++◌, arith, is_some, ==_iff,
  All, All-impl, All-append, All-both,
}
use hashira_be_railway_deplo.Types.{EventStatus, error_message}
use hashira_be_railway_deplo.Entities.{Uuid, Date, Event}
use hashira_be_railway_deplo.Platform.{Platform}
use hashira_be_railway_deplo.World.{
  World, Database, Task, process_event, activate_org, AnchorEventJobData, ProcessableEvent,
}
use hashira_be_railway_deplo.Repositories.Sql.{update_where}
use hashira_be_railway_deplo.Repositories.Organisations.{activate_org_by_id}
use hashira_be_railway_deplo.Repositories.Events.{
  is_event_of, to_anchoring, to_anchored, to_anchor_failed,
}
use hashira_be_railway_deplo.Events.Processing.{hash_event}
use hashira_be_railway_deplo.Events.Ingestion.{IngestEventInput, ingest}
use hashira_be_railway_deplo.Anchoring.Service.{processor}
use hashira_be_railway_deplo.Tasks.{Step, Steps, run_task}
use hashira_be_railway_deplo.Tasks.Idle.{Idle, processor-Idle}
use hashira_be_railway_deplo.Tasks.Ingested.{Added, ingest-Ingested}
use hashira_be_railway_deplo.Organisations.Service.{create_org}
use hashira_be_railway_deplo.Tasks.Signups.{PutsOff, create_org-PutsOff}
use hashira_be_railway_deplo.Tasks.Processed.{Queued, run_task-ends}
use hashira_be_railway_deplo.Tasks.Settled.{
  to_anchoring-KeepsHash, to_anchored-KeepsHash, to_anchored-whole, to_anchor_failed-KeepsHash,
  to_anchor_failed-whole, input_of, AnchorFailed-events, processor-ends,
}
use hashira_be_railway_deplo.Tasks.Sound.{
  is_whole, JobHashed, KeepsHash, All-cut, JobHashed-update_where, is_whole-update_where,
  processed_rows, processed_rows-whole, processed_rows-JobHashed,
}

module _ ⦃p : Platform⦄ where
  activation-events :
      (org_id : Uuid) (due : Date) (w : World)
      → (run_task (activate_org org_id due) w).1.events ≡ w.events
  unfolding run_task activate_org_by_id
  activation-events org_id due w = refl

  activation-Idle :
      (org_id : Uuid) (due : Date) (w : World) → Idle w (run_task (activate_org org_id due) w).1
  unfolding run_task activate_org_by_id
  activation-Idle org_id due w = (refl, refl, omega arith)

  -- gen_random_uuid() gives no id twice.
  abbrev pub UniqueIds : Type 0
  UniqueIds = (m n : ℕ) → p.uuid m ≡ p.uuid n → m ≡ n

  -- An id that the database has generated among its first `n` calls.
  abbrev pub Issued : ℕ → Uuid → Type 0
  Issued n id = (k : ℕ) × (k < n) × (id ≡ p.uuid k)

  abbrev pub IsIssued : ℕ → Task → Type 0
  IsIssued n (process_event event) = Issued n event.event_id
  IsIssued n (activate_org org_id due) = Unit

  abbrev pub JobIssued : ℕ → AnchorEventJobData → Type 0
  JobIssued n j = Issued n j.event_id

  -- Every row has what its status asks for, every queued job is about rows with a hash, and ids are
  -- those that were generated.
  pub record SoundAt (n : ℕ) (rows : List Event) (queue : List AnchorEventJobData)
      (tasks : List Task) : Type 0 where
    pub whole : All (λ e. is_whole e ≡ true) rows
    pub hashed : All (JobHashed rows) queue
    pub jobs : All (JobIssued n) queue
    pub callbacks : All (IsIssued n) tasks

  abbrev pub Sound : World → Type 0
  Sound w = SoundAt w.calls w.events w.anchor_queue w.tasks

  Issued-mono : (m n : ℕ) (id : Uuid) → m ≤ n → Issued m id → Issued n id
  Issued-mono m n id le (k, below, same) = (k, omega (arith, le, below), same)

  IsIssued-mono : (m n : ℕ) (t : Task) → m ≤ n → IsIssued m t → IsIssued n t
  IsIssued-mono m n (process_event event) le h = Issued-mono m n event.event_id le h
  IsIssued-mono m n (activate_org org_id due) le h = tt

  SoundAt-mono :
      (m n : ℕ) (rows : List Event) (queue : List AnchorEventJobData) (tasks : List Task)
      → m ≤ n
      → SoundAt m rows queue tasks
      → SoundAt n rows queue tasks
  SoundAt-mono m n rows queue tasks le s = record {
    whole = s.whole;
    hashed = s.hashed;
    jobs =
        All-impl (JobIssued m) (JobIssued n) queue (λ j h. Issued-mono m n j.event_id le h) s.jobs;
    callbacks =
        All-impl (IsIssued m) (IsIssued n) tasks (λ t h. IsIssued-mono m n t le h) s.callbacks;
  }

  -- Where only calls were made.
  Sound-Idle : (w v : World) → v.events ≡ w.events → Idle w v → Sound w → Sound v
  Sound-Idle w v same (tasks, queue, le) s =
      rw (same, tasks, queue) (SoundAt-mono w.calls v.calls w.events w.anchor_queue w.tasks le s)

  -- Taking out a callback or a job.
  SoundAt-cut_task :
      (n : ℕ) (rows : List Event) (queue : List AnchorEventJobData) (before after : List Task)
      (t : Task)
      → SoundAt n rows queue (before ++ (t ∷ after))
      → IsIssued n t × SoundAt n rows queue (before ++ after)
  SoundAt-cut_task n rows queue before after t s =
      let (here, rest) = All-cut (IsIssued n) before after t s.callbacks in
      (here, record { whole = s.whole; hashed = s.hashed; jobs = s.jobs; callbacks = rest })

  SoundAt-cut_job :
      (n : ℕ) (rows : List Event) (before after : List AnchorEventJobData) (j : AnchorEventJobData)
      (tasks : List Task)
      → SoundAt n rows (before ++ (j ∷ after)) tasks
      → JobHashed rows j × SoundAt n rows (before ++ after) tasks
  SoundAt-cut_job n rows before after j tasks s =
      let (here, rest) = All-cut (JobHashed rows) before after j s.hashed in
      (
        here,
        record {
          whole = s.whole;
          hashed = rest;
          jobs = (All-cut (JobIssued n) before after j s.jobs).1;
          callbacks = s.callbacks;
        },
      )

  -- The end of a job.
  SoundAt-settled :
      (change : Event → Event) (j : AnchorEventJobData) (n : ℕ) (rows : List Event)
      (queue : List AnchorEventJobData) (tasks : List Task)
      → KeepsHash change
      → ((e : Event) → is_some e.canonical_hash ≡ true → is_whole (change e) ≡ true)
      → JobHashed rows j
      → SoundAt n rows queue tasks
      → SoundAt n (update_where (is_event_of j.event_id j.org_id) change rows) queue tasks
  SoundAt-settled change j n rows queue tasks keeps makes hashed s = record {
    whole = is_whole-update_where change j rows makes hashed s.whole;
    hashed =
        JobHashed-update_where change keeps (is_event_of j.event_id j.org_id) rows queue s.hashed;
    jobs = s.jobs;
    callbacks = s.callbacks;
  }

  -- A new row is about no queued job, since its id is new.
  JobHashed-new :
      (n : ℕ) (rows : List Event) (e : Event) (j : AnchorEventJobData)
      → UniqueIds
      → e.event_id ≡ p.uuid n
      → JobHashed rows j × JobIssued n j
      → JobHashed (rows ++ e ∷ []) j
  unfolding is_event_of
  JobHashed-new n rows e j unique id (hashed, (k, below, same)) =
      All-append (λ o. is_event_of j.event_id j.org_id o ≡ true → is_some o.canonical_hash ≡ true)
        rows (e ∷ []) hashed
        (
          (λ is.
              let equal : e.event_id ≡ j.event_id =
                (==_iff e.event_id j.event_id).0 (ground arith) in
              let again = unique n k (sym id ∙ equal ∙ same) in
              absurd (omega (arith, again, below))),
          tt,
        )

  Sound-Added : (w v : World) → UniqueIds → Added w v → Sound w → Sound v
  Sound-Added w v unique a s =
      let rows = w.events ++ a.event ∷ [] in
      let more =
        SoundAt-mono w.calls v.calls w.events w.anchor_queue w.tasks (omega (arith, a.calls)) s in
      let base : SoundAt v.calls v.events v.anchor_queue w.tasks =
        rw (a.table, a.queue)
          (record {
            whole =
                All-append (λ e. is_whole e ≡ true) w.events (a.event ∷ []) s.whole (a.whole, tt);
            hashed =
                All-impl (λ j. JobHashed w.events j × JobIssued w.calls j) (JobHashed rows)
                  w.anchor_queue
                  (λ j h. JobHashed-new w.calls w.events a.event j unique a.event_id h)
                  (All-both (JobHashed w.events) (JobIssued w.calls) w.anchor_queue s.hashed
                    s.jobs);
            jobs = more.jobs;
            callbacks = more.callbacks;
          }) in
      elim a.tasks [
        | inl same ↦ rw same base
        | inr (task, id, put) ↦ rw put (record {
          whole = base.whole;
          hashed = base.hashed;
          jobs = base.jobs;
          callbacks =
              All-append (IsIssued v.calls) w.tasks (process_event task ∷ []) more.callbacks
                ((w.calls, omega (arith, a.calls), id), tt);
        })
      ]

  Sound-PutsOff : (w v : World) → PutsOff w v → Sound w → Sound v
  Sound-PutsOff w v o s =
      let more = SoundAt-mono w.calls v.calls w.events w.anchor_queue w.tasks o.calls s in
      let base : SoundAt v.calls v.events v.anchor_queue w.tasks = rw (o.events, o.queue) more in
      elim o.tasks [
        | inl same ↦ rw same base
        | inr (org_id, due, put) ↦ rw put (record {
          whole = base.whole;
          hashed = base.hashed;
          jobs = base.jobs;
          callbacks =
              All-append (IsIssued v.calls) w.tasks (activate_org org_id due ∷ []) base.callbacks
                (tt, tt);
        })
      ]

  Sound-Queued :
      (event : ProcessableEvent) (w v : World)
      → Issued w.calls event.event_id
      → Queued event w v
      → Sound w
      → Sound v
  Sound-Queued event w v issued q s =
      let hash = hash_event event in
      let rows = processed_rows event.event_id event.org_id hash q.prompt q.output w.events in
      let change = to_anchoring hash q.prompt q.output EventStatus.anchoring in
      let more = SoundAt-mono w.calls v.calls w.events w.anchor_queue w.tasks q.calls s in
      let new : AnchorEventJobData = record {
        event_id = event.event_id;
        org_id = event.org_id;
        canonical_hash = hash;
      } in
      rw (q.table, q.queue, q.tasks)
        (record {
          whole =
              processed_rows-whole event.event_id event.org_id hash q.prompt q.output w.events
                s.whole;
          hashed =
              All-append (JobHashed rows) w.anchor_queue (new ∷ [])
                (JobHashed-update_where change (to_anchoring-KeepsHash hash q.prompt q.output)
                  (is_event_of event.event_id event.org_id) w.events w.anchor_queue s.hashed)
                (
                  processed_rows-JobHashed event.event_id event.org_id hash q.prompt q.output
                      w.events,
                  tt,
                );
          jobs =
              All-append (JobIssued v.calls) w.anchor_queue (new ∷ []) more.jobs
                (Issued-mono w.calls v.calls event.event_id q.calls issued, tt);
          callbacks = more.callbacks;
        })

  Sound-settled :
      (change : Event → Event) (j : AnchorEventJobData) (w v : World)
      → KeepsHash change
      → ((e : Event) → is_some e.canonical_hash ≡ true → is_whole (change e) ≡ true)
      → JobHashed w.events j
      → v.events ≡ update_where (is_event_of j.event_id j.org_id) change w.events
      → Idle w v
      → Sound w
      → Sound v
  Sound-settled change j w v keeps makes hashed table (tasks, queue, le) s =
      rw (table, tasks, queue)
        (SoundAt-settled change j v.calls w.events w.anchor_queue w.tasks keeps makes hashed
          (SoundAt-mono w.calls v.calls w.events w.anchor_queue w.tasks le s))

  Sound-callback : (t : Task) (w : World) → IsIssued w.calls t → Sound w → Sound (run_task t w).1
  Sound-callback (activate_org org_id due) w issued s =
      Sound-Idle w (run_task (activate_org org_id due) w).1 (activation-events org_id due w)
        (activation-Idle org_id due w) s
  Sound-callback (process_event event) w issued s = elim (run_task-ends event w) [
    | inl (same, idle) ↦ Sound-Idle w (run_task (process_event event) w).1 same idle s
    | inr q ↦ Sound-Queued event w (run_task (process_event event) w).1 issued q s
  ]

  Sound-request :
      (input : IngestEventInput) (w : World) → UniqueIds → Sound w → Sound (ingest input w).1
  Sound-request input w unique s = elim (ingest-Ingested input w) [
    | inl (same, idle) ↦ Sound-Idle w (ingest input w).1 same idle s
    | inr a ↦ Sound-Added w (ingest input w).1 unique a s
  ]

  Sound-job :
      (j : AnchorEventJobData) (w : World)
      → JobHashed w.events j
      → Sound w
      → Sound (processor j w).1
  unfolding to_anchored
  Sound-job j w hashed s = elim (processor-ends j w) [
    | inl a ↦
        Sound-settled
          (to_anchored a.tx_hash a.block_number p.chain_id (processor j w).1.now
            EventStatus.anchored)
          j w (processor j w).1 (to_anchored-KeepsHash _ _ _ _)
          (to_anchored-whole a.tx_hash a.block_number p.chain_id (processor j w).1.now) hashed
          (ap (λ (d : Database). d.events) a.table) (processor-Idle j w) s
    | inr (e, table) ↦
        Sound-settled (to_anchor_failed (error_message e)) j w (processor j w).1
          (to_anchor_failed-KeepsHash (error_message e)) (to_anchor_failed-whole (error_message e))
          hashed (AnchorFailed-events (input_of j) e w (processor j w).1 table) (processor-Idle j w)
          s
  ]

  Step-Sound : (w v : World) → UniqueIds → Step w v → Sound w → Sound v
  Step-Sound w v unique (Step.request input) s = Sound-request input w unique s
  Step-Sound w v unique (Step.signup body) s =
      Sound-PutsOff w (create_org body w).1 (create_org-PutsOff body w) s
  Step-Sound w v unique (Step.callback before after t taken) s =
      let (issued, rest) =
        SoundAt-cut_task w.calls w.events w.anchor_queue before after t (rw taken at s) in
      Sound-callback t (record w { tasks = before ++ after }) issued rest
  Step-Sound w v unique (Step.job before after j taken) s =
      let (hashed, rest) =
        SoundAt-cut_job w.calls w.events before after j w.tasks (rw taken at s) in
      Sound-job j (record w { anchor_queue = before ++ after }) hashed rest
  Step-Sound w v unique (Step.elsewhere _ events tasks queue le) s =
      Sound-Idle w v events (tasks, queue, le) s

  -- From a state with no event, job or callback, and with ids that the database never repeats, every
  -- state that ingestions, signups, callbacks, jobs and requests that touch none of these three lead
  -- to in any order is sound: a row
  -- that is being processed has no hash or transaction, one that is being anchored has a hash, an
  -- anchored one has a hash, a transaction, a block, a chain and a time, and a failed one has a hash
  -- and the error; and every queued job is about rows that have a hash.
  pub Steps-Sound :
      (w v : World)
      → UniqueIds
      → w.events ≡ []
      → w.anchor_queue ≡ []
      → w.tasks ≡ []
      → Steps w v
      → Sound v
  Steps-Sound w v unique no_events no_jobs no_tasks Steps.here =
      rw (no_events, no_jobs, no_tasks)
        (record { whole = tt; hashed = tt; jobs = tt; callbacks = tt })
  Steps-Sound w v unique no_events no_jobs no_tasks (Steps.and_then {v = u} steps step) =
      Step-Sound u v unique step (Steps-Sound w u unique no_events no_jobs no_tasks steps)
