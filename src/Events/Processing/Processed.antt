-- ===== src/Events/Processing/Processed.antt =====
-- What the processing of an event leaves in its row and in the queue.
use hashira_be_railway_deplo.Base.{◌≡◌, refl, some, inl, inr, [], ◌∷◌, ◌++◌, Text, arith}
use hashira_be_railway_deplo.Types.{EventStatus, ok}
use hashira_be_railway_deplo.Platform.{Platform}
use hashira_be_railway_deplo.World.{World, ProcessableEvent}
use hashira_be_railway_deplo.World.Monad.{Result-cases}
use hashira_be_railway_deplo.Repositories.Sql.{update_where}
use hashira_be_railway_deplo.Repositories.Events.{
  is_event_of, to_anchoring, update_event, update_event_to_anchoring,
}
use hashira_be_railway_deplo.Crypto.Envelope.{get_key, encrypt}
use hashira_be_railway_deplo.Events.Processing.{ProcessedEvent, hash_event, enqueue, process}

module _ ⦃p : Platform⦄ where
  pub encrypt-same :
      (s : Text) (w : World)
      → ((encrypt s w).1.db ≡ w.db) × ((encrypt s w).1.anchor_queue ≡ w.anchor_queue)
  unfolding encrypt get_key
  encrypt-same [] w = (refl, refl)
  encrypt-same (c ∷ cs) w = elim (Result-cases (get_key w).0) [
    | inl (key, got) ↦ (ground arith, ground arith)
    | inr (e, failed) ↦ (ground arith, ground arith)
  ]

  -- The row and the job of an event that has been processed.
  pub record Processed (event : ProcessableEvent) (r : ProcessedEvent) (w w' : World) : Type 0 where
    pub prompt : Text
    pub output : Text
    pub between : World
    pub prompt_sealed : (encrypt event.prompt w).0 ≡ ok prompt
    pub output_sealed : (encrypt event.output between).0 ≡ ok output
    pub table : w'.db ≡ record w.db {
      events =
          update_where
            (is_event_of event.event_id event.org_id)
            (λ e. record e {
              canonical_hash = some (hash_event event);
              prompt = prompt;
              output = output;
              status = EventStatus.anchoring;
            })
            w.events;
    }
    pub queue :
        w'.anchor_queue
        ≡ w.anchor_queue
          ++ record {
            event_id = event.event_id;
            org_id = event.org_id;
            canonical_hash = hash_event event;
          }
            ∷ []
    pub answer : r.canonical_hash ≡ hash_event event

  -- A processing that returns has put the hash of the event, its encrypted prompt and output (in place
  -- of what stood there) and the status `anchoring` into the rows with its id and organisation and
  -- changed nothing else in the database; it has queued one job, with that same hash.
  pub process-Processed :
      (event : ProcessableEvent) (r : ProcessedEvent) (w w' : World)
      → process event w ≡ (ok r, w')
      → Processed event r w w'
  unfolding process enqueue update_event_to_anchoring update_event to_anchoring
  process-Processed event r w w' h = elim (Result-cases (encrypt event.prompt w).0) [
    | inr (e, failed) ↦ absurd (ground arith)
    | inl (prompt, prompt_sealed) ↦
        let v = (encrypt event.prompt w).1 in
        elim (Result-cases (encrypt event.output v).0) [
          | inr (e, failed) ↦ absurd (ground arith)
          | inl (output, output_sealed) ↦
              let (db1, queue1) = encrypt-same event.prompt w in
              let (db2, queue2) = encrypt-same event.output v in
              record {
                prompt = prompt;
                output = output;
                between = v;
                prompt_sealed = prompt_sealed;
                output_sealed = output_sealed;
                table = ground arith;
                queue = ground arith;
                answer = ground arith;
              }
        ]
  ]
