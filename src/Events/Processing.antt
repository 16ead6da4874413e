-- ===== src/Events/Processing.antt =====
-- src/services/event/event-processing.service.ts.
pub mod Processed
use hashira_be_railway_deplo.Base.{[], ◌∷◌, ◌++◌, Text}
use hashira_be_railway_deplo.Types.{EventStatus}
use hashira_be_railway_deplo.Entities.{Uuid}
use hashira_be_railway_deplo.Platform.{Platform}
use hashira_be_railway_deplo.World.{ProcessableEvent, AnchorEventJobData}
use hashira_be_railway_deplo.World.Monad.{App, modify, pure, ◌>>=◌, ◌>>◌}
use hashira_be_railway_deplo.Canonical.{CanonicalEvent, canonicalise}
use hashira_be_railway_deplo.Crypto.Envelope.{encrypt}
use hashira_be_railway_deplo.Repositories.Events.{update_event_to_anchoring}

pub record ProcessedEvent : Type 0 where
  pub event_id : Uuid
  pub org_id : Uuid
  pub canonical_hash : Text
  pub status : EventStatus

-- `this.anchorQueue.add('anchor-event', …)`
unfoldable pub enqueue : AnchorEventJobData → App (Unit {0})
enqueue job = modify λ w. record w { anchor_queue = w.anchor_queue ++ job ∷ [] }

module _ ⦃p : Platform⦄ where
  -- The timestamp was put into text by `toISOString` when the event was dispatched.
  unfoldable pub canonical_event : ProcessableEvent → CanonicalEvent
  canonical_event event = record {
    prompt = event.prompt;
    output = event.output;
    model_id = event.model_id;
    timestamp = p.iso_string event.timestamp;
    workflow_id = event.workflow_id;
    metadata = event.metadata;
  }

  -- What is anchored: the SHA-256 of the canonical text.
  unfoldable pub hash_event : ProcessableEvent → Text
  unfolding canonical_event canonicalise
  hash_event event = p.sha256 (canonicalise (canonical_event event))

  unfoldable pub process : ProcessableEvent → App ProcessedEvent
  unfolding hash_event encrypt update_event_to_anchoring enqueue
  process event = do
    let canonical_hash = hash_event event
    encrypted_prompt ← encrypt event.prompt
    encrypted_output ← encrypt event.output
    update_event_to_anchoring event.event_id event.org_id canonical_hash encrypted_prompt
        encrypted_output EventStatus.anchoring
    enqueue (record {
      event_id = event.event_id;
      org_id = event.org_id;
      canonical_hash = canonical_hash;
    })
    pure (record {
      event_id = event.event_id;
      org_id = event.org_id;
      canonical_hash = canonical_hash;
      status = EventStatus.anchoring;
    })
