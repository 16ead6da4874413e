-- ===== src/Anchoring/Service.antt =====
-- src/services/BlockchainAnchoringService.ts and the processor of src/workers/anchoring.worker.ts.
pub mod Ends
use hashira_be_railway_deplo.Base.{ℕ, ◌+◌, List, [], ◌∷◌, ◌++◌, Text, str}
use hashira_be_railway_deplo.Base.Strings.{pad_start, remove_all}
use hashira_be_railway_deplo.Types.{EventStatus, Error, Result, ok, err, error_message}
use hashira_be_railway_deplo.Entities.{Uuid}
use hashira_be_railway_deplo.Platform.{Platform}
use hashira_be_railway_deplo.World.{World, AnchorEventJobData}
use hashira_be_railway_deplo.World.Monad.{App, gets, throw, catch, pure, ◌>>=◌, ◌>>◌}
use hashira_be_railway_deplo.Repositories.Events.{
  update_event_to_anchored, update_event_to_anchor_failed,
}
use hashira_be_railway_deplo.Anchoring.Backoff.{with_exponential_backoff}

pub record AnchorInput : Type 0 where
  pub event_id : Uuid
  pub org_id : Uuid
  pub canonical_hash : Text

unfoldable pub encode_canonical_hash : Text → Text
encode_canonical_hash hash = str "0x" ++ hash

-- Of the text of the uuid.
unfoldable pub encode_event_id : Text → Text
unfolding pad_start remove_all
encode_event_id event_id = str "0x" ++ pad_start 64 b'0' (remove_all b'-' event_id)

module _ ⦃p : Platform⦄ where
  -- One call of the wallet client or of the public client, which may throw.
  unfoldable pub call : {T : Type 0} → (ℕ → Result T) → App T
  call f w = (f w.calls, record w { calls = w.calls + 1 })

  -- The body of the `try`.
  unfoldable pub submit_and_confirm : AnchorInput → App (Unit {0})
  unfolding call with_exponential_backoff encode_canonical_hash encode_event_id
      update_event_to_anchored
  submit_and_confirm input = do
    tx_hash ← with_exponential_backoff (
        call λ n.
          p.write_contract n (encode_canonical_hash input.canonical_hash)
            (encode_event_id (p.uuid_text input.event_id)))
    block_number ←
        with_exponential_backoff (call λ n. p.wait_for_receipt n tx_hash p.confirmation_depth)
    now ← gets (λ w. w.now)
    update_event_to_anchored input.event_id input.org_id tx_hash block_number p.chain_id now
        EventStatus.anchored

  unfoldable pub record_failure : AnchorInput → Error → App (Unit {0})
  unfolding update_event_to_anchor_failed error_message
  record_failure input error = do
    update_event_to_anchor_failed input.event_id input.org_id (error_message error)
    throw error

  unfoldable pub anchor_event : AnchorInput → App (Unit {0})
  unfolding submit_and_confirm record_failure
  anchor_event input = catch (submit_and_confirm input) (record_failure input)

  -- createProcessor
  unfoldable pub processor : AnchorEventJobData → App (Unit {0})
  unfolding anchor_event
  processor job =
      anchor_event (record {
        event_id = job.event_id;
        org_id = job.org_id;
        canonical_hash = job.canonical_hash;
      })
