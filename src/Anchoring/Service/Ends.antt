-- ===== src/Anchoring/Service/Ends.antt =====
-- How the anchoring of an event ends, and what is in its row then.
use hashira_be_railway_deplo.Base.{
  ℕ, zero, suc, ◌+◌, ◌==◌, ◌||◌, not, some, str, ◌++◌, Bool-cases, ◌≡◌, ◌∙◌, refl, ◌⊎◌, inl, inr,
  Bool, Text, arith,
}
use hashira_be_railway_deplo.Types.{EventStatus, Error, Result, ok, err, error_message}
use hashira_be_railway_deplo.Base.Strings.{pad_start, remove_all, decimal}
use hashira_be_railway_deplo.Platform.{Platform}
use hashira_be_railway_deplo.World.{World}
use hashira_be_railway_deplo.World.Monad.{
  App, gets, catch, ◌>>=◌, >>=-cases, catch-cases, Result-cases,
}
use hashira_be_railway_deplo.Repositories.Sql.{update_where}
use hashira_be_railway_deplo.Repositories.Events.{
  is_event_of, to_anchored, to_anchor_failed, update_event, update_event_to_anchored,
  update_event_to_anchor_failed,
}
use hashira_be_railway_deplo.Anchoring.Backoff.{
  sleep, delay_after, with_backoff, with_exponential_backoff, is_retryable_error,
  default_max_attempts, default_base_delay_ms, default_max_delay_ms, attempts_from,
}
use hashira_be_railway_deplo.Anchoring.Service.{
  AnchorInput, call, encode_canonical_hash, encode_event_id, submit_and_confirm, record_failure,
  anchor_event,
}

-- A call that leaves the database alone, retried, leaves it alone.
module _ {T : Type 0} (fn : App T) (retryable : Error → Bool) (max base top : ℕ)
    (pure_fn : (w : World) → (fn w).1.db ≡ w.db) where
  attempts_from-db :
      (left attempt : ℕ) (w : World)
      → (attempts_from fn retryable max base top left attempt w).1.db ≡ w.db
  unfolding attempts_from sleep
  attempts_from-db zero attempt w = refl
  attempts_from-db (suc left) attempt w = elim (Result-cases (fn w).0) [
    | inl (t, done) ↦ ground (arith, pure_fn w)
    | inr (e, failed) ↦ ground (
      arith,
      pure_fn w,
      attempts_from-db left (attempt + 1) (sleep (delay_after base top attempt) (fn w).1),
    )
  ]

module _ ⦃p : Platform⦄ {T : Type 0} (f : ℕ → Result T) (retryable : Error → Bool)
    (max base top : ℕ) where
  attempts_from-answer :
      (left attempt : ℕ) (w : World) (t : T)
      → (attempts_from (call f) retryable max base top left attempt w).0 ≡ ok t
      → (n : ℕ) × (f n ≡ ok t)
  unfolding attempts_from call
  attempts_from-answer zero attempt w t h = absurd (ground arith)
  attempts_from-answer (suc left) attempt w t h = elim (Result-cases (f w.calls)) [
    | inl (u, done) ↦ (w.calls, ground arith)
    | inr (e, failed) ↦
        let v = record w { calls = w.calls + 1 } in
        elim (Bool-cases (attempt + 1 == max || not (retryable e))) [
          | inl stop ↦ absurd (ground arith)
          | inr again ↦
              attempts_from-answer left (attempt + 1) (sleep (delay_after base top attempt) v) t
                (ground arith)
        ]
  ]

module _ ⦃p : Platform⦄ where
  retried-db :
      {T : Type 0} (f : ℕ → Result T) (w : World)
      → (with_exponential_backoff (call f) w).1.db ≡ w.db
  unfolding with_exponential_backoff with_backoff call
  retried-db f w =
      attempts_from-db (call f) is_retryable_error default_max_attempts default_base_delay_ms
        default_max_delay_ms (λ w. refl) default_max_attempts 0 w

  -- A retried call that returns has had its answer in one of its attempts.
  retried-answer :
      {T : Type 0} (f : ℕ → Result T) (w : World) (t : T)
      → (with_exponential_backoff (call f) w).0 ≡ ok t
      → (n : ℕ) × (f n ≡ ok t)
  unfolding with_exponential_backoff with_backoff
  retried-answer f w t h =
      attempts_from-answer f is_retryable_error default_max_attempts default_base_delay_ms
        default_max_delay_ms default_max_attempts 0 w t h

  -- The contract has taken the hash and the id of the event, as bytes in hexadecimal, in a
  -- transaction.
  abbrev pub Written : AnchorInput → Text → Type 0
  Written input tx_hash =
      (n : ℕ) × (p.write_contract n (str "0x" ++ input.canonical_hash)
          (str "0x" ++ pad_start 64 b'0' (remove_all b'-' (p.uuid_text input.event_id)))
        ≡ ok tx_hash)

  -- Its receipt has come from a block, at the configured depth.
  abbrev pub Mined : Text → ℕ → Type 0
  Mined tx_hash block_number =
      (n : ℕ) × (p.wait_for_receipt n tx_hash p.confirmation_depth ≡ ok block_number)

  -- The row of the event after a confirmed transaction, and nothing else in the database.
  pub record Anchored (input : AnchorInput) (w w' : World) : Type 0 where
    pub tx_hash : Text
    pub block_number : ℕ
    pub written : Written input tx_hash
    pub mined : Mined tx_hash block_number
    pub table : w'.db ≡ record w.db {
      events =
          update_where
            (is_event_of input.event_id input.org_id)
            (λ e. record e {
              tx_hash = some tx_hash;
              block_number = some (decimal block_number);
              chain_id = some p.chain_id;
              anchored_at = some w'.now;
              status = EventStatus.anchored;
            })
            w.events;
    }

  -- The row of the event after a failure, with the message of the error.
  unfoldable pub AnchorFailed : AnchorInput → Error → World → World → Type 0
  AnchorFailed input e w w' = w'.db ≡ record w.db {
    events =
        update_where (is_event_of input.event_id input.org_id)
          (λ row. record row {
            status = EventStatus.anchor_failed;
            anchor_error = some (error_message e);
          })
          w.events;
  }

  -- How the body of the `try` ends: with the row written, or before anything was.
  Submitted : AnchorInput → World → Result (Unit {0}) × World → Type 0
  Submitted input w (r, w') =
      ((r ≡ ok tt) × Anchored input w w') ⊎ ((e : Error) × (r ≡ err e) × (w'.db ≡ w.db))

  Ended : AnchorInput → World → Result (Unit {0}) × World → Type 0
  Ended input w (r, w') =
      ((r ≡ ok tt) × Anchored input w w') ⊎ ((e : Error) × (r ≡ err e) × AnchorFailed input e w w')

  module _ (submit : App Text) (wait : Text → App ℕ) (input : AnchorInput)
      (submit-db : (w : World) → (submit w).1.db ≡ w.db)
      (wait-db : (tx : Text) (w : World) → (wait tx w).1.db ≡ w.db)
      (submit-written : (tx : Text) (w : World) → (submit w).0 ≡ ok tx → Written input tx)
      (wait-mined : (tx : Text) (block_number : ℕ) (w : World)
        → (wait tx w).0 ≡ ok block_number
        → Mined tx block_number) where
    abbrev write : Text → ℕ → App (Unit {0})
    write tx_hash block_number = do
      now ← gets (λ w. w.now)
      update_event_to_anchored input.event_id input.org_id tx_hash block_number p.chain_id now
          EventStatus.anchored

    abbrev confirm : Text → App (Unit {0})
    confirm tx_hash = wait tx_hash >>= write tx_hash

    row_written :
        (tx_hash : Text) (block_number : ℕ) (w v : World)
        → v.db ≡ w.db
        → (update_event_to_anchored input.event_id input.org_id tx_hash block_number p.chain_id
            v.now EventStatus.anchored v).1.db
          ≡ record w.db {
            events =
                update_where
                  (is_event_of input.event_id input.org_id)
                  (λ e. record e {
                    tx_hash = some tx_hash;
                    block_number = some (decimal block_number);
                    chain_id = some p.chain_id;
                    anchored_at = some v.now;
                    status = EventStatus.anchored;
                  })
                  w.events;
          }
    unfolding update_event_to_anchored update_event to_anchored
    row_written tx_hash block_number w v same = rw same refl

    confirm-Submitted :
        (tx_hash : Text) (w v : World)
        → v.db ≡ w.db
        → Written input tx_hash
        → Submitted input w (confirm tx_hash v)
    unfolding update_event_to_anchored update_event Submitted
    confirm-Submitted tx_hash w v same written =
        >>=-cases (Submitted input w) (wait tx_hash) v (write tx_hash)
          (λ block_number done. inl (
            refl,
            record {
              tx_hash = tx_hash;
              block_number = block_number;
              written = written;
              mined = wait-mined tx_hash block_number v done;
              table =
                  row_written tx_hash block_number w (wait tx_hash v).1 (wait-db tx_hash v ∙ same);
            },
          ))
          (λ e failed. inr (e, refl, wait-db tx_hash v ∙ same))

    submit-Submitted : (w : World) → Submitted input w ((submit >>= confirm) w)
    unfolding Submitted
    submit-Submitted w =
        >>=-cases (Submitted input w) submit w confirm
          (λ tx_hash done.
            confirm-Submitted tx_hash w (submit w).1 (submit-db w) (submit-written tx_hash w done))
          (λ e failed. inr (e, refl, submit-db w))

  submit_and_confirm-Submitted :
      (input : AnchorInput) (w : World) → Submitted input w (submit_and_confirm input w)
  unfolding submit_and_confirm encode_canonical_hash encode_event_id
  submit_and_confirm-Submitted input w =
      submit-Submitted
        (with_exponential_backoff (
          call λ n.
            p.write_contract n (encode_canonical_hash input.canonical_hash)
              (encode_event_id (p.uuid_text input.event_id))))
        (λ tx_hash.
          with_exponential_backoff (call λ n. p.wait_for_receipt n tx_hash p.confirmation_depth))
        input (retried-db _) (λ tx_hash. retried-db _) (λ tx_hash v. retried-answer _ v tx_hash)
        (λ tx_hash block_number v. retried-answer _ v block_number) w

  catch-Ended :
      (m : App (Unit {0})) (input : AnchorInput) (w : World)
      → Submitted input w (m w)
      → Ended input w (catch m (record_failure input) w)
  unfolding Submitted Ended AnchorFailed record_failure update_event_to_anchor_failed update_event
      to_anchor_failed
  catch-Ended m input w ends =
      catch-cases (Ended input w) m w (record_failure input)
        (λ a done. elim ends [
          | inl (_, row) ↦ inl (refl, row)
          | inr (e, failed, kept) ↦ absurd (ground arith)
        ])
        (λ e failed. elim ends [
          | inl (done, row) ↦ absurd (ground arith)
          | inr (_, _, kept) ↦ inr (e, refl, rw kept refl)
        ])

  pub anchor_event-Ended :
      (input : AnchorInput) (w : World)
      → (((anchor_event input w).0 ≡ ok tt) × Anchored input w (anchor_event input w).1)
        ⊎ ((e : Error) × ((anchor_event input w).0 ≡ err e)
            × AnchorFailed input e w (anchor_event input w).1)
  unfolding anchor_event Ended
  anchor_event-Ended input w =
      catch-Ended (submit_and_confirm input) input w (submit_and_confirm-Submitted input w)
