-- ===== src/Tasks/Idle.antt =====
-- What the steps leave alone: the work put off and the queue, where they only call out or write rows.
use hashira_be_railway_deplo.Base.{
  ℕ, zero, suc, ◌+◌, ◌≤◌, ◌≡◌, refl, ◌∙◌, inl, inr, [], ◌∷◌, Text, arith, Bool,
}
use hashira_be_railway_deplo.Types.{Error, Result, EventStatus}
use hashira_be_railway_deplo.Platform.{Platform}
use hashira_be_railway_deplo.World.{World, AnchorEventJobData}
use hashira_be_railway_deplo.World.Monad.{App, catch, gets, ◌>>=◌, Result-cases}
use hashira_be_railway_deplo.Repositories.Events.{
  update_event, update_event_to_anchored, update_event_to_anchor_failed,
}
use hashira_be_railway_deplo.Crypto.Envelope.{get_key, encrypt}
use hashira_be_railway_deplo.Anchoring.Backoff.{
  sleep, delay_after, with_backoff, with_exponential_backoff, is_retryable_error,
  default_max_attempts, default_base_delay_ms, default_max_delay_ms, attempts_from,
}
use hashira_be_railway_deplo.Anchoring.Service.{
  AnchorInput, call, encode_canonical_hash, encode_event_id, submit_and_confirm, record_failure,
  anchor_event, processor,
}

abbrev pub Idle : World → World → Type 0
Idle w v = (v.tasks ≡ w.tasks) × (v.anchor_queue ≡ w.anchor_queue) × (w.calls ≤ v.calls)

Idle-trans : (u v w : World) → Idle u v → Idle v w → Idle u w
Idle-trans u v w (a, b, c) (d, e, f) = (d ∙ a, e ∙ b, omega (arith, c, f))

Idle->>= :
    {A B : Type 0} (m : App A) (f : A → App B)
    → ((w : World) → Idle w (m w).1)
    → ((a : A) (w : World) → Idle w (f a w).1)
    → (w : World) → Idle w ((m >>= f) w).1
Idle->>= m f first next w = elim (Result-cases (m w).0) [
  | inl (a, done) ↦
      rw (◌>>=◌, done) (Idle-trans w (m w).1 (f a (m w).1).1 (first w) (next a (m w).1))
  | inr (e, failed) ↦ rw (◌>>=◌, failed) (first w)
]

Idle-catch :
    {A : Type 0} (m : App A) (h : Error → App A)
    → ((w : World) → Idle w (m w).1)
    → ((e : Error) (w : World) → Idle w (h e w).1)
    → (w : World) → Idle w (catch m h w).1
Idle-catch m h first next w = elim (Result-cases (m w).0) [
  | inl (a, done) ↦ rw (catch, done) (first w)
  | inr (e, failed) ↦
      rw (catch, failed) (Idle-trans w (m w).1 (h e (m w).1).1 (first w) (next e (m w).1))
]

module _ {T : Type 0} (fn : App T) (retryable : Error → Bool) (max base top : ℕ)
    (idle_fn : (w : World) → Idle w (fn w).1) where
  attempts_from-Idle :
      (left attempt : ℕ) (w : World)
      → Idle w (attempts_from fn retryable max base top left attempt w).1
  unfolding attempts_from sleep
  attempts_from-Idle zero attempt w = (refl, refl, omega arith)
  attempts_from-Idle (suc left) attempt w = elim (Result-cases (fn w).0) [
    | inl (t, done) ↦ ground (arith, idle_fn w)
    | inr (e, failed) ↦ ground (
      arith,
      idle_fn w,
      attempts_from-Idle left (attempt + 1) (sleep (delay_after base top attempt) (fn w).1),
    )
  ]

module _ ⦃p : Platform⦄ where
  retried-Idle :
      {T : Type 0} (f : ℕ → Result T) (w : World) → Idle w (with_exponential_backoff (call f) w).1
  unfolding with_exponential_backoff with_backoff call
  retried-Idle f w =
      attempts_from-Idle (call f) is_retryable_error default_max_attempts default_base_delay_ms
        default_max_delay_ms (λ w. (refl, refl, omega arith)) default_max_attempts 0 w

  record_failure-Idle :
      (input : AnchorInput) (e : Error) (w : World) → Idle w (record_failure input e w).1
  unfolding record_failure update_event_to_anchor_failed update_event
  record_failure-Idle input e w = (refl, refl, omega arith)

  -- The last step of the `try`.
  abbrev write_row : AnchorInput → Text → ℕ → App (Unit {0})
  write_row input tx_hash block_number = do
    now ← gets (λ w. w.now)
    update_event_to_anchored input.event_id input.org_id tx_hash block_number p.chain_id now
        EventStatus.anchored

  write_row-Idle :
      (input : AnchorInput) (tx_hash : Text) (block_number : ℕ) (w : World)
      → Idle w (write_row input tx_hash block_number w).1
  unfolding update_event_to_anchored update_event
  write_row-Idle input tx_hash block_number w = (refl, refl, omega arith)

  submit_and_confirm-Idle :
      (input : AnchorInput) (w : World) → Idle w (submit_and_confirm input w).1
  unfolding submit_and_confirm
  submit_and_confirm-Idle input =
      Idle->>=
        (with_exponential_backoff (
          call λ n.
            p.write_contract n (encode_canonical_hash input.canonical_hash)
              (encode_event_id (p.uuid_text input.event_id))))
        (λ tx_hash.
          with_exponential_backoff (call λ n. p.wait_for_receipt n tx_hash p.confirmation_depth)
          >>= write_row input tx_hash)
        (retried-Idle _)
        (λ tx_hash.
          Idle->>=
            (with_exponential_backoff (call λ n. p.wait_for_receipt n tx_hash p.confirmation_depth))
            (write_row input tx_hash) (retried-Idle _) (write_row-Idle input tx_hash))

  anchor_event-Idle : (input : AnchorInput) (w : World) → Idle w (anchor_event input w).1
  unfolding anchor_event
  anchor_event-Idle input =
      Idle-catch (submit_and_confirm input) (record_failure input) (submit_and_confirm-Idle input)
        (record_failure-Idle input)

  pub processor-Idle : (j : AnchorEventJobData) (w : World) → Idle w (processor j w).1
  unfolding processor
  processor-Idle j w = anchor_event-Idle _ w

  pub encrypt-Idle : (s : Text) (w : World) → Idle w (encrypt s w).1
  unfolding encrypt get_key
  encrypt-Idle [] w = (refl, refl, omega arith)
  encrypt-Idle (c ∷ cs) w = elim (Result-cases (get_key w).0) [
    | inl (key, got) ↦ ground arith
    | inr (e, failed) ↦ ground arith
  ]
