-- ===== src/Tasks/Settled.antt =====
-- How a job of src/workers/anchoring.worker.ts leaves its event.
use hashira_be_railway_deplo.Base.{
  ℕ, ◌≡◌, refl, ap, inl, inr, true, List, Text, arith, Bool, false, is_some, ◌⊎◌, All,
}
use hashira_be_railway_deplo.Types.{EventStatus, Error, error_message}
use hashira_be_railway_deplo.Entities.{Uuid, Date, Event}
use hashira_be_railway_deplo.Platform.{Platform}
use hashira_be_railway_deplo.World.{World, Database, AnchorEventJobData}
use hashira_be_railway_deplo.Repositories.Sql.{update_where}
use hashira_be_railway_deplo.Repositories.Rows.{All-update_where_every}
use hashira_be_railway_deplo.Repositories.Events.{
  is_event_of, to_anchoring, to_anchored, to_anchor_failed,
}
use hashira_be_railway_deplo.Anchoring.Service.{processor, AnchorInput}
use hashira_be_railway_deplo.Anchoring.Service.Ends.{anchor_event-Ended, Anchored, AnchorFailed}
use hashira_be_railway_deplo.Tasks.Sound.{is_whole, KeepsHash}

-- What the three updates keep and make.
pub to_anchoring-KeepsHash :
    (hash prompt output : Text) → KeepsHash (to_anchoring hash prompt output EventStatus.anchoring)
unfolding to_anchoring
to_anchoring-KeepsHash hash prompt output = record {
  same_event = λ e. refl;
  same_org = λ e. refl;
  same_hash = λ e h. refl;
}

pub to_anchored-KeepsHash :
    (tx_hash : Text) (block_number chain_id : ℕ) (at : Date)
    → KeepsHash (to_anchored tx_hash block_number chain_id at EventStatus.anchored)
unfolding to_anchored
to_anchored-KeepsHash tx_hash block_number chain_id at = record {
  same_event = λ e. refl;
  same_org = λ e. refl;
  same_hash = λ e h. h;
}

pub to_anchored-whole :
    (tx_hash : Text) (block_number chain_id : ℕ) (at : Date) (e : Event)
    → is_some e.canonical_hash ≡ true
    → is_whole (to_anchored tx_hash block_number chain_id at EventStatus.anchored e) ≡ true
unfolding to_anchored is_whole
to_anchored-whole tx_hash block_number chain_id at e h = ground arith

pub to_anchor_failed-KeepsHash : (message : Text) → KeepsHash (to_anchor_failed message)
unfolding to_anchor_failed
to_anchor_failed-KeepsHash message = record {
  same_event = λ e. refl;
  same_org = λ e. refl;
  same_hash = λ e h. h;
}

pub to_anchor_failed-whole :
    (message : Text) (e : Event)
    → is_some e.canonical_hash ≡ true
    → is_whole (to_anchor_failed message e) ≡ true
unfolding to_anchor_failed is_whole
to_anchor_failed-whole message e h = ground arith

-- The two final states.
abbrev pub is_settled : EventStatus → Bool
is_settled EventStatus.anchored = true
is_settled EventStatus.anchor_failed = true
is_settled _ = false

settled_rows :
    (event_id org_id : Uuid) (change : Event → Event) (rows : List Event)
    → ((e : Event) → is_settled (change e).status ≡ true)
    → All
        (λ e. is_event_of event_id org_id e ≡ true → is_settled e.status ≡ true)
        (update_where (is_event_of event_id org_id) change rows)
settled_rows event_id org_id change rows settles =
    All-update_where_every (λ e. is_event_of event_id org_id e ≡ true → is_settled e.status ≡ true)
      (is_event_of event_id org_id) change rows (λ e hit is. settles e)
      (λ e miss is. absurd (ground arith))

module _ ⦃p : Platform⦄ where
  abbrev pub input_of : AnchorEventJobData → AnchorInput
  input_of j = record {
    event_id = j.event_id;
    org_id = j.org_id;
    canonical_hash = j.canonical_hash;
  }

  pub AnchorFailed-events :
      (input : AnchorInput) (e : Error) (w v : World)
      → AnchorFailed input e w v
      → v.events
        ≡ update_where
            (is_event_of input.event_id input.org_id)
            (to_anchor_failed (error_message e))
            w.events
  unfolding AnchorFailed to_anchor_failed
  AnchorFailed-events input e w v table = ap (λ (d : Database). d.events) table

  pub processor-ends :
      (j : AnchorEventJobData) (w : World)
      → (Anchored (input_of j) w (processor j w).1
          ⊎ ((e : Error) × AnchorFailed (input_of j) e w (processor j w).1))
  unfolding processor
  processor-ends j w = elim (anchor_event-Ended (input_of j) w) [
    | inl (done, a) ↦ inl a
    | inr (e, failed, table) ↦ inr (e, table)
  ]

  -- Whatever the blockchain and the network answer, a job ends, and then every row of its event and
  -- organisation is anchored or failed.
  pub processor_settles :
      (j : AnchorEventJobData) (w : World)
      → All
          (λ e. is_event_of j.event_id j.org_id e ≡ true → is_settled e.status ≡ true)
          (processor j w).1.events
  unfolding to_anchored to_anchor_failed
  processor_settles j w = elim (processor-ends j w) [
    | inl a ↦ rw (ap (λ (d : Database). d.events) a.table) (
        settled_rows j.event_id j.org_id
          (to_anchored a.tx_hash a.block_number p.chain_id (processor j w).1.now
            EventStatus.anchored)
          w.events (λ e. refl))
    | inr (e, table) ↦
        rw (AnchorFailed-events (input_of j) e w (processor j w).1 table) (
          settled_rows j.event_id j.org_id (to_anchor_failed (error_message e)) w.events
            (λ e. refl))
  ]
