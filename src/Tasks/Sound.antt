-- ===== src/Tasks/Sound.antt =====
-- What the rows of events have at each stage of src/entities/event.entity.ts, and how updates keep it.
use hashira_be_railway_deplo.Base.{
  ◌≡◌, refl, sym, ◌∙◌, Bool, true, not, ◌&&◌, List, [], ◌∷◌, ◌++◌, Text, arith, is_some, All,
  All-impl, All-both,
}
use hashira_be_railway_deplo.Types.{EventStatus}
use hashira_be_railway_deplo.Entities.{Uuid, Event}
use hashira_be_railway_deplo.World.{AnchorEventJobData}
use hashira_be_railway_deplo.Repositories.Sql.{update_where}
use hashira_be_railway_deplo.Repositories.Rows.{
  All-update_where, All-update_where_rows, All-update_where_every,
}
use hashira_be_railway_deplo.Repositories.Events.{is_event_of, to_anchoring}

-- What a row with a status must have.
whole_at : EventStatus → Event → Bool
whole_at EventStatus.processing e = not (is_some e.canonical_hash) && not (is_some e.tx_hash)
whole_at EventStatus.anchoring e = is_some e.canonical_hash
whole_at EventStatus.anchored e =
    is_some e.canonical_hash
    && is_some e.tx_hash
    && is_some e.block_number
    && is_some e.chain_id
    && is_some e.anchored_at
whole_at EventStatus.anchor_failed e = is_some e.canonical_hash && is_some e.anchor_error

unfoldable pub is_whole : Event → Bool
unfolding whole_at
is_whole e = whole_at e.status e

-- The rows that a job is about have a hash.
abbrev pub JobHashed : List Event → AnchorEventJobData → Type 0
JobHashed rows j =
    All (λ e. is_event_of j.event_id j.org_id e ≡ true → is_some e.canonical_hash ≡ true) rows

pub All-cut :
    {E : Type 0} (P : E → Type 0) (before after : List E) (e : E)
    → All P (before ++ (e ∷ after))
    → P e × All P (before ++ after)
All-cut P [] after e h = h
All-cut P (x ∷ before) after e h =
    let (here, rest) = All-cut P before after e h.1 in (here, (h.0, rest))

-- A change that keeps the keys of a row, and its hash if it has one.
pub record KeepsHash (change : Event → Event) : Type 0 where
  pub same_event : (e : Event) → (change e).event_id ≡ e.event_id
  pub same_org : (e : Event) → (change e).org_id ≡ e.org_id
  pub same_hash :
      (e : Event) → is_some e.canonical_hash ≡ true → is_some (change e).canonical_hash ≡ true

module _ (change : Event → Event) (keeps : KeepsHash change) (fits : Event → Bool) where
  is_event_of-change :
      (event_id org_id : Uuid) (e : Event)
      → is_event_of event_id org_id (change e) ≡ is_event_of event_id org_id e
  unfolding is_event_of
  is_event_of-change event_id org_id e = rw (keeps.same_event e, keeps.same_org e) refl

  -- Every job is still about rows with a hash.
  pub JobHashed-update_where :
      (rows : List Event) (queue : List AnchorEventJobData)
      → All (JobHashed rows) queue
      → All (JobHashed (update_where fits change rows)) queue
  JobHashed-update_where rows queue =
      All-impl (JobHashed rows) (JobHashed (update_where fits change rows)) queue (λ j hashed.
        All-update_where
          (λ e. is_event_of j.event_id j.org_id e ≡ true → is_some e.canonical_hash ≡ true) fits
          change rows
          (λ e has _ is.
            keeps.same_hash e (has (sym (is_event_of-change j.event_id j.org_id e) ∙ is)))
          hashed)

-- Rows stay whole where those that are changed have a hash.
pub is_whole-update_where :
    (change : Event → Event) (j : AnchorEventJobData) (rows : List Event)
    → ((e : Event) → is_some e.canonical_hash ≡ true → is_whole (change e) ≡ true)
    → JobHashed rows j
    → All (λ e. is_whole e ≡ true) rows
    → All (λ e. is_whole e ≡ true) (update_where (is_event_of j.event_id j.org_id) change rows)
is_whole-update_where change j rows makes hashed whole =
    All-update_where_rows
      (λ e.
        (is_event_of j.event_id j.org_id e ≡ true → is_some e.canonical_hash ≡ true)
        × (is_whole e ≡ true))
      (λ e. is_whole e ≡ true) (is_event_of j.event_id j.org_id) change rows
      (λ e h hit. makes e (h.0 hit)) (λ e h miss. h.1)
      (All-both (λ e. is_event_of j.event_id j.org_id e ≡ true → is_some e.canonical_hash ≡ true)
        (λ e. is_whole e ≡ true) rows hashed whole)

-- Processing gives the rows of the event a hash.
module _ (event_id org_id : Uuid) (hash prompt output : Text) (rows : List Event) where
  abbrev pub processed_rows : List Event
  processed_rows =
      update_where (is_event_of event_id org_id)
        (to_anchoring hash prompt output EventStatus.anchoring) rows

  pub processed_rows-whole :
      All (λ e. is_whole e ≡ true) rows → All (λ e. is_whole e ≡ true) processed_rows
  unfolding is_whole to_anchoring
  processed_rows-whole =
      All-update_where (λ e. is_whole e ≡ true) (is_event_of event_id org_id)
        (to_anchoring hash prompt output EventStatus.anchoring) rows (λ e h hit. refl)

  pub processed_rows-JobHashed :
      JobHashed processed_rows
        (record { event_id = event_id; org_id = org_id; canonical_hash = hash })
  unfolding to_anchoring is_event_of
  processed_rows-JobHashed =
      All-update_where_every
        (λ e. is_event_of event_id org_id e ≡ true → is_some e.canonical_hash ≡ true)
        (is_event_of event_id org_id) (to_anchoring hash prompt output EventStatus.anchoring) rows
        (λ e hit is. refl) (λ e miss is. absurd (ground arith))
