-- ===== src/World.antt =====
-- The state of the server: its database, the maps that live in the process, the work that it has
-- put off, the mail that it has sent, and the clock. A request handler is an action on it.
pub mod Monad
use hashira_be_railway_deplo.Base.{ℕ, Bool, Option, List, Text}
use hashira_be_railway_deplo.Types.{Error}
use hashira_be_railway_deplo.Entities.{
  Uuid, Date, Organisation, User, Invitation, OtpToken, RefreshToken, PasswordResetToken, ApiKey,
  Event,
}
use hashira_be_railway_deplo.Canonical.Values.{Fields}

pub record Database : Type 0 where
  pub organisations : List Organisation
  pub users : List User
  pub invitations : List Invitation
  pub otp_tokens : List OtpToken
  pub refresh_tokens : List RefreshToken
  pub password_reset_tokens : List PasswordResetToken
  pub api_keys : List ApiKey
  pub events : List Event

-- A message handed to Amazon SES: its kind, the address and the code in it.
pub data Mail : Type 0 where
  login_code reset_code : Text → Text → Mail

-- FailedAttemptRecord, in src/services/auth/auth.service.ts and password-reset.service.ts
pub record FailedAttemptRecord : Type 0 where
  pub count : ℕ
  pub window_start : Date

-- `Map<string, FailedAttemptRecord>`
abbrev pub Attempts : Type 0
Attempts = List (Text × FailedAttemptRecord)

-- ProcessableEvent of src/services/event/event-processing.service.ts; the date is still a date.
pub record ProcessableEvent : Type 0 where
  pub event_id : Uuid
  pub org_id : Uuid
  pub prompt : Text
  pub output : Text
  pub model_id : Text
  pub timestamp : Date
  pub workflow_id : Option Text
  pub metadata : Option Fields

-- AnchorEventJobData of src/queues/anchor.queue.ts
pub record AnchorEventJobData : Type 0 where
  pub event_id : Uuid
  pub org_id : Uuid
  pub canonical_hash : Text

-- A callback given to setImmediate or, with the time at which it is due, to setTimeout.
pub data Task : Type 0 where
  process_event : ProcessableEvent → Task
  activate_org : Uuid → Date → Task

pub record World : Type 0 where
  pub db : Database
  pub open db use *
  pub now : Date
  -- calls so far whose results come from outside
  pub calls : ℕ
  pub email_failed_attempts : Attempts
  pub confirm_failed_attempts : Attempts
  pub outbox : List Mail
  pub tasks : List Task
  pub anchor_queue : List AnchorEventJobData
  -- whether setEventProcessingService has installed a service
  pub processing_service : Bool
