-- ===== src/Entities.antt =====
-- src/entities: one record for each table. A uuid is a number, since it is only compared; a date is
-- its milliseconds. The audit log has an entity and no code that uses it.
use hashira_be_railway_deplo.Base.{ℕ, Bool, Option, List, Text}
use hashira_be_railway_deplo.Types.{
  OrgStatus, SubscriptionStatus, UserRole, UserStatus, EventStatus, ApiKeyStatus, InvitationStatus,
  ApiKeyPermission,
}
use hashira_be_railway_deplo.Canonical.Values.{Fields}

abbrev pub Uuid : Type 0
Uuid = ℕ

abbrev pub Date : Type 0
Date = ℕ

pub record Organisation : Type 0 where
  pub org_id : Uuid
  pub name : Text
  pub status : OrgStatus
  pub user_limit : ℕ
  pub stripe_customer_id : Option Text
  pub stripe_subscription_id : Option Text
  pub subscription_status : SubscriptionStatus
  pub created_at : Date
  pub updated_at : Date

pub record User : Type 0 where
  pub user_id : Uuid
  pub org_id : Option Uuid
  pub email : Text
  pub password_hash : Option Text
  pub google_sub : Option Text
  pub role : UserRole
  pub status : UserStatus
  pub mfa_enabled : Bool
  pub totp_secret : Option Text
  pub totp_secret_pending : Option Text
  pub invited_by : Option Uuid
  pub created_at : Date

pub record Invitation : Type 0 where
  pub invitation_id : Uuid
  pub org_id : Uuid
  pub invited_by : Uuid
  pub role : UserRole
  pub status : InvitationStatus
  pub token_hash : Text
  pub expires_at : Date
  pub created_at : Date

pub record OtpToken : Type 0 where
  pub id : Uuid
  pub email_hash : Text
  pub otp_hash : Text
  pub expires_at : Date
  pub used : Bool
  pub attempts : ℕ
  pub created_at : Date

pub record RefreshToken : Type 0 where
  pub id : Uuid
  pub token_hash : Text
  pub user_id : Uuid
  pub expires_at : Date
  pub used : Bool
  pub created_at : Date

pub record PasswordResetToken : Type 0 where
  pub token_id : Uuid
  pub user_id : Uuid
  pub token_hash : Text
  pub used : Bool
  pub expires_at : Date
  pub created_at : Date

pub record ApiKey : Type 0 where
  pub key_id : Uuid
  pub org_id : Uuid
  pub user_id : Option Uuid
  pub key_hash : Text
  pub key_prefix : Text
  pub name : Option Text
  pub status : ApiKeyStatus
  pub permissions : List ApiKeyPermission
  pub created_at : Date
  pub last_used_at : Option Date

pub record Event : Type 0 where
  pub event_id : Uuid
  pub org_id : Uuid
  pub user_id : Option Uuid
  pub api_key_id : Option Uuid
  pub idempotency_key : Option Text
  pub prompt : Text
  pub output : Text
  pub model_id : Text
  pub workflow_id : Option Text
  pub metadata : Option Fields
  pub timestamp : Date
  pub received_at : Date
  pub canonical_hash : Option Text
  pub status : EventStatus
  pub tx_hash : Option Text
  pub block_number : Option Text
  pub chain_id : Option ℕ
  pub anchored_at : Option Date
  pub anchor_error : Option Text
  pub created_at : Date
