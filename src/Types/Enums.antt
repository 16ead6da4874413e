-- ===== src/Types/Enums.antt =====
-- src/types/enums.ts. Tests of an enumeration are functions by clauses.
use hashira_be_railway_deplo.Base.{Bool, true, false, List, [], ◌∷◌, ◌||◌}

pub data OrgStatus : Type 0 where
  payment_pending active suspended : OrgStatus

pub data SubscriptionStatus : Type 0 where
  trialing active inactive : SubscriptionStatus

pub data UserRole : Type 0 where
  member admin super_admin : UserRole

pub data UserStatus : Type 0 where
  active removed : UserStatus

pub data EventStatus : Type 0 where
  processing anchoring anchored anchor_failed : EventStatus

pub data ApiKeyStatus : Type 0 where
  active revoked : ApiKeyStatus

pub data InvitationStatus : Type 0 where
  pending accepted expired : InvitationStatus

pub data ApiKeyPermission : Type 0 where
  events_write events_read verification_read : ApiKeyPermission

abbrev pub is_suspended : OrgStatus → Bool
is_suspended OrgStatus.suspended = true
is_suspended _ = false

abbrev pub is_active_org : OrgStatus → Bool
is_active_org OrgStatus.active = true
is_active_org _ = false

abbrev pub is_payment_pending : OrgStatus → Bool
is_payment_pending OrgStatus.payment_pending = true
is_payment_pending _ = false

abbrev pub is_active_user : UserStatus → Bool
is_active_user UserStatus.active = true
is_active_user UserStatus.removed = false

abbrev pub is_active_key : ApiKeyStatus → Bool
is_active_key ApiKeyStatus.active = true
is_active_key ApiKeyStatus.revoked = false

abbrev pub is_pending : InvitationStatus → Bool
is_pending InvitationStatus.pending = true
is_pending _ = false

abbrev pub is_member : UserRole → Bool
is_member UserRole.member = true
is_member _ = false

abbrev pub role_eq : UserRole → UserRole → Bool
role_eq UserRole.member UserRole.member = true
role_eq UserRole.admin UserRole.admin = true
role_eq UserRole.super_admin UserRole.super_admin = true
role_eq _ _ = false

abbrev pub permission_eq : ApiKeyPermission → ApiKeyPermission → Bool
permission_eq ApiKeyPermission.events_write ApiKeyPermission.events_write = true
permission_eq ApiKeyPermission.events_read ApiKeyPermission.events_read = true
permission_eq ApiKeyPermission.verification_read ApiKeyPermission.verification_read = true
permission_eq _ _ = false

-- `permissions.includes(p)`
unfoldable pub has_permission : ApiKeyPermission → List ApiKeyPermission → Bool
has_permission p [] = false
has_permission p (q ∷ ps) = permission_eq p q || has_permission p ps

abbrev pub event_status_eq : EventStatus → EventStatus → Bool
event_status_eq EventStatus.processing EventStatus.processing = true
event_status_eq EventStatus.anchoring EventStatus.anchoring = true
event_status_eq EventStatus.anchored EventStatus.anchored = true
event_status_eq EventStatus.anchor_failed EventStatus.anchor_failed = true
event_status_eq _ _ = false
