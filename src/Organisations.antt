-- ===== src/Organisations.antt =====
-- src/services/organisation, and the invitations of src/controllers/invitation.
pub mod Service
pub mod Invitation
pub mod Created
pub mod Signup
pub mod Retry
pub mod Activation
pub mod Checks
