-- ===== src/Auth.antt =====
-- src/services/auth: logging in, codes, sessions and password resets.
pub mod Attempts
pub mod Session
pub mod Opened
pub mod Login
pub mod Otp
pub mod Refresh
pub mod PasswordReset
pub mod Google
pub mod Mfa
pub mod Enrolment
pub mod Seats
pub mod SignedIn
pub mod Joined
pub mod Checks
