-- ===== src/Controllers.antt =====
-- src/controllers: what each handler answers, and src/routes: what stands before it.
pub mod Http
pub mod Auth
pub mod Mfa
pub mod Organisations
pub mod Events
pub mod Validators
pub mod Routes
