-- ===== src/Events.antt =====
-- src/services/event: taking events in, preparing them for the blockchain, and showing them.
pub mod Ingestion
pub mod Processing
pub mod Query
pub mod Scope
pub mod Visible
mod Checks
