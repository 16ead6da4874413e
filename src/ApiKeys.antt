-- ===== src/ApiKeys.antt =====
-- src/services/api-key: keys by which a program calls the API.
pub mod Service
