-- ===== src/Samples.antt =====
-- Concrete values at which the theorems and the tests are run.
pub mod Rows
pub mod Services
