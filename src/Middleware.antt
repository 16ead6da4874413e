-- ===== src/Middleware.antt =====
-- src/middleware: who may call a handler, and how an error is answered.
pub mod Access
pub mod Errors
mod Checks
