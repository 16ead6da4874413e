-- ===== src/Repositories.antt =====
-- src/repositories, one module for each file, over the statements that TypeORM sends.
pub mod Sql
pub mod Rows
pub mod Users
pub mod Organisations
pub mod Invitations
pub mod OtpTokens
pub mod RefreshTokens
pub mod PasswordResetTokens
pub mod ApiKeys
pub mod Events
