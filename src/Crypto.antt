-- ===== src/Crypto.antt =====
-- src/utils/totp-encryption.ts and src/utils/encryption.ts: AES-256-GCM around stored secrets.
pub mod Totp
pub mod Envelope
pub mod Cipher
pub mod Opened
pub mod TotpOpened
pub mod Checks
