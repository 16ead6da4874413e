-- ===== src/Signing.antt =====
-- src/services/BlockchainSigningService.ts: signing with a key that stays in AWS KMS.
pub mod Der
pub mod Encoding
pub mod RoundTrip
pub mod Service
pub mod Signed
pub mod Checks
