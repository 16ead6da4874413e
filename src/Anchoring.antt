-- ===== src/Anchoring.antt =====
-- Anchoring on the blockchain: src/utils/withExponentialBackoff.ts,
-- src/services/BlockchainAnchoringService.ts and src/workers/anchoring.worker.ts.
pub mod Backoff
pub mod Service
mod Checks
