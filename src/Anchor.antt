-- ===== src/Anchor.antt =====
-- The gate before the external ledger: lib/sidecar-verifier.js, lib/internal-ledger-verifier.js and
-- lib/verified-anchor-service.js.
pub mod Sidecar
pub mod InternalLedger
pub mod Service
pub mod Confirmed
pub mod Gate
pub mod Cleared
