-- ===== src/Audit.antt =====
-- lib/audit-manager.js: signing and verification that leave their record in the ledger.
pub mod Manager
pub mod SignRecorded
pub mod Recorded
pub mod Unrecorded
