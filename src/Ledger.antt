-- ===== src/Ledger.antt =====
-- lib/pg-signing-logger.js: the append-only, hash-chained ledger of signing events.
pub mod Row
pub mod Verify
pub mod Chain
pub mod Table
pub mod Session
pub mod Logger
pub mod Accepted
pub mod Outcome
pub mod Append
pub mod Results
pub mod Appended
pub mod Tamper
pub mod Readers
