-- ===== src/Processing.antt =====
-- lib/evidence-processing-service.js: evidence is checked, signed, stored and entered in the ledger.
pub mod Service
pub mod Accounted
pub mod Event
pub mod Processes
pub mod Confirmed
