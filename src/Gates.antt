-- ===== src/Gates.antt =====
-- scripts/run-verification-evidence-gate.js and scripts/create-agent-delegation.js: the gate before
-- the Verification task passes, and the delegation that it reads.
pub mod Review
pub mod Documents
pub mod Gate
pub mod Stable
pub mod Reordered
pub mod EvidenceDocument
pub mod Empty
pub mod Delegated
pub mod Reviewed
pub mod AtVerification
pub mod FourEyes
pub mod Workflow
pub mod Delegation
pub mod DelegationRead
