-- ===== src/Work.antt =====
-- scripts/work-development-orchestrator.js: where a feature's work stands.
pub mod GraphState
