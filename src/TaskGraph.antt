-- ===== src/TaskGraph.antt =====
-- scripts/agent-task-graph.js: the workflow of one feature, from the Builder to the Verification
-- Gate, and the files that hold it.
pub mod Model
pub mod Events
pub mod Paths
pub mod Files
pub mod Workflow
pub mod Refinement
pub mod Reachable
pub mod Store
pub mod Document
