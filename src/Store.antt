-- ===== src/Store.antt =====
-- lib/pg-evidence-store.js: `PgEvidenceStore`, the versions of each evidence item in PostgreSQL.
pub mod Request
pub mod Sql
pub mod Table
pub mod Methods
pub mod Accepted
pub mod WriteOnce
