-- ===== src/Store/Sql.antt =====
-- lib/pg-evidence-store.js: what the CREATE TABLE of `initializeSchema` and the INSERT of
-- `appendEvidence` say, as far as the answer to an INSERT rests on it.
use tanden_trust_audit_poc.Base.{List, [], ◌∷◌}

pub data Column : Type 0 where
  evidence_id_column version_column evidence_column canonicalization_column : Column
  hash_algorithm_column digest_hex_column signature_column signing_algorithm_column : Column
  kms_key_id_column : Column

-- Each UNIQUE constraint, by its columns.
pub record Schema : Type 0 where
  pub unique : List (List Column)

-- What an INSERT does on a row that a constraint refuses: without an ON CONFLICT, it fails.
pub data OnConflict : Type 0 where
  fail do_nothing do_update : OnConflict

-- The columns of $1, $2, ...
pub record InsertStatement : Type 0 where
  pub columns : List Column
  pub on_conflict : OnConflict

abbrev pub evidence_versions : Schema
evidence_versions = record { unique = (evidence_id_column ∷ version_column ∷ []) ∷ [] }

abbrev pub insert_version : InsertStatement
insert_version = record {
  columns =
      evidence_id_column ∷ version_column ∷ evidence_column ∷ canonicalization_column
      ∷ hash_algorithm_column ∷ digest_hex_column ∷ signature_column ∷ signing_algorithm_column
      ∷ kms_key_id_column ∷ [];
  on_conflict = fail;
}
