-- ===== src/Store/Table.antt =====
-- What lib/pg-evidence-store.js uses of PostgreSQL: the table `evidence_versions` behind its
-- statements. PostgreSQL is a service, so the table is a parameter with the laws that the code
-- relies on.
use tanden_trust_audit_poc.Base.{ℕ, String, ◌≡◌, List, [], ◌∷◌, Result, ok, err}
use tanden_trust_audit_poc.Json.{Json}
use tanden_trust_audit_poc.Platform.{Crypto, DbError}
use tanden_trust_audit_poc.Store.Request.{NewVersion}
use tanden_trust_audit_poc.Store.Sql.{
  Column, evidence_id_column, version_column, evidence_column, canonicalization_column,
  hash_algorithm_column, digest_hex_column, signature_column, signing_algorithm_column,
  kms_key_id_column, Schema, fail, InsertStatement,
}

-- The columns that the database fills in.
pub record Assigned : Type 0 where
  pub id : ℕ
  pub created_at : String

-- A row of `evidence_versions`.
pub record VersionRow : Type 0 where
  pub id : ℕ
  pub columns : NewVersion
  pub created_at : String

abbrev pub unique_violation : String
unique_violation = "23505"

pub record VersionTable : Type 1 where
  pub State : Type 0
  -- SELECT … WHERE evidence_id = $1 AND version = $2
  pub select_version : State → String → ℕ → List VersionRow
  -- INSERT INTO evidence_versions (…) VALUES ($1, $2, …) RETURNING …, on a table that was created
  -- with this schema
  pub insert : Schema → InsertStatement → State → NewVersion → Result DbError (State × Assigned)
  -- a JSON value as the JSONB column gives it back
  pub stored : Json → Json

abbrev pub version_row : VersionTable → NewVersion → Assigned → VersionRow
version_row table new a = record {
  id = a.id;
  columns = record new { evidence = table.stored new.evidence };
  created_at = a.created_at;
}

-- The columns that the fields of `NewVersion` are for, in their order.
abbrev pub version_columns : List Column
version_columns =
    evidence_id_column ∷ version_column ∷ evidence_column ∷ canonicalization_column
    ∷ hash_algorithm_column ∷ digest_hex_column ∷ signature_column ∷ signing_algorithm_column
    ∷ kms_key_id_column ∷ []

-- The documented behaviour of PostgreSQL. An INSERT whose parameters go to their columns adds its
-- row; one without an ON CONFLICT fails on a second row of a version, where the table has the
-- constraint UNIQUE (evidence_id, version); and JSONB keeps the value of a JSON text (the code hands
-- it JSON.stringify(evidence)) up to what RFC 8785 makes one text.
pub record IsVersionTable (crypto : Crypto) (table : VersionTable) : Type 0 where
  pub inserted_lem :
      (schema : Schema) (statement : InsertStatement) (s : table.State) (new : NewVersion)
      (s' : table.State) (a : Assigned)
      → statement.columns ≡ version_columns
      → schema.unique ≡ (evidence_id_column ∷ version_column ∷ []) ∷ []
      → statement.on_conflict ≡ fail
      → table.insert schema statement s new ≡ ok (s', a)
      → table.select_version s' new.evidence_id new.version ≡ version_row table new a ∷ []
  pub unique_lem :
      (schema : Schema) (statement : InsertStatement) (s : table.State) (new : NewVersion)
      (row : VersionRow) (rows : List VersionRow)
      → statement.columns ≡ version_columns
      → schema.unique ≡ (evidence_id_column ∷ version_column ∷ []) ∷ []
      → statement.on_conflict ≡ fail
      → table.select_version s new.evidence_id new.version ≡ row ∷ rows
      → (e : DbError) × (table.insert schema statement s new ≡ err e)
  pub stored_lem : (j : Json) → crypto.canonicalize (table.stored j) ≡ crypto.canonicalize j
