-- ===== src/Store/Methods.antt =====
-- lib/pg-evidence-store.js: the methods of `PgEvidenceStore`.
use tanden_trust_audit_poc.Base.{
  ℕ, String, Bool, true, false, Option, none, some, List, [], ◌∷◌, Result, ok, err, ◌>>=◌, ◌>>◌,
  Number, if◌then◌else◌, opt_eq,
}
use tanden_trust_audit_poc.Json.{Json}
use tanden_trust_audit_poc.Platform.{DbError}
use tanden_trust_audit_poc.Store.Request.{
  StoreError, StoreRequest, NewVersion, evidence_version_already_exists,
  evidence_store_write_failed, evidence_store_read_failed, check_store_request,
  assert_valid_evidence_id, assert_valid_version,
}
use tanden_trust_audit_poc.Store.Sql.{evidence_versions, insert_version}
use tanden_trust_audit_poc.Store.Table.{VersionTable, VersionRow, Assigned, unique_violation}

-- What `mapStoredRow` returns.
pub record Stored : Type 0 where
  pub id : ℕ
  pub evidence_id : String
  pub version : ℕ
  pub digest_hex : String
  pub kms_key_id : Option String
  pub created_at : String

unfoldable pub map_stored_row : NewVersion → Assigned → Stored
map_stored_row new a = record {
  id = a.id;
  evidence_id = new.evidence_id;
  version = new.version;
  digest_hex = new.digest_hex;
  kms_key_id = new.kms_key_id;
  created_at = a.created_at;
}

-- What `mapEvidenceRow` returns.
pub record EvidenceVersion : Type 0 where
  pub id : ℕ
  pub evidence_id : String
  pub version : ℕ
  pub evidence : Json
  pub canonicalization : String
  pub hash_algorithm : String
  pub digest_hex : String
  pub signature : String
  pub signing_algorithm : String
  pub kms_key_id : Option String
  pub created_at : String

-- `Number` gives back the BIGINT and INTEGER of a row below 2^53.
unfoldable pub map_evidence_row : VersionRow → EvidenceVersion
map_evidence_row row = record {
  id = row.id;
  evidence_id = row.columns.evidence_id;
  version = row.columns.version;
  evidence = row.columns.evidence;
  canonicalization = row.columns.canonicalization;
  hash_algorithm = row.columns.hash_algorithm;
  digest_hex = row.columns.digest_hex;
  signature = row.columns.signature;
  signing_algorithm = row.columns.signing_algorithm;
  kms_key_id = row.columns.kms_key_id;
  created_at = row.created_at;
}

-- `result.rows.length === 0 ? null : mapEvidenceRow(result.rows[0])`
abbrev pub first_row : List VersionRow → Option EvidenceVersion
first_row [] = none
first_row (row ∷ rows) = some (map_evidence_row row)

-- The connection during one statement: it stands, it fails before the server has run the
-- statement, or it fails afterwards, so that only the answer is lost.
pub data Link : Type 0 where
  up : Link
  down_before : DbError → Link
  down_after : DbError → Link

-- The `catch` block of `appendEvidence`.
unfoldable pub write_error : DbError → StoreError
write_error e =
    if opt_eq e.code (some unique_violation)
    then evidence_version_already_exists e
    else evidence_store_write_failed e

abbrev pub any_row : List VersionRow → Bool
any_row [] = false
any_row (row ∷ rows) = true

-- The `catch` blocks of the two readers.
abbrev pub read : Option DbError → Result StoreError (Unit {0})
read none = ok tt
read (some e) = err (evidence_store_read_failed e)

module _ (t : VersionTable) where
  -- The answer to the INSERT, and the table behind it.
  unfoldable pub answered :
      Link
      → NewVersion
      → t.State
      → Result DbError (t.State × Assigned)
      → Result StoreError Stored × t.State
  unfolding write_error map_stored_row
  answered up new s (ok (s', a)) = (ok (map_stored_row new a), s')
  answered (down_after e) new s (ok (s', a)) = (err (write_error e), s')
  answered (down_before e) new s r = (err (write_error e), s)
  answered up new s (err e) = (err (write_error e), s)
  answered (down_after e) new s (err _) = (err (write_error e), s)

  unfoldable pub store_version :
      Link → Result StoreError NewVersion → t.State → Result StoreError Stored × t.State
  unfolding answered
  store_version link (err e) s = (err e, s)
  store_version link (ok new) s =
      answered link new s (t.insert evidence_versions insert_version s new)

  unfoldable pub append_evidence :
      Link → StoreRequest → t.State → Result StoreError Stored × t.State
  unfolding store_version
  append_evidence link request s = store_version link (check_store_request request) s

  unfoldable pub get_evidence_version :
      Option DbError
      → Option Json
      → Option Number
      → t.State
      → Result StoreError (Option EvidenceVersion)
  get_evidence_version fault evidence_id version s = do
    id ← assert_valid_evidence_id evidence_id
    n ← assert_valid_version version
    read fault
    ok (first_row (t.select_version s id n))

  -- LIMIT 1 leaves the test as it is.
  unfoldable pub evidence_exists :
      Option DbError → Option Json → Option Number → t.State → Result StoreError Bool
  evidence_exists fault evidence_id version s = do
    id ← assert_valid_evidence_id evidence_id
    n ← assert_valid_version version
    read fault
    ok (any_row (t.select_version s id n))
