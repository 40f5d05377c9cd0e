-- ===== src/Ledger/Table.antt =====
-- What lib/pg-signing-logger.js uses of PostgreSQL: the table `signing_events` behind its three
-- statements. PostgreSQL is a service, so the table is a parameter with the laws that the code
-- relies on.
use tanden_trust_audit_poc.Base.{
  ℕ, String, ◌≡◌, Option, none, some, List, [], ◌∷◌, ◌++◌, Result, ok,
}
use tanden_trust_audit_poc.Json.{Json, Fields, obj}
use tanden_trust_audit_poc.Platform.{Crypto, DbError}
use tanden_trust_audit_poc.Ledger.Row.{Row, HashInput, hash_object}

-- `RETURNING sequence, created_at`
pub record Inserted : Type 0 where
  pub sequence : ℕ
  pub created_at : String

pub record Table : Type 1 where
  pub State : Type 0
  -- SELECT … FROM signing_events ORDER BY sequence ASC
  pub select_rows : State → List Row
  -- SELECT row_hash FROM signing_events ORDER BY sequence DESC LIMIT 1
  pub select_last_hash : State → Option String
  -- INSERT INTO signing_events (…) VALUES (…)
  pub insert : State → HashInput → String → Result DbError (State × Inserted)
  -- a JSON value as the JSONB column gives it back
  pub stored : Json → Json

-- The row that an INSERT adds.
abbrev pub inserted_row : Table → HashInput → String → Inserted → Row
inserted_row table input row_hash i = record {
  sequence = i.sequence;
  input = record input { payload = table.stored input.payload };
  row_hash = row_hash;
  created_at = i.created_at;
}

abbrev pub last_row_hash : List Row → Option String
last_row_hash [] = none
last_row_hash (row ∷ []) = some row.row_hash
last_row_hash (row ∷ next ∷ rows) = last_row_hash (next ∷ rows)

-- The documented behaviour: the last row is that of the greatest sequence, an INSERT adds its row
-- behind the others, and JSONB keeps an object up to what RFC 8785 makes one text. A top-level text
-- or array is another matter: node-postgres does not send it as JSON.
pub record IsLawful (crypto : Crypto) (table : Table) : Type 0 where
  pub last_lem : (s : table.State) → table.select_last_hash s ≡ last_row_hash (table.select_rows s)
  pub insert_lem :
      (s : table.State) (input : HashInput) (row_hash : String) (s' : table.State) (i : Inserted)
      → table.insert s input row_hash ≡ ok (s', i)
      → table.select_rows s' ≡ table.select_rows s ++ inserted_row table input row_hash i ∷ []
  pub stored_lem :
      (input : HashInput) (fields : Fields)
      → input.payload ≡ obj fields
      → crypto.canonicalize (hash_object (record input { payload = table.stored input.payload }))
        ≡ crypto.canonicalize (hash_object input)
