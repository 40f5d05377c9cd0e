-- ===== src/Ledger/Logger.antt =====
-- lib/pg-signing-logger.js: the methods of `PgSigningLogger`.
use tanden_trust_audit_poc.Base.{
  ℕ, ◌+◌, ◌-◌, String, Option, none, some, Result, ok, err, ◌>>=◌, ◌>>◌, if◌then◌else◌, is_empty,
}
use tanden_trust_audit_poc.Json.{Json, str}
use tanden_trust_audit_poc.Platform.{Crypto, DbError}
use tanden_trust_audit_poc.Ledger.Row.{
  LedgerError, invalid_event_type, missing_payload, invalid_signature, database,
}
use tanden_trust_audit_poc.Ledger.Verify.{Integrity, verify_signing_event_rows}
use tanden_trust_audit_poc.Ledger.Table.{Table}
pub use tanden_trust_audit_poc.Ledger.Session.{EventRow, Faults, Checked, or_genesis, chained_input}
use tanden_trust_audit_poc.Ledger.Session.{Session, new_session, transaction, caught}

-- The argument of `appendEvent`; `none` is undefined.
pub record AppendRequest : Type 0 where
  pub event_type : Option Json
  pub payload : Option Json
  pub signature : Option Json

-- `typeof value !== "string" || value.length === 0` throws.
unfoldable pub non_empty_string : Option Json → LedgerError → Result LedgerError String
non_empty_string (some (str s)) e = if is_empty s then err e else ok s
non_empty_string _ e = err e

unfoldable pub required : Option Json → LedgerError → Result LedgerError Json
required none e = err e
required (some v) e = ok v

unfoldable pub awaited : Option DbError → Result LedgerError (Unit {0})
awaited none = ok tt
awaited (some e) = err (database e)

unfoldable pub check_request : AppendRequest → Result LedgerError Checked
unfolding non_empty_string required
check_request request = do
  event_type ← non_empty_string request.event_type invalid_event_type
  payload ← required request.payload missing_payload
  signature ← non_empty_string request.signature invalid_signature
  ok (record { event_type = event_type; payload = payload; signature = signature })

-- A pool: the committed table, and how many clients are checked out.
pub record Pool (S : Type 0) : Type 0 where
  pub table : S
  pub in_use : ℕ

module _ (crypto : Crypto) (t : Table) where
  -- `pool.connect()` takes a client out of the pool, and `client.release()` gives it back.
  unfoldable pub checked_out : Pool t.State → Pool t.State
  checked_out pool = record pool { in_use = pool.in_use + 1 }

  unfoldable pub release : Pool t.State → Pool t.State
  release pool = record pool { in_use = pool.in_use - 1 }

  -- `finally`, whatever the other two blocks did: what the session has committed is in the table.
  unfoldable pub released :
      Pool t.State
      → Result LedgerError EventRow × Session t.State
      → Result LedgerError EventRow × Pool t.State
  unfolding release
  released pool (r, x) = (r, release (record pool { table = x.committed }))

  -- The pool's answer to `connect()`, which stands outside the `try` block.
  unfoldable pub connected :
      Option DbError
      → Faults
      → String
      → Pool t.State
      → Checked
      → Result LedgerError EventRow × Pool t.State
  unfolding transaction caught released checked_out
  connected (some e) faults event_id pool c = (err (database e), pool)
  connected none faults event_id pool c =
      released (checked_out pool)
        (caught crypto t faults (transaction crypto t faults event_id c (new_session pool.table)))

  unfoldable pub appended :
      Faults
      → String
      → Pool t.State
      → Result LedgerError Checked
      → Result LedgerError EventRow × Pool t.State
  unfolding connected
  appended faults event_id pool (err e) = (err e, pool)
  appended faults event_id pool (ok c) = connected faults.connect faults event_id pool c

  -- `event_id` is what crypto.randomUUID() returns.
  unfoldable pub append_event :
      Faults → String → AppendRequest → Pool t.State → Result LedgerError EventRow × Pool t.State
  unfolding appended check_request
  append_event faults event_id request pool = appended faults event_id pool (check_request request)

  -- `SELECT` that may fail, and the rows that it reads.
  unfoldable pub verify_chain_integrity :
      Option DbError → Pool t.State → Result LedgerError Integrity
  unfolding awaited
  verify_chain_integrity fault pool =
      awaited fault >> verify_signing_event_rows crypto (t.select_rows pool.table)
