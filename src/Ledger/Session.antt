-- ===== src/Ledger/Session.antt =====
-- lib/pg-signing-logger.js: the `try` and `catch` blocks of `appendEvent`, as statements on one
-- connection.
use tanden_trust_audit_poc.Base.{ℕ, String, Bool, true, false, Option, none, some, Result, ok, err}
use tanden_trust_audit_poc.Base.Stateful.{Stateful, ◌>>=◌, ◌>>◌, lift}
use tanden_trust_audit_poc.Json.{Json}
use tanden_trust_audit_poc.Platform.{Crypto, DbError}
use tanden_trust_audit_poc.Ledger.Row.{
  HashInput, LedgerError, database, genesis_hash, compute_row_hash,
}
use tanden_trust_audit_poc.Ledger.Table.{Table, Inserted}

pub record EventRow : Type 0 where
  pub sequence : ℕ
  pub event_id : String
  pub event_type : String
  pub previous_hash : String
  pub row_hash : String
  pub created_at : String

-- Which awaited call of one `appendEvent` fails. `commit` says too whether the server had
-- committed before the connection was lost.
pub record Faults : Type 0 where
  pub connect : Option DbError
  pub begin : Option DbError
  pub lock : Option DbError
  pub select : Option DbError
  pub commit : Option DbError
  pub commit_applied : Bool
  pub rollback : Option DbError

abbrev pub or_genesis : Option String → String
or_genesis none = genesis_hash
or_genesis (some h) = h

-- The request's fields once they have passed the three checks.
pub record Checked : Type 0 where
  pub event_type : String
  pub payload : Json
  pub signature : String

-- What one connection sees: the committed table, and the copy that its open transaction writes to.
pub record Session (S : Type 0) : Type 0 where
  pub committed : S
  pub pending : Option S

abbrev pub new_session : {S : Type 0} → S → Session S
new_session s = record { committed = s; pending = none }

abbrev pub copy_or : {S : Type 0} → Option S → S → S
copy_or none s = s
copy_or (some copy) s = copy

-- What a statement of the session reads.
abbrev pub visible : {S : Type 0} → Session S → S
visible x = copy_or x.pending x.committed

-- A write goes to the copy; without a transaction it is committed at once.
abbrev pub written_to : {S : Type 0} → Option S → S → Session S → Session S
written_to none s x = record x { committed = s }
written_to (some copy) s x = record x { pending = some s }

abbrev pub written : {S : Type 0} → S → Session S → Session S
written s x = written_to x.pending s x

-- What COMMIT makes of a session.
abbrev pub published : {S : Type 0} → Session S → Session S
published x = record { committed = visible x; pending = none }

module _ (crypto : Crypto) (t : Table) where
  abbrev pub chained_input : Checked → String → t.State → HashInput
  chained_input c event_id s = record {
    event_id = event_id;
    event_type = c.event_type;
    payload = c.payload;
    signature = c.signature;
    previous_hash = or_genesis (t.select_last_hash s);
  }

  unfoldable pub returned : Checked → String → t.State → String → Inserted → EventRow
  returned c event_id s row_hash i = record {
    sequence = i.sequence;
    event_id = event_id;
    event_type = c.event_type;
    previous_hash = or_genesis (t.select_last_hash s);
    row_hash = row_hash;
    created_at = i.created_at;
  }

  abbrev M : Type 0 → Type 0
  M A = Stateful (Session t.State) LedgerError A

  -- A statement that fails leaves the session as it was.
  unfoldable pub query : {A : Type 0} → Option DbError → M A → M A
  query none statement x = statement x
  query (some e) statement x = (err (database e), x)

  -- BEGIN: from here on, this session writes to a copy of its own.
  abbrev pub begin_transaction : M (Unit {0})
  begin_transaction x = (ok tt, record x { pending = some x.committed })

  -- SELECT pg_advisory_xact_lock($1), which no other session holds here.
  abbrev pub take_lock : M (Unit {0})
  take_lock x = (ok tt, x)

  -- SELECT of the last hash, and the event that is chained to it.
  abbrev pub select_previous : Checked → String → M (t.State × HashInput)
  select_previous c event_id x = (ok (visible x, chained_input c event_id (visible x)), x)

  -- INSERT into the session's copy, or into the table itself where no transaction is open.
  unfoldable pub insert_answered : Result DbError (t.State × Inserted) → M Inserted
  insert_answered (err e) x = (err (database e), x)
  insert_answered (ok (s', i)) x = (ok i, written s' x)

  abbrev pub insert_row : HashInput → String → M Inserted
  insert_row input row_hash x = insert_answered (t.insert (visible x) input row_hash) x

  -- COMMIT, which may fail before or after the server has applied it.
  unfoldable pub commit : Option DbError → Bool → M (Unit {0})
  commit none applied x = (ok tt, published x)
  commit (some e) true x = (err (database e), published x)
  commit (some e) false x = (err (database e), x)

  -- The end of the `try` block, behind the hash.
  unfoldable pub append_row : Faults → String → Checked → t.State → HashInput → String → M EventRow
  unfolding insert_answered commit returned
  append_row faults event_id c s input row_hash = do
    i ← insert_row input row_hash
    commit faults.commit faults.commit_applied
    lift (ok (returned c event_id s row_hash i))

  -- The `try` block.
  unfoldable pub transaction : Faults → String → Checked → M EventRow
  unfolding query append_row
  transaction faults event_id c = do
    query faults.begin begin_transaction
    query faults.lock take_lock
    previous ← query faults.select (select_previous c event_id)
    row_hash ← lift (compute_row_hash crypto previous.1)
    append_row faults event_id c previous.0 previous.1 row_hash

  -- `catch`: ROLLBACK, whose own failure takes the place of the error. The server drops the copy in
  -- either case, since a connection that is lost ends its transaction.
  unfoldable pub rolled_back : Faults → LedgerError → LedgerError
  rolled_back faults e = elim faults.rollback [ none ↦ e | some r ↦ database r ]

  unfoldable pub caught :
      Faults
      → Result LedgerError EventRow × Session t.State
      → Result LedgerError EventRow × Session t.State
  unfolding rolled_back
  caught faults (ok row, x) = (ok row, x)
  caught faults (err e, x) = (err (rolled_back faults e), record x { pending = none })
