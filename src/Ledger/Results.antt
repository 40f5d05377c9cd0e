-- ===== src/Ledger/Results.antt =====
-- lib/pg-signing-logger.js: what `appendEvent` returns, and what it leaves as it was.
use tanden_trust_audit_poc.Base.{
  ◌+◌, refl, true, ◌⊎◌, ◌++◌, ◌∷◌, [], String, false, ok, err, ◌≡◌, arith, subst, length,
  length_snoc, inl, inr,
}
use tanden_trust_audit_poc.Platform.{Crypto}
use tanden_trust_audit_poc.Ledger.Row.{Row, LedgerError}
use tanden_trust_audit_poc.Ledger.Verify.{valid, verify_signing_event_rows}
use tanden_trust_audit_poc.Ledger.Chain.{verify_signing_event_rows_iff}
use tanden_trust_audit_poc.Ledger.Table.{Table, IsLawful, inserted_row}
use tanden_trust_audit_poc.Ledger.Session.{returned}
use tanden_trust_audit_poc.Ledger.Logger.{
  AppendRequest, EventRow, Faults, Checked, Pool, chained_input, check_request, append_event,
}
use tanden_trust_audit_poc.Ledger.Outcome.{Inserts, AppendOutcome, append_event-Outcome}
use tanden_trust_audit_poc.Ledger.Append.{IsIntact, HasObject, insert-Chain, object_payload}

module _ (crypto : Crypto) (t : Table) where
  -- What a successful call has done.
  pub record Appends (event_id : String) (request : AppendRequest) (pool pool' : Pool t.State)
      (row : EventRow) : Type 0 where
    pub checked : Checked
    pub accepted : check_request request ≡ ok checked
    pub inserts : Inserts crypto t event_id checked pool.table pool'.table row.row_hash
    pub answer : row ≡ returned crypto t checked event_id pool.table row.row_hash inserts.inserted

  pub append_event-Appends :
      (faults : Faults) (event_id : String) (request : AppendRequest) (pool pool' : Pool t.State)
      (row : EventRow)
      → append_event crypto t faults event_id request pool ≡ (ok row, pool')
      → Appends event_id request pool pool' row
  append_event-Appends faults event_id request pool pool' row h = go (
      subst (AppendOutcome crypto t faults event_id request pool) h
        (append_event-Outcome crypto t faults event_id request pool))
    where
      go :
          AppendOutcome crypto t faults event_id request pool (ok row, pool')
          → Appends event_id request pool pool' row
      go (inl (e, failed, same)) = absurd (ground arith)
      go (inr (c, accepted, done)) = record {
        checked = c;
        accepted = accepted;
        inserts = done.0;
        answer = done.1;
      }

  -- After a successful `appendEvent` of a JSON object on an intact ledger, a verification of the
  -- whole ledger reports one event more, and the returned `rowHash` as the last hash.
  pub append_event_verified :
      (faults : Faults) (event_id : String) (request : AppendRequest) (pool pool' : Pool t.State)
      (row : EventRow) (laws : IsLawful crypto t)
      → HasObject request
      → IsIntact crypto t laws pool.table
      → append_event crypto t faults event_id request pool ≡ (ok row, pool')
      → verify_signing_event_rows crypto (t.select_rows pool'.table)
        ≡ ok (valid (length (t.select_rows pool.table) + 1) row.row_hash)
  append_event_verified faults event_id request pool pool' row laws object intact h =
      let a = append_event-Appends faults event_id request pool pool' row h in
      let input = chained_input crypto t a.checked event_id pool.table in
      let added = inserted_row t input row.row_hash a.inserts.inserted in
      let (fields, same) = object_payload crypto t laws request a.checked object a.accepted in
      let rows =
        laws.insert_lem pool.table input row.row_hash pool'.table a.inserts.inserted
          a.inserts.stored in
      (verify_signing_event_rows_iff crypto (t.select_rows pool'.table)
          (length (t.select_rows pool.table) + 1) row.row_hash).1
        (
          rw rows (omega (arith, length_snoc (t.select_rows pool.table) added)),
          insert-Chain crypto t laws a.checked event_id row.row_hash pool.table pool'.table fields
              intact same a.inserts,
        )

  -- An `appendEvent` that throws leaves the table as it was, unless the server had applied the
  -- COMMIT whose answer was lost.
  pub append_event_error :
      (faults : Faults) (event_id : String) (request : AppendRequest) (pool pool' : Pool t.State)
      (e : LedgerError)
      → faults.commit_applied ≡ false
      → append_event crypto t faults event_id request pool ≡ (err e, pool')
      → pool'.table ≡ pool.table
  append_event_error faults event_id request pool pool' e lost h = go (
      subst (AppendOutcome crypto t faults event_id request pool) h
        (append_event-Outcome crypto t faults event_id request pool))
    where
      go :
          AppendOutcome crypto t faults event_id request pool (err e, pool')
          → pool'.table ≡ pool.table
      go (inl (x, failed, same)) = same
      go (inr (c, accepted, inl same)) = same
      go (inr (c, accepted, inr (applied, done))) = absurd (ground arith)

  -- What an `appendEvent` that throws leaves: the table as it was, or its row behind the others, if
  -- the server had applied the COMMIT whose answer was lost.
  abbrev pub Leaves : Faults → String → t.State → t.State → Type 0
  Leaves faults event_id s s' =
      (s' ≡ s)
      ⊎ ((faults.commit_applied ≡ true)
          × (row : Row) × (t.select_rows s' ≡ t.select_rows s ++ row ∷ [])
          × (row.event_id ≡ event_id))

  pub append_event-Leaves :
      (faults : Faults) (event_id : String) (request : AppendRequest) (pool pool' : Pool t.State)
      (e : LedgerError) (laws : IsLawful crypto t)
      → append_event crypto t faults event_id request pool ≡ (err e, pool')
      → Leaves faults event_id pool.table pool'.table
  append_event-Leaves faults event_id request pool pool' e laws h = go (
      subst (AppendOutcome crypto t faults event_id request pool) h
        (append_event-Outcome crypto t faults event_id request pool))
    where
      go :
          AppendOutcome crypto t faults event_id request pool (err e, pool')
          → Leaves faults event_id pool.table pool'.table
      go (inl (x, failed, same)) = inl same
      go (inr (c, accepted, inl same)) = inl same
      go (inr (c, accepted, inr (applied, done))) =
          let input = chained_input crypto t c event_id pool.table in
          let i = done.1 in
          inr (
            applied,
            inserted_row t input done.0 i.inserted,
            laws.insert_lem pool.table input done.0 pool'.table i.inserted i.stored,
            refl,
          )
