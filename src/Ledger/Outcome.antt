-- ===== src/Ledger/Outcome.antt =====
-- lib/pg-signing-logger.js: the two ways in which `appendEvent` can leave the table.
use tanden_trust_audit_poc.Base.{
  String, Bool, true, false, Option, none, some, Result, ok, err, ◌≡◌, refl, ◌⊎◌, inl, inr,
}
use tanden_trust_audit_poc.Base.Stateful.{continue}
use tanden_trust_audit_poc.Platform.{Crypto, DbError}
use tanden_trust_audit_poc.Ledger.Row.{HashInput, LedgerError, compute_row_hash}
use tanden_trust_audit_poc.Ledger.Table.{Table, Inserted}
use tanden_trust_audit_poc.Ledger.Session.{
  Session, new_session, returned, query, begin_transaction, take_lock, select_previous, commit,
  insert_answered, append_row, transaction, caught,
}
use tanden_trust_audit_poc.Ledger.Logger.{
  AppendRequest, EventRow, Faults, Checked, Pool, chained_input, check_request, append_event,
  appended, connected, released, release, checked_out,
}

module _ (crypto : Crypto) (t : Table) where
  -- The row of these fields was hashed and inserted.
  pub record Inserts (event_id : String) (c : Checked) (s s' : t.State) (row_hash : String)
      : Type 0 where
    pub inserted : Inserted
    pub hashed : compute_row_hash crypto (chained_input crypto t c event_id s) ≡ ok row_hash
    pub stored : t.insert s (chained_input crypto t c event_id s) row_hash ≡ ok (s', inserted)

  -- What became of the table, by the result: nothing, or the row is there. An error leaves a row
  -- behind only if the server had applied the COMMIT whose answer was lost.
  abbrev pub Outcome :
      Faults → String → Checked → t.State → Result LedgerError EventRow → t.State → Type 0
  Outcome faults event_id c s (ok row) s' =
      (i : Inserts event_id c s s' row.row_hash) × (row
        ≡ returned crypto t c event_id s row.row_hash i.inserted)
  Outcome faults event_id c s (err e) s' =
      (s' ≡ s)
      ⊎ ((faults.commit_applied ≡ true) × ((row_hash : String) × Inserts event_id c s s' row_hash))

  abbrev Left :
      Faults → String → Checked → t.State → Result LedgerError EventRow × Session t.State → Type 0
  Left faults event_id c s r = Outcome faults event_id c s r.0 r.1.committed

  append_row-Outcome :
      (faults : Faults) (event_id : String) (c : Checked) (s : t.State) (row_hash : String)
      → compute_row_hash crypto (chained_input crypto t c event_id s) ≡ ok row_hash
      → Left faults event_id c s (
          append_row crypto t faults event_id c s
            (chained_input crypto t c event_id s)
            row_hash
            (record { committed = s; pending = some s }))
  append_row-Outcome faults event_id c s row_hash hashed =
      unfold append_row in
      at_insert (t.insert s (chained_input crypto t c event_id s) row_hash) refl
    where
      at_commit :
          (fault : Option DbError) (applied : Bool) (s' : t.State) (i : Inserted)
          → faults.commit_applied ≡ applied
          → Inserts event_id c s s' row_hash
          → t.insert s (chained_input crypto t c event_id s) row_hash ≡ ok (s', i)
          → Left faults event_id c s (
              continue
                (λ (u : Unit {0}) x. (ok (returned crypto t c event_id s row_hash i), x))
                (commit crypto t fault applied (record { committed = s; pending = some s' })))
      at_commit none applied s' i same done stored =
          unfold commit returned in
          (record { inserted = i; hashed = hashed; stored = stored }, refl)
      at_commit (some e) true s' i same done stored = unfold commit in inr (same, (row_hash, done))
      at_commit (some e) false s' i same done stored = unfold commit in inl refl

      at_insert :
          (r : Result DbError (t.State × Inserted))
          → t.insert s (chained_input crypto t c event_id s) row_hash ≡ r
          → Left faults event_id c s (
              continue
                (λ (i : Inserted). λ y.
                  continue
                    (λ (u : Unit {0}) x. (ok (returned crypto t c event_id s row_hash i), x))
                    (commit crypto t faults.commit faults.commit_applied y))
                (insert_answered crypto t r (record { committed = s; pending = some s })))
      at_insert (err e) stored = unfold insert_answered in inl refl
      at_insert (ok (s', i)) stored =
          unfold insert_answered in
          at_commit faults.commit faults.commit_applied s' i refl
            (record { inserted = i; hashed = hashed; stored = stored }) stored

  transaction-Outcome :
      (faults : Faults) (event_id : String) (c : Checked) (s : t.State)
      → Left faults event_id c s (transaction crypto t faults event_id c (new_session s))
  transaction-Outcome faults event_id c s =
      unfold transaction in at_calls faults.begin faults.lock faults.select
    where
      at_hash :
          (r : Result LedgerError String)
          → compute_row_hash crypto (chained_input crypto t c event_id s) ≡ r
          → Left faults event_id c s (
              continue
                (λ row_hash.
                  append_row crypto t faults event_id c s
                    (chained_input crypto t c event_id s)
                    row_hash)
                (r, record { committed = s; pending = some s }))
      at_hash (err e) eq = inl refl
      at_hash (ok row_hash) eq = append_row-Outcome faults event_id c s row_hash eq

      at_calls :
          (b l e : Option DbError)
          → Left faults event_id c s (
              continue
                (λ (u : Unit {0}). λ x.
                  continue
                    (λ (v : Unit {0}). λ y.
                      continue
                        (λ (previous : t.State × HashInput). λ z.
                          continue
                            (λ row_hash.
                              append_row crypto t faults event_id c previous.0 previous.1 row_hash)
                            (compute_row_hash crypto previous.1, z))
                        (query crypto t e (select_previous crypto t c event_id) y))
                    (query crypto t l (take_lock crypto t) x))
                (query crypto t b (begin_transaction crypto t) (new_session s)))
      at_calls (some x) l e = unfold query in inl refl
      at_calls none (some x) e = unfold query in inl refl
      at_calls none none (some x) = unfold query in inl refl
      at_calls none none none =
          unfold query in
          at_hash (compute_row_hash crypto (chained_input crypto t c event_id s)) refl

  caught-Outcome :
      (faults : Faults) (event_id : String) (c : Checked) (s : t.State)
      (r : Result LedgerError EventRow × Session t.State)
      → Left faults event_id c s r
      → Left faults event_id c s (caught crypto t faults r)
  unfolding caught
  caught-Outcome faults event_id c s (ok row, x) h = h
  caught-Outcome faults event_id c s (err e, x) h = h

  -- What became of the table, for the whole method.
  abbrev pub AppendOutcome :
      Faults
      → String
      → AppendRequest
      → Pool t.State
      → Result LedgerError EventRow × Pool t.State
      → Type 0
  AppendOutcome faults event_id request pool r =
      ((e : LedgerError) × (r.0 ≡ err e) × (r.1.table ≡ pool.table))
      ⊎ ((c : Checked) × (check_request request ≡ ok c)
          × Outcome faults event_id c pool.table r.0 r.1.table)

  pub append_event-Outcome :
      (faults : Faults) (event_id : String) (request : AppendRequest) (pool : Pool t.State)
      → AppendOutcome faults event_id request pool
          (append_event crypto t faults event_id request pool)
  append_event-Outcome faults event_id request pool =
      unfold append_event in at_check (check_request request) refl
    where
      at_connect :
          (connect : Option DbError) (c : Checked)
          → check_request request ≡ ok c
          → AppendOutcome faults event_id request pool
              (connected crypto t connect faults event_id pool c)
      at_connect (some e) c eq = unfold connected in inl (LedgerError.database e, refl, refl)
      at_connect none c eq =
          unfold connected released release checked_out in
          inr (
            c,
            eq,
            caught-Outcome faults event_id c pool.table
                (transaction crypto t faults event_id c (new_session pool.table))
                (transaction-Outcome faults event_id c pool.table),
          )

      at_check :
          (m : Result LedgerError Checked)
          → check_request request ≡ m
          → AppendOutcome faults event_id request pool (appended crypto t faults event_id pool m)
      at_check (err e) eq = unfold appended in inl (e, refl, refl)
      at_check (ok c) eq = unfold appended in at_connect faults.connect c eq
