-- ===== src/Ledger/Appended.antt =====
-- lib/pg-signing-logger.js: the row that a successful `appendEvent` adds.
use tanden_trust_audit_poc.Base.{String, some, ok, ◌≡◌, refl, [], ◌∷◌, ◌++◌}
use tanden_trust_audit_poc.Json.{Json, str}
use tanden_trust_audit_poc.Platform.{Crypto}
use tanden_trust_audit_poc.Ledger.Row.{Row}
use tanden_trust_audit_poc.Ledger.Table.{Table, IsLawful, inserted_row}
use tanden_trust_audit_poc.Ledger.Logger.{
  AppendRequest, EventRow, Faults, Pool, chained_input, append_event,
}
use tanden_trust_audit_poc.Ledger.Accepted.{check_request-eq}
use tanden_trust_audit_poc.Ledger.Session.{returned}
use tanden_trust_audit_poc.Ledger.Results.{append_event-Appends}

module _ (crypto : Crypto) (t : Table) where
  -- A successful `appendEvent` has added one row, behind the others: that of the request, under the
  -- returned id and hash.
  pub record AddsRow (request : AppendRequest) (event_id : String) (s s' : t.State)
      (answer : EventRow) : Type 0 where
    pub row : Row
    pub payload : Json
    pub added : t.select_rows s' ≡ t.select_rows s ++ row ∷ []
    pub named : row.event_id ≡ event_id
    pub typed : request.event_type ≡ some (str row.event_type)
    pub given : request.payload ≡ some payload
    pub stored : row.payload ≡ t.stored payload
    pub signed : request.signature ≡ some (str row.signature)
    pub answer_id : answer.event_id ≡ event_id
    pub answer_hash : answer.row_hash ≡ row.row_hash

  pub append_event-AddsRow :
      (faults : Faults) (event_id : String) (request : AppendRequest) (pool pool' : Pool t.State)
      (answer : EventRow) (laws : IsLawful crypto t)
      → append_event crypto t faults event_id request pool ≡ (ok answer, pool')
      → AddsRow request event_id pool.table pool'.table answer
  append_event-AddsRow faults event_id request pool pool' answer laws h =
      let a = append_event-Appends crypto t faults event_id request pool pool' answer h in
      let input = chained_input crypto t a.checked event_id pool.table in
      let (typed, given, signed) = check_request-eq request a.checked a.accepted in
      record {
        row = inserted_row t input answer.row_hash a.inserts.inserted;
        payload = a.checked.payload;
        added =
            laws.insert_lem pool.table input answer.row_hash pool'.table a.inserts.inserted
              a.inserts.stored;
        named = refl;
        typed = typed;
        given = given;
        stored = refl;
        signed = signed;
        answer_id = rw a.answer (unfold returned in refl);
        answer_hash = refl;
      }
