-- ===== src/Processing/Confirmed.antt =====
-- lib/evidence-processing-service.js with lib/internal-ledger-verifier.js: processed evidence is
-- confirmed by the internal ledger.
use tanden_trust_audit_poc.Base.{
  ℕ, String, true, false, Option, none, ok, Number, ◌≡◌, is_empty, is_sha256_hex,
}
use tanden_trust_audit_poc.Json.{Json, Fields}
use tanden_trust_audit_poc.Platform.{Crypto}
use tanden_trust_audit_poc.Ledger.Table.{Table, IsLawful}
use tanden_trust_audit_poc.Ledger.Readers.{assert_valid_event_id, find_event}
use tanden_trust_audit_poc.Ledger.Append.{IsIntact}
use tanden_trust_audit_poc.Ledger.Appended.{append_event-AddsRow}
use tanden_trust_audit_poc.Signing.Provider.{SigningProvider}
use tanden_trust_audit_poc.Store.Table.{VersionTable, IsVersionTable}
use tanden_trust_audit_poc.Store.Methods.{map_stored_row}
use tanden_trust_audit_poc.Store.Accepted.{checked-IsAccepted, checked-IsKey, accepted_id-not_empty}
use tanden_trust_audit_poc.Store.WriteOnce.{append_evidence-answers}
use tanden_trust_audit_poc.Anchor.InternalLedger.{confirmed, verify_recorded_evidence}
use tanden_trust_audit_poc.Processing.Accounted.{same_text}
use tanden_trust_audit_poc.Processing.Service.{
  Processed, Validation, Service, Surroundings, store_request, create_ledger_request, processed,
  process_evidence,
}
use tanden_trust_audit_poc.Processing.Event.{KeepsTexts, appended-confirmed}
use tanden_trust_audit_poc.Processing.Processes.{process_evidence-Processes}

module _ (number_text : ℕ → String) (crypto : Crypto) (l : Table) (t : VersionTable)
    (p : SigningProvider) (validate : Json → Validation) where
  -- Evidence that `processEvidence` has processed is confirmed by `verifyRecordedEvidence`, asked
  -- for the event, the id and the digest that the result names: on an intact ledger, for a new UUID,
  -- a JSONB column that keeps texts, and a SHA-256 that gives 64 hexadecimal digits.
  pub process_evidence-confirmed :
      (x : Surroundings number_text crypto l t p validate) (evidence : Fields)
      (version : Option Number) (pem : Option String)
      (s s' : Service number_text crypto l t p validate) (result : Processed)
      (laws : IsLawful crypto l) (store_laws : IsVersionTable crypto t)
      → IsIntact crypto l laws s.ledger.table
      → assert_valid_event_id x.event_id ≡ ok tt
      → find_event x.event_id (l.select_rows s.ledger.table) ≡ none
      → KeepsTexts l
      → ((text : crypto.CanonicalText) → is_sha256_hex (crypto.sha256_hex text) ≡ true)
      → process_evidence number_text crypto l t p validate x evidence version pem s
        ≡ (ok result, s')
      → (row_hash : String) × (verify_recorded_evidence crypto l none s'.ledger
            result.ledger_event_id result.evidence_id result.digest
          ≡ ok (confirmed x.event_id row_hash))
  process_evidence-confirmed x evidence version pem s s' result laws store_laws intact uuid fresh
        keeps sha h =
      let done =
        process_evidence-Processes number_text crypto l t p validate x evidence version pem s s'
          result h in
      let (new, a, checked, inserted, same) =
        append_evidence-answers crypto t store_laws x.link
          (store_request evidence version done.signed) s.store s'.store done.stored done.stores in
      let request = store_request evidence version done.signed in
      let accepted = checked-IsAccepted request new checked in
      let id : is_empty done.stored.evidence_id ≡ false = rw same (
        unfold map_stored_row in
        accepted_id-not_empty new.evidence_id (checked-IsKey request new checked).id_accepted) in
      let digest : is_sha256_hex done.signed.digest_hex ≡ true =
        rw (← same_text accepted.same_digest) accepted.is_digest in
      let named =
        (append_event-AddsRow crypto l x.faults x.event_id
          (create_ledger_request number_text done.signed done.stored) s.ledger s'.ledger done.row
          laws done.appends).answer_id in
      (
        done.row.row_hash,
        rw done.answer (
            unfold processed in
            rw named (
              appended-confirmed number_text crypto l t p validate x done.signed done.stored
                s.ledger s'.ledger done.row laws intact uuid fresh keeps sha id digest
                done.appends)),
      )
