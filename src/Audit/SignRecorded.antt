-- ===== src/Audit/SignRecorded.antt =====
-- lib/audit-manager.js: what `signAndRecord` leaves in the ledger, on every branch.
use tanden_trust_audit_poc.Base.{String, false, Option, Result, ok, err, ◌≡◌, refl, or_null}
use tanden_trust_audit_poc.Json.{Fields, obj}
use tanden_trust_audit_poc.Platform.{Crypto, Ecdsa}
use tanden_trust_audit_poc.Ledger.Row.{LedgerError}
use tanden_trust_audit_poc.Ledger.Table.{Table, IsLawful}
use tanden_trust_audit_poc.Ledger.Logger.{EventRow, Faults, Pool, append_event}
use tanden_trust_audit_poc.Ledger.Results.{append_event_error}
use tanden_trust_audit_poc.Ledger.Appended.{AddsRow, append_event-AddsRow}
use tanden_trust_audit_poc.Signing.Provider.{Signed, SigningProvider}
use tanden_trust_audit_poc.Audit.Manager.{
  event, signed_payload, Manager, AuditError, provider_error, ledger_write_failed, recorded,
  record_signed, sign_and_record,
}

module _ (crypto : Crypto) (ecdsa : Ecdsa) (t : Table) (p : SigningProvider) where
  abbrev SignAnswer : Type 0
  SignAnswer = Result (AuditError crypto ecdsa t p Signed) (Signed × EventRow)

  -- What a call of `signAndRecord` has done, given the provider's answer: the event of the
  -- signature was added; or the provider threw; or the signature is in the error, and the ledger is
  -- as it was.
  abbrev pub SignAccounted :
      String
      → Fields
      → Pool t.State
      → Result p.Error Signed
      → SignAnswer × Manager crypto ecdsa t p
      → Type 0
  SignAccounted event_id evidence pool answer (ok (signed, row), m) =
      (answer ≡ ok signed)
      × AddsRow crypto t
          (event "evidence.signed" (signed_payload evidence signed) signed.signature_base64)
          event_id pool.table m.ledger.table row
  SignAccounted event_id evidence pool answer (err (provider_error e), m) =
      (answer ≡ err e) × (m.ledger ≡ pool)
  SignAccounted event_id evidence pool answer (err (ledger_write_failed signed e), m) =
      (answer ≡ ok signed) × (m.ledger.table ≡ pool.table)

  -- `signAndRecord` returns only a signature whose event the ledger holds; if the event cannot be
  -- appended, the error carries the signature, and the ledger is as it was, unless the server had
  -- applied the COMMIT whose answer was lost.
  pub sign_and_record-SignAccounted :
      (faults : Faults) (event_id : String) (evidence : Fields) (pem : Option String)
      (m : Manager crypto ecdsa t p)
      → IsLawful crypto t
      → faults.commit_applied ≡ false
      → SignAccounted event_id evidence m.ledger
          (p.sign_evidence (obj evidence) (or_null pem) m.provider).0
          (sign_and_record crypto ecdsa t p faults event_id evidence pem m)
  unfolding sign_and_record record_signed
  sign_and_record-SignAccounted faults event_id evidence pem m laws lost =
      at_answer (p.sign_evidence (obj evidence) (or_null pem) m.provider)
    where
      at_append :
          (signed : Signed) (s : p.State) (r : Result LedgerError EventRow × Pool t.State)
          → append_event crypto t faults event_id
              (event "evidence.signed" (signed_payload evidence signed) signed.signature_base64)
              m.ledger
            ≡ r
          → SignAccounted event_id evidence m.ledger
              (ok signed)
              (recorded crypto ecdsa t p (λ a row. (a, row)) signed s r)
      at_append signed s (ok row, pool) eq =
          unfold recorded in
          (
            refl,
            append_event-AddsRow crypto t faults event_id
                (event "evidence.signed" (signed_payload evidence signed) signed.signature_base64)
                m.ledger pool row laws eq,
          )
      at_append signed s (err e, pool) eq =
          unfold recorded in
          (
            refl,
            append_event_error crypto t faults event_id
                (event "evidence.signed" (signed_payload evidence signed) signed.signature_base64)
                m.ledger pool e lost eq,
          )

      at_answer :
          (r : Result p.Error Signed × p.State)
          → SignAccounted event_id evidence m.ledger r.0
              (record_signed crypto ecdsa t p faults event_id evidence m.ledger r)
      at_answer (err e, s) = (refl, refl)
      at_answer (ok signed, s) =
          at_append signed s
            (append_event crypto t faults event_id
              (event "evidence.signed" (signed_payload evidence signed) signed.signature_base64)
              m.ledger)
            refl
