-- ===== src/Audit/Unrecorded.antt =====
-- lib/audit-manager.js: a failed verification that the ledger refuses to record.
use tanden_trust_audit_poc.Base.{
  String, Bool, true, false, Option, some, Result, ok, err, ◌≡◌, refl, arith, or_null, is_empty,
}
use tanden_trust_audit_poc.Json.{Json, Fields, obj}
use tanden_trust_audit_poc.Platform.{Crypto, Ecdsa, Bytes}
use tanden_trust_audit_poc.Ledger.Row.{invalid_signature}
use tanden_trust_audit_poc.Ledger.Table.{Table}
use tanden_trust_audit_poc.Ledger.Logger.{AppendRequest, EventRow, Faults, Pool, append_event}
use tanden_trust_audit_poc.Signing.Provider.{Verdict, SigningProvider}
use tanden_trust_audit_poc.Audit.Manager.{
  event, VerifyOutcome, verify_outcome, provider_threw, verify_event_type, verified_payload,
  Manager, AuditError, ledger_write_failed, recorded, record_verified, verify_and_record,
}
use tanden_trust_audit_poc.Audit.Recorded.{verified_event}

module _ (crypto : Crypto) (ecdsa : Ecdsa) (t : Table) (p : SigningProvider) where
  append_event-empty :
      (faults : Faults) (event_id kind : String) (payload : Json) (signature : String)
      (pool : Pool t.State)
      → is_empty kind ≡ false
      → signature ≡ ""
      → append_event crypto t faults event_id (event kind payload signature) pool
        ≡ (err invalid_signature, pool)
  append_event-empty faults event_id kind payload signature pool typed empty =
      unfold append_event in rw (empty, typed) refl

  -- A failed verification of a signature whose base64 text is empty, that of an empty buffer, is
  -- not recorded: `appendEvent` refuses the event, and the call throws.
  pub verify_and_record-empty_signature :
      (faults : Faults) (event_id : String) (evidence : Fields) (signature : Bytes)
      (pem : Option String) (record_success : Bool) (m : Manager crypto ecdsa t p)
      → (verify_outcome p.error_message
          (p.verify_evidence_signature (obj evidence) signature (or_null pem) m.provider).0).valid
        ≡ false
      → ecdsa.to_base64 signature ≡ ""
      → (v : VerifyOutcome) × ((verify_and_record crypto ecdsa t p faults event_id evidence
            signature pem record_success m).0
          ≡ err (ledger_write_failed v invalid_signature))
        × ((verify_and_record crypto ecdsa t p faults event_id evidence signature pem record_success
              m).1.ledger
            ≡ m.ledger)
  unfolding verify_and_record
  verify_and_record-empty_signature faults event_id evidence signature pem record_success m failed
        empty =
      at_answer (p.verify_evidence_signature (obj evidence) signature (or_null pem) m.provider)
        failed
    where
      Unrecorded :
          Result (AuditError crypto ecdsa t p VerifyOutcome) (VerifyOutcome × Option EventRow)
            × Manager crypto ecdsa t p
          → Type 0
      Unrecorded r =
          (v : VerifyOutcome) × (r.0 ≡ err (ledger_write_failed v invalid_signature))
          × (r.1.ledger ≡ m.ledger)

      at_append :
          (v : VerifyOutcome) (s : p.State) (request : AppendRequest)
          → append_event crypto t faults event_id request m.ledger
            ≡ (err invalid_signature, m.ledger)
          → Unrecorded (
              recorded crypto ecdsa t p
                (λ a row. (a, some row))
                v
                s
                (append_event crypto t faults event_id request m.ledger))
      at_append v s request refused = rw refused (unfold recorded in (v, refl, refl))

      at_invalid :
          (digest : String) (key : Option String) (s : p.State) (valid : Bool)
          → valid ≡ false
          → Unrecorded (
              record_verified crypto ecdsa t p faults event_id evidence signature record_success
                m.ledger
                (ok (record { digest_hex = digest; valid = valid; kms_key_id = key }), s))
      at_invalid digest key s true good = absurd (ground arith)
      at_invalid digest key s false bad =
          let v : Verdict = record { digest_hex = digest; valid = false; kms_key_id = key } in
          unfold record_verified provider_threw verify_event_type verify_outcome in
          at_append (verify_outcome p.error_message (ok v)) s
            (verified_event crypto ecdsa t p evidence signature (ok v))
            (append_event-empty faults event_id "evidence.tamper_detected"
              (verified_payload evidence (verify_outcome p.error_message (ok v)) false)
              (ecdsa.to_base64 signature) m.ledger refl empty)

      at_answer :
          (r : Result p.Error Verdict × p.State)
          → (verify_outcome p.error_message r.0).valid ≡ false
          → Unrecorded (
              record_verified crypto ecdsa t p faults event_id evidence signature record_success
                m.ledger r)
      at_answer (err e, s) bad =
          unfold record_verified provider_threw verify_event_type verify_outcome in
          at_append (verify_outcome p.error_message (err e)) s
            (verified_event crypto ecdsa t p evidence signature (err e))
            (append_event-empty faults event_id "evidence.verification_error"
              (verified_payload evidence (verify_outcome p.error_message (err e)) true)
              (ecdsa.to_base64 signature) m.ledger refl empty)
      at_answer (ok v, s) bad =
          at_invalid v.digest_hex v.kms_key_id s v.valid (unfold verify_outcome in bad)
