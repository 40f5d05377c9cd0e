-- ===== src/Audit/Recorded.antt =====
-- lib/audit-manager.js: what `verifyAndRecord` leaves in the ledger, on every branch.
use tanden_trust_audit_poc.Base.{
  String, Bool, true, false, Option, none, some, Result, ok, err, ◌≡◌, refl, if◌then◌else◌, or_null,
}
use tanden_trust_audit_poc.Json.{Fields, obj}
use tanden_trust_audit_poc.Platform.{Crypto, Ecdsa, Bytes}
use tanden_trust_audit_poc.Ledger.Row.{LedgerError}
use tanden_trust_audit_poc.Ledger.Table.{Table, IsLawful}
use tanden_trust_audit_poc.Ledger.Logger.{AppendRequest, EventRow, Faults, Pool, append_event}
use tanden_trust_audit_poc.Ledger.Results.{Leaves, append_event-Leaves}
use tanden_trust_audit_poc.Ledger.Appended.{AddsRow, append_event-AddsRow}
use tanden_trust_audit_poc.Signing.Provider.{Verdict, SigningProvider}
use tanden_trust_audit_poc.Audit.Manager.{
  event, VerifyOutcome, verify_outcome, provider_threw, verify_event_type, verified_payload,
  Manager, AuditError, provider_error, ledger_write_failed, recorded, record_verified,
  verify_and_record,
}

module _ (crypto : Crypto) (ecdsa : Ecdsa) (t : Table) (p : SigningProvider) where
  abbrev VerifyAnswer : Type 0
  VerifyAnswer =
      Result (AuditError crypto ecdsa t p VerifyOutcome) (VerifyOutcome × Option EventRow)

  -- The event that a verification must leave behind: a provider that threw, and a signature that
  -- is not valid, are told apart.
  abbrev pub expected_event : Result p.Error Verdict → String
  expected_event (err e) = "evidence.verification_error"
  expected_event (ok v) = if v.valid then "evidence.verified" else "evidence.tamper_detected"

  -- What `verifyAndRecord` adds.
  abbrev pub verified_event : Fields → Bytes → Result p.Error Verdict → AppendRequest
  verified_event evidence signature answer =
      event (expected_event answer)
        (verified_payload evidence (verify_outcome p.error_message answer) (provider_threw answer))
        (ecdsa.to_base64 signature)

  -- What a call of `verifyAndRecord` has done, given the provider's answer.
  abbrev pub VerifyAccounted :
      Faults
      → String
      → Fields
      → Bytes
      → Bool
      → Pool t.State
      → Result p.Error Verdict
      → VerifyAnswer × Manager crypto ecdsa t p
      → Type 0
  VerifyAccounted faults event_id evidence signature record_success pool answer (ok (v, none), m) =
      (v ≡ verify_outcome p.error_message answer)
      × (v.valid ≡ true)
      × (record_success ≡ false)
      × (m.ledger ≡ pool)
  VerifyAccounted faults event_id evidence signature record_success pool answer
        (ok (v, some row), m) =
      (v ≡ verify_outcome p.error_message answer)
      × AddsRow crypto t (verified_event evidence signature answer) event_id pool.table
          m.ledger.table row
  VerifyAccounted faults event_id evidence signature record_success pool answer
        (err (ledger_write_failed v e), m) =
      (v ≡ verify_outcome p.error_message answer)
      × Leaves crypto t faults event_id pool.table m.ledger.table
  VerifyAccounted faults event_id evidence signature record_success pool answer
        (err (provider_error e), m) =
      ⊥

  -- `verifyAndRecord` returns without an event only for a signature that the provider found valid,
  -- and not under `recordSuccess`. Any other result comes with one new event, of the type that
  -- tells a provider that threw from a signature that is not valid; if it cannot be appended, the
  -- call throws an error that carries the result, and the ledger is as it was, unless the server
  -- had applied the COMMIT whose answer was lost. The provider's own error never escapes.
  pub verify_and_record-VerifyAccounted :
      (faults : Faults) (event_id : String) (evidence : Fields) (signature : Bytes)
      (pem : Option String) (record_success : Bool) (m : Manager crypto ecdsa t p)
      → IsLawful crypto t
      → VerifyAccounted faults event_id evidence signature record_success m.ledger
          (p.verify_evidence_signature (obj evidence) signature (or_null pem) m.provider).0
          (verify_and_record crypto ecdsa t p faults event_id evidence signature pem record_success
            m)
  unfolding verify_and_record
  verify_and_record-VerifyAccounted faults event_id evidence signature pem record_success m laws =
      at_answer (p.verify_evidence_signature (obj evidence) signature (or_null pem) m.provider)
        record_success
    where
      at_append :
          (success : Bool) (answer : Result p.Error Verdict) (s : p.State)
          (r : Result LedgerError EventRow × Pool t.State)
          → append_event crypto t faults event_id
              (verified_event evidence signature answer)
              m.ledger
            ≡ r
          → VerifyAccounted faults event_id evidence signature success m.ledger answer (
              recorded crypto ecdsa t p
                (λ a row. (a, some row))
                (verify_outcome p.error_message answer)
                s
                r)
      at_append success answer s (ok row, pool) eq =
          unfold recorded in
          (
            refl,
            append_event-AddsRow crypto t faults event_id (verified_event evidence signature answer)
                m.ledger pool row laws eq,
          )
      at_append success answer s (err e, pool) eq =
          unfold recorded in
          (
            refl,
            append_event-Leaves crypto t faults event_id (verified_event evidence signature answer)
                m.ledger pool e laws eq,
          )

      run : Result p.Error Verdict → Result LedgerError EventRow × Pool t.State
      run answer =
          append_event crypto t faults event_id (verified_event evidence signature answer) m.ledger

      at_valid :
          (digest : String) (key : Option String) (s : p.State) (valid success : Bool)
          → VerifyAccounted faults event_id evidence signature success m.ledger
              (ok (record { digest_hex = digest; valid = valid; kms_key_id = key }))
              (record_verified crypto ecdsa t p faults event_id evidence signature success m.ledger
                (ok (record { digest_hex = digest; valid = valid; kms_key_id = key }), s))
      at_valid digest key s true true =
          let v : Verdict = record { digest_hex = digest; valid = true; kms_key_id = key } in
          unfold record_verified provider_threw verify_event_type verify_outcome in
          at_append true (ok v) s (run (ok v)) refl
      at_valid digest key s true false =
          unfold record_verified provider_threw verify_event_type verify_outcome in
          (refl, refl, refl, refl)
      at_valid digest key s false success =
          let v : Verdict = record { digest_hex = digest; valid = false; kms_key_id = key } in
          unfold record_verified provider_threw verify_event_type verify_outcome in
          at_append success (ok v) s (run (ok v)) refl

      at_answer :
          (r : Result p.Error Verdict × p.State) (success : Bool)
          → VerifyAccounted faults event_id evidence signature success m.ledger r.0 (
              record_verified crypto ecdsa t p faults event_id evidence signature success m.ledger
                r)
      at_answer (err e, s) success =
          unfold record_verified provider_threw verify_event_type verify_outcome in
          at_append success (err e) s (run (err e)) refl
      at_answer (ok v, s) success = at_valid v.digest_hex v.kms_key_id s v.valid success
