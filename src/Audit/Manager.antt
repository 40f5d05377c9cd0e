-- ===== src/Audit/Manager.antt =====
-- lib/audit-manager.js: `AuditManager`. Evidence is a JSON object, and a signature a buffer, as the
-- two methods document.
use tanden_trust_audit_poc.Base.{
  String, Bool, true, false, not, ◌||◌, Option, none, some, Result, ok, err, if◌then◌else◌, or_null,
}
use tanden_trust_audit_poc.Json.{Json, Fields, null, bool, str, obj, end, field, get_field}
use tanden_trust_audit_poc.Platform.{Crypto, Ecdsa, Bytes}
use tanden_trust_audit_poc.Ledger.Row.{LedgerError}
use tanden_trust_audit_poc.Ledger.Table.{Table}
use tanden_trust_audit_poc.Ledger.Logger.{AppendRequest, EventRow, Faults, Pool, append_event}
use tanden_trust_audit_poc.Signing.Provider.{Signed, Verdict, SigningProvider}

-- `value ?? null`, as a JSON value.
abbrev pub text_or_null : Option String → Json
text_or_null none = null
text_or_null (some s) = str s

abbrev pub value_or_null : Option Json → Json
value_or_null none = null
value_or_null (some v) = v

-- The argument of `appendEvent`.
abbrev pub event : String → Json → String → AppendRequest
event event_type payload signature = record {
  event_type = some (str event_type);
  payload = some payload;
  signature = some (str signature);
}

-- The payload of `signAndRecord`: no member of the evidence but its id.
unfoldable pub signed_payload : Fields → Signed → Json
signed_payload evidence signed = obj (
    field "evidenceId" (value_or_null (get_field "evidenceId" evidence)) (
      field "digestHex" (str signed.digest_hex) (
        field "canonicalization" (str signed.canonicalization) (
          field "hashAlgorithm" (str signed.hash_algorithm) (
            field "signatureAlgorithm" (str signed.signature_algorithm)
              (field "kmsKeyId" (text_or_null signed.kms_key_id) end))))))

-- `verifyResult`, also the one that stands for a provider that threw.
pub record VerifyOutcome : Type 0 where
  pub digest_hex : Option String
  pub valid : Bool
  pub kms_key_id : Option String
  pub verification_error : Option String

unfoldable pub verify_outcome : {E : Type 0} → (E → String) → Result E Verdict → VerifyOutcome
verify_outcome message (ok v) = record {
  digest_hex = some v.digest_hex;
  valid = v.valid;
  kms_key_id = v.kms_key_id;
  verification_error = none;
}
verify_outcome message (err e) = record {
  digest_hex = none;
  valid = false;
  kms_key_id = none;
  verification_error = some (message e);
}

unfoldable pub provider_threw : {E : Type 0} → Result E Verdict → Bool
provider_threw (ok v) = false
provider_threw (err e) = true

unfoldable pub verify_event_type : Bool → Bool → String
verify_event_type threw valid =
    if threw
    then "evidence.verification_error"
    else (if valid then "evidence.verified" else "evidence.tamper_detected")

-- The member `error`, which only a provider that threw adds.
unfoldable pub error_member : Bool → Option String → Fields
error_member true e = field "error" (text_or_null e) end
error_member false e = end

unfoldable pub verified_payload : Fields → VerifyOutcome → Bool → Json
unfolding error_member
verified_payload evidence v threw = obj (
    field "evidenceId" (value_or_null (get_field "evidenceId" evidence)) (
      field "digestHex" (text_or_null v.digest_hex) (
        field "valid" (bool v.valid) (
          field "kmsKeyId" (text_or_null v.kms_key_id) (error_member threw v.verification_error)))))

module _ (crypto : Crypto) (ecdsa : Ecdsa) (t : Table) (p : SigningProvider) where
  -- The two collaborators of the manager.
  pub record Manager : Type 0 where
    pub provider : p.State
    pub ledger : Pool t.State

  -- `AuditLedgerWriteError`, with its `signResult` and its cause.
  pub data AuditError (A : Type 0) : Type 0 where
    provider_error : p.Error → AuditError A
    ledger_write_failed : A → LedgerError → AuditError A

  -- `try { ledgerRow = await appendEvent(…) } catch`, around a result of type A.
  unfoldable pub recorded :
      {A B : Type 0}
      → (A → EventRow → B)
      → A
      → p.State
      → Result LedgerError EventRow × Pool t.State
      → Result (AuditError A) B × Manager
  recorded answer a s (ok row, pool) = (ok (answer a row), record { provider = s; ledger = pool })
  recorded answer a s (err e, pool) =
      (err (ledger_write_failed a e), record { provider = s; ledger = pool })

  unfoldable pub record_signed :
      Faults
      → String
      → Fields
      → Pool t.State
      → Result p.Error Signed × p.State
      → Result (AuditError Signed) (Signed × EventRow) × Manager
  unfolding recorded
  record_signed faults event_id evidence pool (err e, s) =
      (err (provider_error e), record { provider = s; ledger = pool })
  record_signed faults event_id evidence pool (ok signed, s) =
      recorded (λ a row. (a, row)) signed s
        (append_event crypto t faults event_id
          (event "evidence.signed" (signed_payload evidence signed) signed.signature_base64) pool)

  unfoldable pub sign_and_record :
      Faults
      → String
      → Fields
      → Option String
      → Manager
      → Result (AuditError Signed) (Signed × EventRow) × Manager
  unfolding record_signed
  sign_and_record faults event_id evidence private_key_pem m =
      record_signed faults event_id evidence m.ledger
        (p.sign_evidence (obj evidence) (or_null private_key_pem) m.provider)

  -- What follows the call of the provider.
  unfoldable pub record_verified :
      Faults
      → String
      → Fields
      → Bytes
      → Bool
      → Pool t.State
      → Result p.Error Verdict × p.State
      → Result (AuditError VerifyOutcome) (VerifyOutcome × Option EventRow) × Manager
  unfolding recorded
  record_verified faults event_id evidence signature record_success pool (r, s) =
      let v = verify_outcome p.error_message r in
      let threw = provider_threw r in
      let kind = verify_event_type threw v.valid in
      let payload = verified_payload evidence v threw in
      if threw || not v.valid || record_success
      then recorded (λ a row. (a, some row)) v s
          (append_event crypto t faults event_id (event kind payload (ecdsa.to_base64 signature))
            pool)
      else (ok (v, none), record { provider = s; ledger = pool })

  unfoldable pub verify_and_record :
      Faults
      → String
      → Fields
      → Bytes
      → Option String
      → Bool
      → Manager
      → Result (AuditError VerifyOutcome) (VerifyOutcome × Option EventRow) × Manager
  unfolding record_verified
  verify_and_record faults event_id evidence signature public_key_pem record_success m =
      record_verified faults event_id evidence signature record_success m.ledger
        (p.verify_evidence_signature (obj evidence) signature (or_null public_key_pem) m.provider)
