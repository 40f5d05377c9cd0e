-- ===== src/Processing/Service.antt =====
-- lib/evidence-processing-service.js: `EvidenceProcessingService.processEvidence`. The check of the
-- schema is that of the Ajv package, and `number_text` is JavaScript's text of an integer; both are
-- parameters. Evidence is a JSON object.
use tanden_trust_audit_poc.Base.{
  ℕ, String, Bool, true, false, Option, none, some, List, Result, ok, err, Number, or_null,
}
use tanden_trust_audit_poc.Json.{Json, Fields, null, num, str, obj, end, field, get_field}
use tanden_trust_audit_poc.Platform.{Crypto}
use tanden_trust_audit_poc.Ledger.Row.{LedgerError}
use tanden_trust_audit_poc.Ledger.Table.{Table}
use tanden_trust_audit_poc.Ledger.Logger.{AppendRequest, EventRow, Faults, Pool, append_event}
use tanden_trust_audit_poc.Signing.Provider.{Signed, SigningProvider}
use tanden_trust_audit_poc.Store.Request.{StoreError, StoreRequest, assert_valid_version}
use tanden_trust_audit_poc.Store.Table.{VersionTable}
use tanden_trust_audit_poc.Store.Methods.{Stored, Link, append_evidence}

abbrev pub evidence_stored_event_type : String
evidence_stored_event_type = "evidence.stored"

abbrev pub key_id_or_null : Option String → Json
key_id_or_null none = null
key_id_or_null (some s) = str s

-- The argument of `appendEvidence`.
abbrev pub store_request : Fields → Option Number → Signed → StoreRequest
store_request evidence version signed = record {
  evidence_id = get_field "evidenceId" evidence;
  version = version;
  evidence = some (obj evidence);
  canonicalization = some (str signed.canonicalization);
  hash_algorithm = some (str signed.hash_algorithm);
  digest_hex = some (str signed.digest_hex);
  signature = some (str signed.signature_base64);
  signing_algorithm = some (str signed.signature_algorithm);
  kms_key_id = signed.kms_key_id;
}

-- What `processEvidence` returns; `storeReference` is the result of the store.
pub record Processed : Type 0 where
  pub evidence_id : String
  pub version : ℕ
  pub digest : String
  pub canonicalization : String
  pub hash_algorithm : String
  pub signature_algorithm : String
  pub kms_key_id : Option String
  pub signed_at : Option String
  pub store_reference : Stored
  pub ledger_event_id : String

unfoldable pub processed : Signed → Stored → EventRow → Processed
processed signed stored row = record {
  evidence_id = stored.evidence_id;
  version = stored.version;
  digest = signed.digest_hex;
  canonicalization = signed.canonicalization;
  hash_algorithm = signed.hash_algorithm;
  signature_algorithm = signed.signature_algorithm;
  kms_key_id = signed.kms_key_id;
  signed_at = signed.signed_at;
  store_reference = stored;
  ledger_event_id = row.event_id;
}

-- What validateEvidenceAgainstSchema returns.
pub record Validation : Type 0 where
  pub is_valid : Bool
  pub errors : List String

module _ (number_text : ℕ → String) where
  abbrev pub ledger_payload_fields : Signed → Stored → Fields
  ledger_payload_fields signed stored = field "evidenceId" (str stored.evidence_id) (
      field "version" (num (number_text stored.version)) (
        field "digestHex" (str signed.digest_hex) (
          field "canonicalization" (str signed.canonicalization) (
            field "hashAlgorithm" (str signed.hash_algorithm) (
              field "signatureAlgorithm" (str signed.signature_algorithm) (
                field "kmsKeyId" (key_id_or_null signed.kms_key_id) (
                  field "storeReference"
                    (obj (
                      field "id" (num (number_text stored.id)) (
                        field "evidenceId" (str stored.evidence_id) (
                          field "version" (num (number_text stored.version)) (
                            field "digestHex" (str stored.digest_hex)
                              (field "createdAt" (str stored.created_at) end))))))
                    end)))))))

  abbrev pub create_ledger_request : Signed → Stored → AppendRequest
  create_ledger_request signed stored = record {
    event_type = some (str evidence_stored_event_type);
    payload = some (obj (ledger_payload_fields signed stored));
    signature = some (str signed.signature_base64);
  }

  module _ (crypto : Crypto) (l : Table) (t : VersionTable) (p : SigningProvider)
      (validate : Json → Validation) where
    -- The errors of `processEvidence`. `EvidenceLedgerWriteError` carries the request with which the
    -- ledger write can be tried again.
    pub data ProcessingError : Type 0 where
      validation_failed : List String → ProcessingError
      version_refused : StoreError → ProcessingError
      signing_failed : p.Error → ProcessingError
      store_write_failed : Signed → StoreError → ProcessingError
      ledger_write_failed : Signed → Stored → AppendRequest → LedgerError → ProcessingError

    -- The collaborators of the service.
    pub record Service : Type 0 where
      pub provider : p.State
      pub store : t.State
      pub ledger : Pool l.State

    -- What happens around one call: the connection of the store, the failures of the ledger's calls
    -- and the UUID that it draws.
    pub record Surroundings : Type 0 where
      pub link : Link
      pub faults : Faults
      pub event_id : String

    -- The answer of the ledger.
    unfoldable pub ledger_written :
        Signed
        → Stored
        → p.State
        → t.State
        → Result LedgerError EventRow × Pool l.State
        → Result ProcessingError Processed × Service
    unfolding processed
    ledger_written signed stored s store (ok row, ledger) =
        (ok (processed signed stored row), record { provider = s; store = store; ledger = ledger })
    ledger_written signed stored s store (err e, ledger) = (
      err (ledger_write_failed signed stored (create_ledger_request signed stored) e),
      record { provider = s; store = store; ledger = ledger },
    )

    -- The answer of the store.
    unfoldable pub store_written :
        Surroundings
        → Signed
        → p.State
        → Pool l.State
        → Result StoreError Stored × t.State
        → Result ProcessingError Processed × Service
    store_written x signed s ledger (err e, store) =
        (err (store_write_failed signed e), record { provider = s; store = store; ledger = ledger })
    store_written x signed s ledger (ok stored, store) =
        ledger_written signed stored s store
          (append_event crypto l x.faults x.event_id (create_ledger_request signed stored) ledger)

    -- The answer of the signing provider.
    unfoldable pub evidence_signed :
        Surroundings
        → Fields
        → Option Number
        → t.State
        → Pool l.State
        → Result p.Error Signed × p.State
        → Result ProcessingError Processed × Service
    evidence_signed x evidence version store ledger (err e, s) =
        (err (signing_failed e), record { provider = s; store = store; ledger = ledger })
    evidence_signed x evidence version store ledger (ok signed, s) =
        store_written x signed s ledger
          (append_evidence t x.link (store_request evidence version signed) store)

    unfoldable pub version_checked :
        Surroundings
        → Fields
        → Option Number
        → Option String
        → Service
        → Result StoreError ℕ
        → Result ProcessingError Processed × Service
    version_checked x evidence version pem s (err e) = (err (version_refused e), s)
    version_checked x evidence version pem s (ok n) =
        evidence_signed x evidence version s.store s.ledger
          (p.sign_evidence (obj evidence) (or_null pem) s.provider)

    unfoldable pub schema_checked :
        Surroundings
        → Fields
        → Option Number
        → Option String
        → Service
        → Bool
        → List String
        → Result ProcessingError Processed × Service
    schema_checked x evidence version pem s false errors = (err (validation_failed errors), s)
    schema_checked x evidence version pem s true errors =
        version_checked x evidence version pem s (assert_valid_version version)

    unfoldable pub process_evidence :
        Surroundings
        → Fields
        → Option Number
        → Option String
        → Service
        → Result ProcessingError Processed × Service
    process_evidence x evidence version private_key_pem s =
        schema_checked x evidence version private_key_pem s (validate (obj evidence)).is_valid
          (validate (obj evidence)).errors
