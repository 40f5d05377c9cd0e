-- ===== src/Tests/Audits.antt =====
-- Signing, verification and processing of evidence with a local key, a ledger and a store in
-- memory.
use tanden_trust_audit_poc.Base.{
  ℕ, String, true, false, none, some, List, [], ◌∷◌, ok, err, natural, ◌≡◌, refl, arith,
  is_sha256_hex,
}
use tanden_trust_audit_poc.Json.{Json, obj, get_field}
use tanden_trust_audit_poc.Platform.{Ecdsa}
use tanden_trust_audit_poc.Signing.Digest.{SigningError, get_evidence_digest_details}
use tanden_trust_audit_poc.Signing.Contract.{assert_secp256k1_key}
use tanden_trust_audit_poc.Signing.Local.{sign_raw_message, verify_raw_message_signature}
use tanden_trust_audit_poc.Signing.Provider.{SigningProvider}
use tanden_trust_audit_poc.Signing.Providers.{local_provider, local_sign, local_verify}
use tanden_trust_audit_poc.Ledger.Row.{Row, genesis_hash, compute_row_hash, invalid_signature}
use tanden_trust_audit_poc.Ledger.Table.{IsLawful}
use tanden_trust_audit_poc.Ledger.Logger.{Pool, append_event}
use tanden_trust_audit_poc.Ledger.Readers.{assert_valid_event_id, find_event}
use tanden_trust_audit_poc.Store.Request.{
  check_store_request, assert_valid_evidence_id, assert_valid_version, assert_valid_evidence,
  assert_valid_digest_hex, assert_text,
}
use tanden_trust_audit_poc.Store.Methods.{up, append_evidence}
use tanden_trust_audit_poc.Audit.Manager.{
  VerifyOutcome, verify_outcome, Manager, sign_and_record, verify_and_record, ledger_write_failed,
}
use tanden_trust_audit_poc.Audit.SignRecorded.{SignAccounted, sign_and_record-SignAccounted}
use tanden_trust_audit_poc.Audit.Recorded.{VerifyAccounted, verify_and_record-VerifyAccounted}
use tanden_trust_audit_poc.Audit.Unrecorded.{verify_and_record-empty_signature}
use tanden_trust_audit_poc.Anchor.InternalLedger.{member, confirmed, verify_recorded_evidence}
use tanden_trust_audit_poc.Processing.Service.{
  Processed, Validation, Service, Surroundings, process_evidence, schema_checked, version_checked,
  evidence_signed, store_written, ledger_written,
}
use tanden_trust_audit_poc.Processing.Accounted.{Accounted, process_evidence-Accounted}
use tanden_trust_audit_poc.Processing.Event.{KeepsTexts}
use tanden_trust_audit_poc.Processing.Confirmed.{process_evidence-confirmed}
use tanden_trust_audit_poc.Tests.Anchors.{digest, fixed, pem_keys}
use tanden_trust_audit_poc.Tests.Ledgers.{in_memory, no_faults}
use tanden_trust_audit_poc.Tests.Stores.{
  versions, versions-IsVersionTable, no_versions, evidence_fields, stored_version,
}

in_memory-IsLawful_fixed : IsLawful fixed in_memory
in_memory-IsLawful_fixed = record {
  last_lem = λ s. refl;
  insert_lem = λ s input row_hash s' i h. ground arith;
  stored_lem = λ input fields h. refl;
}

abbrev keys : Ecdsa
keys = record pem_keys { to_base64 = λ bytes. elim bytes [ [] ↦ "" | b ∷ bs ↦ "c2ln" ] }

abbrev local : SigningProvider
local = local_provider fixed keys (λ e. "signing failed")

abbrev empty_ledger : Pool (List Row)
empty_ledger = record { table = []; in_use = 0 }

abbrev manager : Manager fixed keys in_memory local
manager = record { provider = tt; ledger = empty_ledger }

sign_and_record-SignAccounted_example :
    SignAccounted fixed keys in_memory local "e1" evidence_fields empty_ledger
      (local_sign fixed keys (obj evidence_fields) (some "prv"))
      (sign_and_record fixed keys in_memory local no_faults "e1" evidence_fields
        (some "prv")
        manager)
sign_and_record-SignAccounted_example =
    sign_and_record-SignAccounted fixed keys in_memory local no_faults "e1" evidence_fields
      (some "prv") manager in_memory-IsLawful_fixed refl

-- A signature of one byte is not valid.
verify_and_record-VerifyAccounted_example :
    VerifyAccounted fixed keys in_memory local no_faults "e1" evidence_fields
      (7 ∷ [])
      false
      empty_ledger
      (local_verify fixed keys (obj evidence_fields) (7 ∷ []) (some "pub"))
      (verify_and_record fixed keys in_memory local no_faults "e1" evidence_fields
        (7 ∷ [])
        (some "pub")
        false
        manager)
verify_and_record-VerifyAccounted_example =
    verify_and_record-VerifyAccounted fixed keys in_memory local no_faults "e1" evidence_fields
      (7 ∷ []) (some "pub") false manager in_memory-IsLawful_fixed

empty_signature_invalid :
    (verify_outcome
      (λ (e : SigningError). "signing failed")
      (local_verify fixed keys (obj evidence_fields) [] (some "pub"))).valid
    ≡ false
unfolding verify_outcome local_verify get_evidence_digest_details verify_raw_message_signature
empty_signature_invalid = refl

verify_and_record-empty_signature_example :
    (v : VerifyOutcome) × ((verify_and_record fixed keys in_memory local no_faults "e1"
        evidence_fields []
        (some "pub")
        false
        manager).0
      ≡ err (ledger_write_failed v invalid_signature))
    × ((verify_and_record fixed keys in_memory local no_faults "e1" evidence_fields []
          (some "pub")
          false
          manager).1.ledger
        ≡ empty_ledger)
verify_and_record-empty_signature_example =
    verify_and_record-empty_signature fixed keys in_memory local no_faults "e1" evidence_fields []
      (some "pub") false manager empty_signature_invalid refl

abbrev uuid : String
uuid = "0a1b2c3d-0000-4000-8000-0123456789ab"

abbrev any_schema : Json → Validation
any_schema j = record { is_valid = true; errors = [] }

abbrev text_of : ℕ → String
text_of n = "2"

abbrev surroundings : Surroundings text_of fixed in_memory versions local any_schema
surroundings = record { link = up; faults = no_faults; event_id = uuid }

abbrev service : Service text_of fixed in_memory versions local any_schema
service = record { provider = tt; store = no_versions; ledger = empty_ledger }

process_evidence-Accounted_example :
    Accounted text_of fixed in_memory versions local any_schema surroundings evidence_fields
      (some (natural 2))
      service
      (local_sign fixed keys (obj evidence_fields) (some "prv"))
      (process_evidence text_of fixed in_memory versions local any_schema surroundings
        evidence_fields
        (some (natural 2))
        (some "prv")
        service)
process_evidence-Accounted_example =
    process_evidence-Accounted text_of fixed in_memory versions local any_schema surroundings
      evidence_fields (some (natural 2)) (some "prv") service in_memory-IsLawful_fixed
      versions-IsVersionTable

abbrev result : Processed
result = record {
  evidence_id = "ev-1";
  version = 2;
  digest = digest;
  canonicalization = "RFC 8785 JSON Canonicalization Scheme (JCS)";
  hash_algorithm = "SHA-256";
  signature_algorithm = "ECDSA_SHA_256";
  kms_key_id = none;
  signed_at = none;
  store_reference = stored_version;
  ledger_event_id = uuid;
}

abbrev service_after : Service text_of fixed in_memory versions local any_schema
service_after =
    (process_evidence text_of fixed in_memory versions local any_schema surroundings evidence_fields
      (some (natural 2)) (some "prv") service).1

processed_once :
    process_evidence text_of fixed in_memory versions local any_schema surroundings evidence_fields
      (some (natural 2))
      (some "prv")
      service
    ≡ (ok result, service_after)
unfolding process_evidence local_sign get_evidence_digest_details assert_secp256k1_key
    append_evidence check_store_request assert_valid_evidence_id assert_valid_version
    assert_valid_evidence assert_valid_digest_hex assert_text append_event compute_row_hash
    get_field sign_raw_message schema_checked version_checked evidence_signed store_written
    ledger_written is_sha256_hex
processed_once = refl

in_memory-KeepsTexts : KeepsTexts in_memory
unfolding member
in_memory-KeepsTexts = record { member_lem = λ fs key text h. h }

uuid_valid : assert_valid_event_id uuid ≡ ok tt
unfolding assert_valid_event_id
uuid_valid = refl

uuid_new : find_event uuid [] ≡ none
unfolding find_event
uuid_new = refl

process_evidence-confirmed_example :
    (row_hash : String) × (verify_recorded_evidence fixed in_memory none service_after.ledger uuid
        "ev-1" digest
      ≡ ok (confirmed uuid row_hash))
unfolding is_sha256_hex
process_evidence-confirmed_example =
    process_evidence-confirmed text_of fixed in_memory versions local any_schema surroundings
      evidence_fields (some (natural 2)) (some "prv") service service_after result
      in_memory-IsLawful_fixed versions-IsVersionTable (genesis_hash, refl) uuid_valid uuid_new
      in_memory-KeepsTexts (λ text. refl) processed_once
