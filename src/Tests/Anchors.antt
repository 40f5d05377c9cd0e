-- ===== src/Tests/Anchors.antt =====
-- Evidence that is signed, recorded in the ledger and anchored, on a platform whose digest is one
-- fixed text and whose keys are their own PEM texts.
use tanden_trust_audit_poc.Base.{
  ◌≡◌, refl, true, String, none, some, ok, err, List, [], ◌∷◌, natural, replicate, is_sha256_hex,
}
use tanden_trust_audit_poc.Json.{Json, Json-discrete, str, obj, field, end, get_field}
use tanden_trust_audit_poc.Platform.{Crypto, Ecdsa}
use tanden_trust_audit_poc.Signing.Digest.{get_evidence_digest_details}
use tanden_trust_audit_poc.Signing.Contract.{
  assert_secp256k1_key, assert_raw_message, assert_raw_signature,
}
use tanden_trust_audit_poc.Signing.Local.{
  SignResult, VerifyResult, sign_evidence, verify_evidence_signature, sign_raw_message,
  verify_raw_message_signature,
}
use tanden_trust_audit_poc.Signing.KeyPair.{IsKeyPair, sign_evidence-verifies}
use tanden_trust_audit_poc.Metadata.Schema.{Metadata, is_iso_date}
use tanden_trust_audit_poc.Metadata.Validate.{
  require_string, missing, differs, fails, version_error, required_keys, missing_keys,
  metadata_errors, metadata_of, validate_sidecar_metadata_v2,
}
use tanden_trust_audit_poc.Metadata.Signing.{
  metadata_object, verify_sidecar_metadata_signature, create_metadata_signing_payload,
}
use tanden_trust_audit_poc.Ledger.Row.{Row, genesis_hash, compute_row_hash}
use tanden_trust_audit_poc.Ledger.Verify.{verify_signing_event_rows}
use tanden_trust_audit_poc.Ledger.Table.{Table, last_row_hash}
use tanden_trust_audit_poc.Ledger.Logger.{Pool, awaited}
use tanden_trust_audit_poc.Ledger.Readers.{
  find_event, assert_valid_event_id, verify_chain_integrity_and_get_event,
}
use tanden_trust_audit_poc.Anchor.Sidecar.{Verdict, verify_evidence_with_sidecar_metadata}
use tanden_trust_audit_poc.Anchor.InternalLedger.{confirmed, verify_recorded_evidence}
use tanden_trust_audit_poc.Anchor.Service.{
  TrustedKeys, bigint, resolve_public_key, assert_anchor_digest, assert_non_empty_string,
  normalize_ledger_confirmation, is_anchored,
}
use tanden_trust_audit_poc.Anchor.Gate.{
  AnchorClient, AnchorRequest, approved_digest, approve, unless_anchored, anchor_unless_anchored,
  anchor_approved, anchor_verified_evidence,
}
use tanden_trust_audit_poc.Anchor.Confirmed.{
  Attests, verify_evidence_with_sidecar_metadata-Attests, Recorded,
  verify_recorded_evidence-Recorded,
}
use tanden_trust_audit_poc.Anchor.Cleared.{OnlyCleared, sent, anchor_verified_evidence-OnlyCleared}
use tanden_trust_audit_poc.Metadata.Sound.{IsValid, validate_sidecar_metadata_v2-IsValid}

abbrev pub digest : String
digest = "00000000000000000000000000000000000000000000000000000000000000aa"

abbrev pub fixed : Crypto
fixed = record {
  CanonicalText = Json;
  text_discrete = Json-discrete;
  canonicalize = λ j. some j;
  sha256_hex = λ j. digest;
  utf8 = λ j. 1 ∷ [];
}

abbrev pub pem_keys : Ecdsa
pem_keys = record {
  KeyObject = String;
  key_type = λ k. k;
  asymmetric_key_type = λ k. "ec";
  named_curve = λ k. some "secp256k1";
  create_private_key = λ pem. some "private";
  create_public_key = λ pem. some "public";
  sign = λ k message. replicate 64 7;
  verify = λ k message signature. true;
  to_base64 = λ bytes. "c2ln";
  to_base64url = λ bytes. "c2ln";
  from_base64url = λ s. replicate 64 7;
}

abbrev pub evidence : Json
evidence = obj (field "action" (str "deploy") end)

pem_keys-IsKeyPair : IsKeyPair fixed pem_keys "prv" "pub"
unfolding assert_secp256k1_key
pem_keys-IsKeyPair = record {
  public = "public";
  accepted = refl;
  verifies = λ key message h. (refl, refl);
}

abbrev signed : SignResult fixed pem_keys
signed = record {
  canonicalization = "RFC 8785 JSON Canonicalization Scheme (JCS)";
  hash_algorithm = "SHA-256";
  signature_algorithm = "ECDSA_SHA_256";
  canonical_json = evidence;
  digest_hex = digest;
  signature = replicate 64 7;
  signature_base64 = "c2ln";
}

evidence_signed : sign_evidence fixed pem_keys evidence "prv" ≡ ok signed
unfolding sign_evidence get_evidence_digest_details sign_raw_message assert_secp256k1_key
evidence_signed = refl

sign_evidence-verifies_example :
    (result : VerifyResult fixed pem_keys) × (verify_evidence_signature fixed pem_keys evidence
        signed.signature "pub"
      ≡ ok result)
    × (result.valid ≡ true)
    × (result.digest_hex ≡ digest)
sign_evidence-verifies_example =
    sign_evidence-verifies fixed pem_keys "prv" "pub" evidence signed pem_keys-IsKeyPair
      evidence_signed

abbrev metadata : Json
metadata = obj (
    field "schemaVersion" (str "tanden.trust.metadata.v2") (
      field "evidenceId" (str "ev-1") (
        field "evidenceKey" (str "evidence/ev-1.json") (
          field "canonicalization" (str "JCS") (
            field "digestAlgorithm" (str "SHA-256") (
              field "digestEncoding" (str "hex") (
                field "digest" (str digest) (
                  field "signatureAlgorithm" (str "ECDSA_SHA_256") (
                    field "signatureCurve" (str "secp256k1") (
                      field "signatureEncoding" (str "base64url") (
                        field "signature" (str "c2ln") (
                          field "keyId" (str "key-1") (
                            field "publicKeyRef" (str "keys/key-1.pem") (
                              field "signedAt" (str "2026-01-02T03:04:05Z") (
                                field "signingTarget" (str "metadata_without_signature")
                                  end)))))))))))))))

abbrev accepted : Metadata
accepted = record {
  schema_version = "tanden.trust.metadata.v2";
  evidence_id = "ev-1";
  evidence_key = "evidence/ev-1.json";
  evidence_version_id = none;
  canonicalization = "JCS";
  digest_algorithm = "SHA-256";
  digest_encoding = "hex";
  digest = digest;
  signature_algorithm = "ECDSA_SHA_256";
  signature_curve = "secp256k1";
  signature_encoding = "base64url";
  signature = "c2ln";
  key_id = "key-1";
  public_key_ref = "keys/key-1.pem";
  signed_at = "2026-01-02T03:04:05Z";
  signing_target = "metadata_without_signature";
}

metadata_accepted : validate_sidecar_metadata_v2 metadata ≡ ok accepted
unfolding validate_sidecar_metadata_v2 metadata_errors missing_keys missing differs fails
    version_error require_string required_keys metadata_of is_iso_date get_field is_sha256_hex
metadata_accepted = refl

validate_sidecar_metadata_v2-IsValid_example : IsValid accepted
validate_sidecar_metadata_v2-IsValid_example =
    validate_sidecar_metadata_v2-IsValid metadata accepted metadata_accepted

abbrev in_memory : Table
in_memory = record {
  State = List Row;
  select_rows = λ rows. rows;
  select_last_hash = last_row_hash;
  insert = λ rows input row_hash. err (record { code = none; message = "read-only" });
  stored = λ j. j;
}

abbrev event_id : String
event_id = "11111111-1111-4111-8111-111111111111"

abbrev recorded : Pool (List Row)
recorded = record {
  table =
      record {
        sequence = 1;
        input = record {
          event_id = event_id;
          event_type = "evidence.stored";
          payload = obj (field "evidenceId" (str "ev-1") (field "digestHex" (str digest) end));
          signature = "sig";
          previous_hash = genesis_hash;
        };
        row_hash = digest;
        created_at = "now";
      }
      ∷ [];
  in_use = 0;
}

abbrev keys : TrustedKeys
keys = ("key-1", "pub") ∷ []

abbrev client : AnchorClient
client = record {
  get_anchored_at = λ d. ok (natural 0);
  anchor_digest = λ d. ok (
      some (record {
        transaction_hash =
            some (str "0x00000000000000000000000000000000000000000000000000000000000000bb");
        block_number = bigint (natural 7);
      }));
}

abbrev request : AnchorRequest
request = record { evidence = evidence; metadata = metadata; ledger_event_id = some (str event_id) }

sent-request :
    sent (anchor_verified_evidence fixed pem_keys in_memory keys client none recorded request).1
    ≡ "0x00000000000000000000000000000000000000000000000000000000000000aa" ∷ []
unfolding validate_sidecar_metadata_v2 metadata_errors missing_keys missing differs fails
    version_error require_string required_keys metadata_of is_iso_date get_field is_sha256_hex
    metadata_object verify_sidecar_metadata_signature create_metadata_signing_payload
    get_evidence_digest_details verify_raw_message_signature assert_raw_message assert_raw_signature
    assert_secp256k1_key verify_signing_event_rows compute_row_hash awaited find_event
    assert_valid_event_id verify_chain_integrity_and_get_event verify_evidence_with_sidecar_metadata
    verify_recorded_evidence resolve_public_key assert_anchor_digest assert_non_empty_string
    normalize_ledger_confirmation is_anchored approved_digest approve unless_anchored
    anchor_unless_anchored anchor_approved anchor_verified_evidence
sent-request = refl

anchor_verified_evidence-OnlyCleared_example :
    OnlyCleared fixed pem_keys in_memory keys client recorded request
      (anchor_verified_evidence fixed pem_keys in_memory keys client none recorded request)
anchor_verified_evidence-OnlyCleared_example =
    anchor_verified_evidence-OnlyCleared fixed pem_keys in_memory keys client none recorded request

abbrev attested : Verdict
attested = record {
  valid = true;
  reason = none;
  evidence_digest_hex = some digest;
  metadata_digest_hex = some digest;
  digest_matches = true;
  signature_valid = true;
}

evidence_attested :
    verify_evidence_with_sidecar_metadata fixed pem_keys evidence metadata "pub" ≡ ok attested
unfolding validate_sidecar_metadata_v2 metadata_errors missing_keys missing differs fails
    version_error require_string required_keys metadata_of is_iso_date get_field is_sha256_hex
    metadata_object verify_sidecar_metadata_signature create_metadata_signing_payload
    get_evidence_digest_details verify_raw_message_signature assert_secp256k1_key
    verify_evidence_with_sidecar_metadata
evidence_attested = refl

verify_evidence_with_sidecar_metadata-Attests_example :
    (m : Metadata) × (digest_hex : String) × Attests fixed pem_keys evidence metadata "pub"
      digest_hex m
    × (attested.evidence_digest_hex ≡ some digest_hex)
verify_evidence_with_sidecar_metadata-Attests_example =
    verify_evidence_with_sidecar_metadata-Attests fixed pem_keys evidence metadata "pub" attested
      evidence_attested refl

evidence_confirmed :
    verify_recorded_evidence fixed in_memory none recorded event_id "ev-1" digest
    ≡ ok (confirmed event_id digest)
unfolding is_sha256_hex get_field verify_signing_event_rows compute_row_hash awaited find_event
    assert_valid_event_id verify_chain_integrity_and_get_event verify_recorded_evidence
evidence_confirmed = refl

verify_recorded_evidence-Recorded_example :
    Recorded fixed in_memory recorded.table event_id "ev-1" digest event_id digest
verify_recorded_evidence-Recorded_example =
    verify_recorded_evidence-Recorded fixed in_memory none recorded event_id "ev-1" digest event_id
      digest evidence_confirmed
