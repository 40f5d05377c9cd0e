-- ===== src/Anchor/Sidecar.antt =====
-- lib/sidecar-verifier.js: `verifyEvidenceWithSidecarMetadata`.
use tanden_trust_audit_poc.Base.{
  String, Bool, false, not, Option, none, some, List, Result, ok, err, ◌>>=◌, str_eq, if◌then◌else◌,
}
use tanden_trust_audit_poc.Json.{Json}
use tanden_trust_audit_poc.Platform.{Crypto, Ecdsa}
use tanden_trust_audit_poc.Signing.Digest.{SigningError, get_evidence_digest_details}
use tanden_trust_audit_poc.Metadata.Schema.{Metadata, MetadataError}
use tanden_trust_audit_poc.Metadata.Validate.{validate_sidecar_metadata_v2}
use tanden_trust_audit_poc.Metadata.Signing.{PayloadError, verify_sidecar_metadata_signature}

pub data Refusal : Type 0 where
  invalid_sidecar_metadata metadata_signature_verification_failed : Refusal
  digest_mismatch invalid_metadata_signature : Refusal

pub record Verdict : Type 0 where
  pub valid : Bool
  pub reason : Option Refusal
  pub evidence_digest_hex : Option String
  pub metadata_digest_hex : Option String
  pub digest_matches : Bool
  pub signature_valid : Bool

module _ (crypto : Crypto) (ecdsa : Ecdsa) where
  -- The returns behind the digests, by the outcome of the signature's verification.
  unfoldable pub judge : String → String → Bool → Result PayloadError Bool → Verdict
  judge digest claimed matches (err e) = record {
    valid = false;
    reason = some metadata_signature_verification_failed;
    evidence_digest_hex = some digest;
    metadata_digest_hex = some claimed;
    digest_matches = matches;
    signature_valid = false;
  }
  judge digest claimed matches (ok signature_valid) = record {
    valid = if not matches then false else signature_valid;
    reason =
        if not matches
        then some digest_mismatch
        else if not signature_valid
        then some invalid_metadata_signature
        else none;
    evidence_digest_hex = some digest;
    metadata_digest_hex = some claimed;
    digest_matches = matches;
    signature_valid = signature_valid;
  }

  unfoldable pub against :
      Json → String → Result (List MetadataError) Metadata → Result SigningError Verdict
  unfolding judge
  against evidence pem (err es) = ok (record {
    valid = false;
    reason = some invalid_sidecar_metadata;
    evidence_digest_hex = none;
    metadata_digest_hex = none;
    digest_matches = false;
    signature_valid = false;
  })
  against evidence pem (ok m) = do
    details ← get_evidence_digest_details crypto evidence
    ok (
        judge details.digest_hex m.digest (str_eq details.digest_hex m.digest)
          (verify_sidecar_metadata_signature crypto ecdsa m pem))

  unfoldable pub verify_evidence_with_sidecar_metadata :
      Json → Json → String → Result SigningError Verdict
  unfolding against
  verify_evidence_with_sidecar_metadata evidence metadata public_key_pem =
      against evidence public_key_pem (validate_sidecar_metadata_v2 metadata)
