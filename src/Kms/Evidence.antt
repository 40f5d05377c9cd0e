-- ===== src/Kms/Evidence.antt =====
-- lib/aws-kms-provider.js: `signEvidence` and `verifyEvidenceSignature` of `AwsKmsProvider`.
use tanden_trust_audit_poc.Base.{String, Bool, Result, map_err}
use tanden_trust_audit_poc.Base.Stateful.{Stateful, ◌>>=◌, lift}
use tanden_trust_audit_poc.Json.{Json}
use tanden_trust_audit_poc.Platform.{Crypto, Ecdsa, Bytes}
use tanden_trust_audit_poc.Signing.Digest.{get_evidence_digest_details}
use tanden_trust_audit_poc.Kms.Client.{KmsClient, KmsError, contract, kms_signing_algorithm}
use tanden_trust_audit_poc.Kms.Provider.{
  Kms, sign_raw_message_with_meta, verify_raw_message_signature_with_meta,
}

-- The result of `signEvidence`.
pub record KmsSigned : Type 0 where
  pub canonicalization : String
  pub hash_algorithm : String
  pub signature_algorithm : String
  pub digest_hex : String
  pub signature : Bytes
  pub signature_base64 : String
  pub kms_key_id : String
  pub signing_algorithm : String
  pub signed_at : String

pub record KmsVerdict : Type 0 where
  pub canonicalization : String
  pub hash_algorithm : String
  pub signature_algorithm : String
  pub digest_hex : String
  pub valid : Bool
  pub kms_key_id : String

module _ (crypto : Crypto) (ecdsa : Ecdsa) (c : KmsClient) where
  -- `now` is what the clock shows behind the signature.
  unfoldable pub sign_evidence : Json → String → Stateful (Kms c) KmsError KmsSigned
  sign_evidence evidence now = do
    details ← lift (map_err contract (get_evidence_digest_details crypto evidence))
    signed ← sign_raw_message_with_meta c (crypto.utf8 details.canonical_json)
    lift (
        Result.ok (record {
          canonicalization = details.canonicalization;
          hash_algorithm = details.hash_algorithm;
          signature_algorithm = kms_signing_algorithm;
          digest_hex = details.digest_hex;
          signature = signed.raw_signature;
          signature_base64 = ecdsa.to_base64 signed.raw_signature;
          kms_key_id = signed.resolved_key_id;
          signing_algorithm = kms_signing_algorithm;
          signed_at = now;
        }))

  unfoldable pub verify_evidence_signature : Json → Bytes → Stateful (Kms c) KmsError KmsVerdict
  verify_evidence_signature evidence signature = do
    details ← lift (map_err contract (get_evidence_digest_details crypto evidence))
    validity ←
        verify_raw_message_signature_with_meta c (crypto.utf8 details.canonical_json) signature
    lift (
        Result.ok (record {
          canonicalization = details.canonicalization;
          hash_algorithm = details.hash_algorithm;
          signature_algorithm = kms_signing_algorithm;
          digest_hex = details.digest_hex;
          valid = validity.valid;
          kms_key_id = validity.resolved_key_id;
        }))
