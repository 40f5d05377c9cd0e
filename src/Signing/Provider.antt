-- ===== src/Signing/Provider.antt =====
-- The interface that lib/audit-manager.js and lib/evidence-processing-service.js take as
-- `signingProvider`: `signEvidence` and `verifyEvidenceSignature`, as far as these clients use
-- their results.
use tanden_trust_audit_poc.Base.{String, Bool, Option}
use tanden_trust_audit_poc.Base.Stateful.{Stateful}
use tanden_trust_audit_poc.Json.{Json}
use tanden_trust_audit_poc.Platform.{Bytes}

-- The members of a `signResult`; those that only KMS gives may be missing.
pub record Signed : Type 0 where
  pub canonicalization : String
  pub hash_algorithm : String
  pub digest_hex : String
  pub signature_base64 : String
  pub signature_algorithm : String
  pub kms_key_id : Option String
  pub signed_at : Option String

-- The members of a `verifyResult`.
pub record Verdict : Type 0 where
  pub digest_hex : String
  pub valid : Bool
  pub kms_key_id : Option String

-- A key in PEM form is passed only if there is one.
pub record SigningProvider : Type 1 where
  pub State : Type 0
  pub Error : Type 0
  pub error_message : Error → String
  pub sign_evidence : Json → Option String → Stateful State Error Signed
  pub verify_evidence_signature : Json → Bytes → Option String → Stateful State Error Verdict
