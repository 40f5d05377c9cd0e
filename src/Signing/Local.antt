-- ===== src/Signing/Local.antt =====
-- lib/local-ecdsa-provider.js: `LocalEcdsaProvider`.
use tanden_trust_audit_poc.Base.{String, Bool, false, none, Result, ok, err, ◌>>=◌}
use tanden_trust_audit_poc.Json.{Json}
use tanden_trust_audit_poc.Platform.{Crypto, Ecdsa, Bytes}
use tanden_trust_audit_poc.Signing.Digest.{SigningError, get_evidence_digest_details}
use tanden_trust_audit_poc.Signing.Contract.{
  private_key, public_key, assert_raw_message, assert_raw_signature, assert_secp256k1_key,
}

abbrev pub signature_algorithm : String
signature_algorithm = "ECDSA_SHA_256"

module _ (crypto : Crypto) (ecdsa : Ecdsa) where
  unfoldable pub sign_raw_message : Bytes → String → Result SigningError Bytes
  unfolding assert_raw_message
  sign_raw_message message private_key_pem = do
    _ ← assert_raw_message none message
    key ← assert_secp256k1_key ecdsa private_key_pem private_key
    ok (ecdsa.sign key message)

  -- `try { assertRawSignature(signature) } catch { return false }`.
  verify_checked : Bytes → Bytes → String → Result SigningError Bytes → Result SigningError Bool
  verify_checked message signature pem (err e) = ok false
  verify_checked message signature pem (ok _) = do
    key ← assert_secp256k1_key ecdsa pem public_key
    ok (ecdsa.verify key message signature)

  unfoldable pub verify_raw_message_signature : Bytes → Bytes → String → Result SigningError Bool
  unfolding assert_raw_message assert_raw_signature verify_checked
  verify_raw_message_signature message signature public_key_pem = do
    _ ← assert_raw_message none message
    verify_checked message signature public_key_pem (assert_raw_signature signature)

  -- The result of `signEvidence`.
  pub record SignResult : Type 0 where
    pub canonicalization : String
    pub hash_algorithm : String
    pub signature_algorithm : String
    pub canonical_json : crypto.CanonicalText
    pub digest_hex : String
    pub signature : Bytes
    pub signature_base64 : String

  pub record VerifyResult : Type 0 where
    pub canonicalization : String
    pub hash_algorithm : String
    pub signature_algorithm : String
    pub digest_hex : String
    pub valid : Bool

  unfoldable pub sign_evidence : Json → String → Result SigningError SignResult
  sign_evidence evidence private_key_pem = do
    details ← get_evidence_digest_details crypto evidence
    signature ← sign_raw_message (crypto.utf8 details.canonical_json) private_key_pem
    ok (record {
      canonicalization = details.canonicalization;
      hash_algorithm = details.hash_algorithm;
      signature_algorithm = signature_algorithm;
      canonical_json = details.canonical_json;
      digest_hex = details.digest_hex;
      signature = signature;
      signature_base64 = ecdsa.to_base64 signature;
    })

  unfoldable pub verify_evidence_signature :
      Json → Bytes → String → Result SigningError VerifyResult
  verify_evidence_signature evidence signature public_key_pem = do
    details ← get_evidence_digest_details crypto evidence
    valid ←
        verify_raw_message_signature (crypto.utf8 details.canonical_json) signature public_key_pem
    ok (record {
      canonicalization = details.canonicalization;
      hash_algorithm = details.hash_algorithm;
      signature_algorithm = signature_algorithm;
      digest_hex = details.digest_hex;
      valid = valid;
    })
