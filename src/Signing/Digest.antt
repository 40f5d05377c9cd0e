-- ===== src/Signing/Digest.antt =====
-- lib/signature-digest.js: `getEvidenceDigestDetails`.
use tanden_trust_audit_poc.Base.{String, Option, none, some, Result, ok, err, ◌>>=◌}
use tanden_trust_audit_poc.Json.{Json}
use tanden_trust_audit_poc.Platform.{Crypto}

pub data SigningError : Type 0 where
  not_canonical : SigningError
  empty_message message_too_long : SigningError
  invalid_key wrong_key_type wrong_curve : SigningError
  not_a_raw_signature : SigningError

abbrev pub hash_algorithm : String
hash_algorithm = "SHA-256"

abbrev pub canonicalization : String
canonicalization = "RFC 8785 JSON Canonicalization Scheme (JCS)"

module _ (crypto : Crypto) where
  pub record DigestDetails : Type 0 where
    pub canonicalization : String
    pub hash_algorithm : String
    pub canonical_json : crypto.CanonicalText
    pub digest_hex : String

  abbrev pub canonicalize_evidence :
      Option crypto.CanonicalText → Result SigningError crypto.CanonicalText
  canonicalize_evidence none = err not_canonical
  canonicalize_evidence (some text) = ok text

  unfoldable pub get_evidence_digest_details : Json → Result SigningError DigestDetails
  get_evidence_digest_details evidence = do
    text ← canonicalize_evidence (crypto.canonicalize evidence)
    ok (record {
      canonicalization = canonicalization;
      hash_algorithm = hash_algorithm;
      canonical_json = text;
      digest_hex = crypto.sha256_hex text;
    })
