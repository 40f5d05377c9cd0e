-- ===== src/Metadata/Signing.antt =====
-- lib/metadata-signing.js and lib/metadata-signature.js: the payload that the metadata's signature
-- covers, and its verification with the local provider.
use tanden_trust_audit_poc.Base.{
  String, Bool, Option, none, some, List, Result, ok, err, ◌>>=◌, map_err,
}
use tanden_trust_audit_poc.Json.{Json, str, obj, Fields, end, field}
use tanden_trust_audit_poc.Platform.{Crypto, Ecdsa}
use tanden_trust_audit_poc.Signing.Digest.{SigningError}
use tanden_trust_audit_poc.Signing.Local.{sign_raw_message, verify_raw_message_signature}
use tanden_trust_audit_poc.Metadata.Schema.{Metadata, MetadataError}
use tanden_trust_audit_poc.Metadata.Validate.{validate_sidecar_metadata_v2}

pub data PayloadError : Type 0 where
  invalid_sidecar_metadata : List MetadataError → PayloadError
  metadata_canonicalization_failed : PayloadError
  signing : SigningError → PayloadError

optional_field : String → Option String → Fields → Fields
optional_field key none rest = rest
optional_field key (some s) rest = field key (str s) rest

-- The members from `signatureEncoding` on, behind `signature` if it is there.
after_signature : Metadata → Fields
after_signature m = field "keyId" (str m.key_id) (
    field "publicKeyRef" (str m.public_key_ref)
      (field "signedAt" (str m.signed_at) (field "signingTarget" (str m.signing_target) end)))

before_signature : Metadata → Fields → Fields
unfolding optional_field
before_signature m rest = field "schemaVersion" (str m.schema_version) (
    field "evidenceId" (str m.evidence_id) (
      field "evidenceKey" (str m.evidence_key) (
        optional_field "evidenceVersionId" m.evidence_version_id (
          field "canonicalization" (str m.canonicalization) (
            field "digestAlgorithm" (str m.digest_algorithm) (
              field "digestEncoding" (str m.digest_encoding) (
                field "digest" (str m.digest) (
                  field "signatureAlgorithm" (str m.signature_algorithm) (
                    field "signatureCurve" (str m.signature_curve)
                      (field "signatureEncoding" (str m.signature_encoding) rest))))))))))

-- The object that the record stands for.
unfoldable pub metadata_object : Metadata → Json
unfolding before_signature after_signature
metadata_object m =
    obj (before_signature m (field "signature" (str m.signature) (after_signature m)))

unfoldable pub omit_signature : Metadata → Json
unfolding before_signature after_signature
omit_signature m = obj (before_signature m (after_signature m))

-- `{ ...metadata, signature }`
abbrev pub with_signature : Metadata → String → Metadata
with_signature m s = record m { signature = s }

module _ (crypto : Crypto) where
  payload_text : Option crypto.CanonicalText → Result PayloadError crypto.CanonicalText
  payload_text none = err metadata_canonicalization_failed
  payload_text (some text) = ok text

  unfoldable pub create_metadata_signing_payload : Json → Result PayloadError crypto.CanonicalText
  unfolding payload_text
  create_metadata_signing_payload value = do
    m ← map_err invalid_sidecar_metadata (validate_sidecar_metadata_v2 value)
    payload_text (crypto.canonicalize (omit_signature m))

  module _ (ecdsa : Ecdsa) where
    unfoldable pub sign_sidecar_metadata : Metadata → String → Result PayloadError Metadata
    sign_sidecar_metadata m private_key_pem = do
      payload ← create_metadata_signing_payload (metadata_object m)
      signature ←
          map_err signing (sign_raw_message crypto ecdsa (crypto.utf8 payload) private_key_pem)
      ok (with_signature m (ecdsa.to_base64url signature))

    -- The `valid` of the result; the other fields repeat the metadata.
    unfoldable pub verify_sidecar_metadata_signature : Metadata → String → Result PayloadError Bool
    verify_sidecar_metadata_signature m public_key_pem = do
      payload ← create_metadata_signing_payload (metadata_object m)
      map_err signing (
          verify_raw_message_signature crypto ecdsa (crypto.utf8 payload)
            (ecdsa.from_base64url m.signature) public_key_pem)
