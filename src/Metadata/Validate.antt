-- ===== src/Metadata/Validate.antt =====
-- lib/metadata.js: `requireString` and `validateSidecarMetadataV2`.
use tanden_trust_audit_poc.Base.{
  String, Bool, Option, none, some, List, [], ◌∷◌, ◌++◌, Result, ok, err, is_empty, if◌then◌else◌,
  str_eq, is_sha256_hex,
}
use tanden_trust_audit_poc.Json.{Json, str, obj, Fields, get_field}
use tanden_trust_audit_poc.Metadata.Schema.{
  Metadata, MetadataError, not_an_object, missing_text, bad_version_id, unexpected, bad_digest,
  bad_signed_at, metadata_schema_version, canonicalization, digest_algorithm, digest_encoding,
  signature_algorithm, signature_curve, signature_encoding, signing_target, is_iso_date,
}

-- A value that is a non-empty text.
abbrev pub non_empty_text : Option Json → Option String
non_empty_text (some (str s)) = if is_empty s then none else some s
non_empty_text _ = none

-- `requireString` returns the text or undefined.
unfoldable pub require_string : Fields → String → Option String
require_string fs key = non_empty_text (get_field key fs)

-- The message that `requireString` pushes.
unfoldable pub missing : String → Option String → List MetadataError
missing key none = missing_text key ∷ []
missing key (some s) = []

-- `value !== undefined && value !== constant`.
unfoldable pub differs : String → String → Option String → List MetadataError
differs key constant none = []
differs key constant (some s) = if str_eq s constant then [] else unexpected key ∷ []

unfoldable pub fails : (String → Bool) → MetadataError → Option String → List MetadataError
fails test e none = []
fails test e (some s) = if test s then [] else e ∷ []

-- evidenceVersionId is optional, and a non-empty text where it is given.
unfoldable pub version_error : Option Json → List MetadataError
version_error none = []
version_error (some (str s)) = if is_empty s then bad_version_id ∷ [] else []
version_error (some _) = bad_version_id ∷ []

unfoldable pub required_keys : List String
required_keys =
    "schemaVersion" ∷ "evidenceId" ∷ "evidenceKey" ∷ "canonicalization" ∷ "digestAlgorithm"
    ∷ "digestEncoding" ∷ "digest" ∷ "signatureAlgorithm" ∷ "signatureCurve" ∷ "signatureEncoding"
    ∷ "signature" ∷ "keyId" ∷ "publicKeyRef" ∷ "signedAt" ∷ "signingTarget" ∷ []

unfoldable pub missing_keys : Fields → List String → List MetadataError
unfolding missing require_string
missing_keys fs [] = []
missing_keys fs (key ∷ keys) = missing key (require_string fs key) ++ missing_keys fs keys

unfoldable pub metadata_errors : Fields → List MetadataError
metadata_errors fs =
    let text = require_string fs in
    missing_keys fs required_keys
    ++ (version_error (get_field "evidenceVersionId" fs)
        ++ (differs "schemaVersion" metadata_schema_version (text "schemaVersion")
            ++ (differs "canonicalization" canonicalization (text "canonicalization")
                ++ (differs "digestAlgorithm" digest_algorithm (text "digestAlgorithm")
                    ++ (differs "digestEncoding" digest_encoding (text "digestEncoding")
                        ++ (fails is_sha256_hex bad_digest (text "digest")
                            ++ (differs "signatureAlgorithm" signature_algorithm
                                  (text "signatureAlgorithm")
                                ++ (differs "signatureCurve" signature_curve (text "signatureCurve")
                                    ++ (differs "signatureEncoding" signature_encoding
                                          (text "signatureEncoding")
                                        ++ (differs "signingTarget" signing_target
                                              (text "signingTarget")
                                            ++ fails is_iso_date bad_signed_at
                                                (text "signedAt")))))))))))

-- A text that the checks have found; the default is for the cases that they exclude.
abbrev pub found : Option String → String
found none = ""
found (some s) = s

-- `...(typeof evidenceVersionId === "string" ? { evidenceVersionId } : {})`
unfoldable pub kept_text : Option Json → Option String
kept_text (some (str s)) = some s
kept_text _ = none

unfoldable pub metadata_of : Fields → Metadata
unfolding require_string kept_text
metadata_of fs =
    let text = λ (key : String). found (require_string fs key) in
    record {
      schema_version = text "schemaVersion";
      evidence_id = text "evidenceId";
      evidence_key = text "evidenceKey";
      evidence_version_id = kept_text (get_field "evidenceVersionId" fs);
      canonicalization = text "canonicalization";
      digest_algorithm = text "digestAlgorithm";
      digest_encoding = text "digestEncoding";
      digest = text "digest";
      signature_algorithm = text "signatureAlgorithm";
      signature_curve = text "signatureCurve";
      signature_encoding = text "signatureEncoding";
      signature = text "signature";
      key_id = text "keyId";
      public_key_ref = text "publicKeyRef";
      signed_at = text "signedAt";
      signing_target = text "signingTarget";
    }

abbrev pub accept : List MetadataError → Metadata → Result (List MetadataError) Metadata
accept [] m = ok m
accept (e ∷ es) m = err (e ∷ es)

unfoldable pub validate_sidecar_metadata_v2 : Json → Result (List MetadataError) Metadata
validate_sidecar_metadata_v2 (obj fs) = accept (metadata_errors fs) (metadata_of fs)
validate_sidecar_metadata_v2 _ = err (not_an_object ∷ [])
