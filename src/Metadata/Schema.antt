-- ===== src/Metadata/Schema.antt =====
-- lib/metadata.js: the constants of the schema, and its two regular expressions.
use tanden_trust_audit_poc.Base.{
  ℕ, String, Bool, true, false, ◌&&◌, ◌||◌, Option, List, [], ◌∷◌, ◌==◌, if◌then◌else◌, codes,
  is_digit,
}

abbrev pub metadata_schema_version : String
metadata_schema_version = "tanden.trust.metadata.v2"

abbrev pub canonicalization : String
canonicalization = "JCS"

abbrev pub digest_algorithm : String
digest_algorithm = "SHA-256"

abbrev pub digest_encoding : String
digest_encoding = "hex"

abbrev pub signature_algorithm : String
signature_algorithm = "ECDSA_SHA_256"

abbrev pub signature_curve : String
signature_curve = "secp256k1"

abbrev pub signature_encoding : String
signature_encoding = "base64url"

abbrev pub signing_target : String
signing_target = "metadata_without_signature"

-- A 0 of the template stands for \d, and any other character for itself.
matches_template : List ℕ → List ℕ → Bool
matches_template [] [] = true
matches_template [] (c ∷ cs) = false
matches_template (t ∷ ts) [] = false
matches_template (t ∷ ts) (c ∷ cs) =
    (if t == b'0' then is_digit c else c == t) && matches_template ts cs

-- /^\d{4}-\d{2}-\d{2}T\d{2}:\d{2}:\d{2}(?:\.\d{3})?Z$/
unfoldable pub is_iso_date : String → Bool
unfolding matches_template
is_iso_date s =
    matches_template (codes "0000-00-00T00:00:00Z") (codes s)
    || matches_template (codes "0000-00-00T00:00:00.000Z") (codes s)

-- What `validateSidecarMetadataV2` returns as `value`.
pub record Metadata : Type 0 where
  pub schema_version : String
  pub evidence_id : String
  pub evidence_key : String
  pub evidence_version_id : Option String
  pub canonicalization : String
  pub digest_algorithm : String
  pub digest_encoding : String
  pub digest : String
  pub signature_algorithm : String
  pub signature_curve : String
  pub signature_encoding : String
  pub signature : String
  pub key_id : String
  pub public_key_ref : String
  pub signed_at : String
  pub signing_target : String

-- The messages that the validator pushes, by the key that they name.
pub data MetadataError : Type 0 where
  not_an_object : MetadataError
  missing_text : String → MetadataError
  bad_version_id : MetadataError
  unexpected : String → MetadataError
  bad_digest bad_signed_at : MetadataError
