-- ===== src/Store/Request.antt =====
-- lib/pg-evidence-store.js: the argument of `appendEvidence`, and the checks on it.
use tanden_trust_audit_poc.Base.{
  ℕ, String, Bool, ◌||◌, Option, none, some, Result, ok, err, ◌>>=◌, Number, natural, negative,
  non_integer, leb, codes, all, any, is_empty, is_sha256_hex, if◌then◌else◌, is_white_space,
}
use tanden_trust_audit_poc.Json.{Json, str, obj}
use tanden_trust_audit_poc.Platform.{DbError}

-- `EvidenceStoreError`, by its code; the last three carry their cause.
pub data StoreError : Type 0 where
  invalid_evidence_id invalid_version invalid_evidence invalid_digest : StoreError
  invalid_canonicalization invalid_hash_algorithm invalid_signature : StoreError
  invalid_signing_algorithm : StoreError
  evidence_version_already_exists : DbError → StoreError
  evidence_store_write_failed : DbError → StoreError
  evidence_store_read_failed : DbError → StoreError

-- The argument of `appendEvidence`; `none` is undefined, and for `version` anything that is no
-- number.
pub record StoreRequest : Type 0 where
  pub evidence_id : Option Json
  pub version : Option Number
  pub evidence : Option Json
  pub canonicalization : Option Json
  pub hash_algorithm : Option Json
  pub digest_hex : Option Json
  pub signature : Option Json
  pub signing_algorithm : Option Json
  pub kms_key_id : Option String

-- `value.trim().length === 0`
is_blank : String → Bool
is_blank s = all is_white_space (codes s)

-- /[\x00-\x1f]/
has_control_character : String → Bool
has_control_character s = any (λ c. leb c 0x1f) (codes s)

unfoldable pub assert_valid_evidence_id : Option Json → Result StoreError String
unfolding is_blank has_control_character
assert_valid_evidence_id (some (str s)) =
    if is_blank s || has_control_character s then err invalid_evidence_id else ok s
assert_valid_evidence_id _ = err invalid_evidence_id

-- `!Number.isInteger(version) || version < 1` throws.
unfoldable pub assert_valid_version : Option Number → Result StoreError ℕ
assert_valid_version (some (natural n)) = if leb 1 n then ok n else err invalid_version
assert_valid_version (some (negative n)) = err invalid_version
assert_valid_version (some non_integer) = err invalid_version
assert_valid_version none = err invalid_version

unfoldable pub assert_valid_evidence : Option Json → Result StoreError Json
assert_valid_evidence (some (obj fields)) = ok (obj fields)
assert_valid_evidence _ = err invalid_evidence

unfoldable pub assert_valid_digest_hex : Option Json → Result StoreError String
assert_valid_digest_hex (some (str s)) = if is_sha256_hex s then ok s else err invalid_digest
assert_valid_digest_hex _ = err invalid_digest

-- `typeof value !== "string" || value.length === 0` throws.
unfoldable pub assert_text : Option Json → StoreError → Result StoreError String
assert_text (some (str s)) e = if is_empty s then err e else ok s
assert_text _ e = err e

-- The columns of an INSERT.
pub record NewVersion : Type 0 where
  pub evidence_id : String
  pub version : ℕ
  pub evidence : Json
  pub canonicalization : String
  pub hash_algorithm : String
  pub digest_hex : String
  pub signature : String
  pub signing_algorithm : String
  pub kms_key_id : Option String

-- The checks that stand before the INSERT, in their order.
unfoldable pub check_store_request : StoreRequest → Result StoreError NewVersion
check_store_request r = do
  evidence_id ← assert_valid_evidence_id r.evidence_id
  version ← assert_valid_version r.version
  evidence ← assert_valid_evidence r.evidence
  digest_hex ← assert_valid_digest_hex r.digest_hex
  canonicalization ← assert_text r.canonicalization invalid_canonicalization
  hash_algorithm ← assert_text r.hash_algorithm invalid_hash_algorithm
  signature ← assert_text r.signature invalid_signature
  signing_algorithm ← assert_text r.signing_algorithm invalid_signing_algorithm
  ok (record {
    evidence_id = evidence_id;
    version = version;
    evidence = evidence;
    canonicalization = canonicalization;
    hash_algorithm = hash_algorithm;
    digest_hex = digest_hex;
    signature = signature;
    signing_algorithm = signing_algorithm;
    kms_key_id = r.kms_key_id;
  })
