-- ===== src/Kms/Client.antt =====
-- lib/aws-kms-provider.js: what `AwsKmsProvider` sends to KMS and what comes back. The client of the
-- AWS SDK is a parameter: it answers each command from a state of its own.
use tanden_trust_audit_poc.Base.{
  ℕ, String, Bool, false, Option, none, some, Result, ok, err, ltb, if◌then◌else◌, length,
}
use tanden_trust_audit_poc.Platform.{Bytes}
use tanden_trust_audit_poc.Kms.Der.{DerError}
use tanden_trust_audit_poc.Signing.Digest.{SigningError}
use tanden_trust_audit_poc.Signing.Contract.{assert_raw_message, max_kms_raw_message_bytes}

-- `SIGNATURE_ALGORITHM`, of which `KMS_SIGNING_ALGORITHM` is another name.
abbrev pub kms_signing_algorithm : String
kms_signing_algorithm = "ECDSA_SHA_256"

abbrev pub kms_key_spec : String
kms_key_spec = "ECC_SECG_P256K1"

abbrev pub kms_message_type : String
kms_message_type = "RAW"

-- The fields of a SignCommand that a VerifyCommand has too.
pub record CommandInput : Type 0 where
  pub key_id : String
  pub message : Bytes
  pub message_type : String
  pub signing_algorithm : String

-- An error of the SDK.
pub record KmsFault : Type 0 where
  pub name : String
  pub message : String

pub record PublicKeyResponse : Type 0 where
  pub key_spec : Option String
  pub public_key : Bytes

pub record SignResponse : Type 0 where
  pub signature : Bytes
  pub key_id : Option String

pub record VerifyResponse : Type 0 where
  pub signature_valid : Option Bool
  pub key_id : Option String

pub record KmsClient : Type 1 where
  pub State : Type 0
  pub get_public_key : String → State → Result KmsFault PublicKeyResponse × State
  pub sign : CommandInput → State → Result KmsFault SignResponse × State
  pub verify : CommandInput → Bytes → State → Result KmsFault VerifyResponse × State

-- A command that was sent; for GetPublicKey, the KeySpec of the answer, if there was one.
pub data Command : Type 0 where
  get_public_key_command : Option String → Command
  sign_command : CommandInput → Command
  verify_command : CommandInput → Bytes → Command

pub data KmsError : Type 0 where
  key_id_required : KmsError
  contract : SigningError → KmsError
  get_public_key_failed sign_failed verify_failed : KmsFault → KmsError
  unsupported_key_spec : Option String → KmsError
  exceeds_raw_limit : ℕ → KmsError
  der : DerError → KmsError

-- `assertWithinKmsRawLimit`
raw_limited : Result SigningError Bytes → Result KmsError Bytes
raw_limited (err e) = err (contract e)
raw_limited (ok m) =
    if ltb max_kms_raw_message_bytes (length m) then err (exceeds_raw_limit (length m)) else ok m

unfoldable pub assert_within_kms_raw_limit : Bytes → Result KmsError Bytes
unfolding raw_limited assert_raw_message
assert_within_kms_raw_limit message = raw_limited (assert_raw_message none message)

-- `value ?? fallback`
abbrev pub or_default : Option String → String → String
or_default none d = d
or_default (some s) d = s

-- `response.SignatureValid === true`
abbrev pub is_true : Option Bool → Bool
is_true none = false
is_true (some b) = b
