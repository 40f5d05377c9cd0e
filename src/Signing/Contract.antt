-- ===== src/Signing/Contract.antt =====
-- lib/signing-contract.js: what every provider demands of messages, signatures and keys.
use tanden_trust_audit_poc.Base.{
  ℕ, String, Bool, false, not, ◌&&◌, Option, none, some, Result, ok, err, ◌>>◌, throw_if, require,
  ltb, ◌==◌, length, str_eq, opt_eq,
}
use tanden_trust_audit_poc.Platform.{Bytes, Ecdsa}
use tanden_trust_audit_poc.Signing.Digest.{
  SigningError, empty_message, message_too_long, invalid_key, wrong_key_type, wrong_curve,
  not_a_raw_signature,
}

abbrev pub raw_signature_bytes : ℕ
raw_signature_bytes = 64

abbrev pub max_kms_raw_message_bytes : ℕ
max_kms_raw_message_bytes = 4096

abbrev pub signature_curve : String
signature_curve = "secp256k1"

over : Option ℕ → ℕ → Bool
over none n = false
over (some m) n = ltb m n

-- A typed buffer makes the check `Buffer.isBuffer` pass.
unfoldable pub assert_raw_message : Option ℕ → Bytes → Result SigningError Bytes
unfolding over
assert_raw_message max_bytes message = do
  throw_if (length message == 0) empty_message
  throw_if (over max_bytes (length message)) message_too_long
  ok message

unfoldable pub assert_raw_signature : Bytes → Result SigningError Bytes
assert_raw_signature signature = do
  throw_if (not (length signature == raw_signature_bytes)) not_a_raw_signature
  ok signature

pub data KeyType : Type 0 where
  private_key public_key : KeyType

abbrev type_text : KeyType → String
type_text private_key = "private"
type_text public_key = "public"

module _ (ecdsa : Ecdsa) where
  open ecdsa use {
    KeyObject, key_type, asymmetric_key_type, named_curve, create_private_key, create_public_key,
  }

  create_key : KeyType → String → Option KeyObject
  create_key private_key pem = create_private_key pem
  create_key public_key pem = create_public_key pem

  checked_key : KeyType → Option KeyObject → Result SigningError KeyObject
  checked_key expected none = err invalid_key
  checked_key expected (some key) = do
    require (str_eq (key_type key) (type_text expected)) wrong_key_type
    require
        (str_eq (asymmetric_key_type key) "ec" && opt_eq (named_curve key) (some signature_curve))
        wrong_curve
    ok key

  -- A key in PEM form.
  unfoldable pub assert_secp256k1_key : String → KeyType → Result SigningError KeyObject
  unfolding create_key checked_key
  assert_secp256k1_key pem expected = checked_key expected (create_key expected pem)
