-- ===== src/Kms/Provider.antt =====
-- lib/aws-kms-provider.js: `AwsKmsProvider`. `sent` records the commands that were sent, the last one first.
use tanden_trust_audit_poc.Base.{
  String, Bool, false, Option, none, some, List, [], ◌∷◌, Result, ok, err, if◌then◌else◌, opt_eq,
  str_eq, is_truthy, map_err,
}
use tanden_trust_audit_poc.Base.Stateful.{Stateful, ◌>>=◌, ◌>>◌, lift}
use tanden_trust_audit_poc.Platform.{Bytes}
use tanden_trust_audit_poc.Kms.Der.{DerError, decode_der_signature_to_raw}
use tanden_trust_audit_poc.Kms.Encode.{encode_raw_to_der}
use tanden_trust_audit_poc.Signing.Digest.{SigningError}
use tanden_trust_audit_poc.Signing.Contract.{assert_raw_signature}
use tanden_trust_audit_poc.Kms.Client.{
  kms_signing_algorithm, kms_key_spec, kms_message_type, CommandInput, KmsFault, PublicKeyResponse,
  SignResponse, VerifyResponse, KmsClient, Command, get_public_key_command, sign_command,
  verify_command, KmsError, key_id_required, contract, get_public_key_failed, sign_failed,
  verify_failed, unsupported_key_spec, der, assert_within_kms_raw_limit, or_default, is_true,
}

module _ (c : KmsClient) where
  -- `AwsKmsProvider`, and the client that it holds.
  pub record Kms : Type 0 where
    pub key_id : String
    pub verified_key_spec : Option String
    pub cached_public_key : Option Bytes
    pub client : c.State
    pub sent : List Command

  abbrev M : Type 0 → Type 0
  M A = Stateful Kms KmsError A

  -- The constructor; `none` is an environment without KMS_KEY_ID.
  unfoldable pub create_provider : Option String → c.State → Result KmsError Kms
  create_provider none client = err key_id_required
  create_provider (some key_id) client =
      if str_eq key_id ""
      then err key_id_required
      else ok (record {
        key_id = key_id;
        verified_key_spec = none;
        cached_public_key = none;
        client = client;
        sent = [];
      })

  -- The answer to GetPublicKey.
  unfoldable pub key_spec_answer :
      Kms → Result KmsFault PublicKeyResponse × c.State → Result KmsError (Unit {0}) × Kms
  key_spec_answer k (err e, client) = (
    err (get_public_key_failed e),
    record k { client = client; sent = get_public_key_command none ∷ k.sent },
  )
  key_spec_answer k (ok response, client) =
      if opt_eq response.key_spec (some kms_key_spec)
      then (
        ok tt,
        record k {
          verified_key_spec = response.key_spec;
          cached_public_key = some response.public_key;
          client = client;
          sent = get_public_key_command response.key_spec ∷ k.sent;
        },
      )
      else (
        err (unsupported_key_spec response.key_spec),
        record k { client = client; sent = get_public_key_command response.key_spec ∷ k.sent },
      )

  unfoldable pub ensure_key_spec_verified : M (Unit {0})
  unfolding key_spec_answer
  ensure_key_spec_verified k =
      if is_truthy k.verified_key_spec
      then (ok tt, k)
      else key_spec_answer k (c.get_public_key k.key_id k.client)

  abbrev pub command_input : Kms → Bytes → CommandInput
  command_input k message = record {
    key_id = k.key_id;
    message = message;
    message_type = kms_message_type;
    signing_algorithm = kms_signing_algorithm;
  }

  -- A raw signature and the key that made it.
  pub record RawSignature : Type 0 where
    pub raw_signature : Bytes
    pub resolved_key_id : String

  pub record Validity : Type 0 where
    pub valid : Bool
    pub resolved_key_id : String

  raw_checked : String → Bytes → Result SigningError Bytes → Result KmsError RawSignature
  raw_checked key_id raw (err e) = err (contract e)
  raw_checked key_id raw (ok _) = ok (record { raw_signature = raw; resolved_key_id = key_id })

  -- What follows a successful answer to Sign.
  unfoldable pub decoded : String → Result DerError Bytes → Result KmsError RawSignature
  unfolding raw_checked assert_raw_signature
  decoded key_id (err e) = err (der e)
  decoded key_id (ok raw) = raw_checked key_id raw (assert_raw_signature raw)

  unfoldable pub sign_answer :
      Kms
      → CommandInput
      → Result KmsFault SignResponse × c.State
      → Result KmsError RawSignature × Kms
  unfolding decoded
  sign_answer k input (err e, client) =
      (err (sign_failed e), record k { client = client; sent = sign_command input ∷ k.sent })
  sign_answer k input (ok response, client) = (
    decoded (or_default response.key_id k.key_id) (decode_der_signature_to_raw response.signature),
    record k { client = client; sent = sign_command input ∷ k.sent },
  )

  unfoldable pub send_sign : Bytes → M RawSignature
  unfolding sign_answer
  send_sign message k =
      sign_answer k (command_input k message) (c.sign (command_input k message) k.client)

  unfoldable pub sign_raw_message_with_meta : Bytes → M RawSignature
  sign_raw_message_with_meta message = do
    m ← lift (assert_within_kms_raw_limit message)
    ensure_key_spec_verified
    send_sign m

  unfoldable pub verify_answer :
      Kms
      → CommandInput
      → Bytes
      → Result KmsFault VerifyResponse × c.State
      → Result KmsError Validity × Kms
  verify_answer k input signature (err e, client) = (
    if str_eq e.name "KMSInvalidSignatureException"
        then ok (record { valid = false; resolved_key_id = k.key_id })
        else err (verify_failed e),
    record k { client = client; sent = verify_command input signature ∷ k.sent },
  )
  verify_answer k input signature (ok response, client) = (
    ok (record {
      valid = is_true response.signature_valid;
      resolved_key_id = or_default response.key_id k.key_id;
    }),
    record k { client = client; sent = verify_command input signature ∷ k.sent },
  )

  unfoldable pub send_verify : Bytes → Bytes → M Validity
  unfolding verify_answer
  send_verify message signature k =
      verify_answer k (command_input k message) signature
        (c.verify (command_input k message) signature k.client)

  -- `try { assertRawSignature(signature) } catch { return { valid: false, … } }`
  unfoldable pub verify_checked : Bytes → Result SigningError Bytes → M Validity
  verify_checked message (err e) k = (ok (record { valid = false; resolved_key_id = k.key_id }), k)
  verify_checked message (ok signature) k =
      (do
        ensure_key_spec_verified
        encoded ← lift (map_err der (encode_raw_to_der signature))
        send_verify message encoded)
        k

  unfoldable pub verify_raw_message_signature_with_meta : Bytes → Bytes → M Validity
  unfolding verify_checked
  verify_raw_message_signature_with_meta message signature = do
    m ← lift (assert_within_kms_raw_limit message)
    verify_checked m (assert_raw_signature signature)

  unfoldable pub get_public_key : M (Option Bytes)
  get_public_key = do ensure_key_spec_verified; λ k. (ok k.cached_public_key, k)

  -- The public forms, which return the signature or the verdict alone.
  unfoldable pub sign_raw_message : Bytes → M Bytes
  sign_raw_message message = do
    signed ← sign_raw_message_with_meta message
    lift (ok signed.raw_signature)

  unfoldable pub verify_raw_message_signature : Bytes → Bytes → M Bool
  verify_raw_message_signature message signature = do
    validity ← verify_raw_message_signature_with_meta message signature
    lift (ok validity.valid)
