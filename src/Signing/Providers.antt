-- ===== src/Signing/Providers.antt =====
-- lib/local-ecdsa-provider.js and lib/aws-kms-provider.js as signing providers.
use tanden_trust_audit_poc.Base.{String, Option, none, some, Result, ok, err, ◌>>=◌}
use tanden_trust_audit_poc.Base.Stateful.{Stateful}
use tanden_trust_audit_poc.Json.{Json}
use tanden_trust_audit_poc.Platform.{Crypto, Ecdsa, Bytes}
use tanden_trust_audit_poc.Signing.Digest.{SigningError, get_evidence_digest_details, invalid_key}
use tanden_trust_audit_poc.Signing.Contract.{assert_raw_message, assert_raw_signature}
use tanden_trust_audit_poc.Signing.Local
use tanden_trust_audit_poc.Signing.Local.{SignResult, VerifyResult}
use tanden_trust_audit_poc.Signing.Provider.{Signed, Verdict, SigningProvider}
use tanden_trust_audit_poc.Kms.Client.{KmsClient, KmsError}
use tanden_trust_audit_poc.Kms.Provider.{Kms}
use tanden_trust_audit_poc.Kms.Evidence.{KmsSigned, KmsVerdict}
use tanden_trust_audit_poc.Kms.Evidence

module _ (crypto : Crypto) (ecdsa : Ecdsa) where
  -- `crypto.createPrivateKey(undefined)` throws, behind the digest and the check of the message.
  sign_without_key : Json → Result SigningError (SignResult crypto ecdsa)
  sign_without_key evidence = do
    details ← get_evidence_digest_details crypto evidence
    _ ← assert_raw_message none (crypto.utf8 details.canonical_json)
    err invalid_key

  -- A signature of a wrong length is invalid before the key is looked at.
  verdict_without_key :
      Json → Bytes → Result SigningError Bytes → Result SigningError (VerifyResult crypto ecdsa)
  verdict_without_key evidence signature (ok s) = err invalid_key
  verdict_without_key evidence signature (err e) =
      Local.verify_evidence_signature crypto ecdsa evidence signature ""

  verify_without_key : Json → Bytes → Result SigningError (VerifyResult crypto ecdsa)
  unfolding verdict_without_key
  verify_without_key evidence signature = do
    details ← get_evidence_digest_details crypto evidence
    _ ← assert_raw_message none (crypto.utf8 details.canonical_json)
    verdict_without_key evidence signature (assert_raw_signature signature)

  local_signed : Result SigningError (SignResult crypto ecdsa) → Result SigningError Signed
  local_signed (err e) = err e
  local_signed (ok r) = ok (record {
    canonicalization = r.canonicalization;
    hash_algorithm = r.hash_algorithm;
    digest_hex = r.digest_hex;
    signature_base64 = r.signature_base64;
    signature_algorithm = r.signature_algorithm;
    kms_key_id = none;
    signed_at = none;
  })

  local_verdict : Result SigningError (VerifyResult crypto ecdsa) → Result SigningError Verdict
  local_verdict (err e) = err e
  local_verdict (ok r) =
      ok (record { digest_hex = r.digest_hex; valid = r.valid; kms_key_id = none })

  unfoldable pub local_sign : Json → Option String → Result SigningError Signed
  unfolding sign_without_key local_signed Local.sign_evidence
  local_sign evidence none = local_signed (sign_without_key evidence)
  local_sign evidence (some pem) = local_signed (Local.sign_evidence crypto ecdsa evidence pem)

  unfoldable pub local_verify : Json → Bytes → Option String → Result SigningError Verdict
  unfolding verify_without_key local_verdict Local.verify_evidence_signature
  local_verify evidence signature none = local_verdict (verify_without_key evidence signature)
  local_verify evidence signature (some pem) =
      local_verdict (Local.verify_evidence_signature crypto ecdsa evidence signature pem)

  -- `message` is the text of each error.
  abbrev pub local_provider : (SigningError → String) → SigningProvider
  local_provider message = record {
    State = Unit {0};
    Error = SigningError;
    error_message = message;
    sign_evidence = λ evidence pem u. (local_sign evidence pem, u);
    verify_evidence_signature =
        λ evidence signature pem u. (local_verify evidence signature pem, u);
  }

  module _ (c : KmsClient) where
    kms_signed : Result KmsError KmsSigned × Kms c → Result KmsError Signed × Kms c
    kms_signed (err e, k) = (err e, k)
    kms_signed (ok r, k) = (
      ok (record {
        canonicalization = r.canonicalization;
        hash_algorithm = r.hash_algorithm;
        digest_hex = r.digest_hex;
        signature_base64 = r.signature_base64;
        signature_algorithm = r.signature_algorithm;
        kms_key_id = some r.kms_key_id;
        signed_at = some r.signed_at;
      }),
      k,
    )

    kms_verdict : Result KmsError KmsVerdict × Kms c → Result KmsError Verdict × Kms c
    kms_verdict (err e, k) = (err e, k)
    kms_verdict (ok r, k) = (
      ok (record { digest_hex = r.digest_hex; valid = r.valid; kms_key_id = some r.kms_key_id }),
      k,
    )

    unfoldable pub kms_sign : Json → String → Stateful (Kms c) KmsError Signed
    unfolding kms_signed
    kms_sign evidence now k = kms_signed (Evidence.sign_evidence crypto ecdsa c evidence now k)

    unfoldable pub kms_verify : Json → Bytes → Stateful (Kms c) KmsError Verdict
    unfolding kms_verdict
    kms_verify evidence signature k =
        kms_verdict (Evidence.verify_evidence_signature crypto ecdsa c evidence signature k)

    -- The key in PEM form is not read; `now` is the time of the signature.
    abbrev pub kms_provider : (KmsError → String) → String → SigningProvider
    kms_provider message now = record {
      State = Kms c;
      Error = KmsError;
      error_message = message;
      sign_evidence = λ evidence pem. kms_sign evidence now;
      verify_evidence_signature = λ evidence signature pem. kms_verify evidence signature;
    }
