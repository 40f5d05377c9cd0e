-- ===== src/Tests/KmsClients.antt =====
-- A KMS whose key has the right key spec, and which returns one DER signature.
use tanden_trust_audit_poc.Base.{
  ℕ, true, none, some, [], ◌∷◌, ◌++◌, ok, ◌≡◌, refl, replicate, is_truthy,
}
use tanden_trust_audit_poc.Platform.{Bytes}
use tanden_trust_audit_poc.Signing.Digest.{get_evidence_digest_details}
use tanden_trust_audit_poc.Signing.Contract.{assert_raw_signature}
use tanden_trust_audit_poc.Kms.Der.{decode_der_signature_to_raw}
use tanden_trust_audit_poc.Kms.Client.{KmsClient, kms_key_spec, assert_within_kms_raw_limit}
use tanden_trust_audit_poc.Kms.Provider.{
  Kms, create_provider, ensure_key_spec_verified, send_sign, sign_raw_message_with_meta,
}
use tanden_trust_audit_poc.Kms.Guarded.{IsGuarded, key_confirmed}
use tanden_trust_audit_poc.Kms.Commands.{
  sign_call, verify_call, public_key_call, run_all, run_all-IsGuarded,
}
use tanden_trust_audit_poc.Kms.Evidence.{
  KmsSigned, KmsVerdict, sign_evidence, verify_evidence_signature,
}
use tanden_trust_audit_poc.Tests.Anchors.{fixed, pem_keys, evidence}

abbrev der_signature : Bytes
der_signature = 0x30 ∷ 6 ∷ 2 ∷ 1 ∷ 1 ∷ 2 ∷ 1 ∷ 5 ∷ []

abbrev kms : KmsClient
kms = record {
  State = ℕ;
  get_public_key =
      λ key_id n. (ok (record { key_spec = some kms_key_spec; public_key = 4 ∷ [] }), n);
  sign = λ input n. (ok (record { signature = der_signature; key_id = some "arn" }), n);
  verify =
      λ input signature n. (ok (record { signature_valid = some true; key_id = some "arn" }), n);
}

abbrev provider : Kms kms
provider = record {
  key_id = "alias/audit";
  verified_key_spec = none;
  cached_public_key = none;
  client = 0;
  sent = [];
}

provider_created : create_provider kms (some "alias/audit") 0 ≡ ok provider
unfolding create_provider
provider_created = refl

run_all-IsGuarded_example :
    IsGuarded "alias/audit"
      (run_all kms
        (sign_call (7 ∷ []) ∷ public_key_call ∷ verify_call (7 ∷ []) (1 ∷ []) ∷ [])
        provider).sent
    × (is_truthy
          (run_all kms
            (sign_call (7 ∷ []) ∷ public_key_call ∷ verify_call (7 ∷ []) (1 ∷ []) ∷ [])
            provider).verified_key_spec
        ≡ key_confirmed
            (run_all kms
              (sign_call (7 ∷ []) ∷ public_key_call ∷ verify_call (7 ∷ []) (1 ∷ []) ∷ [])
              provider).sent)
run_all-IsGuarded_example =
    run_all-IsGuarded kms (some "alias/audit") 0 provider
      (sign_call (7 ∷ []) ∷ public_key_call ∷ verify_call (7 ∷ []) (1 ∷ []) ∷ []) provider_created

abbrev raw : Bytes
raw = replicate 31 0 ++ 1 ∷ replicate 31 0 ++ 5 ∷ []

abbrev signed : KmsSigned
signed = record {
  canonicalization = "RFC 8785 JSON Canonicalization Scheme (JCS)";
  hash_algorithm = "SHA-256";
  signature_algorithm = "ECDSA_SHA_256";
  digest_hex = "00000000000000000000000000000000000000000000000000000000000000aa";
  signature = raw;
  signature_base64 = "c2ln";
  kms_key_id = "arn";
  signing_algorithm = "ECDSA_SHA_256";
  signed_at = "now";
}

abbrev provider_after : Kms kms
provider_after = (sign_evidence fixed pem_keys kms evidence "now" provider).1

evidence_signed :
    sign_evidence fixed pem_keys kms evidence "now" provider ≡ (ok signed, provider_after)
unfolding sign_evidence get_evidence_digest_details sign_raw_message_with_meta
    ensure_key_spec_verified send_sign assert_within_kms_raw_limit decode_der_signature_to_raw
    assert_raw_signature
evidence_signed = refl

abbrev verdict : KmsVerdict
verdict = record {
  canonicalization = "RFC 8785 JSON Canonicalization Scheme (JCS)";
  hash_algorithm = "SHA-256";
  signature_algorithm = "ECDSA_SHA_256";
  digest_hex = "00000000000000000000000000000000000000000000000000000000000000aa";
  valid = true;
  kms_key_id = "arn";
}

abbrev provider_last : Kms kms
provider_last = (verify_evidence_signature fixed pem_keys kms evidence raw provider_after).1
