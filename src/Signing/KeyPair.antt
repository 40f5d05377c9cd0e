-- ===== src/Signing/KeyPair.antt =====
-- lib/local-ecdsa-provider.js: what was signed with a private key verifies with its public key.
use tanden_trust_audit_poc.Base.{String, true, Result, ok, err, ◌≡◌, refl, sym, arith, length}
use tanden_trust_audit_poc.Json.{Json}
use tanden_trust_audit_poc.Platform.{Crypto, Ecdsa, Bytes}
use tanden_trust_audit_poc.Signing.Digest.{SigningError, DigestDetails, get_evidence_digest_details}
use tanden_trust_audit_poc.Signing.Contract.{private_key, public_key, assert_secp256k1_key}
use tanden_trust_audit_poc.Signing.Local.{
  signature_algorithm, SignResult, VerifyResult, sign_raw_message, verify_raw_message_signature,
  sign_evidence, verify_evidence_signature,
}

module _ (crypto : Crypto) (ecdsa : Ecdsa) where
  -- What `generateEcKeyPair` returns: a secp256k1 public key that verifies, over any message, the
  -- 64-byte signature of the private key.
  pub record IsKeyPair (private_pem public_pem : String) : Type 0 where
    pub public : ecdsa.KeyObject
    pub accepted : assert_secp256k1_key ecdsa public_pem public_key ≡ ok public
    pub verifies :
        (key : ecdsa.KeyObject) (message : Bytes)
        → assert_secp256k1_key ecdsa private_pem private_key ≡ ok key
        → (length (ecdsa.sign key message) ≡ 64)
          × (ecdsa.verify public message (ecdsa.sign key message) ≡ true)

  sign_raw_message-verifies :
      (private_pem public_pem : String) (message signature : Bytes)
      → IsKeyPair private_pem public_pem
      → sign_raw_message crypto ecdsa message private_pem ≡ ok signature
      → verify_raw_message_signature crypto ecdsa message signature public_pem ≡ ok true
  sign_raw_message-verifies private_pem public_pem message signature pair h =
      go (assert_secp256k1_key ecdsa private_pem private_key) refl
    where
      go :
          (m : Result SigningError ecdsa.KeyObject)
          → assert_secp256k1_key ecdsa private_pem private_key ≡ m
          → verify_raw_message_signature crypto ecdsa message signature public_pem ≡ ok true
      go (err e) eq = absurd (unfold sign_raw_message in ground arith)
      go (ok key) eq =
          let good = pair.verifies key message eq in
          unfold sign_raw_message verify_raw_message_signature in
          ground (arith, pair.accepted, good)

  -- Evidence that `signEvidence` has signed passes `verifyEvidenceSignature` with the public key of
  -- the pair, and both report the same digest.
  pub sign_evidence-verifies :
      (private_pem public_pem : String) (evidence : Json) (signed : SignResult crypto ecdsa)
      → IsKeyPair private_pem public_pem
      → sign_evidence crypto ecdsa evidence private_pem ≡ ok signed
      → (result : VerifyResult crypto ecdsa) × (verify_evidence_signature crypto ecdsa evidence
            signed.signature public_pem
          ≡ ok result)
        × (result.valid ≡ true)
        × (result.digest_hex ≡ signed.digest_hex)
  sign_evidence-verifies private_pem public_pem evidence signed pair h =
      at_digest (get_evidence_digest_details crypto evidence) refl
    where
      Goal : Type 0
      Goal =
          (result : VerifyResult crypto ecdsa) × (verify_evidence_signature crypto ecdsa evidence
              signed.signature public_pem
            ≡ ok result)
          × (result.valid ≡ true)
          × (result.digest_hex ≡ signed.digest_hex)

      at_signature :
          (d : DigestDetails crypto) (m : Result SigningError Bytes)
          → get_evidence_digest_details crypto evidence ≡ ok d
          → sign_raw_message crypto ecdsa (crypto.utf8 d.canonical_json) private_pem ≡ m
          → Goal
      at_signature d (err e) eq es = absurd (unfold sign_evidence in ground arith)
      at_signature d (ok s) eq es =
          let same : signed.signature ≡ s = unfold sign_evidence in ground arith in
          let digest : signed.digest_hex ≡ d.digest_hex = unfold sign_evidence in ground arith in
          let good =
            sign_raw_message-verifies private_pem public_pem (crypto.utf8 d.canonical_json) s pair
              es in
          (
            record {
              canonicalization = d.canonicalization;
              hash_algorithm = d.hash_algorithm;
              signature_algorithm = signature_algorithm;
              digest_hex = d.digest_hex;
              valid = true;
            },
            unfold verify_evidence_signature in ground (arith, good),
            refl,
            sym digest,
          )

      at_digest :
          (m : Result SigningError (DigestDetails crypto))
          → get_evidence_digest_details crypto evidence ≡ m
          → Goal
      at_digest (err e) eq = absurd (unfold sign_evidence in ground arith)
      at_digest (ok d) eq =
          at_signature d (sign_raw_message crypto ecdsa (crypto.utf8 d.canonical_json) private_pem)
            eq refl
