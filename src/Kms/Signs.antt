-- ===== src/Kms/Signs.antt =====
-- lib/aws-kms-provider.js: what a successful `_signRawMessageWithMeta` has done.
use tanden_trust_audit_poc.Base.{
  String, true, some, ◌∷◌, Result, ok, err, ◌≡◌, refl, arith, length, is_truthy, Bool-cases, inl,
  inr, opt_eq-eq, opt_eq, sym,
}
use tanden_trust_audit_poc.Base.Stateful.{continue, ◌>>◌}
use tanden_trust_audit_poc.Platform.{Bytes}
use tanden_trust_audit_poc.Signing.Contract.{assert_raw_signature}
use tanden_trust_audit_poc.Kms.Der.{DerError, decode_der_signature_to_raw}
use tanden_trust_audit_poc.Kms.Client.{
  KmsClient, KmsError, KmsFault, PublicKeyResponse, SignResponse, sign_command, kms_key_spec,
  or_default, assert_within_kms_raw_limit,
}
use tanden_trust_audit_poc.Kms.Provider.{
  Kms, RawSignature, key_spec_answer, ensure_key_spec_verified, command_input, sign_answer, decoded,
  send_sign, sign_raw_message_with_meta,
}

module _ (c : KmsClient) where
  key_spec_answer-cached :
      (k k' : Kms c) (answer : Result KmsFault PublicKeyResponse × c.State) (u : Unit {0})
      → key_spec_answer c k answer ≡ (ok u, k')
      → is_truthy k'.verified_key_spec ≡ true
  unfolding key_spec_answer
  key_spec_answer-cached k k' (err e, client) u h = absurd (ground arith)
  key_spec_answer-cached k k' (ok response, client) u h =
      elim (Bool-cases (opt_eq response.key_spec (some kms_key_spec))) [
        | inl right ↦
            let spec = opt_eq-eq response.key_spec (some kms_key_spec) right in
            let same : response.key_spec ≡ k'.verified_key_spec = ground arith in
            rw (sym same, spec) refl
        | inr wrong ↦ absurd (ground arith)
      ]

  -- Behind a verified key spec, `_ensureKeySpecVerified` returns at once.
  ensure-cached :
      (k k' : Kms c) (u : Unit {0})
      → ensure_key_spec_verified c k ≡ (ok u, k')
      → is_truthy k'.verified_key_spec ≡ true
  unfolding ensure_key_spec_verified
  ensure-cached k k' u h = elim (Bool-cases (is_truthy k.verified_key_spec)) [
    | inl cached ↦ ground arith
    | inr fresh ↦ key_spec_answer-cached k k' (c.get_public_key k.key_id k.client) u (rw fresh at h)
  ]

  -- What a successful `_signRawMessageWithMeta` has done.
  pub record Signs (message : Bytes) (k' : Kms c) (signature : RawSignature c) : Type 0 where
    pub m : Bytes
    pub ready : Kms c
    pub response : SignResponse
    pub client : c.State
    pub accepted : assert_within_kms_raw_limit message ≡ ok m
    pub verified : is_truthy ready.verified_key_spec ≡ true
    pub answered : c.sign (command_input c ready m) ready.client ≡ (ok response, client)
    pub raw : decode_der_signature_to_raw response.signature ≡ ok signature.raw_signature
    pub sized : assert_raw_signature signature.raw_signature ≡ ok signature.raw_signature
    pub left : k' ≡ record ready {
      client = client;
      sent = sign_command (command_input c ready m) ∷ ready.sent;
    }

  pub sign-Signs :
      (message : Bytes) (k k' : Kms c) (signature : RawSignature c)
      → sign_raw_message_with_meta c message k ≡ (ok signature, k')
      → Signs message k' signature
  sign-Signs message k k' signature h =
      at_limit (assert_within_kms_raw_limit message) refl (unfold sign_raw_message_with_meta in h)
    where
      at_decoding :
          (key_id : String) (r : Result DerError Bytes)
          → decoded c key_id r ≡ ok signature
          → (r ≡ ok signature.raw_signature)
            × (assert_raw_signature signature.raw_signature ≡ ok signature.raw_signature)
      at_decoding key_id (err e) d = absurd (unfold decoded in ground arith)
      at_decoding key_id (ok raw) d = unfold decoded assert_raw_signature in ground arith

      at_answer :
          (m : Bytes) (ready : Kms c) (answer : Result KmsFault SignResponse × c.State)
          → assert_within_kms_raw_limit message ≡ ok m
          → is_truthy ready.verified_key_spec ≡ true
          → c.sign (command_input c ready m) ready.client ≡ answer
          → sign_answer c ready (command_input c ready m) answer ≡ (ok signature, k')
          → Signs message k' signature
      at_answer m ready (err e, client) accepted verified eq d =
          absurd (unfold sign_answer in ground arith)
      at_answer m ready (ok response, client) accepted verified eq d =
          let taken =
            at_decoding (or_default response.key_id ready.key_id)
              (decode_der_signature_to_raw response.signature)
              (unfold sign_answer in ground arith) in
          record {
            m = m;
            ready = ready;
            response = response;
            client = client;
            accepted = accepted;
            verified = verified;
            answered = eq;
            raw = taken.0;
            sized = taken.1;
            left = unfold sign_answer in ground arith;
          }

      at_ensure :
          (m : Bytes) (r : Result KmsError (Unit {0}) × Kms c)
          → assert_within_kms_raw_limit message ≡ ok m
          → ensure_key_spec_verified c k ≡ r
          → continue (λ _. send_sign c m) r ≡ (ok signature, k')
          → Signs message k' signature
      at_ensure m (err e, ready) accepted eq d = absurd (ground arith)
      at_ensure m (ok u, ready) accepted eq d =
          at_answer m ready (c.sign (command_input c ready m) ready.client) accepted
            (ensure-cached k ready u eq) refl (unfold send_sign in d)

      at_limit :
          (r : Result KmsError Bytes)
          → assert_within_kms_raw_limit message ≡ r
          → continue (λ a. ensure_key_spec_verified c >> send_sign c a) (r, k) ≡ (ok signature, k')
          → Signs message k' signature
      at_limit (err e) eq d = absurd (ground arith)
      at_limit (ok m) eq d = at_ensure m (ensure_key_spec_verified c k) eq refl d

  pub length-assert_raw_signature : (s s' : Bytes) → assert_raw_signature s ≡ ok s' → length s ≡ 64
  unfolding assert_raw_signature
  length-assert_raw_signature s s' h = ground arith
