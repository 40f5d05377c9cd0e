-- ===== src/Kms/SignVerify.antt =====
-- lib/aws-kms-provider.js: what KMS has signed, it verifies.
use tanden_trust_audit_poc.Base.{
  true, some, Result, ok, err, ◌≡◌, refl, arith, length, is_truthy, Bool-cases, inl, inr, sym, ap,
  ◌≢◌, eq_iff, str_eq, ◌∙◌,
}
use tanden_trust_audit_poc.Platform.{Bytes}
use tanden_trust_audit_poc.Signing.Contract.{assert_raw_signature}
use tanden_trust_audit_poc.Kms.Der.{DerError}
use tanden_trust_audit_poc.Kms.Encode.{encode_raw_to_der}
use tanden_trust_audit_poc.Kms.RoundTrip.{decode_der_signature_to_raw-encode_raw_to_der}
use tanden_trust_audit_poc.Kms.Client.{
  KmsClient, KmsFault, CommandInput, SignResponse, VerifyResponse, is_true,
  assert_within_kms_raw_limit,
}
use tanden_trust_audit_poc.Kms.Provider.{
  Kms, RawSignature, Validity, ensure_key_spec_verified, command_input, sign_raw_message_with_meta,
  verify_answer, send_verify, verify_checked, verify_raw_message_signature_with_meta,
}
use tanden_trust_audit_poc.Kms.Signs.{Signs, sign-Signs}

-- What AWS documents of the key: a signature is the DER text of two integers of at most 32 bytes,
-- and a Verify of this text over the same command finds it valid whenever it is answered, and does
-- not fail as one of a signature that is not valid.
pub record IsReliable (c : KmsClient) : Type 0 where
  pub signs_der :
      (input : CommandInput) (response : SignResponse) (s s' : c.State)
      → c.sign input s ≡ (ok response, s')
      → (raw : Bytes) × (length raw ≡ 64) × (encode_raw_to_der raw ≡ ok response.signature)
  pub verifies :
      (input : CommandInput) (response : SignResponse) (s s' later last : c.State)
      (answer : VerifyResponse)
      → c.sign input s ≡ (ok response, s')
      → c.verify input response.signature later ≡ (ok answer, last)
      → answer.signature_valid ≡ some true
  pub not_refused :
      (input : CommandInput) (response : SignResponse) (s s' later last : c.State) (e : KmsFault)
      → c.sign input s ≡ (ok response, s')
      → c.verify input response.signature later ≡ (err e, last)
      → e.name ≢ "KMSInvalidSignatureException"

payload_or : Bytes → Result DerError Bytes → Bytes
payload_or b (ok raw) = raw
payload_or b (err e) = b

module _ (c : KmsClient) where
  -- What `_verifyRawMessageSignatureWithMeta` sends to KMS, behind a verified key spec.
  verify-send :
      (message m signature encoded : Bytes) (k : Kms c)
      → assert_within_kms_raw_limit message ≡ ok m
      → assert_raw_signature signature ≡ ok signature
      → is_truthy k.verified_key_spec ≡ true
      → encode_raw_to_der signature ≡ ok encoded
      → verify_raw_message_signature_with_meta c message signature k
        ≡ verify_answer c k
            (command_input c k m)
            encoded
            (c.verify (command_input c k m) encoded k.client)
  verify-send message m signature encoded k accepted sized cached encoding =
      unfold verify_raw_message_signature_with_meta in
      rw accepted (
        rw sized (
          unfold verify_checked ensure_key_spec_verified in
          rw cached (rw encoding (unfold send_verify in refl))))

  -- The signature of a successful `_signRawMessageWithMeta` in DER is the answer of KMS.
  signature-encoded :
      (message : Bytes) (k' : Kms c) (signature : RawSignature c) (reliable : IsReliable c)
      (signs : Signs c message k' signature)
      → encode_raw_to_der signature.raw_signature ≡ ok signs.response.signature
  signature-encoded message k' signature reliable signs =
      let (raw, sized, encoded) =
        reliable.signs_der (command_input c signs.ready signs.m) signs.response signs.ready.client
          signs.client signs.answered in
      let (der, encoding, decoding) = decode_der_signature_to_raw-encode_raw_to_der raw sized in
      let same_der : der ≡ signs.response.signature = ground arith in
      let decoded' = rw same_der at decoding in
      let same : raw ≡ signature.raw_signature =
        unfold payload_or in ap (payload_or raw) (sym decoded' ∙ signs.raw) in
      rw (← same) encoded

  -- If KMS answers a Verify of the raw signature that it gave, over the same message and on the
  -- provider as it was left, the signature is valid.
  pub sign-verify :
      (message : Bytes) (k k' k'' : Kms c) (signature : RawSignature c) (validity : Validity c)
      → IsReliable c
      → sign_raw_message_with_meta c message k ≡ (ok signature, k')
      → verify_raw_message_signature_with_meta c message signature.raw_signature k'
        ≡ (ok validity, k'')
      → validity.valid ≡ true
  sign-verify message k k' k'' signature validity reliable h answered =
      go (c.verify (command_input c k' signs.m) signs.response.signature k'.client) refl (
        sym (
          verify-send message signs.m signature.raw_signature signs.response.signature k'
            signs.accepted signs.sized cached encoding)
        ∙ answered)
    where
      signs : Signs c message k' signature
      signs = sign-Signs c message k k' signature h

      encoding : encode_raw_to_der signature.raw_signature ≡ ok signs.response.signature
      encoding = signature-encoded message k' signature reliable signs

      cached : is_truthy k'.verified_key_spec ≡ true
      cached = rw signs.left signs.verified

      same_input : command_input c k' signs.m ≡ command_input c signs.ready signs.m
      same_input = rw signs.left refl

      fault :
          (e : KmsFault) (last : c.State)
          → e.name ≢ "KMSInvalidSignatureException"
          → verify_answer c k' (command_input c k' signs.m) signs.response.signature (err e, last)
            ≡ (ok validity, k'')
          → validity.valid ≡ true
      fault e last differs d = elim (Bool-cases (str_eq e.name "KMSInvalidSignatureException")) [
        | inl same ↦ absurd (differs ((eq_iff e.name "KMSInvalidSignatureException").0 same))
        | inr other ↦ absurd (unfold verify_answer in ground arith)
      ]

      go :
          (r : Result KmsFault VerifyResponse × c.State)
          → c.verify (command_input c k' signs.m) signs.response.signature k'.client ≡ r
          → verify_answer c k' (command_input c k' signs.m) signs.response.signature r
            ≡ (ok validity, k'')
          → validity.valid ≡ true
      go (err e, last) eq d =
          let refused =
            reliable.not_refused (command_input c signs.ready signs.m) signs.response
              signs.ready.client signs.client k'.client last e signs.answered
              (rw (← same_input) eq) in
          fault e last refused d
      go (ok answer, last) eq d =
          let good =
            reliable.verifies (command_input c signs.ready signs.m) signs.response
              signs.ready.client signs.client k'.client last answer signs.answered
              (rw (← same_input) eq) in
          let same : is_true answer.signature_valid ≡ validity.valid =
            unfold verify_answer in ground arith in
          sym same ∙ (rw good refl)
