-- ===== src/Kms/Commands.antt =====
-- lib/aws-kms-provider.js: the commands that any sequence of calls of `AwsKmsProvider` sends.
use tanden_trust_audit_poc.Base.{
  String, true, Option, none, some, List, [], ◌∷◌, Result, ok, err, ◌≡◌, refl, arith, is_truthy,
  map_err,
}
use tanden_trust_audit_poc.Base.Stateful.{continue, ◌>>=◌, ◌>>◌, lift}
use tanden_trust_audit_poc.Platform.{Bytes}
use tanden_trust_audit_poc.Signing.Digest.{SigningError}
use tanden_trust_audit_poc.Signing.Contract.{assert_raw_signature}
use tanden_trust_audit_poc.Kms.Encode.{encode_raw_to_der}
use tanden_trust_audit_poc.Kms.Client.{KmsClient, KmsError, der, assert_within_kms_raw_limit}
use tanden_trust_audit_poc.Kms.Provider.{
  Kms, create_provider, ensure_key_spec_verified, command_input, send_sign,
  sign_raw_message_with_meta, send_verify, verify_checked, verify_raw_message_signature_with_meta,
  get_public_key,
}
use tanden_trust_audit_poc.Kms.Guarded.{
  key_confirmed, IsGuarded, IsReady, after_ensure, sign_answer-IsReady, verify_answer-IsReady,
  command_input-IsRawCommand,
}

module _ (c : KmsClient) where
  sign-IsReady :
      (key_id : String) (message : Bytes) (k : Kms c)
      → IsReady c key_id k
      → IsReady c key_id (sign_raw_message_with_meta c message k).1
  unfolding sign_raw_message_with_meta
  sign-IsReady key_id message k r = go (assert_within_kms_raw_limit message) refl
    where
      go :
          (m : Result KmsError Bytes)
          → assert_within_kms_raw_limit message ≡ m
          → IsReady c key_id (continue (λ a. ensure_key_spec_verified c >> send_sign c a) (m, k)).1
      go (err e) eq = r
      go (ok a) eq =
          after_ensure c key_id k (λ _. send_sign c a) r
            λ k' r' seen.
              unfold send_sign in
              sign_answer-IsReady c key_id k' (command_input c k' a)
                (c.sign (command_input c k' a) k'.client) r' seen
                (command_input-IsRawCommand c key_id k' message a r' eq)

  verify_checked-IsReady :
      (key_id : String) (message m : Bytes) (s : Result SigningError Bytes) (k : Kms c)
      → IsReady c key_id k
      → assert_within_kms_raw_limit message ≡ ok m
      → IsReady c key_id (verify_checked c m s k).1
  unfolding verify_checked
  verify_checked-IsReady key_id message m (err e) k r accepted = r
  verify_checked-IsReady key_id message m (ok signature) k r accepted =
      after_ensure c key_id k
        (λ _. lift (map_err der (encode_raw_to_der signature)) >>= send_verify c m) r
        λ k' r' seen. at_encoding (map_err der (encode_raw_to_der signature)) k' r' seen
    where
      at_encoding :
          (e : Result KmsError Bytes) (k' : Kms c)
          → IsReady c key_id k'
          → key_confirmed k'.sent ≡ true
          → IsReady c key_id (continue (send_verify c m) (e, k')).1
      at_encoding (err e) k' r' seen = r'
      at_encoding (ok encoded) k' r' seen =
          unfold send_verify in
          verify_answer-IsReady c key_id k' (command_input c k' m) encoded
            (c.verify (command_input c k' m) encoded k'.client) r' seen
            (command_input-IsRawCommand c key_id k' message m r' accepted)

  verify-IsReady :
      (key_id : String) (message signature : Bytes) (k : Kms c)
      → IsReady c key_id k
      → IsReady c key_id (verify_raw_message_signature_with_meta c message signature k).1
  unfolding verify_raw_message_signature_with_meta
  verify-IsReady key_id message signature k r = go (assert_within_kms_raw_limit message) refl
    where
      go :
          (m : Result KmsError Bytes)
          → assert_within_kms_raw_limit message ≡ m
          → IsReady c key_id
              (continue (λ a. verify_checked c a (assert_raw_signature signature)) (m, k)).1
      go (err e) eq = r
      go (ok a) eq = verify_checked-IsReady key_id message a (assert_raw_signature signature) k r eq

  get_public_key-IsReady :
      (key_id : String) (k : Kms c) → IsReady c key_id k → IsReady c key_id (get_public_key c k).1
  unfolding get_public_key
  get_public_key-IsReady key_id k r =
      after_ensure c key_id k (λ _ k'. (ok k'.cached_public_key, k')) r λ k' r' seen. r'

-- A call of the provider.
pub data Call : Type 0 where
  sign_call : Bytes → Call
  verify_call : Bytes → Bytes → Call
  public_key_call : Call

module _ (c : KmsClient) where
  -- The provider behind a call, whether it has thrown or not.
  abbrev pub run : Call → Kms c → Kms c
  run (sign_call message) k = (sign_raw_message_with_meta c message k).1
  run (verify_call message signature) k =
      (verify_raw_message_signature_with_meta c message signature k).1
  run public_key_call k = (get_public_key c k).1

  abbrev pub run_all : List Call → Kms c → Kms c
  run_all [] k = k
  run_all (call ∷ calls) k = run_all calls (run call k)

  run_all-IsReady :
      (key_id : String) (calls : List Call) (k : Kms c)
      → IsReady c key_id k
      → IsReady c key_id (run_all calls k)
  run_all-IsReady key_id [] k r = r
  run_all-IsReady key_id (sign_call message ∷ calls) k r =
      run_all-IsReady key_id calls (run (sign_call message) k) (sign-IsReady c key_id message k r)
  run_all-IsReady key_id (verify_call message signature ∷ calls) k r =
      run_all-IsReady key_id calls (run (verify_call message signature) k)
        (verify-IsReady c key_id message signature k r)
  run_all-IsReady key_id (public_key_call ∷ calls) k r =
      run_all-IsReady key_id calls (run public_key_call k) (get_public_key-IsReady c key_id k r)

  -- After any calls of a new provider, whatever KMS answers: GetPublicKey was sent only until it
  -- was answered with the key spec of secp256k1, and Sign and Verify only afterwards, with the
  -- provider's key, in RAW mode, for ECDSA_SHA_256 and a message of 1 to 4096 bytes; and the
  -- provider remembers a key spec exactly if the right one was answered.
  pub run_all-IsGuarded :
      (key_id : Option String) (client : c.State) (k : Kms c) (calls : List Call)
      → create_provider c key_id client ≡ ok k
      → IsGuarded k.key_id (run_all calls k).sent
        × (is_truthy (run_all calls k).verified_key_spec ≡ key_confirmed (run_all calls k).sent)
  run_all-IsGuarded key_id client k calls created = (ready.guarded, ready.remembered)
    where
      no_commands : (id : String) → create_provider c (some id) client ≡ ok k → k.sent ≡ []
      no_commands id h = unfold create_provider in ground arith

      no_key_spec :
          (id : String) → create_provider c (some id) client ≡ ok k → k.verified_key_spec ≡ none
      no_key_spec id h = unfold create_provider in ground arith

      fresh : (o : Option String) → create_provider c o client ≡ ok k → IsReady c k.key_id k
      fresh none h = absurd (unfold create_provider in ground arith)
      fresh (some id) h = record {
        same_key = refl;
        guarded = rw (no_commands id h) tt;
        remembered = rw (no_commands id h, no_key_spec id h) refl;
      }

      ready : IsReady c k.key_id (run_all calls k)
      ready = run_all-IsReady k.key_id calls k (fresh key_id created)
