-- ===== src/Kms/Guarded.antt =====
-- lib/aws-kms-provider.js: which commands `AwsKmsProvider` sends, and when.
use tanden_trust_audit_poc.Base.{
  ◌≤◌, ◌<◌, String, Bool, true, false, ◌||◌, some, List, [], ◌∷◌, Result, ok, err, ◌≡◌, refl, arith,
  length, opt_eq, is_truthy, Bool-cases, inl, inr, opt_eq-eq, subst,
}
use tanden_trust_audit_poc.Base.Stateful.{Stateful, continue}
use tanden_trust_audit_poc.Platform.{Bytes}
use tanden_trust_audit_poc.Kms.Client.{
  KmsClient, KmsError, KmsFault, Command, CommandInput, PublicKeyResponse, SignResponse,
  VerifyResponse, get_public_key_command, sign_command, verify_command, kms_key_spec,
  kms_message_type, kms_signing_algorithm, assert_within_kms_raw_limit,
}
use tanden_trust_audit_poc.Kms.Provider.{
  Kms, key_spec_answer, ensure_key_spec_verified, command_input, sign_answer, verify_answer,
}

-- Whether a GetPublicKey among the commands was answered with the key spec of secp256k1.
abbrev pub key_confirmed : List Command → Bool
key_confirmed [] = false
key_confirmed (get_public_key_command spec ∷ log) =
    opt_eq spec (some kms_key_spec) || key_confirmed log
key_confirmed (sign_command input ∷ log) = key_confirmed log
key_confirmed (verify_command input signature ∷ log) = key_confirmed log

-- A message in RAW mode, of a length that KMS accepts, for the algorithm of this program.
pub record IsRawCommand (key_id : String) (input : CommandInput) : Type 0 where
  pub same_key : input.key_id ≡ key_id
  pub not_empty : 0 < length input.message
  pub within_limit : length input.message ≤ 4096
  pub raw : input.message_type ≡ kms_message_type
  pub algorithm : input.signing_algorithm ≡ kms_signing_algorithm

-- The log read backwards: GetPublicKey is sent only until it is answered with the right key spec,
-- and Sign and Verify only afterwards.
abbrev pub IsGuarded : String → List Command → Type 0
IsGuarded key_id [] = Unit
IsGuarded key_id (get_public_key_command spec ∷ log) =
    (key_confirmed log ≡ false) × IsGuarded key_id log
IsGuarded key_id (sign_command input ∷ log) =
    (key_confirmed log ≡ true) × IsRawCommand key_id input × IsGuarded key_id log
IsGuarded key_id (verify_command input signature ∷ log) =
    (key_confirmed log ≡ true) × IsRawCommand key_id input × IsGuarded key_id log

module _ (c : KmsClient) where
  -- The log is guarded, and the provider remembers a key spec exactly when one was confirmed.
  pub record IsReady (key_id : String) (k : Kms c) : Type 0 where
    pub same_key : k.key_id ≡ key_id
    pub guarded : IsGuarded key_id k.sent
    pub remembered : is_truthy k.verified_key_spec ≡ key_confirmed k.sent

  key_spec_answer-IsReady :
      (key_id : String) (k : Kms c) (answer : Result KmsFault PublicKeyResponse × c.State)
      → IsReady key_id k
      → is_truthy k.verified_key_spec ≡ false
      → IsReady key_id (key_spec_answer c k answer).1
  unfolding key_spec_answer
  key_spec_answer-IsReady key_id k (err e, client) r fresh = record {
    same_key = r.same_key;
    guarded = ground arith;
    remembered = r.remembered;
  }
  key_spec_answer-IsReady key_id k (ok response, client) r fresh =
      elim (Bool-cases (opt_eq response.key_spec (some kms_key_spec))) [
        | inl right ↦ rw right (record {
          same_key = r.same_key;
          guarded = ground arith;
          remembered = rw (opt_eq-eq response.key_spec (some kms_key_spec) right) refl;
        })
        | inr wrong ↦ rw wrong (record {
          same_key = r.same_key;
          guarded = ground arith;
          remembered = rw wrong r.remembered;
        })
      ]

  key_spec_answer-confirmed :
      (k k' : Kms c) (answer : Result KmsFault PublicKeyResponse × c.State) (u : Unit {0})
      → key_spec_answer c k answer ≡ (ok u, k')
      → key_confirmed k'.sent ≡ true
  unfolding key_spec_answer
  key_spec_answer-confirmed k k' (err e, client) u h = absurd (ground arith)
  key_spec_answer-confirmed k k' (ok response, client) u h = ground arith

  ensure-IsReady :
      (key_id : String) (k : Kms c)
      → IsReady key_id k
      → IsReady key_id (ensure_key_spec_verified c k).1
  unfolding ensure_key_spec_verified
  ensure-IsReady key_id k r = elim (Bool-cases (is_truthy k.verified_key_spec)) [
    | inl cached ↦ rw cached r
    | inr fresh ↦
        rw fresh (key_spec_answer-IsReady key_id k (c.get_public_key k.key_id k.client) r fresh)
  ]

  -- Once the key spec is verified, the log has the answer.
  ensure-confirmed :
      (key_id : String) (k k' : Kms c) (u : Unit {0})
      → IsReady key_id k
      → ensure_key_spec_verified c k ≡ (ok u, k')
      → key_confirmed k'.sent ≡ true
  unfolding ensure_key_spec_verified
  ensure-confirmed key_id k k' u r h = elim (Bool-cases (is_truthy k.verified_key_spec)) [
    | inl cached ↦ ground arith
    | inr fresh ↦
        key_spec_answer-confirmed k k' (c.get_public_key k.key_id k.client) u (rw fresh at h)
  ]

  -- The message has passed the limit.
  within_limit :
      (message m : Bytes)
      → assert_within_kms_raw_limit message ≡ ok m
      → (0 < length m) × (length m ≤ 4096)
  unfolding assert_within_kms_raw_limit
  within_limit message m h = ground arith

  pub sign_answer-IsReady :
      (key_id : String) (k : Kms c) (input : CommandInput)
      (answer : Result KmsFault SignResponse × c.State)
      → IsReady key_id k
      → key_confirmed k.sent ≡ true
      → IsRawCommand key_id input
      → IsReady key_id (sign_answer c k input answer).1
  unfolding sign_answer
  sign_answer-IsReady key_id k input (err e, client) r seen raw = record {
    same_key = r.same_key;
    guarded = (seen, raw, r.guarded);
    remembered = r.remembered;
  }
  sign_answer-IsReady key_id k input (ok response, client) r seen raw = record {
    same_key = r.same_key;
    guarded = (seen, raw, r.guarded);
    remembered = r.remembered;
  }

  pub verify_answer-IsReady :
      (key_id : String) (k : Kms c) (input : CommandInput) (signature : Bytes)
      (answer : Result KmsFault VerifyResponse × c.State)
      → IsReady key_id k
      → key_confirmed k.sent ≡ true
      → IsRawCommand key_id input
      → IsReady key_id (verify_answer c k input signature answer).1
  unfolding verify_answer
  verify_answer-IsReady key_id k input signature (err e, client) r seen raw = record {
    same_key = r.same_key;
    guarded = (seen, raw, r.guarded);
    remembered = r.remembered;
  }
  verify_answer-IsReady key_id k input signature (ok response, client) r seen raw = record {
    same_key = r.same_key;
    guarded = (seen, raw, r.guarded);
    remembered = r.remembered;
  }

  -- What runs behind `_ensureKeySpecVerified` keeps the log guarded, if it does so once the key
  -- spec is confirmed.
  pub after_ensure :
      {A : Type 0} (key_id : String) (k : Kms c) (step : Unit {0} → Stateful (Kms c) KmsError A)
      → IsReady key_id k
      → ((k' : Kms c)
          → IsReady key_id k'
          → key_confirmed k'.sent ≡ true
          → IsReady key_id (step tt k').1)
      → IsReady key_id (continue step (ensure_key_spec_verified c k)).1
  after_ensure {A} key_id k step r keeps = go (ensure_key_spec_verified c k) refl
    where
      go :
          (m : Result KmsError (Unit {0}) × Kms c)
          → ensure_key_spec_verified c k ≡ m
          → IsReady key_id (continue step m).1
      go (err e, k') eq = subst (λ x. IsReady key_id x.1) eq (ensure-IsReady key_id k r)
      go (ok u, k') eq =
          keeps k' (subst (λ x. IsReady key_id x.1) eq (ensure-IsReady key_id k r))
            (ensure-confirmed key_id k k' u r eq)

  pub command_input-IsRawCommand :
      (key_id : String) (k : Kms c) (message m : Bytes)
      → IsReady key_id k
      → assert_within_kms_raw_limit message ≡ ok m
      → IsRawCommand key_id (command_input c k m)
  command_input-IsRawCommand key_id k message m r accepted = record {
    same_key = r.same_key;
    not_empty = (within_limit message m accepted).0;
    within_limit = (within_limit message m accepted).1;
    raw = refl;
    algorithm = refl;
  }
