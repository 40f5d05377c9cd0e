-- ===== src/Anchor/Gate.antt =====
-- lib/verified-anchor-service.js: `anchorVerifiedEvidence`. The calls of the anchor client are
-- recorded in the order in which the code makes them.
use tanden_trust_audit_poc.Base.{
  String, Bool, true, false, not, Option, none, some, List, [], ◌∷◌, Result, ok, err, ◌>>=◌, ◌>>◌,
  map_err, if◌then◌else◌, Number,
}
use tanden_trust_audit_poc.Json.{Json}
use tanden_trust_audit_poc.Platform.{Crypto, Ecdsa, DbError}
use tanden_trust_audit_poc.Metadata.Schema.{Metadata}
use tanden_trust_audit_poc.Metadata.Validate.{validate_sidecar_metadata_v2}
use tanden_trust_audit_poc.Metadata.Signing.{metadata_object}
use tanden_trust_audit_poc.Ledger.Table.{Table}
use tanden_trust_audit_poc.Ledger.Logger.{Pool}
use tanden_trust_audit_poc.Anchor.Sidecar.{Verdict, verify_evidence_with_sidecar_metadata}
use tanden_trust_audit_poc.Anchor.InternalLedger.{verify_recorded_evidence}
use tanden_trust_audit_poc.Anchor.Service.{
  Failure, read_anchor_state, submit_anchor_transaction, validate_transaction_result,
  ledger_verifier_error, AnchorError, invalid_sidecar_metadata, evidence_error,
  verification_not_approved, internal_ledger_not_confirmed, already_anchored, anchor_transaction,
  TrustedKeys, resolve_public_key, assert_anchor_digest, assert_non_empty_string, InternalLedger,
  normalize_ledger_confirmation, is_anchored, is_already_anchored_failure, to_bytes32,
  RawTransaction, Transaction, normalize_transaction_result,
}

-- The anchor client's two methods, at the time of one request.
pub record AnchorClient : Type 0 where
  pub get_anchored_at : String → Result Failure Number
  pub anchor_digest : String → Result Failure (Option RawTransaction)

pub data Call : Type 0 where
  get_anchored_at anchor_digest : String → Call

-- What the checks before the client's first call have established.
pub record Approved : Type 0 where
  pub metadata : Metadata
  pub digest_hex : String
  pub internal_ledger : InternalLedger

pub record Anchored : Type 0 where
  pub digest_hex : String
  pub digest_bytes32 : String
  pub transaction_result : Transaction
  pub evidence_id : String
  pub key_id : String
  pub internal_ledger : InternalLedger

pub record AnchorRequest : Type 0 where
  pub evidence : Json
  pub metadata : Json
  pub ledger_event_id : Option Json

-- `verificationResult.valid !== true`; a valid result has its digest.
unfoldable pub approved_digest : Verdict → Result AnchorError String
approved_digest verdict =
    if not verdict.valid
    then err (verification_not_approved verdict.reason)
    else elim verdict.evidence_digest_hex [
      | none ↦ err (verification_not_approved none)
      | some digest_hex ↦ ok digest_hex
    ]

module _ (crypto : Crypto) (ecdsa : Ecdsa) (t : Table) where
  unfoldable pub approve :
      TrustedKeys → Option DbError → Pool t.State → AnchorRequest → Result AnchorError Approved
  approve keys fault pool request = do
    m ← map_err (λ es. invalid_sidecar_metadata) (validate_sidecar_metadata_v2 request.metadata)
    pem ← resolve_public_key keys m.key_id
    verdict ← map_err evidence_error (
        verify_evidence_with_sidecar_metadata crypto ecdsa request.evidence (metadata_object m) pem)
    digest_hex ← approved_digest verdict
    assert_anchor_digest digest_hex
    ledger_event_id ← assert_non_empty_string request.ledger_event_id
    confirmation ←
        map_err (λ e. internal_ledger_not_confirmed ledger_verifier_error)
          (verify_recorded_evidence crypto t fault pool ledger_event_id m.evidence_id digest_hex)
    ledger ← normalize_ledger_confirmation confirmation ledger_event_id
    ok (record { metadata = m; digest_hex = digest_hex; internal_ledger = ledger })

abbrev pub submission_error : String → Failure → AnchorError
submission_error digest_hex cause =
    if is_already_anchored_failure cause
    then already_anchored digest_hex none
    else anchor_transaction digest_hex submit_anchor_transaction

-- The end of the method, on what `anchorDigest` did.
unfoldable pub submitted :
    Approved → Result Failure (Option RawTransaction) → Result AnchorError Anchored
submitted a outcome = do
  raw ← map_err (submission_error a.digest_hex) outcome
  transaction ←
      map_err (λ e. anchor_transaction a.digest_hex validate_transaction_result)
        (normalize_transaction_result raw)
  ok (record {
    digest_hex = a.digest_hex;
    digest_bytes32 = to_bytes32 a.digest_hex;
    transaction_result = transaction;
    evidence_id = a.metadata.evidence_id;
    key_id = a.metadata.key_id;
    internal_ledger = a.internal_ledger;
  })

-- `getAnchoredAt` has answered, and the digest is anchored or not.
unfoldable pub unless_anchored :
    AnchorClient
    → Approved
    → Number
    → Result AnchorError Bool
    → Result AnchorError Anchored × List Call
unfolding submitted
unless_anchored client a anchored_at (err e) =
    (err e, Call.get_anchored_at (to_bytes32 a.digest_hex) ∷ [])
unless_anchored client a anchored_at (ok true) = (
  err (already_anchored a.digest_hex (some anchored_at)),
  Call.get_anchored_at (to_bytes32 a.digest_hex) ∷ [],
)
unless_anchored client a anchored_at (ok false) = (
  submitted a (client.anchor_digest (to_bytes32 a.digest_hex)),
  Call.get_anchored_at (to_bytes32 a.digest_hex)
      ∷ Call.anchor_digest (to_bytes32 a.digest_hex)
      ∷ [],
)

unfoldable pub anchor_unless_anchored :
    AnchorClient → Approved → Result Failure Number → Result AnchorError Anchored × List Call
anchor_unless_anchored client a (err e) = (
  err (anchor_transaction a.digest_hex read_anchor_state),
  Call.get_anchored_at (to_bytes32 a.digest_hex) ∷ [],
)
anchor_unless_anchored client a (ok anchored_at) =
    unless_anchored client a anchored_at (is_anchored anchored_at)

unfoldable pub anchor_approved :
    AnchorClient → Result AnchorError Approved → Result AnchorError Anchored × List Call
anchor_approved client (err e) = (err e, [])
anchor_approved client (ok a) =
    anchor_unless_anchored client a (client.get_anchored_at (to_bytes32 a.digest_hex))

module _ (crypto : Crypto) (ecdsa : Ecdsa) (t : Table) where
  unfoldable pub anchor_verified_evidence :
      TrustedKeys
      → AnchorClient
      → Option DbError
      → Pool t.State
      → AnchorRequest
      → Result AnchorError Anchored × List Call
  anchor_verified_evidence keys client fault pool request =
      anchor_approved client (approve crypto ecdsa t keys fault pool request)
