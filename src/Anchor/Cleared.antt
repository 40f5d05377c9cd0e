-- ===== src/Anchor/Cleared.antt =====
-- lib/verified-anchor-service.js: what has been checked when a digest is sent to the anchor client.
use tanden_trust_audit_poc.Base.{
  ◌≡◌, refl, ◌∙◌, ap, arith, subst, String, Bool, true, false, Option, some, List, [], ◌∷◌, Result,
  ok, err, >>=-ok, ok_injective, map_err-ok, ◌≢◌, map_err, inl, inr, ◌⊎◌, Number, natural,
}
use tanden_trust_audit_poc.Json.{Json, str}
use tanden_trust_audit_poc.Platform.{Crypto, Ecdsa, DbError}
use tanden_trust_audit_poc.Metadata.Schema.{Metadata}
use tanden_trust_audit_poc.Metadata.Validate.{validate_sidecar_metadata_v2}
use tanden_trust_audit_poc.Metadata.Signing.{metadata_object}
use tanden_trust_audit_poc.Ledger.Table.{Table}
use tanden_trust_audit_poc.Ledger.Logger.{Pool}
use tanden_trust_audit_poc.Anchor.Sidecar.{Verdict, verify_evidence_with_sidecar_metadata}
use tanden_trust_audit_poc.Anchor.InternalLedger.{Confirmation, confirmed, verify_recorded_evidence}
use tanden_trust_audit_poc.Anchor.Service.{
  Failure, AnchorError, invalid_sidecar_metadata, evidence_error, internal_ledger_not_confirmed,
  ledger_verifier_error, TrustedKeys, resolve_public_key, assert_anchor_digest,
  assert_non_empty_string, InternalLedger, normalize_ledger_confirmation, is_anchored, to_bytes32,
}
use tanden_trust_audit_poc.Anchor.Confirmed.{
  Attests, verify_evidence_with_sidecar_metadata-Attests, Recorded,
  verify_recorded_evidence-Recorded,
}
use tanden_trust_audit_poc.Anchor.Gate.{
  AnchorClient, Call, AnchorRequest, Anchored, Approved, approved_digest, approve, unless_anchored,
  anchor_unless_anchored, anchor_approved, anchor_verified_evidence,
}

-- The digests that the client was told to anchor.
abbrev pub sent : List Call → List String
sent [] = []
sent (Call.get_anchored_at d ∷ calls) = sent calls
sent (Call.anchor_digest d ∷ calls) = d ∷ sent calls

module _ (crypto : Crypto) (ecdsa : Ecdsa) (t : Table) where
  -- What `approve` has checked, for the metadata and the key that it used.
  pub record Checked (keys : TrustedKeys) (pool : Pool t.State) (request : AnchorRequest)
      (a : Approved) : Type 0 where
    pub pem : String
    pub signed_metadata : Metadata
    pub ledger_event_id : String
    pub validated : validate_sidecar_metadata_v2 request.metadata ≡ ok a.metadata
    pub trusted : resolve_public_key keys a.metadata.key_id ≡ ok pem
    pub attested :
        Attests crypto ecdsa request.evidence
          (metadata_object a.metadata)
          pem
          a.digest_hex
          signed_metadata
    pub anchorable : assert_anchor_digest a.digest_hex ≡ ok tt
    pub requested : request.ledger_event_id ≡ some (str ledger_event_id)
    pub recorded :
        Recorded crypto t pool.table ledger_event_id a.metadata.evidence_id a.digest_hex
          a.internal_ledger.event_id a.internal_ledger.row_hash

  approved_digest-ok :
      (verdict : Verdict) {digest_hex : String}
      → approved_digest verdict ≡ ok digest_hex
      → (verdict.valid ≡ true) × (verdict.evidence_digest_hex ≡ some digest_hex)
  approved_digest-ok verdict h = unfold approved_digest in ground arith

  normalize_ledger_confirmation-ok :
      (confirmation : Confirmation) (id : String) {l : InternalLedger}
      → normalize_ledger_confirmation confirmation id ≡ ok l
      → confirmation ≡ confirmed l.event_id l.row_hash
  normalize_ledger_confirmation-ok confirmation id h =
      unfold normalize_ledger_confirmation in ground arith

  assert_non_empty_string-ok :
      (value : Option Json) {s : String}
      → assert_non_empty_string value ≡ ok s
      → value ≡ some (str s)
  assert_non_empty_string-ok value h = unfold assert_non_empty_string in ground arith

  assembled :
      (keys : TrustedKeys) (fault : Option DbError) (pool : Pool t.State) (request : AnchorRequest)
      (m : Metadata) (pem digest_hex id : String) (verdict : Verdict) (confirmation : Confirmation)
      (l : InternalLedger)
      → validate_sidecar_metadata_v2 request.metadata ≡ ok m
      → resolve_public_key keys m.key_id ≡ ok pem
      → verify_evidence_with_sidecar_metadata crypto ecdsa request.evidence (metadata_object m) pem
        ≡ ok verdict
      → approved_digest verdict ≡ ok digest_hex
      → assert_anchor_digest digest_hex ≡ ok tt
      → assert_non_empty_string request.ledger_event_id ≡ ok id
      → verify_recorded_evidence crypto t fault pool id m.evidence_id digest_hex ≡ ok confirmation
      → normalize_ledger_confirmation confirmation id ≡ ok l
      → Checked keys pool request
          (record { metadata = m; digest_hex = digest_hex; internal_ledger = l })
  assembled keys fault pool request m pem digest_hex id verdict confirmation l e1 e2 e3 e4 e5 e6 e7
        e8 =
      let (good, reported) = approved_digest-ok verdict e4 in
      let (m', d, attested, same) =
        verify_evidence_with_sidecar_metadata-Attests crypto ecdsa request.evidence
          (metadata_object m) pem verdict e3 good in
      let is_d : d ≡ digest_hex = cc in
      record {
        pem = pem;
        signed_metadata = m';
        ledger_event_id = id;
        validated = e1;
        trusted = e2;
        attested =
            subst (λ x. Attests crypto ecdsa request.evidence (metadata_object m) pem x m') is_d
              attested;
        anchorable = e5;
        requested = assert_non_empty_string-ok request.ledger_event_id e6;
        recorded =
            verify_recorded_evidence-Recorded crypto t fault pool id m.evidence_id digest_hex
              l.event_id l.row_hash
              (e7 ∙ ap ok (normalize_ledger_confirmation-ok confirmation id e8));
      }

  approve-Checked :
      (keys : TrustedKeys) (fault : Option DbError) (pool : Pool t.State) (request : AnchorRequest)
      (a : Approved)
      → approve crypto ecdsa t keys fault pool request ≡ ok a
      → Checked keys pool request a
  unfolding approve
  approve-Checked keys fault pool request a h =
      let (m, e1, h1) =
        >>=-ok
          (map_err (λ es. invalid_sidecar_metadata) (validate_sidecar_metadata_v2 request.metadata))
          _ h in
      let (pem, e2, h2) = >>=-ok (resolve_public_key keys m.key_id) _ h1 in
      let (verdict, e3, h3) =
        >>=-ok
          (map_err evidence_error (
            verify_evidence_with_sidecar_metadata crypto ecdsa request.evidence (metadata_object m)
              pem))
          _ h2 in
      let (digest_hex, e4, h4) = >>=-ok (approved_digest verdict) _ h3 in
      let (u, e5, h5) = >>=-ok (assert_anchor_digest digest_hex) _ h4 in
      let (id, e6, h6) = >>=-ok (assert_non_empty_string request.ledger_event_id) _ h5 in
      let (confirmation, e7, h7) =
        >>=-ok
          (map_err (λ e. internal_ledger_not_confirmed ledger_verifier_error)
            (verify_recorded_evidence crypto t fault pool id m.evidence_id digest_hex))
          _ h6 in
      let (ledger, e8, h8) = >>=-ok (normalize_ledger_confirmation confirmation id) _ h7 in
      subst (Checked keys pool request)
        (ok_injective
          (ok (record { metadata = m; digest_hex = digest_hex; internal_ledger = ledger })) refl h8)
        (assembled keys fault pool request m pem digest_hex id verdict confirmation ledger
          (map_err-ok _ _ e1) e2 (map_err-ok evidence_error _ e3) e4 e5 e6 (map_err-ok _ _ e7) e8)

  -- `anchorDigest` is called only with the digest of an approved request, whose checks all held,
  -- and after `getAnchoredAt` has answered 0.
  pub record IsCleared (keys : TrustedKeys) (client : AnchorClient) (pool : Pool t.State)
      (request : AnchorRequest) (sent : String) : Type 0 where
    pub approved : Approved
    pub checked : Checked keys pool request approved
    pub of_digest : sent ≡ to_bytes32 approved.digest_hex
    pub not_anchored : client.get_anchored_at sent ≡ ok (natural 0)

  is_anchored-false : (n : Number) → is_anchored n ≡ ok false → n ≡ natural 0
  is_anchored-false n h = unfold is_anchored in ground arith

  abbrev pub OnlyCleared :
      TrustedKeys
      → AnchorClient
      → Pool t.State
      → AnchorRequest
      → Result AnchorError Anchored × List Call
      → Type 0
  OnlyCleared keys client pool request (result, calls) =
      ((sent calls ≡ []) × ((x : Anchored) → result ≢ ok x))
      ⊎ ((d : String) × (sent calls ≡ d ∷ []) × IsCleared keys client pool request d)

  -- One request calls `anchorDigest` at most once, and only when the metadata have been validated,
  -- their key is trusted, the signature over them (validated once more) verifies, the digest is
  -- that of the evidence, of SHA-256's form and not zero, the intact internal ledger has the named
  -- event that records it, and the client has said that it is not anchored. A request that makes
  -- no such call fails.
  pub anchor_verified_evidence-OnlyCleared :
      (keys : TrustedKeys) (client : AnchorClient) (fault : Option DbError) (pool : Pool t.State)
      (request : AnchorRequest)
      → OnlyCleared keys client pool request
          (anchor_verified_evidence crypto ecdsa t keys client fault pool request)
  unfolding anchor_verified_evidence anchor_approved anchor_unless_anchored unless_anchored
  anchor_verified_evidence-OnlyCleared keys client fault pool request =
      go (approve crypto ecdsa t keys fault pool request) refl
    where
      decided :
          (a : Approved) (n : Number) (r : Result AnchorError Bool)
          → Checked keys pool request a
          → client.get_anchored_at (to_bytes32 a.digest_hex) ≡ ok n
          → is_anchored n ≡ r
          → OnlyCleared keys client pool request (unless_anchored client a n r)
      decided a n (err e) c h eq = inl (refl, λ x e. cc)
      decided a n (ok true) c h eq = inl (refl, λ x e. cc)
      decided a n (ok false) c h eq = inr (
        to_bytes32 a.digest_hex,
        refl,
        record {
          approved = a;
          checked = c;
          of_digest = refl;
          not_anchored = h ∙ ap ok (is_anchored-false n eq);
        },
      )

      read :
          (a : Approved) (r : Result Failure Number)
          → Checked keys pool request a
          → client.get_anchored_at (to_bytes32 a.digest_hex) ≡ r
          → OnlyCleared keys client pool request (anchor_unless_anchored client a r)
      read a (err e) c h = inl (refl, λ x e. cc)
      read a (ok n) c h = decided a n (is_anchored n) c h refl

      go :
          (r : Result AnchorError Approved)
          → approve crypto ecdsa t keys fault pool request ≡ r
          → OnlyCleared keys client pool request (anchor_approved client r)
      go (err e) h = inl (refl, λ x e. cc)
      go (ok a) h =
          read a (client.get_anchored_at (to_bytes32 a.digest_hex))
            (approve-Checked keys fault pool request a h) refl
