-- ===== src/Anchor/Confirmed.antt =====
-- lib/sidecar-verifier.js and lib/internal-ledger-verifier.js: what a valid verdict and a
-- confirmation rest on.
use tanden_trust_audit_poc.Base.{
  ◌≡◌, refl, sym, ◌∙◌, ap, arith, String, Bool, true, false, Option, none, some, List, Result, ok,
  err, ◌>>=◌, ◌>>◌, >>=-ok, map_err-ok, throw_if, require, str_eq, eq_iff, is_empty, is_sha256_hex,
  map_err, ℕ,
}
use tanden_trust_audit_poc.Json.{Json, str, null, bool, num, arr, obj}
use tanden_trust_audit_poc.Platform.{Crypto, Ecdsa, DbError}
use tanden_trust_audit_poc.Signing.Digest.{SigningError, DigestDetails, get_evidence_digest_details}
use tanden_trust_audit_poc.Metadata.Schema.{Metadata, MetadataError}
use tanden_trust_audit_poc.Metadata.Validate.{validate_sidecar_metadata_v2}
use tanden_trust_audit_poc.Metadata.Signing.{PayloadError, verify_sidecar_metadata_signature}
use tanden_trust_audit_poc.Ledger.Row.{Row, LedgerError}
use tanden_trust_audit_poc.Ledger.Verify.{Integrity, valid, invalid, verify_signing_event_rows}
use tanden_trust_audit_poc.Ledger.Table.{Table}
use tanden_trust_audit_poc.Ledger.Logger.{Pool, awaited}
use tanden_trust_audit_poc.Ledger.Readers.{
  Snapshot, find_event, assert_valid_event_id, verify_chain_integrity_and_get_event,
}
use tanden_trust_audit_poc.Anchor.Sidecar.{
  Verdict, judge, against, verify_evidence_with_sidecar_metadata,
}
use tanden_trust_audit_poc.Anchor.InternalLedger.{
  evidence_stored_event_type, Confirmation, confirmed, VerifierError, empty_argument,
  invalid_digest, ledger, is_text, member, check_event, check_snapshot, verify_recorded_evidence,
}

module _ (crypto : Crypto) (ecdsa : Ecdsa) where
  -- Metadata that is valid, signed by the key, and about the digest of this evidence.
  pub record Attests (evidence metadata : Json) (pem digest_hex : String) (m : Metadata)
      : Type 0 where
    pub details : DigestDetails crypto
    pub validated : validate_sidecar_metadata_v2 metadata ≡ ok m
    pub digested : get_evidence_digest_details crypto evidence ≡ ok details
    pub same_digest : details.digest_hex ≡ digest_hex
    pub claimed : m.digest ≡ digest_hex
    pub signed : verify_sidecar_metadata_signature crypto ecdsa m pem ≡ ok true

  judge-valid :
      (digest claimed : String) (matches : Bool) (r : Result PayloadError Bool)
      → (judge crypto ecdsa digest claimed matches r).valid ≡ true
      → (matches ≡ true)
        × (r ≡ ok true)
        × ((judge crypto ecdsa digest claimed matches r).evidence_digest_hex ≡ some digest)
  unfolding judge
  judge-valid digest claimed true (ok true) h = (refl, refl, refl)
  judge-valid digest claimed true (ok false) h = ground arith
  judge-valid digest claimed false (ok b) h = ground arith
  judge-valid digest claimed matches (err e) h = ground arith

  -- A valid verdict comes only from valid metadata whose digest is that of the evidence and whose
  -- signature verifies with the key.
  pub verify_evidence_with_sidecar_metadata-Attests :
      (evidence metadata : Json) (pem : String) (verdict : Verdict)
      → verify_evidence_with_sidecar_metadata crypto ecdsa evidence metadata pem ≡ ok verdict
      → verdict.valid ≡ true
      → (m : Metadata) × (digest_hex : String) × Attests evidence metadata pem digest_hex m
        × (verdict.evidence_digest_hex ≡ some digest_hex)
  verify_evidence_with_sidecar_metadata-Attests evidence metadata pem verdict h v =
      go (validate_sidecar_metadata_v2 metadata) refl
        (unfold verify_evidence_with_sidecar_metadata in h)
    where
      Goal : Type 0
      Goal =
          (m : Metadata) × (digest_hex : String) × Attests evidence metadata pem digest_hex m
          × (verdict.evidence_digest_hex ≡ some digest_hex)

      judged :
          (m : Metadata) (d : DigestDetails crypto)
          → validate_sidecar_metadata_v2 metadata ≡ ok m
          → get_evidence_digest_details crypto evidence ≡ ok d
          → judge crypto ecdsa d.digest_hex m.digest
              (str_eq d.digest_hex m.digest)
              (verify_sidecar_metadata_signature crypto ecdsa m pem)
            ≡ verdict
          → Goal
      judged m d ok_metadata digested same =
          let (matches, signed, digest) =
            judge-valid d.digest_hex m.digest (str_eq d.digest_hex m.digest)
              (verify_sidecar_metadata_signature crypto ecdsa m pem) (ap (λ x. x.valid) same ∙ v) in
          (
            m,
            d.digest_hex,
            record {
              details = d;
              validated = ok_metadata;
              digested = digested;
              same_digest = refl;
              claimed = sym ((eq_iff d.digest_hex m.digest).0 matches);
              signed = signed;
            },
            sym (ap (λ x. x.evidence_digest_hex) same) ∙ digest,
          )

      verdict_of : Metadata → DigestDetails crypto → Result SigningError Verdict
      verdict_of m d = ok (
          judge crypto ecdsa d.digest_hex m.digest (str_eq d.digest_hex m.digest)
            (verify_sidecar_metadata_signature crypto ecdsa m pem))

      go :
          (r : Result (List MetadataError) Metadata)
          → validate_sidecar_metadata_v2 metadata ≡ r
          → against crypto ecdsa evidence pem r ≡ ok verdict
          → Goal
      go (err es) ok_metadata h = absurd (unfold against in ground arith)
      go (ok m) ok_metadata h =
          let h' : get_evidence_digest_details crypto evidence >>= verdict_of m ≡ ok verdict =
            unfold against in h in
          let (d, digested, last) =
            >>=-ok (get_evidence_digest_details crypto evidence) (verdict_of m) h' in
          judged m d ok_metadata digested cc

module _ (crypto : Crypto) (t : Table) where
  -- The table's chain is intact, and the event of this identifier records the evidence's digest.
  pub record Recorded (s : t.State)
      (ledger_event_id evidence_id digest_hex event_id row_hash : String) : Type 0 where
    pub event : Row
    pub count : ℕ
    pub last : String
    pub intact : verify_signing_event_rows crypto (t.select_rows s) ≡ ok (valid count last)
    pub found : find_event ledger_event_id (t.select_rows s) ≡ some event
    pub stored : event.event_type ≡ evidence_stored_event_type
    pub of_evidence : member event.payload "evidenceId" ≡ some (str evidence_id)
    pub of_digest : member event.payload "digestHex" ≡ some (str digest_hex)
    pub named : event.event_id ≡ event_id
    pub hashed : event.row_hash ≡ row_hash

  is_text-eq : (v : Option Json) (s : String) → is_text v s ≡ true → v ≡ some (str s)
  is_text-eq (some (str a)) s h = ap (λ x. some (str x)) ((eq_iff a s).0 (unfold is_text in h))
  is_text-eq none s h = absurd (unfold is_text in ground arith)
  is_text-eq (some null) s h = absurd (unfold is_text in ground arith)
  is_text-eq (some (bool b)) s h = absurd (unfold is_text in ground arith)
  is_text-eq (some (num n)) s h = absurd (unfold is_text in ground arith)
  is_text-eq (some (arr xs)) s h = absurd (unfold is_text in ground arith)
  is_text-eq (some (obj fs)) s h = absurd (unfold is_text in ground arith)

  check_event-confirmed :
      (evidence_id digest_hex event_id row_hash : String) (event : Row)
      → check_event evidence_id digest_hex event ≡ confirmed event_id row_hash
      → (str_eq event.event_type evidence_stored_event_type ≡ true)
        × (is_text (member event.payload "evidenceId") evidence_id ≡ true)
        × (is_text (member event.payload "digestHex") digest_hex ≡ true)
        × (event.event_id ≡ event_id)
        × (event.row_hash ≡ row_hash)
  check_event-confirmed evidence_id digest_hex event_id row_hash event h =
      unfold check_event in ground arith

  read_parts :
      (a b : Result LedgerError (Unit {0})) (r : Result LedgerError Integrity) (event : Option Row)
      (snapshot : Snapshot)
      → a >> (b >> (r >>= λ i. ok (record { integrity = i; event = event }))) ≡ ok snapshot
      → (r ≡ ok snapshot.integrity) × (snapshot.event ≡ event)
  read_parts (ok u) (ok v) (ok i) event snapshot h = ground arith
  read_parts (ok u) (ok v) (err e) event snapshot h = absurd cc
  read_parts (ok u) (err e) r event snapshot h = absurd cc
  read_parts (err e) b r event snapshot h = absurd cc

  snapshot_lem :
      (fault : Option DbError) (id : String) (pool : Pool t.State) (snapshot : Snapshot)
      → verify_chain_integrity_and_get_event crypto t fault id pool ≡ ok snapshot
      → (verify_signing_event_rows crypto (t.select_rows pool.table) ≡ ok snapshot.integrity)
        × (snapshot.event ≡ find_event id (t.select_rows pool.table))
  unfolding verify_chain_integrity_and_get_event
  snapshot_lem fault id pool snapshot h =
      read_parts (assert_valid_event_id id) (awaited fault)
        (verify_signing_event_rows crypto (t.select_rows pool.table))
        (find_event id (t.select_rows pool.table)) snapshot h

  checked_parts :
      (a b c : Result VerifierError (Unit {0})) (r : Result VerifierError Snapshot)
      (evidence_id digest_hex : String) (confirmation : Confirmation)
      → a
          >> (b
              >> (c >> (r >>= λ x. ok (check_snapshot evidence_id digest_hex x.integrity x.event))))
        ≡ ok confirmation
      → (snapshot : Snapshot) × (r ≡ ok snapshot)
        × (check_snapshot evidence_id digest_hex snapshot.integrity snapshot.event ≡ confirmation)
  checked_parts (ok u) (ok v) (ok w) (ok x) evidence_id digest_hex confirmation h = (x, refl, cc)
  checked_parts (ok u) (ok v) (ok w) (err e) evidence_id digest_hex confirmation h = absurd cc
  checked_parts (ok u) (ok v) (err e) r evidence_id digest_hex confirmation h = absurd cc
  checked_parts (ok u) (err e) c r evidence_id digest_hex confirmation h = absurd cc
  checked_parts (err e) b c r evidence_id digest_hex confirmation h = absurd cc

  check_snapshot-confirmed :
      (evidence_id digest_hex event_id row_hash : String) (integrity : Integrity)
      (found : Option Row)
      → check_snapshot evidence_id digest_hex integrity found ≡ confirmed event_id row_hash
      → (event : Row) × (count : ℕ) × (last : String) × (integrity ≡ valid count last)
        × (found ≡ some event)
        × (check_event evidence_id digest_hex event ≡ confirmed event_id row_hash)
  unfolding check_snapshot
  check_snapshot-confirmed evidence_id digest_hex event_id row_hash (valid n last) (some event) h =
      (event, n, last, refl, refl, h)
  check_snapshot-confirmed evidence_id digest_hex event_id row_hash (valid n last) none h = cc
  check_snapshot-confirmed evidence_id digest_hex event_id row_hash (invalid r n) found h = cc

  -- A confirmation comes only from an intact chain in which the named event records the evidence
  -- under this digest.
  pub verify_recorded_evidence-Recorded :
      (fault : Option DbError) (pool : Pool t.State)
      (ledger_event_id evidence_id digest_hex event_id row_hash : String)
      → verify_recorded_evidence crypto t fault pool ledger_event_id evidence_id digest_hex
        ≡ ok (confirmed event_id row_hash)
      → Recorded pool.table ledger_event_id evidence_id digest_hex event_id row_hash
  unfolding verify_recorded_evidence
  verify_recorded_evidence-Recorded fault pool id evidence_id digest_hex event_id row_hash h =
      let (snapshot, read, h4) =
        checked_parts (throw_if (is_empty id) empty_argument)
          (throw_if (is_empty evidence_id) empty_argument)
          (require (is_sha256_hex digest_hex) invalid_digest)
          (map_err ledger (verify_chain_integrity_and_get_event crypto t fault id pool)) evidence_id
          digest_hex (confirmed event_id row_hash) h in
      let (rows, same) = snapshot_lem fault id pool snapshot (map_err-ok ledger _ read) in
      let (event, count, last, intact, found, checked) =
        check_snapshot-confirmed evidence_id digest_hex event_id row_hash snapshot.integrity
          snapshot.event h4 in
      let (stored, of_evidence, of_digest, named, hashed) =
        check_event-confirmed evidence_id digest_hex event_id row_hash event checked in
      record {
        event = event;
        count = count;
        last = last;
        intact = rows ∙ ap ok intact;
        found = sym same ∙ found;
        stored = (eq_iff event.event_type evidence_stored_event_type).0 stored;
        of_evidence = is_text-eq (member event.payload "evidenceId") evidence_id of_evidence;
        of_digest = is_text-eq (member event.payload "digestHex") digest_hex of_digest;
        named = named;
        hashed = hashed;
      }
