-- ===== src/Processing/Event.antt =====
-- lib/evidence-processing-service.js with lib/internal-ledger-verifier.js: the event of a stored
-- item, as the verifier sees it.
use tanden_trust_audit_poc.Base.{
  ℕ, ◌+◌, String, true, false, Option, none, some, List, [], ◌∷◌, ◌++◌, ok, ◌≡◌, refl, ◌∙◌, arith,
  ap, str_eq, eq_iff, eq_refl, is_empty, is_sha256_hex, Bool-cases, inl, inr, length,
}
use tanden_trust_audit_poc.Json.{Json, Fields, str, obj, get_field}
use tanden_trust_audit_poc.Platform.{Crypto}
use tanden_trust_audit_poc.Ledger.Row.{Row, HashInput, hash_object, compute_row_hash}
use tanden_trust_audit_poc.Ledger.Verify.{valid}
use tanden_trust_audit_poc.Ledger.Table.{Table, IsLawful}
use tanden_trust_audit_poc.Ledger.Logger.{
  EventRow, AppendRequest, Pool, chained_input, awaited, append_event,
}
use tanden_trust_audit_poc.Ledger.Readers.{
  assert_valid_event_id, find_event, verify_chain_integrity_and_get_event,
}
use tanden_trust_audit_poc.Ledger.Append.{IsIntact}
use tanden_trust_audit_poc.Ledger.Results.{append_event_verified, Appends, append_event-Appends}
use tanden_trust_audit_poc.Ledger.Appended.{AddsRow, append_event-AddsRow}
use tanden_trust_audit_poc.Signing.Provider.{Signed, SigningProvider}
use tanden_trust_audit_poc.Store.Table.{VersionTable}
use tanden_trust_audit_poc.Store.Methods.{Stored}
use tanden_trust_audit_poc.Anchor.InternalLedger.{
  confirmed, member, check_event, verify_recorded_evidence,
}
use tanden_trust_audit_poc.Processing.Accounted.{same_text, same_value}
use tanden_trust_audit_poc.Processing.Service.{
  Validation, Surroundings, create_ledger_request, ledger_payload_fields,
  evidence_stored_event_type,
}

-- A UUID is not empty.
pub uuid-not_empty : (s : String) → assert_valid_event_id s ≡ ok tt → is_empty s ≡ false
uuid-not_empty s h = elim (Bool-cases (is_empty s)) [
  | inl empty ↦ absurd (refused (rw ((eq_iff s "").0 empty) at h))
  | inr filled ↦ filled
]
  where
    refused : assert_valid_event_id "" ≡ ok tt → ⊥
    refused k = unfold assert_valid_event_id in cc k

-- An event that is not among the rows is found behind them.
pub find_event-snoc :
    (event_id : String) (rows : List Row) (row : Row)
    → find_event event_id rows ≡ none
    → row.event_id ≡ event_id
    → find_event event_id (rows ++ row ∷ []) ≡ some row
unfolding find_event
find_event-snoc event_id [] row fresh named = rw ((eq_iff row.event_id event_id).1 named) refl
find_event-snoc event_id (r ∷ rows) row fresh named =
    elim (Bool-cases (str_eq r.event_id event_id)) [
      | inl same ↦ absurd (ground arith)
      | inr differs ↦ rw differs (find_event-snoc event_id rows row (ground arith) named)
    ]

pub compute_row_hash-is_sha256_hex :
    (crypto : Crypto) (input : HashInput) (row_hash : String)
    → ((text : crypto.CanonicalText) → is_sha256_hex (crypto.sha256_hex text) ≡ true)
    → compute_row_hash crypto input ≡ ok row_hash
    → is_sha256_hex row_hash ≡ true
compute_row_hash-is_sha256_hex crypto input row_hash sha h =
    go (crypto.canonicalize (hash_object input)) refl
  where
    go :
        (m : Option crypto.CanonicalText)
        → crypto.canonicalize (hash_object input) ≡ m
        → is_sha256_hex row_hash ≡ true
    go none eq = absurd (unfold compute_row_hash in ground arith)
    go (some text) eq =
        let same : crypto.sha256_hex text ≡ row_hash = unfold compute_row_hash in ground arith in
        rw (← same) (sha text)

-- The members of a stored object that are texts are read back.
pub record KeepsTexts (l : Table) : Type 0 where
  pub member_lem :
      (fs : Fields) (key text : String)
      → get_field key fs ≡ some (str text)
      → member (l.stored (obj fs)) key ≡ some (str text)

-- The checks of the verifier on an event of the right type and members.
pub check_event-confirmed :
    (evidence_id digest_hex : String) (row : Row)
    → row.event_type ≡ evidence_stored_event_type
    → member row.payload "evidenceId" ≡ some (str evidence_id)
    → member row.payload "digestHex" ≡ some (str digest_hex)
    → is_sha256_hex row.row_hash ≡ true
    → check_event evidence_id digest_hex row ≡ confirmed row.event_id row.row_hash
check_event-confirmed evidence_id digest_hex row typed id digest hashed =
    unfold check_event in
    rw (typed, id, digest, eq_refl evidence_id, eq_refl digest_hex, hashed) refl

module _ (number_text : ℕ → String) (crypto : Crypto) (l : Table) (t : VersionTable)
    (p : SigningProvider) (validate : Json → Validation) where
  -- The event of a stored item is confirmed once it is appended.
  pub appended-confirmed :
      (x : Surroundings number_text crypto l t p validate) (signed : Signed) (stored : Stored)
      (pool pool' : Pool l.State) (row : EventRow) (laws : IsLawful crypto l)
      → IsIntact crypto l laws pool.table
      → assert_valid_event_id x.event_id ≡ ok tt
      → find_event x.event_id (l.select_rows pool.table) ≡ none
      → KeepsTexts l
      → ((text : crypto.CanonicalText) → is_sha256_hex (crypto.sha256_hex text) ≡ true)
      → is_empty stored.evidence_id ≡ false
      → is_sha256_hex signed.digest_hex ≡ true
      → append_event crypto l x.faults x.event_id
          (create_ledger_request number_text signed stored)
          pool
        ≡ (ok row, pool')
      → verify_recorded_evidence crypto l none pool' x.event_id stored.evidence_id signed.digest_hex
        ≡ ok (confirmed x.event_id row.row_hash)
  appended-confirmed x signed stored pool pool' row laws intact uuid fresh keeps sha id digest h =
      unfold verify_recorded_evidence in
      rw (uuid-not_empty x.event_id uuid, id, digest, snapshot)
        (ap ok (
          check_event-confirmed stored.evidence_id signed.digest_hex adds.row typed
            (member_text "evidenceId" stored.evidence_id (unfold get_field in refl))
            (member_text "digestHex" signed.digest_hex (unfold get_field in refl)) hashed
          ∙ names))
    where
      request : AppendRequest
      request = create_ledger_request number_text signed stored

      adds : AddsRow crypto l request x.event_id pool.table pool'.table row
      adds = append_event-AddsRow crypto l x.faults x.event_id request pool pool' row laws h

      done : Appends crypto l x.event_id request pool pool' row
      done = append_event-Appends crypto l x.faults x.event_id request pool pool' row h

      typed : adds.row.event_type ≡ evidence_stored_event_type
      typed = same_text adds.typed

      same_payload :
          adds.row.payload ≡ l.stored (obj (ledger_payload_fields number_text signed stored))
      same_payload = adds.stored ∙ ap l.stored (same_value adds.given)

      member_text :
          (key text : String)
          → get_field key (ledger_payload_fields number_text signed stored) ≡ some (str text)
          → member adds.row.payload key ≡ some (str text)
      member_text key text found =
          rw same_payload
            (keeps.member_lem (ledger_payload_fields number_text signed stored) key text found)

      hashed : is_sha256_hex adds.row.row_hash ≡ true
      hashed = rw (← adds.answer_hash) (
          compute_row_hash-is_sha256_hex crypto
            (chained_input crypto l done.checked x.event_id pool.table) row.row_hash sha
            done.inserts.hashed)

      names : confirmed adds.row.event_id adds.row.row_hash ≡ confirmed x.event_id row.row_hash
      names = cc (adds.named, adds.answer_hash)

      found : find_event x.event_id (l.select_rows pool'.table) ≡ some adds.row
      found =
          rw adds.added
            (find_event-snoc x.event_id (l.select_rows pool.table) adds.row fresh adds.named)

      snapshot :
          verify_chain_integrity_and_get_event crypto l none x.event_id pool'
          ≡ ok (record {
            integrity = valid (length (l.select_rows pool.table) + 1) row.row_hash;
            event = some adds.row;
          })
      snapshot =
          unfold verify_chain_integrity_and_get_event awaited in
          rw
            (
              uuid,
              append_event_verified crypto l x.faults x.event_id request pool pool' row laws tt
                  intact h,
              found,
            )
            refl
