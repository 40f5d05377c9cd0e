-- ===== src/Processing/Accounted.antt =====
-- lib/evidence-processing-service.js: what each step of `processEvidence` leaves behind.
use tanden_trust_audit_poc.Base.{
  ℕ, String, Bool, true, false, Option, none, some, List, Result, ok, err, Number, natural, ◌≡◌,
  refl, or_null, ◌∙◌, arith, ap,
}
use tanden_trust_audit_poc.Json.{Json, Fields, str, obj}
use tanden_trust_audit_poc.Platform.{Crypto}
use tanden_trust_audit_poc.Ledger.Row.{LedgerError}
use tanden_trust_audit_poc.Ledger.Table.{Table, IsLawful}
use tanden_trust_audit_poc.Ledger.Logger.{EventRow, Pool, append_event}
use tanden_trust_audit_poc.Ledger.Results.{Leaves, append_event-Leaves}
use tanden_trust_audit_poc.Ledger.Appended.{AddsRow, append_event-AddsRow}
use tanden_trust_audit_poc.Signing.Provider.{Signed, SigningProvider}
use tanden_trust_audit_poc.Store.Request.{StoreError, assert_valid_version}
use tanden_trust_audit_poc.Store.Table.{VersionTable, IsVersionTable}
use tanden_trust_audit_poc.Store.Methods.{
  Stored, EvidenceVersion, append_evidence, get_evidence_version,
}
use tanden_trust_audit_poc.Store.Accepted.{checked-IsAccepted}
use tanden_trust_audit_poc.Store.WriteOnce.{
  append_evidence-get_evidence_version, StoreLeaves, append_evidence-StoreLeaves,
}
use tanden_trust_audit_poc.Processing.Service.{
  Processed, Validation, ProcessingError, validation_failed, version_refused, signing_failed,
  store_write_failed, ledger_write_failed, Service, Surroundings, store_request,
  create_ledger_request, processed, ledger_written, store_written, evidence_signed, version_checked,
  schema_checked, process_evidence,
}

pub same_text : {a b : String} → some (str a) ≡ some (str b) → b ≡ a
same_text h = ground arith

pub same_value : {a b : Json} → some a ≡ some b → b ≡ a
same_value h = ground arith

module _ (number_text : ℕ → String) (crypto : Crypto) (l : Table) (t : VersionTable)
    (p : SigningProvider) (validate : Json → Validation) where
  -- The store has the evidence, under the version that it returned and with its signature.
  pub record Holds (evidence : Fields) (signed : Signed) (stored : Stored) (s : t.State)
      : Type 0 where
    pub row : EvidenceVersion
    pub found :
        get_evidence_version t none
          (some (str stored.evidence_id))
          (some (natural stored.version))
          s
        ≡ ok (some row)
    pub same_id : row.id ≡ stored.id
    pub same_digest : row.digest_hex ≡ signed.digest_hex
    pub same_signature : row.signature ≡ signed.signature_base64
    pub same_evidence : crypto.canonicalize row.evidence ≡ crypto.canonicalize (obj evidence)

  stored-Holds :
      (x : Surroundings number_text crypto l t p validate) (evidence : Fields)
      (version : Option Number) (signed : Signed) (stored : Stored) (s s' : t.State)
      → IsVersionTable crypto t
      → append_evidence t x.link (store_request evidence version signed) s ≡ (ok stored, s')
      → Holds evidence signed stored s'
  stored-Holds x evidence version signed stored s s' laws h =
      let (new, row, checked, absent, found, columns, canonical) =
        append_evidence-get_evidence_version crypto t laws x.link
          (store_request evidence version signed) s s' stored h in
      let accepted = checked-IsAccepted (store_request evidence version signed) new checked in
      record {
        row = row;
        found = found;
        same_id = ap (λ c. c.id) columns;
        same_digest = ap (λ c. c.digest_hex) columns ∙ same_text accepted.same_digest;
        same_signature = ap (λ c. c.signature) columns ∙ same_text accepted.same_signature;
        same_evidence = canonical ∙ ap crypto.canonicalize (same_value accepted.same_evidence);
      }

  -- What a call of `processEvidence` has done, by its result.
  abbrev pub Accounted :
      Surroundings number_text crypto l t p validate
      → Fields
      → Option Number
      → Service number_text crypto l t p validate
      → Result p.Error Signed
      → Result (ProcessingError number_text crypto l t p validate) Processed
        × Service number_text crypto l t p validate
      → Type 0
  Accounted x evidence version s answer (ok result, s') =
      (signed : Signed) × (stored : Stored) × (row : EventRow) × (answer ≡ ok signed)
      × Holds evidence signed stored s'.store
      × AddsRow crypto l (create_ledger_request number_text signed stored) x.event_id s.ledger.table
          s'.ledger.table row
      × (result ≡ processed signed stored row)
  Accounted x evidence version s answer (err (validation_failed errors), s') =
      ((validate (obj evidence)).is_valid ≡ false) × (s' ≡ s)
  Accounted x evidence version s answer (err (version_refused e), s') = s' ≡ s
  Accounted x evidence version s answer (err (signing_failed e), s') =
      (answer ≡ err e) × (s'.store ≡ s.store) × (s'.ledger ≡ s.ledger)
  Accounted x evidence version s answer (err (store_write_failed signed e), s') =
      (answer ≡ ok signed)
      × (s'.ledger ≡ s.ledger)
      × StoreLeaves t x.link (store_request evidence version signed) s.store s'.store
  Accounted x evidence version s answer (err (ledger_write_failed signed stored request e), s') =
      (answer ≡ ok signed)
      × Holds evidence signed stored s'.store
      × (request ≡ create_ledger_request number_text signed stored)
      × Leaves crypto l x.faults x.event_id s.ledger.table s'.ledger.table

  -- `processEvidence` signs before it stores, and stores before it writes to the ledger. A result
  -- comes with the stored version and one new event. An error of the schema or the version leaves
  -- everything as it was. One of the store leaves the ledger as it was, and the store too, unless
  -- the answer to an INSERT that the server had run was lost. An error of the ledger
  -- leaves the stored version, and carries the request to try again; the ledger is as it was, unless
  -- the server had applied the COMMIT whose answer was lost.
  pub process_evidence-Accounted :
      (x : Surroundings number_text crypto l t p validate) (evidence : Fields)
      (version : Option Number) (pem : Option String)
      (s : Service number_text crypto l t p validate)
      → IsLawful crypto l
      → IsVersionTable crypto t
      → Accounted x evidence version s
          (p.sign_evidence (obj evidence) (or_null pem) s.provider).0
          (process_evidence number_text crypto l t p validate x evidence version pem s)
  process_evidence-Accounted x evidence version pem s laws store_laws =
      unfold process_evidence in
      at_schema (validate (obj evidence)).is_valid (validate (obj evidence)).errors refl
    where
      answer : Result p.Error Signed × p.State
      answer = p.sign_evidence (obj evidence) (or_null pem) s.provider

      at_ledger :
          (signed : Signed) (stored : Stored) (state : p.State) (store : t.State)
          (r : Result LedgerError EventRow × Pool l.State)
          → answer.0 ≡ ok signed
          → Holds evidence signed stored store
          → append_event crypto l x.faults x.event_id
              (create_ledger_request number_text signed stored)
              s.ledger
            ≡ r
          → Accounted x evidence version s answer.0
              (ledger_written number_text crypto l t p validate signed stored state store r)
      at_ledger signed stored state store (ok row, ledger) given holds eq =
          unfold ledger_written in
          (
            signed,
            stored,
            row,
            given,
            holds,
            append_event-AddsRow crypto l x.faults x.event_id
                (create_ledger_request number_text signed stored) s.ledger ledger row laws eq,
            refl,
          )
      at_ledger signed stored state store (err e, ledger) given holds eq =
          unfold ledger_written in
          (
            given,
            holds,
            refl,
            append_event-Leaves crypto l x.faults x.event_id
                (create_ledger_request number_text signed stored) s.ledger ledger e laws eq,
          )

      at_store :
          (signed : Signed) (state : p.State) (r : Result StoreError Stored × t.State)
          → answer.0 ≡ ok signed
          → append_evidence t x.link (store_request evidence version signed) s.store ≡ r
          → Accounted x evidence version s answer.0
              (store_written number_text crypto l t p validate x signed state s.ledger r)
      at_store signed state (err e, store) given eq =
          unfold store_written in
          (
            given,
            refl,
            append_evidence-StoreLeaves crypto t store_laws x.link
                (store_request evidence version signed) s.store store e eq,
          )
      at_store signed state (ok stored, store) given eq =
          unfold store_written in
          at_ledger signed stored state store
            (append_event crypto l x.faults x.event_id
              (create_ledger_request number_text signed stored) s.ledger)
            given (stored-Holds x evidence version signed stored s.store store store_laws eq) refl

      at_signing :
          (r : Result p.Error Signed × p.State)
          → answer.0 ≡ r.0
          → Accounted x evidence version s answer.0 (
              evidence_signed number_text crypto l t p validate x evidence version s.store s.ledger
                r)
      at_signing (err e, state) given = unfold evidence_signed in (given, refl, refl)
      at_signing (ok signed, state) given =
          unfold evidence_signed in
          at_store signed state
            (append_evidence t x.link (store_request evidence version signed) s.store) given refl

      at_version :
          (r : Result StoreError ℕ)
          → Accounted x evidence version s answer.0
              (version_checked number_text crypto l t p validate x evidence version pem s r)
      at_version (err e) = unfold version_checked in refl
      at_version (ok n) = unfold version_checked in at_signing answer refl

      at_schema :
          (valid : Bool) (errors : List String)
          → (validate (obj evidence)).is_valid ≡ valid
          → Accounted x evidence version s answer.0 (
              schema_checked number_text crypto l t p validate x evidence version pem s valid
                errors)
      at_schema false errors eq = unfold schema_checked in (eq, refl)
      at_schema true errors eq = unfold schema_checked in at_version (assert_valid_version version)
