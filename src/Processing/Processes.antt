-- ===== src/Processing/Processes.antt =====
-- lib/evidence-processing-service.js: what a successful `processEvidence` has done.
use tanden_trust_audit_poc.Base.{
  ℕ, String, Bool, true, false, Option, List, Result, ok, err, Number, ◌≡◌, refl, or_null, arith,
}
use tanden_trust_audit_poc.Json.{Json, Fields, obj}
use tanden_trust_audit_poc.Platform.{Crypto}
use tanden_trust_audit_poc.Ledger.Row.{LedgerError}
use tanden_trust_audit_poc.Ledger.Table.{Table}
use tanden_trust_audit_poc.Ledger.Logger.{EventRow, Pool, append_event}
use tanden_trust_audit_poc.Signing.Provider.{Signed, SigningProvider}
use tanden_trust_audit_poc.Store.Request.{StoreError, assert_valid_version}
use tanden_trust_audit_poc.Store.Table.{VersionTable}
use tanden_trust_audit_poc.Store.Methods.{Stored, append_evidence}
use tanden_trust_audit_poc.Processing.Service.{
  Processed, Validation, Service, Surroundings, store_request, create_ledger_request, processed,
  ledger_written, store_written, evidence_signed, version_checked, schema_checked, process_evidence,
}

module _ (number_text : ℕ → String) (crypto : Crypto) (l : Table) (t : VersionTable)
    (p : SigningProvider) (validate : Json → Validation) where
  -- What a successful `processEvidence` has done.
  pub record Processes (x : Surroundings number_text crypto l t p validate) (evidence : Fields)
      (version : Option Number) (s s' : Service number_text crypto l t p validate)
      (result : Processed) : Type 0 where
    pub signed : Signed
    pub stored : Stored
    pub row : EventRow
    pub stores :
        append_evidence t x.link (store_request evidence version signed) s.store
        ≡ (ok stored, s'.store)
    pub appends :
        append_event crypto l x.faults x.event_id
          (create_ledger_request number_text signed stored)
          s.ledger
        ≡ (ok row, s'.ledger)
    pub answer : result ≡ processed signed stored row

  pub process_evidence-Processes :
      (x : Surroundings number_text crypto l t p validate) (evidence : Fields)
      (version : Option Number) (pem : Option String)
      (s s' : Service number_text crypto l t p validate) (result : Processed)
      → process_evidence number_text crypto l t p validate x evidence version pem s
        ≡ (ok result, s')
      → Processes x evidence version s s' result
  process_evidence-Processes x evidence version pem s s' result h =
      at_schema (validate (obj evidence)).is_valid (validate (obj evidence)).errors
        (unfold process_evidence in h)
    where
      at_ledger :
          (signed : Signed) (stored : Stored) (state : p.State) (store : t.State)
          (r : Result LedgerError EventRow × Pool l.State)
          → append_evidence t x.link (store_request evidence version signed) s.store
            ≡ (ok stored, store)
          → append_event crypto l x.faults x.event_id
              (create_ledger_request number_text signed stored)
              s.ledger
            ≡ r
          → ledger_written number_text crypto l t p validate signed stored state store r
            ≡ (ok result, s')
          → Processes x evidence version s s' result
      at_ledger signed stored state store (err e, ledger) stores eq k =
          absurd (unfold ledger_written in ground arith)
      at_ledger signed stored state store (ok row, ledger) stores eq k = record {
        signed = signed;
        stored = stored;
        row = row;
        stores = unfold ledger_written in ground arith;
        appends = unfold ledger_written in ground arith;
        answer = unfold ledger_written in ground arith;
      }

      at_store :
          (signed : Signed) (state : p.State) (r : Result StoreError Stored × t.State)
          → append_evidence t x.link (store_request evidence version signed) s.store ≡ r
          → store_written number_text crypto l t p validate x signed state s.ledger r
            ≡ (ok result, s')
          → Processes x evidence version s s' result
      at_store signed state (err e, store) eq k = absurd (unfold store_written in ground arith)
      at_store signed state (ok stored, store) eq k =
          at_ledger signed stored state store
            (append_event crypto l x.faults x.event_id
              (create_ledger_request number_text signed stored) s.ledger)
            eq refl (unfold store_written in k)

      at_signing :
          (r : Result p.Error Signed × p.State)
          → evidence_signed number_text crypto l t p validate x evidence version s.store s.ledger r
            ≡ (ok result, s')
          → Processes x evidence version s s' result
      at_signing (err e, state) k = absurd (unfold evidence_signed in ground arith)
      at_signing (ok signed, state) k =
          at_store signed state
            (append_evidence t x.link (store_request evidence version signed) s.store) refl
            (unfold evidence_signed in k)

      at_version :
          (r : Result StoreError ℕ)
          → version_checked number_text crypto l t p validate x evidence version pem s r
            ≡ (ok result, s')
          → Processes x evidence version s s' result
      at_version (err e) k = absurd (unfold version_checked in ground arith)
      at_version (ok n) k =
          at_signing (p.sign_evidence (obj evidence) (or_null pem) s.provider)
            (unfold version_checked in k)

      at_schema :
          (valid : Bool) (errors : List String)
          → schema_checked number_text crypto l t p validate x evidence version pem s valid errors
            ≡ (ok result, s')
          → Processes x evidence version s s' result
      at_schema false errors k = absurd (unfold schema_checked in ground arith)
      at_schema true errors k =
          at_version (assert_valid_version version) (unfold schema_checked in k)
