-- ===== src/Ledger/Append.antt =====
-- lib/pg-signing-logger.js: what `appendEvent` does to the chain, on every branch.
use tanden_trust_audit_poc.Base.{
  String, Option, none, some, Result, ok, err, ◌≡◌, refl, List, [], ◌∷◌, arith, ap, ◌∙◌, inl, inr,
}
use tanden_trust_audit_poc.Json.{Json, Fields, null, bool, num, str, arr, obj}
use tanden_trust_audit_poc.Platform.{Crypto}
use tanden_trust_audit_poc.Ledger.Row.{Row, HashInput, LedgerError, genesis_hash, compute_row_hash}
use tanden_trust_audit_poc.Ledger.Chain.{Chain, Chain-snoc}
use tanden_trust_audit_poc.Ledger.Table.{Table, IsLawful, inserted_row, last_row_hash}
use tanden_trust_audit_poc.Ledger.Logger.{
  AppendRequest, EventRow, Faults, Checked, Pool, or_genesis, chained_input, check_request,
  append_event,
}
use tanden_trust_audit_poc.Ledger.Accepted.{check_request-eq}
use tanden_trust_audit_poc.Ledger.Outcome.{Inserts, AppendOutcome, append_event-Outcome}

-- A JSON object, or nothing.
abbrev pub IsObject : Option Json → Type 0
IsObject none = Unit
IsObject (some (obj fields)) = Unit
IsObject _ = ⊥

abbrev pub HasObject : AppendRequest → Type 0
HasObject request = IsObject request.payload

-- The last hash of a chain is what the SELECT of the last row finds, or GENESIS_HASH.
or_genesis-last_row_hash :
    (crypto : Crypto) (row : Row) (rows : List Row) (before last : String)
    → Chain crypto before (row ∷ rows) last
    → last_row_hash (row ∷ rows) ≡ some last
or_genesis-last_row_hash crypto row [] before last c = ap some c.1
or_genesis-last_row_hash crypto row (next ∷ rows) before last c =
    or_genesis-last_row_hash crypto next rows row.row_hash last c.1

Chain-or_genesis :
    (crypto : Crypto) (rows : List Row) (last : String)
    → Chain crypto genesis_hash rows last
    → or_genesis (last_row_hash rows) ≡ last
Chain-or_genesis crypto [] last c = c
Chain-or_genesis crypto (row ∷ rows) last c =
    rw (or_genesis-last_row_hash crypto row rows genesis_hash last c) refl

module _ (crypto : Crypto) (t : Table) (laws : IsLawful crypto t) where
  -- The committed rows are a chain from GENESIS_HASH.
  abbrev pub IsIntact : t.State → Type 0
  IsIntact s = (last : String) × Chain crypto genesis_hash (t.select_rows s) last

  -- A row whose hash was computed behind the last row continues the chain.
  pub insert-Chain :
      (c : Checked) (event_id row_hash : String) (s s' : t.State) (fields : Fields)
      → IsIntact s
      → c.payload ≡ obj fields
      → Inserts crypto t event_id c s s' row_hash
      → Chain crypto genesis_hash (t.select_rows s') row_hash
  insert-Chain c event_id row_hash s s' fields (last, chain) object done =
      (rw (laws.insert_lem s input row_hash s' done.inserted done.stored) (
        Chain-snoc crypto genesis_hash (t.select_rows s) last
          (inserted_row t input row_hash done.inserted) chain
          (
            rw (laws.last_lem s) (Chain-or_genesis crypto (t.select_rows s) last chain),
            same_hash ∙ done.hashed,
          )))
    where
      input : HashInput
      input = chained_input crypto t c event_id s

      same_hash :
          compute_row_hash crypto (record input { payload = t.stored input.payload })
          ≡ compute_row_hash crypto input
      same_hash = unfold compute_row_hash in rw (laws.stored_lem input fields object)

  -- The payload of a request that passes the checks is the one that was given.
  pub object_payload :
      (request : AppendRequest) (c : Checked)
      → HasObject request
      → check_request request ≡ ok c
      → (fields : Fields) × (c.payload ≡ obj fields)
  object_payload request c object checked =
      go request.payload object (check_request-eq request c checked).1
    where
      go :
          (v : Option Json)
          → IsObject v
          → v ≡ some c.payload
          → (fields : Fields) × (c.payload ≡ obj fields)
      go (some (obj fields)) given h = (fields, ground arith)
      go none given h = absurd (ground arith)
      go (some null) given h = absurd given
      go (some (bool b)) given h = absurd given
      go (some (num n)) given h = absurd given
      go (some (str x)) given h = absurd given
      go (some (arr x)) given h = absurd given

  -- A ledger that was a chain from GENESIS_HASH still is one after any `appendEvent` whose payload
  -- is a JSON object, if it has one: whatever else it is given, and whichever of its calls fails.
  pub append_event-IsIntact :
      (faults : Faults) (event_id : String) (request : AppendRequest) (pool : Pool t.State)
      → HasObject request
      → IsIntact pool.table
      → IsIntact (append_event crypto t faults event_id request pool).1.table
  append_event-IsIntact faults event_id request pool object intact =
      go (append_event crypto t faults event_id request pool)
        (append_event-Outcome crypto t faults event_id request pool)
    where
      moved : (s : t.State) → s ≡ pool.table → IsIntact s
      moved s same = rw same intact

      chained :
          (c : Checked) (s : t.State) (row_hash : String)
          → check_request request ≡ ok c
          → Inserts crypto t event_id c pool.table s row_hash
          → IsIntact s
      chained c s row_hash accepted done =
          let (fields, same) = object_payload request c object accepted in
          (row_hash, insert-Chain c event_id row_hash pool.table s fields intact same done)

      go :
          (r : Result LedgerError EventRow × Pool t.State)
          → AppendOutcome crypto t faults event_id request pool r
          → IsIntact r.1.table
      go (r, p) (inl (e, failed, same)) = moved p.table same
      go (ok row, p) (inr (c, accepted, done)) = chained c p.table row.row_hash accepted done.0
      go (err e, p) (inr (c, accepted, inl same)) = moved p.table same
      go (err e, p) (inr (c, accepted, inr (lost, done))) = chained c p.table done.0 accepted done.1
