-- ===== src/Ledger/Row.antt =====
-- lib/pg-signing-logger.js: the rows of `signing_events` and `computeRowHash`.
use tanden_trust_audit_poc.Base.{ℕ, String, Option, none, some, Result, ok, err}
use tanden_trust_audit_poc.Json.{Json, Fields, str, obj, end, field}
use tanden_trust_audit_poc.Platform.{Crypto, DbError}

-- "0".repeat(64)
abbrev pub genesis_hash : String
genesis_hash = "0000000000000000000000000000000000000000000000000000000000000000"

-- The fields that `computeRowHash` hashes; `sequence` is not one of them.
pub record HashInput : Type 0 where
  pub event_id : String
  pub event_type : String
  pub payload : Json
  pub signature : String
  pub previous_hash : String

-- A row of `signing_events`.
pub record Row : Type 0 where
  pub sequence : ℕ
  pub input : HashInput
  pub open input use *
  pub row_hash : String
  pub created_at : String

pub data LedgerError : Type 0 where
  invalid_event_type missing_payload invalid_signature invalid_event_id : LedgerError
  not_canonical : LedgerError
  database : DbError → LedgerError

-- The object that is canonicalized.
abbrev pub hash_fields : HashInput → Fields
hash_fields h = field "eventId" (str h.event_id) (
    field "eventType" (str h.event_type) (
      field "payload" h.payload
        (field "signature" (str h.signature) (field "previousHash" (str h.previous_hash) end))))

abbrev pub hash_object : HashInput → Json
hash_object h = obj (hash_fields h)

module _ (crypto : Crypto) where
  open crypto use {CanonicalText, canonicalize, sha256_hex}

  -- `canonicalizeValue`: anything but a text is an error.
  abbrev pub canonical_or_throw : Option CanonicalText → Result LedgerError CanonicalText
  canonical_or_throw none = err not_canonical
  canonical_or_throw (some text) = ok text

  abbrev digest : Result LedgerError CanonicalText → Result LedgerError String
  digest (ok text) = ok (sha256_hex text)
  digest (err e) = err e

  unfoldable pub compute_row_hash : HashInput → Result LedgerError String
  compute_row_hash h = digest (canonical_or_throw (canonicalize (hash_object h)))
