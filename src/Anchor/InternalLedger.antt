-- ===== src/Anchor/InternalLedger.antt =====
-- lib/internal-ledger-verifier.js: `PgInternalLedgerVerifier`, over the ledger's own reader.
use tanden_trust_audit_poc.Base.{
  String, Bool, false, not, ◌||◌, Option, none, some, Result, ok, ◌>>=◌, ◌>>◌, throw_if, require,
  str_eq, is_empty, is_sha256_hex, if◌then◌else◌, map_err,
}
use tanden_trust_audit_poc.Json.{Json, str, obj, get_field}
use tanden_trust_audit_poc.Platform.{Crypto, DbError}
use tanden_trust_audit_poc.Ledger.Row.{Row, LedgerError}
use tanden_trust_audit_poc.Ledger.Verify.{Integrity, valid, invalid}
use tanden_trust_audit_poc.Ledger.Table.{Table}
use tanden_trust_audit_poc.Ledger.Logger.{Pool}
use tanden_trust_audit_poc.Ledger.Readers.{verify_chain_integrity_and_get_event}

abbrev pub evidence_stored_event_type : String
evidence_stored_event_type = "evidence.stored"

pub data LedgerRefusal : Type 0 where
  chain_invalid event_not_found event_type_mismatch evidence_mismatch row_hash_invalid :
      LedgerRefusal

pub data Confirmation : Type 0 where
  confirmed : String → String → Confirmation
  refused : LedgerRefusal → Confirmation

pub data VerifierError : Type 0 where
  empty_argument invalid_digest : VerifierError
  ledger : LedgerError → VerifierError

-- `value === text` where `value` is a member that may be missing.
unfoldable pub is_text : Option Json → String → Bool
is_text (some (str s)) t = str_eq s t
is_text _ t = false

-- `payload?.[key]`
unfoldable pub member : Json → String → Option Json
member (obj fs) key = get_field key fs
member _ key = none

-- The checks on the event that was found.
unfoldable pub check_event : String → String → Row → Confirmation
unfolding is_text member
check_event evidence_id digest_hex event =
    if not (str_eq event.event_type evidence_stored_event_type)
    then refused event_type_mismatch
    else if not (is_text (member event.payload "evidenceId") evidence_id)
        || not (is_text (member event.payload "digestHex") digest_hex)
    then refused evidence_mismatch
    else if not (is_sha256_hex event.row_hash)
    then refused row_hash_invalid
    else confirmed event.event_id event.row_hash

unfoldable pub check_snapshot : String → String → Integrity → Option Row → Confirmation
unfolding check_event
check_snapshot evidence_id digest_hex (invalid reason sequence) event = refused chain_invalid
check_snapshot evidence_id digest_hex (valid n last) none = refused event_not_found
check_snapshot evidence_id digest_hex (valid n last) (some event) =
    check_event evidence_id digest_hex event

module _ (crypto : Crypto) (t : Table) where
  unfoldable pub verify_recorded_evidence :
      Option DbError → Pool t.State → String → String → String → Result VerifierError Confirmation
  unfolding check_snapshot
  verify_recorded_evidence fault pool ledger_event_id evidence_id digest_hex = do
    throw_if (is_empty ledger_event_id) empty_argument
    throw_if (is_empty evidence_id) empty_argument
    require (is_sha256_hex digest_hex) invalid_digest
    snapshot ←
        map_err ledger (verify_chain_integrity_and_get_event crypto t fault ledger_event_id pool)
    ok (check_snapshot evidence_id digest_hex snapshot.integrity snapshot.event)
