-- ===== src/Ledger/Readers.antt =====
-- lib/pg-signing-logger.js: `verifyChainIntegrityAndGetEvent`, which checks the chain and picks an
-- event of one and the same query result.
use tanden_trust_audit_poc.Base.{
  ℕ, ◌+◌, String, Bool, false, ◌&&◌, Option, none, some, List, [], ◌∷◌, Result, ok, ◌>>=◌, ◌>>◌,
  require, str_eq, if◌then◌else◌, codes, is_hex_any_case, all, take, drop, length, ◌==◌,
}
use tanden_trust_audit_poc.Platform.{Crypto, DbError}
use tanden_trust_audit_poc.Ledger.Row.{Row, LedgerError, invalid_event_id}
use tanden_trust_audit_poc.Ledger.Verify.{Integrity, verify_signing_event_rows}
use tanden_trust_audit_poc.Ledger.Table.{Table}
use tanden_trust_audit_poc.Ledger.Logger.{Pool, awaited}

starts_with_dash : List ℕ → Bool
starts_with_dash [] = false
starts_with_dash (c ∷ cs) = c == b'-'

-- Groups of hexadecimal digits of these lengths, with a dash between two groups.
hex_groups : List ℕ → List ℕ → Bool
unfolding starts_with_dash
hex_groups [] cs = false
hex_groups (n ∷ []) cs = length cs == n && all is_hex_any_case cs
hex_groups (n ∷ m ∷ ns) cs =
    length (take n cs) == n
    && all is_hex_any_case (take n cs)
    && starts_with_dash (drop n cs)
    && hex_groups (m ∷ ns) (drop (n + 1) cs)

-- /^[0-9a-f]{8}-[0-9a-f]{4}-[0-9a-f]{4}-[0-9a-f]{4}-[0-9a-f]{12}$/i
is_uuid : String → Bool
unfolding hex_groups
is_uuid s = hex_groups (8 ∷ 4 ∷ 4 ∷ 4 ∷ 12 ∷ []) (codes s)

unfoldable pub assert_valid_event_id : String → Result LedgerError (Unit {0})
unfolding is_uuid
assert_valid_event_id event_id = require (is_uuid event_id) invalid_event_id

-- `rows.find((candidate) => candidate.event_id === eventId)`
unfoldable pub find_event : String → List Row → Option Row
find_event event_id [] = none
find_event event_id (row ∷ rows) =
    if str_eq row.event_id event_id then some row else find_event event_id rows

-- An event is its row: `mapSigningEventRow` renames the columns.
pub record Snapshot : Type 0 where
  pub integrity : Integrity
  pub event : Option Row

module _ (crypto : Crypto) (t : Table) where
  unfoldable pub verify_chain_integrity_and_get_event :
      Option DbError → String → Pool t.State → Result LedgerError Snapshot
  unfolding assert_valid_event_id
  verify_chain_integrity_and_get_event fault event_id pool = do
    assert_valid_event_id event_id
    awaited fault
    integrity ← verify_signing_event_rows crypto (t.select_rows pool.table)
    ok (record { integrity = integrity; event = find_event event_id (t.select_rows pool.table) })
