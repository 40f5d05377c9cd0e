-- ===== src/Ledger/Verify.antt =====
-- lib/pg-signing-logger.js: `verifySigningEventRows`.
use tanden_trust_audit_poc.Base.{
  ℕ, String, not, List, [], ◌∷◌, Result, ok, ◌>>=◌, str_eq, if◌then◌else◌, length,
}
use tanden_trust_audit_poc.Platform.{Crypto}
use tanden_trust_audit_poc.Ledger.Row.{Row, LedgerError, genesis_hash, compute_row_hash}

-- Why the chain is refused: the previous hash that was expected and the one that was found, or a
-- row whose hash is not that of its fields.
pub data Reason : Type 0 where
  previous_hash_mismatch : String → String → Reason
  row_hash_mismatch : Reason

pub data Integrity : Type 0 where
  valid : ℕ → String → Integrity
  invalid : Reason → ℕ → Integrity

module _ (crypto : Crypto) where
  -- The loop, from the expected previous hash; `total` is `rows.length`.
  unfoldable pub verify_from : ℕ → String → List Row → Result LedgerError Integrity
  verify_from total expected [] = ok (valid total expected)
  verify_from total expected (row ∷ rows) =
      let rest = verify_from total row.row_hash rows in
      if not (str_eq row.previous_hash expected)
      then ok (invalid (previous_hash_mismatch expected row.previous_hash) row.sequence)
      else (compute_row_hash crypto row.input >>= λ recomputed.
          if not (str_eq recomputed row.row_hash)
          then ok (invalid row_hash_mismatch row.sequence)
          else rest)

  unfoldable pub verify_signing_event_rows : List Row → Result LedgerError Integrity
  unfolding verify_from
  verify_signing_event_rows rows = verify_from (length rows) genesis_hash rows
