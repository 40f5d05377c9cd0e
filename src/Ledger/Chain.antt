-- ===== src/Ledger/Chain.antt =====
-- What `verifySigningEventRows` decides: that the rows are a hash chain.
use tanden_trust_audit_poc.Base.{
  ℕ, String, ◌≡◌, refl, ◌↔◌, List, [], ◌∷◌, ◌++◌, ok, arith, eq_iff, length, inl, inr, ◌⊎◌, ap,
}
use tanden_trust_audit_poc.Platform.{Crypto}
use tanden_trust_audit_poc.Ledger.Row.{Row, genesis_hash, compute_row_hash}
use tanden_trust_audit_poc.Ledger.Verify.{
  Reason, valid, invalid, verify_from, verify_signing_event_rows,
}

module _ (crypto : Crypto) where
  -- A row that follows a row with the given hash.
  abbrev pub IsLinked : String → Row → Type 0
  IsLinked before row =
      (row.previous_hash ≡ before) × (compute_row_hash crypto row.input ≡ ok row.row_hash)

  -- The rows lead from one hash to another.
  abbrev pub Chain : String → List Row → String → Type 0
  Chain before [] last = before ≡ last
  Chain before (row ∷ rows) last = IsLinked before row × Chain row.row_hash rows last

  verify_from-Chain :
      (total : ℕ) (before : String) (rows : List Row) (n : ℕ) (last : String)
      → verify_from crypto total before rows ≡ ok (valid n last)
      → (n ≡ total) × Chain before rows last
  unfolding verify_from
  verify_from-Chain total before [] n last h = ground arith
  verify_from-Chain total before (row ∷ rows) n last h = grind (
    arith,
    eq_iff row.previous_hash before,
    eq_iff,
    verify_from-Chain total row.row_hash rows n last,
  )

  Chain-verify_from :
      (total : ℕ) (before : String) (rows : List Row) (last : String)
      → Chain before rows last
      → verify_from crypto total before rows ≡ ok (valid total last)
  unfolding verify_from
  Chain-verify_from total before [] last h = ground arith
  Chain-verify_from total before (row ∷ rows) last h = ground (
    arith,
    eq_iff row.previous_hash before,
    eq_iff row.row_hash row.row_hash,
    Chain-verify_from total row.row_hash rows last,
  )

  -- `verifyChainIntegrity` reports a valid ledger, with this total and this last hash, exactly when
  -- the rows form a chain of correct row hashes from GENESIS_HASH to that hash.
  pub verify_signing_event_rows_iff :
      (rows : List Row) (n : ℕ) (last : String)
      → (verify_signing_event_rows crypto rows ≡ ok (valid n last))
        ↔ ((n ≡ length rows) × Chain genesis_hash rows last)
  unfolding verify_signing_event_rows
  verify_signing_event_rows_iff rows n last = (
    verify_from-Chain (length rows) genesis_hash rows n last,
    λ h. rw h.0 (Chain-verify_from (length rows) genesis_hash rows last h.1),
  )

  -- The rows before the reported sequence are a chain, and the reported row does not continue it.
  pub record Broken (before : String) (rows : List Row) (sequence : ℕ) : Type 0 where
    pub sound : List Row
    pub broken : Row
    pub unread : List Row
    pub reached : String
    pub split : rows ≡ sound ++ broken ∷ unread
    pub reported : broken.sequence ≡ sequence
    pub chained : Chain before sound reached
    pub not_linked : ¬ (IsLinked reached broken)

  Broken-later :
      (before : String) (row : Row) (rows : List Row) (sequence : ℕ)
      → IsLinked before row
      → Broken row.row_hash rows sequence
      → Broken before (row ∷ rows) sequence
  Broken-later before row rows sequence linked b = record {
    sound = row ∷ b.sound;
    broken = b.broken;
    unread = b.unread;
    reached = b.reached;
    split = ap (λ rs. row ∷ rs) b.split;
    reported = b.reported;
    chained = (linked, b.chained);
    not_linked = b.not_linked;
  }

  Broken-now :
      (before : String) (row : Row) (rows : List Row) (sequence : ℕ)
      → row.sequence ≡ sequence
      → ¬ (IsLinked before row)
      → Broken before (row ∷ rows) sequence
  Broken-now before row rows sequence at broken = record {
    sound = [];
    broken = row;
    unread = rows;
    reached = before;
    split = refl;
    reported = at;
    chained = refl;
    not_linked = broken;
  }

  -- What one row decides.
  verify_step :
      (total : ℕ) (before : String) (row : Row) (rows : List Row) (reason : Reason) (sequence : ℕ)
      → verify_from crypto total before (row ∷ rows) ≡ ok (invalid reason sequence)
      → (IsLinked before row
          × (verify_from crypto total row.row_hash rows ≡ ok (invalid reason sequence)))
        ⊎ ((row.sequence ≡ sequence) × ¬ (IsLinked before row))
  unfolding verify_from
  verify_step total before row rows reason sequence h = grind (arith, eq_iff)

  verify_from-Broken :
      (total : ℕ) (before : String) (rows : List Row) (reason : Reason) (sequence : ℕ)
      → verify_from crypto total before rows ≡ ok (invalid reason sequence)
      → Broken before rows sequence
  verify_from-Broken total before [] reason sequence h = absurd (unfold verify_from in cc h)
  verify_from-Broken total before (row ∷ rows) reason sequence h =
      elim (verify_step total before row rows reason sequence h) [
        | inl (linked, later) ↦
            Broken-later before row rows sequence linked
              (verify_from-Broken total row.row_hash rows reason sequence later)
        | inr (at, broken) ↦ Broken-now before row rows sequence at broken
      ]

  -- `verifyChainIntegrity` that reports a failure names the first row that breaks the chain: the
  -- rows before it are a chain from GENESIS_HASH, and it does not continue them.
  pub verify_signing_event_rows-Broken :
      (rows : List Row) (reason : Reason) (sequence : ℕ)
      → verify_signing_event_rows crypto rows ≡ ok (invalid reason sequence)
      → Broken genesis_hash rows sequence
  unfolding verify_signing_event_rows
  verify_signing_event_rows-Broken rows reason sequence h =
      verify_from-Broken (length rows) genesis_hash rows reason sequence h

  -- A row at the end of a chain.
  pub Chain-snoc :
      (before : String) (rows : List Row) (last : String) (row : Row)
      → Chain before rows last
      → IsLinked last row
      → Chain before (rows ++ row ∷ []) row.row_hash
  Chain-snoc before [] last row c l = (rw c l, refl)
  Chain-snoc before (x ∷ rows) last row c l = (c.0, Chain-snoc x.row_hash rows last row c.1 l)

  abbrev pub last_hash_from : String → List Row → String
  last_hash_from before [] = before
  last_hash_from before (row ∷ rows) = last_hash_from row.row_hash rows

  pub Chain-last_hash_from :
      (before : String) (rows : List Row) (last : String)
      → Chain before rows last
      → last_hash_from before rows ≡ last
  Chain-last_hash_from before [] last c = c
  Chain-last_hash_from before (row ∷ rows) last c = Chain-last_hash_from row.row_hash rows last c.1
