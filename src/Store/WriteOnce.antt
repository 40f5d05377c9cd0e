-- ===== src/Store/WriteOnce.antt =====
-- lib/pg-evidence-store.js: a version of an evidence item is stored where there was none, and read
-- back as it was written; and what `appendEvidence` leaves when it throws.
use tanden_trust_audit_poc.Base.{
  ℕ, String, none, some, List, [], ◌∷◌, Result, ok, err, natural, ◌≡◌, refl, ◌∙◌, ap, arith, inl,
  inr, ◌⊎◌,
}
use tanden_trust_audit_poc.Json.{str}
use tanden_trust_audit_poc.Platform.{Crypto, DbError}
use tanden_trust_audit_poc.Store.Request.{StoreError, StoreRequest, NewVersion, check_store_request}
use tanden_trust_audit_poc.Store.Sql.{evidence_versions, insert_version}
use tanden_trust_audit_poc.Store.Table.{
  VersionTable, IsVersionTable, VersionRow, Assigned, version_row,
}
use tanden_trust_audit_poc.Store.Accepted.{IsKey, checked-IsKey}
use tanden_trust_audit_poc.Store.Methods.{
  Stored, EvidenceVersion, map_evidence_row, Link, up, down_before, down_after, first_row,
  append_evidence, store_version, answered, get_evidence_version, map_stored_row,
}

-- What an `appendEvidence` that throws leaves: the table as it was, or the new version, if the
-- answer to its INSERT was lost.
abbrev pub StoreLeaves : (t : VersionTable) → Link → StoreRequest → t.State → t.State → Type 0
StoreLeaves t link request s s' =
    (s' ≡ s)
    ⊎ ((e : DbError) × (new : NewVersion) × (a : Assigned) × (link ≡ down_after e)
        × (check_store_request request ≡ ok new)
        × (t.insert evidence_versions insert_version s new ≡ ok (s', a)))

module _ (crypto : Crypto) (t : VersionTable) (laws : IsVersionTable crypto t) where
  -- What a read of a version gives, once its key has passed the checks.
  get-IsKey :
      (evidence_id : String) (version : ℕ) (s : t.State)
      → IsKey evidence_id version
      → get_evidence_version t none (some (str evidence_id)) (some (natural version)) s
        ≡ ok (first_row (t.select_version s evidence_id version))
  unfolding get_evidence_version
  get-IsKey evidence_id version s key = rw (key.id_accepted, key.version_accepted)

  -- A version whose INSERT succeeds was not there.
  insert-absent :
      (s s' : t.State) (new : NewVersion) (a : Assigned)
      → t.insert evidence_versions insert_version s new ≡ ok (s', a)
      → first_row (t.select_version s new.evidence_id new.version) ≡ none
  insert-absent s s' new a inserted = go (t.select_version s new.evidence_id new.version) refl
    where
      go :
          (rows : List VersionRow)
          → t.select_version s new.evidence_id new.version ≡ rows
          → first_row rows ≡ none
      go [] e = refl
      go (x ∷ xs) e =
          let (fault, refused) =
            laws.unique_lem evidence_versions insert_version s new x xs refl refl refl e in
          cc

  pub append_evidence-answers :
      (link : Link) (request : StoreRequest) (s s' : t.State) (stored : Stored)
      → append_evidence t link request s ≡ (ok stored, s')
      → (new : NewVersion) × (a : Assigned) × (check_store_request request ≡ ok new)
        × (t.insert evidence_versions insert_version s new ≡ ok (s', a))
        × (stored ≡ map_stored_row new a)
  append_evidence-answers link request s s' stored h =
      at_check (check_store_request request) refl (unfold append_evidence in h)
    where
      at_insert :
          (l : Link) (new : NewVersion) (r : Result DbError (t.State × Assigned))
          → answered t l new s r ≡ (ok stored, s')
          → (a : Assigned) × (r ≡ ok (s', a)) × (stored ≡ map_stored_row new a)
      at_insert up new (ok (x, a)) k = (a, unfold answered in ground arith, unfold answered in cc)
      at_insert up new (err e) k = absurd (unfold answered in ground arith)
      at_insert (down_before e) new r k = absurd (unfold answered in ground arith)
      at_insert (down_after e) new (ok (x, a)) k = absurd (unfold answered in ground arith)
      at_insert (down_after e) new (err x) k = absurd (unfold answered in ground arith)

      at_check :
          (m : Result StoreError NewVersion)
          → check_store_request request ≡ m
          → store_version t link m s ≡ (ok stored, s')
          → (new : NewVersion) × (a : Assigned) × (check_store_request request ≡ ok new)
            × (t.insert evidence_versions insert_version s new ≡ ok (s', a))
            × (stored ≡ map_stored_row new a)
      at_check (err e) eq k = absurd (unfold store_version in ground arith)
      at_check (ok new) eq k =
          let (a, inserted, same) =
            at_insert link new (t.insert evidence_versions insert_version s new)
              (unfold store_version in k) in
          (new, a, eq, inserted, same)

  -- An `appendEvidence` that throws leaves the table as it was, or else the answer to an INSERT that
  -- the server had run was lost.
  pub append_evidence-StoreLeaves :
      (link : Link) (request : StoreRequest) (s s' : t.State) (e : StoreError)
      → append_evidence t link request s ≡ (err e, s')
      → StoreLeaves t link request s s'
  append_evidence-StoreLeaves link request s s' e h =
      at_check (check_store_request request) refl (unfold append_evidence in h)
    where
      at_insert :
          (l : Link) (new : NewVersion) (r : Result DbError (t.State × Assigned))
          → link ≡ l
          → check_store_request request ≡ ok new
          → t.insert evidence_versions insert_version s new ≡ r
          → answered t l new s r ≡ (err e, s')
          → StoreLeaves t link request s s'
      at_insert up new (ok (x, a)) same checked eq k = absurd (unfold answered in ground arith)
      at_insert up new (err x) same checked eq k = inl (unfold answered in ground arith)
      at_insert (down_before x) new r same checked eq k = inl (unfold answered in ground arith)
      at_insert (down_after x) new (ok (s'', a)) same checked eq k =
          let moved : s'' ≡ s' = unfold answered in ground arith in
          inr (x, new, a, same, checked, eq ∙ ap (λ y. ok (y, a)) moved)
      at_insert (down_after x) new (err y) same checked eq k = inl (unfold answered in ground arith)

      at_check :
          (m : Result StoreError NewVersion)
          → check_store_request request ≡ m
          → store_version t link m s ≡ (err e, s')
          → StoreLeaves t link request s s'
      at_check (err x) eq k = inl (unfold store_version in ground arith)
      at_check (ok new) eq k =
          at_insert link new (t.insert evidence_versions insert_version s new) refl eq refl
            (unfold store_version in k)

  pub append_evidence-get_evidence_version :
      (link : Link) (request : StoreRequest) (s s' : t.State) (stored : Stored)
      → append_evidence t link request s ≡ (ok stored, s')
      → (new : NewVersion) × (row : EvidenceVersion) × (check_store_request request ≡ ok new)
        × (get_evidence_version t none
              (some (str stored.evidence_id))
              (some (natural stored.version))
              s
            ≡ ok none)
        × (get_evidence_version t none
              (some (str stored.evidence_id))
              (some (natural stored.version))
              s'
            ≡ ok (some row))
        × (row ≡ record {
          id = stored.id;
          evidence_id = new.evidence_id;
          version = new.version;
          evidence = row.evidence;
          canonicalization = new.canonicalization;
          hash_algorithm = new.hash_algorithm;
          digest_hex = new.digest_hex;
          signature = new.signature;
          signing_algorithm = new.signing_algorithm;
          kms_key_id = new.kms_key_id;
          created_at = stored.created_at;
        })
        × (crypto.canonicalize row.evidence ≡ crypto.canonicalize new.evidence)
  append_evidence-get_evidence_version link request s s' stored h =
      let (new, a, checked, inserted, same) = append_evidence-answers link request s s' stored h in
      let key = checked-IsKey request new checked in
      (
        new,
        map_evidence_row (version_row t new a),
        checked,
        rw same (
            unfold map_stored_row in
            get-IsKey new.evidence_id new.version s key
            ∙ ap ok (insert-absent s s' new a inserted)),
        rw same (
            unfold map_stored_row in
            get-IsKey new.evidence_id new.version s' key
            ∙ ap (λ rows. ok (first_row rows))
                (laws.inserted_lem evidence_versions insert_version s new s' a refl refl refl
                  inserted)),
        rw same (unfold map_stored_row map_evidence_row in refl),
        unfold map_evidence_row in laws.stored_lem new.evidence,
      )
