-- ===== src/Store/Accepted.antt =====
-- lib/pg-evidence-store.js: what passes the checks of `appendEvidence` is what was given.
use tanden_trust_audit_poc.Base.{
  is_sha256_hex, is_empty, true, false, Bool-cases, eq_iff, ℕ, String, Option, none, some, ok,
  Number, natural, negative, non_integer, ◌≡◌, arith, inl, inr,
}
use tanden_trust_audit_poc.Json.{Json, null, bool, num, str, arr, obj}
use tanden_trust_audit_poc.Store.Request.{
  assert_text, assert_valid_evidence, assert_valid_digest_hex, invalid_signature, StoreError,
  StoreRequest, NewVersion, check_store_request, assert_valid_evidence_id, assert_valid_version,
}

-- A text that is accepted is the text of the argument.
accepted_id : (j : Option Json) (s : String) → assert_valid_evidence_id j ≡ ok s → j ≡ some (str s)
unfolding assert_valid_evidence_id
accepted_id (some (str x)) s h = ground arith
accepted_id (some null) s h = ground arith
accepted_id (some (bool b)) s h = ground arith
accepted_id (some (num n)) s h = ground arith
accepted_id (some (arr a)) s h = ground arith
accepted_id (some (obj fs)) s h = ground arith
accepted_id none s h = ground arith

accepted_version :
    (v : Option Number) (n : ℕ) → assert_valid_version v ≡ ok n → v ≡ some (natural n)
unfolding assert_valid_version
accepted_version (some (natural m)) n h = ground arith
accepted_version (some (negative m)) n h = ground arith
accepted_version (some non_integer) n h = ground arith
accepted_version none n h = ground arith

-- The key of a version that passed the checks passes them again.
pub record IsKey (evidence_id : String) (version : ℕ) : Type 0 where
  pub id_accepted : assert_valid_evidence_id (some (str evidence_id)) ≡ ok evidence_id
  pub version_accepted : assert_valid_version (some (natural version)) ≡ ok version

pub checked-IsKey :
    (r : StoreRequest) (new : NewVersion)
    → check_store_request r ≡ ok new
    → IsKey new.evidence_id new.version
unfolding check_store_request
checked-IsKey r new h = record {
  id_accepted = ground (arith, accepted_id r.evidence_id new.evidence_id);
  version_accepted = ground (arith, accepted_version r.version new.version);
}

-- A text that is accepted is the text of the argument.
accepted_text :
    (v : Option Json) (e : StoreError) (s : String) → assert_text v e ≡ ok s → v ≡ some (str s)
unfolding assert_text
accepted_text (some (str x)) e s h = ground arith
accepted_text (some null) e s h = ground arith
accepted_text (some (bool b)) e s h = ground arith
accepted_text (some (num n)) e s h = ground arith
accepted_text (some (arr a)) e s h = ground arith
accepted_text (some (obj fs)) e s h = ground arith
accepted_text none e s h = ground arith

accepted_digest :
    (v : Option Json) (s : String)
    → assert_valid_digest_hex v ≡ ok s
    → (v ≡ some (str s)) × (is_sha256_hex s ≡ true)
unfolding assert_valid_digest_hex
accepted_digest (some (str x)) s h = ground arith
accepted_digest (some null) s h = ground arith
accepted_digest (some (bool b)) s h = ground arith
accepted_digest (some (num n)) s h = ground arith
accepted_digest (some (arr a)) s h = ground arith
accepted_digest (some (obj fs)) s h = ground arith
accepted_digest none s h = ground arith

accepted_evidence : (v : Option Json) (j : Json) → assert_valid_evidence v ≡ ok j → v ≡ some j
unfolding assert_valid_evidence
accepted_evidence (some (str x)) j h = ground arith
accepted_evidence (some null) j h = ground arith
accepted_evidence (some (bool b)) j h = ground arith
accepted_evidence (some (num n)) j h = ground arith
accepted_evidence (some (arr a)) j h = ground arith
accepted_evidence (some (obj fs)) j h = ground arith
accepted_evidence none j h = ground arith

-- The columns are the members of the request.
pub record IsAccepted (r : StoreRequest) (new : NewVersion) : Type 0 where
  pub same_id : r.evidence_id ≡ some (str new.evidence_id)
  pub same_version : r.version ≡ some (natural new.version)
  pub same_evidence : r.evidence ≡ some new.evidence
  pub same_digest : r.digest_hex ≡ some (str new.digest_hex)
  pub is_digest : is_sha256_hex new.digest_hex ≡ true
  pub same_signature : r.signature ≡ some (str new.signature)

pub checked-IsAccepted :
    (r : StoreRequest) (new : NewVersion) → check_store_request r ≡ ok new → IsAccepted r new
unfolding check_store_request
checked-IsAccepted r new h = record {
  same_id = ground (arith, accepted_id r.evidence_id new.evidence_id);
  same_version = ground (arith, accepted_version r.version new.version);
  same_evidence = ground (arith, accepted_evidence r.evidence new.evidence);
  same_digest = ground (arith, accepted_digest r.digest_hex new.digest_hex);
  is_digest = ground (arith, accepted_digest r.digest_hex new.digest_hex);
  same_signature = ground (arith, accepted_text r.signature invalid_signature new.signature);
}

-- An id that is accepted is not empty.
pub accepted_id-not_empty :
    (s : String) → assert_valid_evidence_id (some (str s)) ≡ ok s → is_empty s ≡ false
accepted_id-not_empty s h = elim (Bool-cases (is_empty s)) [
  | inl empty ↦ absurd (refused (rw ((eq_iff s "").0 empty) at h))
  | inr filled ↦ filled
]
  where
    refused : assert_valid_evidence_id (some (str "")) ≡ ok "" → ⊥
    refused k = unfold assert_valid_evidence_id in cc k
