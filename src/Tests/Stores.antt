-- ===== src/Tests/Stores.antt =====
-- Versions of evidence in a table in memory.
use tanden_trust_audit_poc.Base.{
  ℕ, String, ◌&&◌, Option, none, some, List, [], ◌∷◌, Result, ok, err, natural, ◌≡◌, refl, ap,
  subst, arith, str_eq, eq_refl, ◌==◌, if◌then◌else◌,
}
use tanden_trust_audit_poc.Json.{Fields, str, obj, end, field}
use tanden_trust_audit_poc.Platform.{DbError}
use tanden_trust_audit_poc.Store.Request.{StoreRequest, NewVersion}
use tanden_trust_audit_poc.Store.Table.{
  VersionTable, IsVersionTable, VersionRow, Assigned, version_row, unique_violation,
}
use tanden_trust_audit_poc.Store.Methods.{Stored}
use tanden_trust_audit_poc.Tests.Anchors.{digest, fixed}

-- The row of each version.
abbrev pub Versions : Type 0
Versions = String → ℕ → Option VersionRow

abbrev pub to_list : Option VersionRow → List VersionRow
to_list none = []
to_list (some row) = row ∷ []

abbrev pub duplicate : DbError
duplicate = record { code = some unique_violation; message = "duplicate key" }

abbrev pub assigned : Assigned
assigned = record { id = 1; created_at = "now" }

abbrev pub put : Versions → String → ℕ → VersionRow → Versions
put s i n row j m = if str_eq j i && m == n then some row else s j m

abbrev pub insert_unless :
    Versions → NewVersion → Option VersionRow → Result DbError (Versions × Assigned)
insert_unless s new (some row) = err duplicate
insert_unless s new none = ok (
  put s new.evidence_id new.version (record { id = 1; columns = new; created_at = "now" }),
  assigned,
)

abbrev pub versions : VersionTable
versions = record {
  State = Versions;
  select_version = λ s i n. to_list (s i n);
  insert = λ schema statement s new. insert_unless s new (s new.evidence_id new.version);
  stored = λ j. j;
}

put_same : (s : Versions) (i : String) (n : ℕ) (row : VersionRow) → put s i n row i n ≡ some row
put_same s i n row = ground (arith, eq_refl i)

answer_state : Versions → Result DbError (Versions × Assigned) → Versions
answer_state s (ok (x, a)) = x
answer_state s (err e) = s

answer_assigned : Result DbError (Versions × Assigned) → Assigned
answer_assigned (ok (x, a)) = a
answer_assigned (err e) = assigned

inserted :
    (s : Versions) (new : NewVersion) (s' : Versions) (a : Assigned) (o : Option VersionRow)
    → insert_unless s new o ≡ ok (s', a)
    → (put s new.evidence_id new.version (version_row versions new a) ≡ s') × (o ≡ none)
inserted s new s' a (some row) h = absurd (ground arith)
inserted s new s' a none h = (
  subst (λ b. put s new.evidence_id new.version (version_row versions new b) ≡ s') same_assigned
      same_state,
  refl,
)
  where
    same_state : put s new.evidence_id new.version (version_row versions new assigned) ≡ s'
    same_state = unfold answer_state in ap (answer_state s) h

    same_assigned : assigned ≡ a
    same_assigned = unfold answer_assigned in ap answer_assigned h

taken :
    (s : Versions) (new : NewVersion) (row : VersionRow) (rows : List VersionRow)
    (o : Option VersionRow)
    → to_list o ≡ row ∷ rows
    → (e : DbError) × (insert_unless s new o ≡ err e)
taken s new row rows none h = absurd (ground arith)
taken s new row rows (some x) h = (duplicate, refl)

pub versions-IsVersionTable : IsVersionTable fixed versions
versions-IsVersionTable = record {
  inserted_lem = λ schema statement s new s' a columns unique conflict h.
      let (same, absent) = inserted s new s' a (s new.evidence_id new.version) h in
      rw (← same)
        (ap to_list (put_same s new.evidence_id new.version (version_row versions new a)));
  unique_lem = λ schema statement s new row rows columns unique conflict h.
      taken s new row rows (s new.evidence_id new.version) h;
  stored_lem = λ j. refl;
}

abbrev pub evidence_fields : Fields
evidence_fields = field "evidenceId" (str "ev-1") end

abbrev request : StoreRequest
request = record {
  evidence_id = some (str "ev-1");
  version = some (natural 2);
  evidence = some (obj evidence_fields);
  canonicalization = some (str "JCS");
  hash_algorithm = some (str "SHA-256");
  digest_hex = some (str digest);
  signature = some (str "c2ln");
  signing_algorithm = some (str "ECDSA_SHA_256");
  kms_key_id = none;
}

abbrev new_version : NewVersion
new_version = record {
  evidence_id = "ev-1";
  version = 2;
  evidence = obj evidence_fields;
  canonicalization = "JCS";
  hash_algorithm = "SHA-256";
  digest_hex = digest;
  signature = "c2ln";
  signing_algorithm = "ECDSA_SHA_256";
  kms_key_id = none;
}

abbrev pub no_versions : Versions
no_versions = λ i n. none

abbrev row : VersionRow
row = record { id = 1; columns = new_version; created_at = "now" }

abbrev one_version : Versions
one_version = put no_versions "ev-1" 2 row

abbrev pub stored_version : Stored
stored_version = record {
  id = 1;
  evidence_id = "ev-1";
  version = 2;
  digest_hex = digest;
  kms_key_id = none;
  created_at = "now";
}
