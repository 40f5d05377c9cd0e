-- ===== src/Tests/Ledgers.antt =====
-- A ledger in memory, which meets the laws of the table, and a serialiser that keeps the value.
use tanden_trust_audit_poc.Base.{
  ◌+◌, ◌≡◌, refl, false, String, none, some, ok, length, arith, List, [], ◌∷◌, ◌++◌, ◌⊎◌, ap, sym,
  ◌∙◌, subst, Option,
}
use tanden_trust_audit_poc.Json.{Json, Json-discrete, Fields, get_field, str, obj, end, field, num}
use tanden_trust_audit_poc.Platform.{Crypto, DbError}
use tanden_trust_audit_poc.Ledger.Row.{Row, LedgerError, genesis_hash, compute_row_hash}
use tanden_trust_audit_poc.Ledger.Verify.{row_hash_mismatch, valid, verify_signing_event_rows}
use tanden_trust_audit_poc.Ledger.Chain.{
  Chain, Broken, verify_signing_event_rows_iff, verify_signing_event_rows-Broken,
}
use tanden_trust_audit_poc.Ledger.Table.{Table, IsLawful, last_row_hash}
use tanden_trust_audit_poc.Ledger.Logger.{AppendRequest, EventRow, Faults, Pool, append_event}
use tanden_trust_audit_poc.Ledger.Append.{IsIntact, append_event-IsIntact}
use tanden_trust_audit_poc.Ledger.Results.{append_event_verified, append_event_error}
use tanden_trust_audit_poc.Ledger.Tamper.{
  IsJsonText, SameMember, SameRows, Collision, verify_signing_event_rows-SameRows,
}

-- The digest of this platform is the event id, which its events keep different.
abbrev first_text : Json → String
first_text (obj (field k (str s) rest)) = s
first_text _ = "?"

abbrev plain : Crypto
plain = record {
  CanonicalText = Json;
  text_discrete = Json-discrete;
  canonicalize = λ j. some j;
  sha256_hex = first_text;
  utf8 = λ j. 1 ∷ [];
}

same_member : (o : Option Json) → SameMember plain o o
same_member none = tt
same_member (some v) = refl

abbrev fields_of : Option Json → Fields → Fields
fields_of (some (obj fs)) gs = fs
fields_of _ gs = gs

plain-IsJsonText : IsJsonText plain
plain-IsJsonText = record {
  text_lem = λ s t h. ground arith;
  member_lem = λ fs gs text key h k.
      subst (λ x. SameMember plain (get_field key fs) (get_field key x))
        (ap (λ o. fields_of o fs) (h ∙ sym k)) (same_member (get_field key fs));
}

abbrev pub in_memory : Table
in_memory = record {
  State = List Row;
  select_rows = λ rows. rows;
  select_last_hash = last_row_hash;
  insert = λ rows input row_hash. ok (
    rows
        ++ record {
          sequence = length rows + 1;
          input = input;
          row_hash = row_hash;
          created_at = "now";
        }
          ∷ [],
    record { sequence = length rows + 1; created_at = "now" },
  );
  stored = λ j. j;
}

in_memory-IsLawful : IsLawful plain in_memory
in_memory-IsLawful = record {
  last_lem = λ s. refl;
  insert_lem = λ s input row_hash s' i h. ground arith;
  stored_lem = λ input fields h. refl;
}

abbrev first_row : Row
first_row = record {
  sequence = 1;
  input = record {
    event_id = "e1";
    event_type = "evidence.stored";
    payload = num "1";
    signature = "sig";
    previous_hash = genesis_hash;
  };
  row_hash = "e1";
  created_at = "now";
}

abbrev one_row : List Row
one_row = first_row ∷ []

abbrev pool : Pool (List Row)
pool = record { table = one_row; in_use = 0 }

abbrev pub no_faults : Faults
no_faults = record {
  connect = none;
  begin = none;
  lock = none;
  select = none;
  commit = none;
  commit_applied = false;
  rollback = none;
}

abbrev request : AppendRequest
request = record {
  event_type = some (str "evidence.signed");
  payload = some (obj end);
  signature = some (str "sig");
}

abbrev answer : EventRow
answer = record {
  sequence = 2;
  event_id = "e2";
  event_type = "evidence.signed";
  previous_hash = "e1";
  row_hash = "e2";
  created_at = "now";
}

abbrev second_row : Row
second_row = record {
  sequence = 2;
  input = record {
    event_id = "e2";
    event_type = "evidence.signed";
    payload = obj end;
    signature = "sig";
    previous_hash = "e1";
  };
  row_hash = "e2";
  created_at = "now";
}

appended_pool :
    append_event plain in_memory no_faults "e2" request pool
    ≡ (ok answer, record { table = first_row ∷ second_row ∷ []; in_use = 0 })
unfolding append_event compute_row_hash
appended_pool = refl

one_row_valid : verify_signing_event_rows plain one_row ≡ ok (valid 1 "e1")
unfolding verify_signing_event_rows compute_row_hash
one_row_valid = refl

one_row-IsIntact : IsIntact plain in_memory in_memory-IsLawful one_row
unfolding compute_row_hash
one_row-IsIntact = ("e1", ((refl, refl), refl))

verify_signing_event_rows_iff_example : (1 ≡ length one_row) × Chain plain genesis_hash one_row "e1"
verify_signing_event_rows_iff_example =
    (verify_signing_event_rows_iff plain one_row 1 "e1").0 one_row_valid

abbrev tampered : List Row
tampered = first_row ∷ record second_row { row_hash = "e9" } ∷ []

verify_signing_event_rows-Broken_example : Broken plain genesis_hash tampered 2
unfolding verify_signing_event_rows compute_row_hash
verify_signing_event_rows-Broken_example =
    verify_signing_event_rows-Broken plain tampered row_hash_mismatch 2 refl

append_event-IsIntact_example :
    IsIntact plain in_memory in_memory-IsLawful
      (append_event plain in_memory no_faults "e2" request pool).1.table
append_event-IsIntact_example =
    append_event-IsIntact plain in_memory in_memory-IsLawful no_faults "e2" request pool tt
      one_row-IsIntact

append_event_verified_example :
    verify_signing_event_rows plain (first_row ∷ second_row ∷ []) ≡ ok (valid (1 + 1) "e2")
append_event_verified_example =
    append_event_verified plain in_memory no_faults "e2" request pool
      (record { table = first_row ∷ second_row ∷ []; in_use = 0 }) answer in_memory-IsLawful tt
      one_row-IsIntact appended_pool

abbrev lost : DbError
lost = record { code = none; message = "connection lost" }

abbrev refused_commit : Faults
refused_commit = record no_faults { commit = some lost }

append_event_error_example :
    (append_event plain in_memory refused_commit "e2" request pool).1.table ≡ one_row
unfolding append_event compute_row_hash
append_event_error_example =
    append_event_error plain in_memory refused_commit "e2" request pool pool
      (LedgerError.database lost) refl refl

verify_signing_event_rows-SameRows_example :
    SameRows plain one_row one_row ⊎ Collision plain one_row one_row
verify_signing_event_rows-SameRows_example =
    verify_signing_event_rows-SameRows plain plain-IsJsonText one_row one_row 1 "e1" one_row_valid
      one_row_valid
