-- ===== src/Tests/Gates.antt =====
-- The gate before the Verification task, on a feature with a sensitive change.
use tanden_trust_audit_poc.Base.{String, arith, true, none, some, [], ◌∷◌, err, ◌≡◌, refl}
use tanden_trust_audit_poc.Json.{Json, bool, Fields, str, obj, end, field, get_field}
use tanden_trust_audit_poc.TaskGraph.Model.{validate_feature_slug}
use tanden_trust_audit_poc.Gates.Review.{parse_review_artifact}
use tanden_trust_audit_poc.Gates.Documents.{
  SpecFile, or_null_json, is_truthy_json, holds, same_reviewer, read_delegation,
  read_task_graph_state,
}
use tanden_trust_audit_poc.Gates.Gate.{
  Checks, SpecFiles, gate_errors, role_errors, runtime_errors, errors_of, reviewer_errors,
  security_reviewer, security_errors, verdict, validate_verification_evidence_gate,
}
use Prim.Native.String.{◌++◌}
use tanden_trust_audit_poc.Gates.Stable.{
  utf16, units_leb, stable_stringify, digest_payload, create_evidence_document,
  verify_evidence_document,
}
use tanden_trust_audit_poc.Gates.Reordered.{ReorderedFields}
use tanden_trust_audit_poc.Gates.Reordered as R
use tanden_trust_audit_poc.Gates.EvidenceDocument.{create_evidence_document-verifies}
use tanden_trust_audit_poc.Gates.FourEyes.{Cleared, validate_verification_evidence_gate-Cleared}

abbrev roles : Fields
roles =
    field "builder" (str "codex")
      (field "reviewer" (str "claude") (field "securityReviewer" (str "gemini") end))

abbrev delegation : SpecFile
delegation = holds (obj (field "feature" (str "kms-log") (field "roles" (obj roles) end)))

abbrev task_graph : SpecFile
task_graph = holds (
    obj (
      field "feature" (str "kms-log") (
        field "status" (str "ACTIVE") (
          field "roles" (obj roles) (
            field "tasks" (obj (field "verification" (obj (field "status" (str "READY") end)) end))
              end)))))

abbrev files : SpecFiles
files = record {
  agent_delegation = delegation;
  agent_task_graph = task_graph;
  reviewer_review = some "# Review\n\n- Status: PASS\n- Reviewed by: claude \n";
  security_review = some "  - status:\n\tPASS\r\n- reviewed by: gemini";
}

abbrev pub checks : Checks
checks = record {
  conformant = true;
  conformance_errors = [];
  sensitive_files = "lib/aws-kms-provider.js" ∷ [];
  structure_passed = true;
  runtime_error = none;
}

parsed_review :
    parse_review_artifact "- Status: PASS\n\n   -   reviewed BY:   claude code  \nx"
    ≡ record { status = some "PASS"; reviewed_by = some "claude code" }
unfolding parse_review_artifact
parsed_review = refl

blank_status :
    parse_review_artifact "- Status: \n \n" ≡ record { status = some ""; reviewed_by = none }
unfolding parse_review_artifact
blank_status = refl

-- A delegation whose reviewer is the builder.
self_review :
    read_delegation
      (holds (
        obj (
          field "feature" (str "kms-log") (
            field "roles"
              (obj (field "builder" (str "codex") (field "reviewer" (str "codex") end)))
              end))))
      "kms-log"
    ≡ err same_reviewer
unfolding read_delegation get_field
self_review = refl

validate_verification_evidence_gate-Cleared_example : Cleared checks files "kms-log"
unfolding or_null_json security_reviewer validate_verification_evidence_gate gate_errors role_errors
    runtime_errors errors_of reviewer_errors security_errors verdict read_delegation
    read_task_graph_state get_field parse_review_artifact validate_feature_slug
validate_verification_evidence_gate-Cleared_example =
    validate_verification_evidence_gate-Cleared checks files "kms-log" refl

abbrev quote : String → String
quote s = "'" ++ (s ++ "'")

abbrev sha256 : String → String
sha256 s = "sha256 of " ++ s

abbrev payload : Json
payload = obj (field "status" (str "PASS") (field "gate" (bool true) end))

stringified : stable_stringify quote payload ≡ "{'gate':true,'status':'PASS'}"
unfolding stable_stringify units_leb utf16
stringified = refl

abbrev digest_object : Json
digest_object = obj (
    field "algorithm" (str "sha256")
      (field "value" (str "sha256 of {'gate':true,'status':'PASS'}") end))

-- The document with its digest in front.
abbrev document : Json
document = obj (field "digest" digest_object (field "payload" payload end))

create_evidence_document-verifies_example :
    verify_evidence_document quote sha256 (some document) ≡ true
unfolding utf16 units_leb is_truthy_json create_evidence_document digest_payload stable_stringify
create_evidence_document-verifies_example =
    create_evidence_document-verifies quote sha256 payload document refl
      (R.Reordered.obj (ReorderedFields.swap (λ e. absurd (ground arith))))
