-- ===== src/Gates/Gate.antt =====
-- scripts/run-verification-evidence-gate.js: the verdict of `validateVerificationEvidenceGate`.
-- The results of the conformance gate, of the structure check and of the runtime evidence are what
-- its options give it.
use tanden_trust_audit_poc.Base.{
  String, Bool, true, false, ◌&&◌, ◌||◌, not, Option, none, some, List, [], ◌∷◌, ◌++◌, map, Result,
  ok, err, ◌>>◌, is_truthy, opt_eq, if◌then◌else◌,
}
use tanden_trust_audit_poc.Json.{Json, str}
use tanden_trust_audit_poc.TaskGraph.Model.{OrchestratorError, validate_feature_slug}
use tanden_trust_audit_poc.Gates.Review.{parse_review_artifact}
use tanden_trust_audit_poc.Gates.Documents.{
  SpecFile, GateError, conformance_failed, structure_failed, role_differs, passed_on,
  reviewer_review_missing, reviewer_not_pass, reviewer_unnamed, reviewer_differs,
  security_reviewer_missing, security_review_missing, security_not_pass, security_unnamed,
  delegated_review_missing, security_differs, is_truthy_json, strict_eq, member, or_empty,
  or_null_json, read_delegation, read_task_graph_state,
}

-- `options.conformanceResult`, `options.structureResult` and `options.runtimeResult`, whose error
-- is `none` if it is valid.
pub record Checks : Type 0 where
  pub conformant : Bool
  pub conformance_errors : List String
  pub sensitive_files : List String
  pub structure_passed : Bool
  pub runtime_error : Option String

-- The files of `.kiro/specs/<feature>` that the gate reads.
pub record SpecFiles : Type 0 where
  pub agent_delegation : SpecFile
  pub agent_task_graph : SpecFile
  pub reviewer_review : Option String
  pub security_review : Option String

-- `if (condition) errors.push(error)`
unfoldable pub push_if : Bool → GateError → List GateError
push_if condition e = if condition then e ∷ [] else []

unfoldable pub errors_of : {A : Type 0} → Result GateError A → List GateError
errors_of (ok a) = []
errors_of (err e) = e ∷ []

unfoldable pub role_error : Json → Json → String → List GateError
unfolding push_if
role_error graph_roles roles role_name =
    push_if
      (not (
        strict_eq (some (or_null_json (member role_name graph_roles)))
          (some (or_null_json (member role_name roles)))))
      (role_differs role_name)

unfoldable pub role_errors : Result GateError Json → Result GateError Json → List GateError
unfolding role_error
role_errors (ok roles) (ok graph) =
    role_error (or_empty (member "roles" graph)) roles "builder"
    ++ role_error (or_empty (member "roles" graph)) roles "reviewer"
    ++ role_error (or_empty (member "roles" graph)) roles "securityReviewer"
role_errors _ _ = []

unfoldable pub runtime_errors : Option String → List GateError
runtime_errors none = []
runtime_errors (some e) = passed_on e ∷ []

-- `artifact.reviewedBy` against a role, which must be the same text.
abbrev pub names : Option String → Option Json → Bool
names none role = false
names (some reviewed_by) role = strict_eq (some (str reviewed_by)) role

unfoldable pub reviewer_errors : Result GateError Json → Option String → List GateError
unfolding push_if strict_eq
reviewer_errors (err e) markdown = []
reviewer_errors (ok roles) none = reviewer_review_missing ∷ []
reviewer_errors (ok roles) (some markdown) =
    let review = parse_review_artifact markdown in
    push_if (not (opt_eq review.status (some "PASS"))) reviewer_not_pass
    ++ (if not (is_truthy review.reviewed_by)
        then reviewer_unnamed ∷ []
        else push_if (not (names review.reviewed_by (member "reviewer" roles))) reviewer_differs)

-- The role of the security reviewer in a valid delegation.
unfoldable pub security_reviewer : Result GateError Json → Option Json
security_reviewer (ok roles) = member "securityReviewer" roles
security_reviewer (err e) = none

abbrev pub is_nonempty : {A : Type 0} → List A → Bool
is_nonempty [] = false
is_nonempty (x ∷ xs) = true

unfoldable pub security_review_required : Result GateError Json → List String → Bool
security_review_required delegation sensitive_files =
    is_nonempty sensitive_files || is_truthy_json (security_reviewer delegation)

unfoldable pub security_review_errors : Bool → Option Json → Option String → List GateError
unfolding push_if strict_eq
security_review_errors is_sensitive role none =
    (if is_sensitive then security_review_missing else delegated_review_missing) ∷ []
security_review_errors is_sensitive role (some markdown) =
    let review = parse_review_artifact markdown in
    push_if (not (opt_eq review.status (some "PASS"))) security_not_pass
    ++ (if not (is_truthy review.reviewed_by)
        then security_unnamed ∷ []
        else push_if (is_truthy_json role && not (names review.reviewed_by role)) security_differs)

unfoldable pub security_errors :
    Result GateError Json → List String → Option String → List GateError
unfolding push_if security_review_errors security_review_required
security_errors delegation sensitive_files markdown =
    if security_review_required delegation sensitive_files
    then push_if (not (is_truthy_json (security_reviewer delegation))) security_reviewer_missing
      ++ security_review_errors (is_nonempty sensitive_files) (security_reviewer delegation)
          markdown
    else []

-- `errors`, behind the conformance gate.
unfoldable pub gate_errors :
    Checks → SpecFiles → Result GateError Json → Result GateError Json → List GateError
gate_errors checks files delegation task_graph =
    push_if (not checks.structure_passed) structure_failed
    ++ errors_of delegation
    ++ errors_of task_graph
    ++ role_errors delegation task_graph
    ++ runtime_errors checks.runtime_error
    ++ reviewer_errors delegation files.reviewer_review
    ++ security_errors delegation checks.sensitive_files files.security_review

unfoldable pub verdict : List GateError → Result (List GateError) (Unit {0})
verdict [] = ok tt
verdict (e ∷ es) = err (e ∷ es)

-- The errors of a gate that is not passed, behind the check of the feature's name.
unfoldable pub validate_verification_evidence_gate :
    Checks → SpecFiles → String → Result OrchestratorError (Result (List GateError) (Unit {0}))
validate_verification_evidence_gate checks files slug =
    validate_feature_slug slug
    >> ok (
        if not checks.conformant
        then err (conformance_failed ∷ map passed_on checks.conformance_errors)
        else verdict (
            gate_errors checks files (read_delegation files.agent_delegation slug)
              (read_task_graph_state files.agent_task_graph slug)))
