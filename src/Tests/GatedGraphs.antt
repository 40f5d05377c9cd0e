-- ===== src/Tests/GatedGraphs.antt =====
-- The gate on a graph that the task graph script has written.
use tanden_trust_audit_poc.Base.{some, ok, ◌≡◌, refl, true, is_truthy}
use tanden_trust_audit_poc.Json.{str, obj, end, field, get_field}
use tanden_trust_audit_poc.TaskGraph.Model.{
  ready, pass, active, initial_graph, validate_feature_slug, parse_event,
}
use tanden_trust_audit_poc.TaskGraph.Events.{apply_event}
use tanden_trust_audit_poc.TaskGraph.Document.{graph_document}
use tanden_trust_audit_poc.Gates.Review.{parse_review_artifact}
use tanden_trust_audit_poc.Gates.Documents.{
  holds, or_null_json, read_delegation, read_task_graph_state,
}
use tanden_trust_audit_poc.Gates.Gate.{
  SpecFiles, gate_errors, role_errors, runtime_errors, errors_of, reviewer_errors,
  security_reviewer, security_errors, verdict, validate_verification_evidence_gate,
}
use tanden_trust_audit_poc.Gates.Workflow.{validate_verification_evidence_gate-workflow}
use tanden_trust_audit_poc.Tests.TaskGraphs.{verified, verified-Reachable}
use tanden_trust_audit_poc.Tests.Gates.{checks}

abbrev files : SpecFiles
files = record {
  agent_delegation = holds (
      obj (
        field "feature" (str "demo") (
          field "roles"
            (obj (
              field "builder" (str "kiro")
                (field "reviewer" (str "codex") (field "securityReviewer" (str "sec") end))))
            end)));
  agent_task_graph = holds (graph_document (λ n. "0") verified);
  reviewer_review = some "- Status: PASS\n- Reviewed by: codex\n";
  security_review = some "- Status: PASS\n- Reviewed by: sec\n";
}

passes : validate_verification_evidence_gate checks files "demo" ≡ ok (ok tt)
unfolding or_null_json security_reviewer validate_verification_evidence_gate gate_errors role_errors
    runtime_errors errors_of reviewer_errors security_errors verdict read_delegation
    read_task_graph_state get_field parse_review_artifact validate_feature_slug graph_document
    apply_event parse_event initial_graph
passes = refl

validate_verification_evidence_gate-workflow_example :
    (verified.feature ≡ "demo")
    × (verified.status ≡ active)
    × (verified.tasks.verification.status ≡ ready)
    × (verified.tasks.builder.status ≡ pass)
    × (verified.tasks.reviewer.status ≡ pass)
    × (is_truthy verified.roles.security_reviewer ≡ true
        → verified.tasks.security_reviewer.status ≡ pass)
validate_verification_evidence_gate-workflow_example =
    validate_verification_evidence_gate-workflow (λ n. "0") checks files "demo" verified-Reachable
      refl passes
