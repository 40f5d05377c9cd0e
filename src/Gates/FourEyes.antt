-- ===== src/Gates/FourEyes.antt =====
-- scripts/run-verification-evidence-gate.js: what a passed gate has established.
use tanden_trust_audit_poc.Base.{
  sym, ap, ◌∙◌, ◌≡◌, ◌≢◌, ◌⊎◌, refl, arith, String, Bool, true, false, not, none, [], ◌∷◌, ◌++◌,
  map, Result, ok, err, ◌>>◌, if◌then◌else◌,
}
use tanden_trust_audit_poc.Json.{Json}
use tanden_trust_audit_poc.TaskGraph.Model.{OrchestratorError, validate_feature_slug}
use tanden_trust_audit_poc.Gates.Documents.{
  conformance_failed, structure_failed, passed_on, is_truthy_json, member, read_delegation,
  read_task_graph_state,
}
use tanden_trust_audit_poc.Gates.Gate.{
  Checks, SpecFiles, push_if, errors_of, role_errors, runtime_errors, reviewer_errors,
  security_errors, gate_errors, verdict, validate_verification_evidence_gate,
}
use tanden_trust_audit_poc.Gates.Empty.{
  SameRole, append-empty, push_if-empty, errors_of-empty, runtime_errors-empty, verdict-passed,
  role_errors-same,
}
use tanden_trust_audit_poc.Gates.AtVerification.{
  AtVerification, OfFeature, read_task_graph_state-AtVerification, read_delegation-OfFeature,
}
use tanden_trust_audit_poc.Gates.Delegated.{checked_roles-others, read_delegation-checked}
use tanden_trust_audit_poc.Gates.Reviewed.{
  Reviewed, reviewer_errors-empty, security_errors-empty, required_if,
}

-- What the gate has established on a feature when it passes.
pub record Cleared (checks : Checks) (files : SpecFiles) (slug : String) : Type 0 where
  pub conformant : checks.conformant ≡ true
  pub structure_passed : checks.structure_passed ≡ true
  pub runtime_valid : checks.runtime_error ≡ none
  pub roles : Json
  pub delegation : read_delegation files.agent_delegation slug ≡ ok roles
  pub delegation_of_feature : OfFeature files.agent_delegation slug
  pub graph : Json
  pub at_verification : AtVerification files.agent_task_graph slug graph
  pub task_graph : read_task_graph_state files.agent_task_graph slug ≡ ok graph
  pub same_builder : SameRole "builder" graph roles
  pub same_reviewer : SameRole "reviewer" graph roles
  pub same_security_reviewer : SameRole "securityReviewer" graph roles
  pub reviewed : Reviewed files.reviewer_review "reviewer" roles
  pub security_reviewed :
      (checks.sensitive_files ≢ []) ⊎ (is_truthy_json (member "securityReviewer" roles) ≡ true)
      → Reviewed files.security_review "securityReviewer" roles

gate_errors-empty :
    (checks : Checks) (files : SpecFiles) (slug : String)
    → checks.conformant ≡ true
    → gate_errors checks files
        (read_delegation files.agent_delegation slug)
        (read_task_graph_state files.agent_task_graph slug)
      ≡ []
    → Cleared checks files slug
unfolding gate_errors
gate_errors-empty checks files slug conformant h =
    let d = read_delegation files.agent_delegation slug in
    let g = read_task_graph_state files.agent_task_graph slug in
    let e1 = push_if (not checks.structure_passed) structure_failed in
    let e2 = e1 ++ errors_of d in
    let e3 = e2 ++ errors_of g in
    let e4 = e3 ++ role_errors d g in
    let e5 = e4 ++ runtime_errors checks.runtime_error in
    let e6 = e5 ++ reviewer_errors d files.reviewer_review in
    let (k6, h7) =
      append-empty e6 (security_errors d checks.sensitive_files files.security_review) h in
    let (k5, h6) = append-empty e5 (reviewer_errors d files.reviewer_review) k6 in
    let (k4, h5) = append-empty e4 (runtime_errors checks.runtime_error) k5 in
    let (k3, h4) = append-empty e3 (role_errors d g) k4 in
    let (k2, h3) = append-empty e2 (errors_of g) k3 in
    let (h1, h2) = append-empty e1 (errors_of d) k2 in
    let (roles, delegation) = errors_of-empty d h2 in
    let (graph, task_graph) = errors_of-empty g h3 in
    let (r, checked) = read_delegation-checked files.agent_delegation slug roles delegation in
    let (builder, reviewer, security) = role_errors-same roles graph (
      sym (ap (λ x. role_errors x g) delegation ∙ ap (λ y. role_errors (ok roles) y) task_graph)
      ∙ h4) in
    record {
      conformant = conformant;
      structure_passed =
          ground (arith, push_if-empty (not checks.structure_passed) structure_failed h1);
      runtime_valid = runtime_errors-empty checks.runtime_error h5;
      roles = roles;
      delegation = delegation;
      delegation_of_feature =
          read_delegation-OfFeature files.agent_delegation slug roles delegation;
      graph = graph;
      at_verification =
          read_task_graph_state-AtVerification files.agent_task_graph slug graph task_graph;
      task_graph = task_graph;
      same_builder = builder;
      same_reviewer = reviewer;
      same_security_reviewer = security;
      reviewed =
          reviewer_errors-empty roles files.reviewer_review
            (λ s. (checked_roles-others r roles s checked).0)
            (sym (ap (λ x. reviewer_errors x files.reviewer_review) delegation) ∙ h6);
      security_reviewed = λ required.
          security_errors-empty roles checks.sensitive_files files.security_review
            (λ s. (checked_roles-others r roles s checked).1)
            (required_if roles checks.sensitive_files required)
            (sym (
                ap (λ x. security_errors x checks.sensitive_files files.security_review) delegation)
              ∙ h7);
    }

-- A gate that passes has found the conformance, the structure and the runtime evidence in order, a
-- graph that names the feature, is ACTIVE and has a READY Verification task, under the roles of a
-- delegation of the feature, and a review that declares PASS by the delegated reviewer; and another
-- one by the delegated security reviewer, if sensitive files changed or that role is delegated.
-- Neither of the two is the builder.
pub validate_verification_evidence_gate-Cleared :
    (checks : Checks) (files : SpecFiles) (slug : String)
    → validate_verification_evidence_gate checks files slug ≡ ok (ok tt)
    → Cleared checks files slug
validate_verification_evidence_gate-Cleared checks files slug h =
    go (validate_feature_slug slug) checks.conformant refl
      (unfold validate_verification_evidence_gate in h)
  where
    go :
        (r : Result OrchestratorError (Unit {0})) (b : Bool)
        → checks.conformant ≡ b
        → (r
            >> ok (
                if not b
                then err (conformance_failed ∷ map passed_on checks.conformance_errors)
                else verdict (
                    gate_errors checks files
                      (read_delegation files.agent_delegation slug)
                      (read_task_graph_state files.agent_task_graph slug))))
          ≡ ok (ok tt)
        → Cleared checks files slug
    go (err e) b eq k = absurd (ground arith)
    go (ok u) false eq k = absurd (ground arith)
    go (ok u) true eq k = gate_errors-empty checks files slug eq (
        verdict-passed
          (gate_errors checks files (read_delegation files.agent_delegation slug)
            (read_task_graph_state files.agent_task_graph slug))
          k)
