-- ===== src/Gates/Workflow.antt =====
-- scripts/run-verification-evidence-gate.js and scripts/agent-task-graph.js: a gate passes only
-- behind the other tasks of the workflow.
use tanden_trust_audit_poc.Base.{
  ◌≡◌, refl, sym, ap, ◌∙◌, arith, eq_iff, ℕ, String, true, ok, is_truthy, str_eq,
}
use tanden_trust_audit_poc.Json.{Json, get_field}
use tanden_trust_audit_poc.TaskGraph.Model.{
  TaskStatus, ready, blocked, pass, fail, skipped, GraphStatus, active, complete, failed, Graph,
}
use tanden_trust_audit_poc.TaskGraph.Reachable.{Reachable, Reachable-IsSound}
use tanden_trust_audit_poc.TaskGraph.Document.{graph_document, graph_status_text, task_status_text}
use tanden_trust_audit_poc.Gates.Documents.{
  holds, is_truthy_json, strict_eq, member, verification_is_ready, read_task_graph_state,
}
use tanden_trust_audit_poc.Gates.Gate.{Checks, SpecFiles, validate_verification_evidence_gate}
use tanden_trust_audit_poc.Gates.AtVerification.{graph_checks-passed}
use tanden_trust_audit_poc.Gates.FourEyes.{validate_verification_evidence_gate-Cleared}

graph_status_text-active :
    (s : GraphStatus) → str_eq (graph_status_text s) "ACTIVE" ≡ true → s ≡ active
graph_status_text-active active h = refl
graph_status_text-active complete h = absurd (ground arith)
graph_status_text-active failed h = absurd (ground arith)

task_status_text-ready : (s : TaskStatus) → str_eq (task_status_text s) "READY" ≡ true → s ≡ ready
task_status_text-ready ready h = refl
task_status_text-ready blocked h = absurd (ground arith)
task_status_text-ready pass h = absurd (ground arith)
task_status_text-ready fail h = absurd (ground arith)
task_status_text-ready skipped h = absurd (ground arith)

read_graph_document :
    (number_text : ℕ → String) (g : Graph) (slug : String) (j : Json)
    → read_task_graph_state (holds (graph_document number_text g)) slug ≡ ok j
    → (g.feature ≡ slug) × (g.status ≡ active) × (g.tasks.verification.status ≡ ready)
unfolding read_task_graph_state verification_is_ready graph_document get_field member strict_eq
    is_truthy_json
read_graph_document number_text g slug j h =
    let (same, is_active, is_ready, _) =
      graph_checks-passed (str_eq g.feature slug) (str_eq (graph_status_text g.status) "ACTIVE")
        (str_eq (task_status_text g.tasks.verification.status) "READY")
        (graph_document number_text g) j h in
    (
      (eq_iff g.feature slug).0 same,
      graph_status_text-active g.status is_active,
      task_status_text-ready g.tasks.verification.status is_ready,
    )

-- If the file of the task graph holds a graph that the task graph script reaches, the gate passes
-- only for its feature, while the graph is ACTIVE and its Verification task READY, and behind a
-- Builder and a Reviewer on PASS, and the Security Reviewer too where one is delegated.
pub validate_verification_evidence_gate-workflow :
    (number_text : ℕ → String) (checks : Checks) (files : SpecFiles) (slug : String) {g : Graph}
    → Reachable g
    → files.agent_task_graph ≡ holds (graph_document number_text g)
    → validate_verification_evidence_gate checks files slug ≡ ok (ok tt)
    → (g.feature ≡ slug)
      × (g.status ≡ active)
      × (g.tasks.verification.status ≡ ready)
      × (g.tasks.builder.status ≡ pass)
      × (g.tasks.reviewer.status ≡ pass)
      × (is_truthy g.roles.security_reviewer ≡ true → g.tasks.security_reviewer.status ≡ pass)
validate_verification_evidence_gate-workflow number_text checks files slug {g} r held h =
    let cleared = validate_verification_evidence_gate-Cleared checks files slug h in
    let read = ap (λ f. read_task_graph_state f slug) (sym held) ∙ cleared.task_graph in
    let (same, is_active, is_ready) = read_graph_document number_text g slug cleared.graph read in
    let (d, p, s) = Reachable-IsSound r in ground (arith, s.stands)
