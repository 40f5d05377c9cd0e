-- ===== src/Tests/TaskGraphs.antt =====
-- A feature with a Security Reviewer and one retry.
use tanden_trust_audit_poc.Base.{
  ◌+◌, ◌*◌, ◌≤◌, ◌≡◌, refl, Bool, true, String, none, some, Result, ok, err, length, leb, natural,
  arith, if◌then◌else◌, str_eq, Bool-cases, inl, inr, subst, sym, eq_iff, ◌∙◌,
}
use tanden_trust_audit_poc.TaskGraph.Model.{
  builder, builder_pass, Roles, Graph, OrchestratorError, create_initial_graph, parse_event, pass,
  complete, initial_graph, validate_feature_slug,
}
use tanden_trust_audit_poc.TaskGraph.Events.{apply_event, apply_known}
use tanden_trust_audit_poc.TaskGraph.Files.{Files, init_graph, transition_graph, write_graph}
use tanden_trust_audit_poc.TaskGraph.Paths.{KeepsApart}
use tanden_trust_audit_poc.TaskGraph.Workflow.{Position, working, next, retries_used, StandsAt}
use tanden_trust_audit_poc.TaskGraph.Refinement.{Implements, apply_known-Implements}
use tanden_trust_audit_poc.TaskGraph.Reachable.{
  Reachable, initial, after, IsSound, Reachable-IsSound, Reachable-history_bounded,
  Reachable-complete,
}
use tanden_trust_audit_poc.TaskGraph.Store.{
  Belongs, IsValid, Writes, transition_graph-Writes, init_graph-Writes,
}
use tanden_trust_audit_poc.Work.GraphState.{
  validate_task_graph_state, Reachable-validate_task_graph_state,
  validate_task_graph_state-StandsAt,
}

abbrev team : Roles
team = record { builder = some "kiro"; reviewer = some "codex"; security_reviewer = some "sec" }

abbrev graph_or : Result OrchestratorError Graph → Graph → Graph
graph_or (ok g) d = g
graph_or (err e) d = d

abbrev start : Graph
start = initial_graph "demo" team 1 "t0" "t0"

abbrev later : Graph → String → Graph
later g event = graph_or (apply_event g event (some "t1") "t2") g

abbrev reviewed : Graph
reviewed = later (later start "builder-pass") "reviewer-pass"

abbrev pub verified : Graph
verified = later reviewed "security-pass"

abbrev finished : Graph
finished = later verified "verify-pass"

start-Reachable : Reachable start
unfolding create_initial_graph
start-Reachable = initial "demo" team (natural 1) (some "t0") "c" "c" refl

reviewed-Reachable : Reachable reviewed
unfolding apply_event parse_event initial_graph
reviewed-Reachable =
    after "reviewer-pass" (some "t1") "t2"
      (after "builder-pass" (some "t1") "t2" start-Reachable refl) refl

pub verified-Reachable : Reachable verified
unfolding apply_event parse_event initial_graph
verified-Reachable = after "security-pass" (some "t1") "t2" reviewed-Reachable refl

finished-Reachable : Reachable finished
unfolding apply_event parse_event initial_graph
finished-Reachable = after "verify-pass" (some "t1") "t2" verified-Reachable refl

finished_status : finished.status ≡ complete
unfolding apply_event parse_event initial_graph
finished_status = refl

start-StandsAt : StandsAt true (working builder) start
unfolding create_initial_graph
start-StandsAt = ground arith

apply_known-Implements_example :
    Implements true
      (0 + retries_used (leb 1 0) builder_pass)
      (next true (leb 1 0) (working builder) builder_pass)
      (apply_known start builder_pass "t1")
unfolding create_initial_graph
apply_known-Implements_example =
    apply_known-Implements true (working builder) start builder_pass "t1" start-StandsAt

Reachable-history_bounded_example : length finished.history ≤ 4 * (finished.max_retries + 1)
Reachable-history_bounded_example = Reachable-history_bounded finished-Reachable

Reachable-complete_example :
    (finished.tasks.builder.status ≡ pass)
    × (finished.tasks.reviewer.status ≡ pass)
    × (finished.tasks.security_reviewer.status ≡ pass)
    × (finished.tasks.verification.status ≡ pass)
unfolding apply_event parse_event initial_graph
Reachable-complete_example = Reachable-complete finished-Reachable finished_status

-- Here demo/../demo is another name of the file of demo.
abbrev pub named_file : String → String
named_file slug = if str_eq slug "demo/../demo" then "demo" else slug

alias_invalid : {A : Type 0} → validate_feature_slug "demo/../demo" ≡ ok tt → A
unfolding validate_feature_slug
alias_invalid h = absurd (ground arith)

named_file-itself : (slug : String) → validate_feature_slug slug ≡ ok tt → named_file slug ≡ slug
named_file-itself slug valid = elim (Bool-cases (str_eq slug "demo/../demo")) [
  | inl same ↦
      alias_invalid
        (subst (λ x. validate_feature_slug x ≡ ok tt) ((eq_iff slug "demo/../demo").0 same) valid)
  | inr other ↦ ground arith
]

pub named_file-KeepsApart : KeepsApart named_file
named_file-KeepsApart = record {
  apart_lem = λ slug other valid valid' differs same.
      differs (sym (named_file-itself other valid') ∙ same ∙ named_file-itself slug valid);
}

abbrev files : Files
files file = if str_eq file "demo" then some start else none

demo_valid : validate_feature_slug "demo" ≡ ok tt
unfolding validate_feature_slug
demo_valid = refl

start-Belongs : Belongs named_file "demo" start
unfolding initial_graph
start-Belongs = record { named = demo_valid; in_place = refl; reachable = start-Reachable }

files-IsValid : IsValid named_file files
files-IsValid file g h = elim (Bool-cases (str_eq file "demo")) [
  | inl same ↦
      let held : start ≡ g = ground arith in
      let place : "demo" ≡ file = sym ((eq_iff file "demo").0 same) in
      subst (λ x. Belongs named_file file x) held
        (subst (λ x. Belongs named_file x start) place start-Belongs)
  | inr other ↦ absurd (ground arith)
]

abbrev built : Graph
built = later start "builder-pass"

abbrev transitioned : Files
transitioned file = if str_eq file "demo" then some built else files file

transition_graph-Writes_example : Writes named_file "demo" files transitioned built
unfolding transition_graph write_graph apply_event parse_event initial_graph
transition_graph-Writes_example =
    transition_graph-Writes named_file named_file-KeepsApart none files transitioned "demo"
      "builder-pass" (some "t1") "t2" built files-IsValid refl

abbrev initialised : Files
initialised file =
    if str_eq file "other" then some (initial_graph "other" team 2 "c" "d") else files file

init_graph-Writes_example :
    Writes named_file "other" files initialised (initial_graph "other" team 2 "c" "d")
unfolding init_graph write_graph create_initial_graph
init_graph-Writes_example =
    init_graph-Writes named_file named_file-KeepsApart none files initialised "other" (ok team)
      (natural 2) none "c" "d" (initial_graph "other" team 2 "c" "d") files-IsValid refl

Reachable-validate_task_graph_state_example : validate_task_graph_state reviewed ≡ true
Reachable-validate_task_graph_state_example = Reachable-validate_task_graph_state reviewed-Reachable

reviewed_allowed : validate_task_graph_state reviewed ≡ true
reviewed_allowed = Reachable-validate_task_graph_state reviewed-Reachable

validate_task_graph_state-StandsAt_example : (p : Position) × StandsAt true p reviewed
unfolding apply_event parse_event initial_graph
validate_task_graph_state-StandsAt_example =
    validate_task_graph_state-StandsAt reviewed reviewed_allowed

Reachable-IsSound_example : (d : Bool) × (p : Position) × IsSound d p reviewed
Reachable-IsSound_example = Reachable-IsSound reviewed-Reachable
