-- ===== src/TaskGraph/Events.antt =====
-- scripts/agent-task-graph.js: `applyEvent`, `resetForRetry` and `requireReady`.
use tanden_trust_audit_poc.Base.{
  ◌+◌, String, Bool, true, false, Option, none, some, [], ◌∷◌, ◌++◌, leb, if◌then◌else◌, is_truthy,
  or_else, Result, ok, err, ◌>>=◌, ◌>>◌, require,
}
use tanden_trust_audit_poc.TaskGraph.Model.{
  TaskName, builder, reviewer, security_reviewer, verification, TaskStatus, ready, blocked, pass,
  fail, skipped, GraphStatus, active, complete, failed, Event, builder_pass, builder_fail,
  reviewer_pass, reviewer_fail, security_pass, security_fail, verify_pass, verify_fail, parse_event,
  Outcome, status_was, retry, failed_max_retries, Entry, Graph, OrchestratorError, terminal_graph,
  not_ready, not_delegated, unsupported_event,
}

-- `next.tasks[name].status = status`.
set_status : TaskName → TaskStatus → Graph → Graph
set_status builder st g = record g {
  tasks = record g.tasks { builder = record g.tasks.builder { status = st } };
}
set_status reviewer st g = record g {
  tasks = record g.tasks { reviewer = record g.tasks.reviewer { status = st } };
}
set_status security_reviewer st g = record g {
  tasks = record g.tasks { security_reviewer = record g.tasks.security_reviewer { status = st } };
}
set_status verification st g = record g {
  tasks = record g.tasks { verification = record g.tasks.verification { status = st } };
}

abbrev pub status_of : TaskName → Graph → TaskStatus
status_of builder g = g.tasks.builder.status
status_of reviewer g = g.tasks.reviewer.status
status_of security_reviewer g = g.tasks.security_reviewer.status
status_of verification g = g.tasks.verification.status

push : Entry → Graph → Graph
push e g = record g { history = g.history ++ e ∷ [] }

block_downstream : Graph → Graph
unfolding set_status
block_downstream g = set_status verification blocked (
    set_status security_reviewer (if is_truthy g.roles.security_reviewer then blocked else skipped)
      (set_status reviewer blocked (set_status builder ready g)))

-- The entry is pushed with the outcome RETRY, which the last branch changes.
reset_for_retry : Graph → TaskName → Event → String → Graph
unfolding push block_downstream
reset_for_retry g source event now =
    let entry = λ (o : Outcome).
      push
        (record {
          event = event;
          source = some source;
          outcome = o;
          retry_count = g.retry_count + 1;
          at = now;
        })
        g in
    if leb g.max_retries g.retry_count
    then record (entry failed_max_retries) { status = failed; updated_at = now }
    else record (block_downstream (record (entry retry) { retry_count = g.retry_count + 1 })) {
      updated_at = now;
    }

abbrev is_ready : TaskStatus → Bool
is_ready ready = true
is_ready _ = false

require_ready : Graph → TaskName → Event → Result OrchestratorError (Unit {0})
require_ready g name event =
    require (is_ready (status_of name g)) (not_ready event name (status_of name g))

-- The statements behind the `switch`.
record_event : Event → String → Graph → Graph
unfolding push
record_event event now g =
    record (push
      (record {
        event = event;
        source = none;
        outcome = status_was g.status;
        retry_count = g.retry_count;
        at = now;
      })
      g) { updated_at = now }

-- A case that marks its task as failed and routes back to the Builder.
fail_task : Graph → TaskName → Event → String → Result OrchestratorError Graph
unfolding require_ready set_status reset_for_retry
fail_task g name event now = do
  require_ready g name event
  ok (reset_for_retry (set_status name fail g) name event now)

delegated : Graph → Event → Result OrchestratorError (Unit {0})
delegated g event = require (is_truthy g.roles.security_reviewer) (not_delegated event)

-- The cases of the `switch`.
dispatch : Event → Graph → String → Result OrchestratorError Graph
unfolding require_ready set_status record_event fail_task delegated
dispatch builder_pass g now = do
  require_ready g builder builder_pass
  ok (record_event builder_pass now (set_status reviewer ready (set_status builder pass g)))
dispatch builder_fail g now = fail_task g builder builder_fail now
dispatch reviewer_pass g now = do
  require_ready g reviewer reviewer_pass
  ok (
      record_event reviewer_pass now (
        if is_truthy g.roles.security_reviewer
        then set_status security_reviewer ready (set_status reviewer pass g)
        else set_status verification ready (set_status reviewer pass g)))
dispatch reviewer_fail g now = fail_task g reviewer reviewer_fail now
dispatch security_pass g now = do
  delegated g security_pass
  require_ready g security_reviewer security_pass
  ok (
      record_event security_pass now
        (set_status verification ready (set_status security_reviewer pass g)))
dispatch security_fail g now = do
  delegated g security_fail
  fail_task g security_reviewer security_fail now
dispatch verify_pass g now = do
  require_ready g verification verify_pass
  ok (record_event verify_pass now (record (set_status verification pass g) { status = complete }))
dispatch verify_fail g now = fail_task g verification verify_fail now

is_active : GraphStatus → Bool
is_active active = true
is_active _ = false

-- `applyEvent` on an event that `EVENTS` holds.
unfoldable pub apply_known : Graph → Event → String → Result OrchestratorError Graph
unfolding dispatch is_active
apply_known g event now = do
  require (is_active g.status) (terminal_graph g.status)
  dispatch event g now

parsed : String → Option Event → Result OrchestratorError Event
parsed text none = err (unsupported_event text)
parsed text (some e) = ok e

unfoldable pub apply_event :
    Graph → String → Option String → String → Result OrchestratorError Graph
unfolding parsed apply_known
apply_event g event now_value clock = do
  known ← parsed event (parse_event event)
  apply_known g known (or_else now_value clock)
