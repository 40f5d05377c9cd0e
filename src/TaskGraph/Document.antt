-- ===== src/TaskGraph/Document.antt =====
-- scripts/agent-task-graph.js: the graph as the JSON document that its file holds. Members that are
-- undefined are left out; `number_text` is JavaScript's text of an integer.
use tanden_trust_audit_poc.Base.{ℕ, String, Option, none, some, List, [], ◌∷◌}
use tanden_trust_audit_poc.Json.{
  Json, null, num, str, arr, obj, Items, nil, cons, Fields, end, field,
}
use tanden_trust_audit_poc.TaskGraph.Model.{
  TaskName, builder, reviewer, security_reviewer, verification, TaskStatus, ready, blocked, pass,
  fail, skipped, GraphStatus, active, complete, failed, Event, builder_pass, builder_fail,
  reviewer_pass, reviewer_fail, security_pass, security_fail, verify_pass, verify_fail, Task, Roles,
  Tasks, Outcome, status_was, retry, failed_max_retries, Entry, Graph,
}

abbrev pub task_status_text : TaskStatus → String
task_status_text ready = "READY"
task_status_text blocked = "BLOCKED"
task_status_text pass = "PASS"
task_status_text fail = "FAIL"
task_status_text skipped = "SKIPPED"

abbrev pub graph_status_text : GraphStatus → String
graph_status_text active = "ACTIVE"
graph_status_text complete = "COMPLETE"
graph_status_text failed = "FAILED"

abbrev event_text : Event → String
event_text builder_pass = "builder-pass"
event_text builder_fail = "builder-fail"
event_text reviewer_pass = "reviewer-pass"
event_text reviewer_fail = "reviewer-fail"
event_text security_pass = "security-pass"
event_text security_fail = "security-fail"
event_text verify_pass = "verify-pass"
event_text verify_fail = "verify-fail"

abbrev source_text : TaskName → String
source_text builder = "builder"
source_text reviewer = "reviewer"
source_text security_reviewer = "securityReviewer"
source_text verification = "verification"

abbrev outcome_text : Outcome → String
outcome_text (status_was s) = graph_status_text s
outcome_text retry = "RETRY"
outcome_text failed_max_retries = "FAILED_MAX_RETRIES"

abbrev text_or_null : Option String → Json
text_or_null none = null
text_or_null (some s) = str s

-- A member that may be undefined.
abbrev defined : String → Option String → Fields → Fields
defined key none rest = rest
defined key (some s) rest = field key (str s) rest

abbrev task_document : Task → Json
task_document t =
    obj
      (field "status" (str (task_status_text t.status)) (field "actor" (text_or_null t.actor) end))

abbrev roles_document : Roles → Json
roles_document r = obj (
    defined "builder" r.builder (
      defined "reviewer" r.reviewer
        (field "securityReviewer" (text_or_null r.security_reviewer) end)))

abbrev tasks_document : Tasks → Json
tasks_document t = obj (
    field "builder" (task_document t.builder) (
      field "reviewer" (task_document t.reviewer) (
        field "securityReviewer" (task_document t.security_reviewer)
          (field "verification" (task_document t.verification) end))))

abbrev source_of : Option TaskName → Option String
source_of none = none
source_of (some name) = some (source_text name)

module _ (number_text : ℕ → String) where
  abbrev entry_document : Entry → Json
  entry_document e = obj (
      field "event" (str (event_text e.event)) (
        defined "source" (source_of e.source) (
          field "outcome" (str (outcome_text e.outcome))
            (field "retryCount" (num (number_text e.retry_count)) (field "at" (str e.at) end)))))

  unfoldable history_items : List Entry → Items
  history_items [] = nil
  history_items (e ∷ es) = cons (entry_document e) (history_items es)

  unfoldable pub graph_document : Graph → Json
  unfolding history_items
  graph_document g = obj (
      field "schemaVersion" (num (number_text g.schema_version)) (
        field "feature" (str g.feature) (
          field "generatedAt" (str g.generated_at) (
            field "updatedAt" (str g.updated_at) (
              field "status" (str (graph_status_text g.status)) (
                field "maxRetries" (num (number_text g.max_retries)) (
                  field "retryCount" (num (number_text g.retry_count)) (
                    field "roles" (roles_document g.roles) (
                      field "tasks" (tasks_document g.tasks)
                        (field "history" (arr (history_items g.history)) end))))))))))
