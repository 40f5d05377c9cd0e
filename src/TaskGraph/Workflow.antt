-- ===== src/TaskGraph/Workflow.antt =====
-- What docs/agent-orchestrator-task-graph.md promises of the graph: an automaton over the places
-- where the work can stand, with no statuses, roles, history or clock.
use tanden_trust_audit_poc.Base.{
  ℕ, ◌≡◌, Bool, true, false, Option, none, some, is_truthy, if◌then◌else◌,
}
use tanden_trust_audit_poc.TaskGraph.Model.{
  TaskName, builder, reviewer, security_reviewer, verification, TaskStatus, ready, blocked, pass,
  fail, skipped, GraphStatus, active, complete, failed, Event, builder_pass, builder_fail,
  reviewer_pass, reviewer_fail, security_pass, security_fail, verify_pass, verify_fail, Graph,
}

-- The task that is READY, or how the graph ended.
pub data Position : Type 0 where
  working : TaskName → Position
  done : Position
  stopped : TaskName → Position

-- A failure at a task goes back to the Builder, or stops the work when no retry is left.
abbrev pub after_failure : Bool → TaskName → Position
after_failure exhausted name = if exhausted then stopped name else working builder

-- The successor of a position, if the event is allowed there.
abbrev pub next : Bool → Bool → Position → Event → Option Position
next delegated exhausted (working builder) builder_pass = some (working reviewer)
next delegated exhausted (working builder) builder_fail = some (after_failure exhausted builder)
next delegated exhausted (working reviewer) reviewer_pass =
    some (working (if delegated then security_reviewer else verification))
next delegated exhausted (working reviewer) reviewer_fail = some (after_failure exhausted reviewer)
next delegated exhausted (working security_reviewer) security_pass = some (working verification)
next delegated exhausted (working security_reviewer) security_fail =
    some (after_failure exhausted security_reviewer)
next delegated exhausted (working verification) verify_pass = some done
next delegated exhausted (working verification) verify_fail =
    some (after_failure exhausted verification)
next _ _ _ _ = none

-- How often an accepted event raises `retryCount`.
abbrev pub retries_used : Bool → Event → ℕ
retries_used true e = 0
retries_used false builder_fail = 1
retries_used false reviewer_fail = 1
retries_used false security_fail = 1
retries_used false verify_fail = 1
retries_used false _ = 0

-- The status of each task at a position.
abbrev pub builder_at : Position → TaskStatus
builder_at (working builder) = ready
builder_at (stopped builder) = fail
builder_at _ = pass

abbrev pub reviewer_at : Position → TaskStatus
reviewer_at (working builder) = blocked
reviewer_at (stopped builder) = blocked
reviewer_at (working reviewer) = ready
reviewer_at (stopped reviewer) = fail
reviewer_at _ = pass

abbrev pub security_at : Bool → Position → TaskStatus
security_at false _ = skipped
security_at true (working builder) = blocked
security_at true (stopped builder) = blocked
security_at true (working reviewer) = blocked
security_at true (stopped reviewer) = blocked
security_at true (working security_reviewer) = ready
security_at true (stopped security_reviewer) = fail
security_at true _ = pass

abbrev pub verification_at : Position → TaskStatus
verification_at (working verification) = ready
verification_at (stopped verification) = fail
verification_at done = pass
verification_at _ = blocked

abbrev pub graph_at : Position → GraphStatus
graph_at (working _) = active
graph_at done = complete
graph_at (stopped _) = failed

-- Only a delegated Security Reviewer is ever asked.
abbrev pub possible : Bool → Position → Bool
possible false (working security_reviewer) = false
possible false (stopped security_reviewer) = false
possible _ _ = true

-- A stored graph stands at a position.
pub record StandsAt (d : Bool) (p : Position) (g : Graph) : Type 0 where
  pub delegation : is_truthy g.roles.security_reviewer ≡ d
  pub builder_status : g.tasks.builder.status ≡ builder_at p
  pub reviewer_status : g.tasks.reviewer.status ≡ reviewer_at p
  pub security_status : g.tasks.security_reviewer.status ≡ security_at d p
  pub verification_status : g.tasks.verification.status ≡ verification_at p
  pub graph_status : g.status ≡ graph_at p
  pub asked : possible d p ≡ true
