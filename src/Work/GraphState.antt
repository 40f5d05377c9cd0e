-- ===== src/Work/GraphState.antt =====
-- scripts/work-development-orchestrator.js: `validateTaskGraphState`. A graph of the model has the
-- four supported tasks, so the two checks on its keys pass; what is left is the table of the
-- statuses that each graph status allows.
use tanden_trust_audit_poc.Base.{
  ◌≡◌, Bool, true, false, ◌&&◌, List, [], ◌∷◌, any, is_truthy, if◌then◌else◌, arith,
}
use tanden_trust_audit_poc.TaskGraph.Model.{
  TaskName, builder, reviewer, security_reviewer, verification, TaskStatus, ready, blocked, pass,
  fail, skipped, GraphStatus, active, complete, failed, Graph,
}
use tanden_trust_audit_poc.TaskGraph.Workflow.{
  Position, working, done, stopped, StandsAt, builder_at, reviewer_at, security_at, verification_at,
  graph_at, possible,
}
use tanden_trust_audit_poc.TaskGraph.Reachable.{Reachable, Reachable-IsSound}

-- `===` on two statuses.
status_eq : TaskStatus → TaskStatus → Bool
status_eq ready ready = true
status_eq blocked blocked = true
status_eq pass pass = true
status_eq fail fail = true
status_eq skipped skipped = true
status_eq _ _ = false

statuses_eq : List TaskStatus → List TaskStatus → Bool
unfolding status_eq
statuses_eq [] [] = true
statuses_eq (a ∷ xs) (b ∷ ys) = status_eq a b && statuses_eq xs ys
statuses_eq _ _ = false

active_states : Bool → List (List TaskStatus)
active_states true =
    (ready ∷ blocked ∷ blocked ∷ blocked ∷ [])
    ∷ (pass ∷ ready ∷ blocked ∷ blocked ∷ [])
    ∷ (pass ∷ pass ∷ ready ∷ blocked ∷ [])
    ∷ (pass ∷ pass ∷ pass ∷ ready ∷ [])
    ∷ []
active_states false =
    (ready ∷ blocked ∷ skipped ∷ blocked ∷ [])
    ∷ (pass ∷ ready ∷ skipped ∷ blocked ∷ [])
    ∷ (pass ∷ pass ∷ skipped ∷ ready ∷ [])
    ∷ []

complete_state : Bool → List TaskStatus
complete_state true = pass ∷ pass ∷ pass ∷ pass ∷ []
complete_state false = pass ∷ pass ∷ skipped ∷ pass ∷ []

failed_states : Bool → List (List TaskStatus)
failed_states true =
    (fail ∷ blocked ∷ blocked ∷ blocked ∷ [])
    ∷ (pass ∷ fail ∷ blocked ∷ blocked ∷ [])
    ∷ (pass ∷ pass ∷ fail ∷ blocked ∷ [])
    ∷ (pass ∷ pass ∷ pass ∷ fail ∷ [])
    ∷ []
failed_states false =
    (fail ∷ blocked ∷ skipped ∷ blocked ∷ [])
    ∷ (pass ∷ fail ∷ skipped ∷ blocked ∷ [])
    ∷ (pass ∷ pass ∷ skipped ∷ fail ∷ [])
    ∷ []

statuses : Graph → List TaskStatus
statuses g =
    g.tasks.builder.status ∷ g.tasks.reviewer.status ∷ g.tasks.security_reviewer.status
    ∷ g.tasks.verification.status ∷ []

-- `reachable`, by the graph's status.
allowed : Bool → GraphStatus → List TaskStatus → Bool
unfolding active_states complete_state failed_states statuses_eq
allowed d active s = any (statuses_eq s) (active_states d)
allowed d complete s = statuses_eq s (complete_state d)
allowed d failed s = any (statuses_eq s) (failed_states d)

pub validate_task_graph_state : Graph → Bool
unfolding allowed statuses
validate_task_graph_state g = allowed (is_truthy g.roles.security_reviewer) g.status (statuses g)

StandsAt-allowed :
    (d : Bool) (p : Position)
    → possible d p ≡ true
    → allowed d
        (graph_at p)
        (builder_at p ∷ reviewer_at p ∷ security_at d p ∷ verification_at p ∷ [])
      ≡ true
unfolding allowed
StandsAt-allowed true p h = ground arith
StandsAt-allowed false p h = ground arith

-- The orchestrator's table of allowed states refuses no graph that the task graph script reaches.
pub Reachable-validate_task_graph_state :
    {g : Graph} → Reachable g → validate_task_graph_state g ≡ true
unfolding validate_task_graph_state
Reachable-validate_task_graph_state r =
    let (d, p, s) = Reachable-IsSound r in ground (arith, StandsAt-allowed d p, s.stands)

-- The first of the statuses that is `mark`, or the Verification Gate.
abbrev first_marked : TaskStatus → TaskStatus → TaskStatus → TaskStatus → TaskName
first_marked mark b r s =
    if status_eq b mark
    then builder
    else if status_eq r mark
    then reviewer
    else if status_eq s mark
    then security_reviewer
    else verification

abbrev position_of : GraphStatus → TaskStatus → TaskStatus → TaskStatus → Position
position_of active b r s = working (first_marked ready b r s)
position_of complete b r s = done
position_of failed b r s = stopped (first_marked fail b r s)

-- Every state that the table allows stands at a position of the workflow: the table has no row
-- too many.
pub validate_task_graph_state-StandsAt :
    (g : Graph)
    → validate_task_graph_state g ≡ true
    → (p : Position) × StandsAt (is_truthy g.roles.security_reviewer) p g
unfolding validate_task_graph_state
validate_task_graph_state-StandsAt g h = (
  position_of g.status g.tasks.builder.status g.tasks.reviewer.status
      g.tasks.security_reviewer.status,
  ground arith,
)
