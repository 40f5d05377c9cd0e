-- ===== src/TaskGraph/Refinement.antt =====
-- `applyEvent` implements the workflow automaton.
use tanden_trust_audit_poc.Base.{
  ℕ, ◌+◌, ◌≡◌, String, Bool, true, Option, none, some, leb, arith, Result, ok, err,
}
use tanden_trust_audit_poc.TaskGraph.Model.{builder, Event, Graph, OrchestratorError}
use tanden_trust_audit_poc.TaskGraph.Events.{apply_known}
use tanden_trust_audit_poc.TaskGraph.Workflow.{Position, working, next, retries_used, StandsAt}

-- What a call must return, given the position that the workflow goes to, if any.
abbrev pub Implements : Bool → ℕ → Option Position → Result OrchestratorError Graph → Type 0
Implements d retries none (ok g) = ⊥
Implements d retries none (err e) = Unit
Implements d retries (some p) (ok g) = StandsAt d p g × (g.retry_count ≡ retries)
Implements d retries (some p) (err e) = ⊥

-- At a graph that stands at a position of the workflow, `applyEvent` on a known event follows the
-- workflow: where it allows the event, the result stands at the next position and has used the
-- retry that the event costs; where it does not, the call throws.
pub apply_known-Implements :
    (d : Bool) (p : Position) (g : Graph) (e : Event) (now : String)
    → StandsAt d p g
    → Implements d
        (g.retry_count + retries_used (leb g.max_retries g.retry_count) e)
        (next d (leb g.max_retries g.retry_count) p e)
        (apply_known g e now)
unfolding apply_known
apply_known-Implements true (working builder) g e now s = ground arith
apply_known-Implements d p g e now s = ground arith
