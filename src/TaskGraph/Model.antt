-- ===== src/TaskGraph/Model.antt =====
-- scripts/agent-task-graph.js: the graph of one feature, and `createInitialGraph`.
use tanden_trust_audit_poc.Base.{
  ℕ, String, Bool, false, ◌&&◌, ◌||◌, Option, none, some, List, [], ◌∷◌, if◌then◌else◌, str_eq,
  codes, is_lower, is_digit, is_truthy, or_null, or_else, Number, natural, negative, non_integer,
  all, Result, ok, err, ◌>>=◌, ◌>>◌, require, ◌==◌,
}

pub data TaskName : Type 0 where
  builder reviewer security_reviewer verification : TaskName

pub data TaskStatus : Type 0 where
  ready blocked pass fail skipped : TaskStatus

pub data GraphStatus : Type 0 where
  active complete failed : GraphStatus

pub data Event : Type 0 where
  builder_pass builder_fail reviewer_pass reviewer_fail security_pass security_fail : Event
  verify_pass verify_fail : Event

-- `EVENTS.has(event)`, and the event that a text names.
unfoldable pub parse_event : String → Option Event
parse_event s =
    if str_eq s "builder-pass"
    then some builder_pass
    else if str_eq s "builder-fail"
    then some builder_fail
    else if str_eq s "reviewer-pass"
    then some reviewer_pass
    else if str_eq s "reviewer-fail"
    then some reviewer_fail
    else if str_eq s "security-pass"
    then some security_pass
    else if str_eq s "security-fail"
    then some security_fail
    else if str_eq s "verify-pass"
    then some verify_pass
    else if str_eq s "verify-fail"
    then some verify_fail
    else none

pub record Task : Type 0 where
  pub status : TaskStatus
  pub actor : Option String

pub record Tasks : Type 0 where
  pub builder : Task
  pub reviewer : Task
  pub security_reviewer : Task
  pub verification : Task

pub record Roles : Type 0 where
  pub builder : Option String
  pub reviewer : Option String
  pub security_reviewer : Option String

-- What an entry of the history records: the graph's status, or how a failure was routed.
pub data Outcome : Type 0 where
  status_was : GraphStatus → Outcome
  retry failed_max_retries : Outcome

pub record Entry : Type 0 where
  pub event : Event
  pub source : Option TaskName
  pub outcome : Outcome
  pub retry_count : ℕ
  pub at : String

pub record Graph : Type 0 where
  pub schema_version : ℕ
  pub feature : String
  pub generated_at : String
  pub updated_at : String
  pub status : GraphStatus
  pub max_retries : ℕ
  pub retry_count : ℕ
  pub roles : Roles
  pub tasks : Tasks
  pub history : List Entry

pub data OrchestratorError : Type 0 where
  invalid_slug invalid_max_retries : OrchestratorError
  unsupported_event : String → OrchestratorError
  terminal_graph : GraphStatus → OrchestratorError
  not_ready : Event → TaskName → TaskStatus → OrchestratorError
  not_delegated : Event → OrchestratorError
  graph_missing feature_mismatch : OrchestratorError
  invalid_delegation write_failed : String → OrchestratorError

slug_head : ℕ → Bool
slug_head c = is_lower c || is_digit c

slug_tail : ℕ → Bool
unfolding slug_head
slug_tail c = slug_head c || c == b'-'

-- /^[a-z0-9][a-z0-9-]*$/ on the characters of a text.
slug_matches : List ℕ → Bool
unfolding slug_head slug_tail
slug_matches [] = false
slug_matches (c ∷ cs) = slug_head c && all slug_tail cs

unfoldable pub validate_feature_slug : String → Result OrchestratorError (Unit {0})
unfolding slug_matches
validate_feature_slug slug = require (slug_matches (codes slug)) invalid_slug

pub task : TaskStatus → Option String → Task
task status actor = record { status = status; actor = or_null actor }

-- The checks on `retries` and its value.
pub check_retries : Number → Result OrchestratorError ℕ
check_retries (natural n) = ok n
check_retries (negative n) = err invalid_max_retries
check_retries non_integer = err invalid_max_retries

unfoldable pub initial_graph : String → Roles → ℕ → String → String → Graph
unfolding task
initial_graph feature_slug roles retries generated updated = record {
  schema_version = 1;
  feature = feature_slug;
  generated_at = generated;
  updated_at = updated;
  status = active;
  max_retries = retries;
  retry_count = 0;
  roles = record {
    builder = roles.builder;
    reviewer = roles.reviewer;
    security_reviewer = or_null roles.security_reviewer;
  };
  tasks = record {
    builder = task ready roles.builder;
    reviewer = task blocked roles.reviewer;
    security_reviewer =
        if is_truthy roles.security_reviewer
        then task blocked roles.security_reviewer
        else task skipped none;
    verification = task blocked (some "verification-gate");
  };
  history = [];
}

-- The two clock readings stand for the two calls of `new Date()`.
unfoldable pub create_initial_graph :
    String → Roles → Number → Option String → String → String → Result OrchestratorError Graph
unfolding initial_graph validate_feature_slug check_retries
create_initial_graph feature_slug roles max_retries now clock_1 clock_2 = do
  validate_feature_slug feature_slug
  retries ← check_retries max_retries
  ok (initial_graph feature_slug roles retries (or_else now clock_1) (or_else now clock_2))
