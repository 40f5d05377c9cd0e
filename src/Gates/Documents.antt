-- ===== src/Gates/Documents.antt =====
-- scripts/run-verification-evidence-gate.js: `readDelegation` and `readTaskGraphState`. JSON.parse
-- is the platform's: a file is missing, or holds a document or no JSON.
use tanden_trust_audit_poc.Base.{
  String, Bool, true, false, ◌&&◌, not, Option, none, some, Result, ok, err, ◌>>=◌, ◌>>◌, throw_if,
  require, is_empty, if◌then◌else◌, str_eq,
}
use tanden_trust_audit_poc.Json.{Json, null, bool, num, str, arr, obj, end, get_field}

pub data SpecFile : Type 0 where
  missing unreadable : SpecFile
  holds : Json → SpecFile

-- The errors that the gate reports; those of the conformance gate and of the runtime evidence are
-- passed on.
pub data GateError : Type 0 where
  delegation_missing delegation_feature delegation_roles same_reviewer same_security_reviewer :
      GateError
  delegation_unreadable graph_missing graph_feature graph_not_active verification_not_ready :
      GateError
  graph_unreadable conformance_failed structure_failed : GateError
  role_differs : String → GateError
  passed_on : String → GateError
  reviewer_review_missing reviewer_not_pass reviewer_unnamed reviewer_differs : GateError
  security_reviewer_missing security_review_missing security_not_pass security_unnamed : GateError
  delegated_review_missing security_differs : GateError

-- `if (value)`, where `none` is undefined.
unfoldable pub is_truthy_json : Option Json → Bool
is_truthy_json none = false
is_truthy_json (some null) = false
is_truthy_json (some (bool b)) = b
is_truthy_json (some (num t)) = not (str_eq t "0")
is_truthy_json (some (str s)) = not (is_empty s)
is_truthy_json (some (arr items)) = true
is_truthy_json (some (obj fields)) = true

abbrev bool_eq : Bool → Bool → Bool
bool_eq true b = b
bool_eq false b = not b

-- `a === b` on two members: arrays and objects of two places are different.
unfoldable pub strict_eq : Option Json → Option Json → Bool
strict_eq none none = true
strict_eq (some null) (some null) = true
strict_eq (some (bool a)) (some (bool b)) = bool_eq a b
strict_eq (some (num a)) (some (num b)) = str_eq a b
strict_eq (some (str a)) (some (str b)) = str_eq a b
strict_eq _ _ = false

-- `value[key]` of a value that is not null; only an object has the members that are read.
unfoldable pub member : String → Json → Option Json
member key (obj fields) = get_field key fields
member key _ = none

-- `value[key]`, which throws for null.
abbrev member_of : {E : Type 0} → E → String → Json → Result E (Option Json)
member_of thrown key null = err thrown
member_of thrown key (bool b) = ok none
member_of thrown key (num t) = ok none
member_of thrown key (str s) = ok none
member_of thrown key (arr items) = ok none
member_of thrown key (obj fields) = ok (get_field key fields)

-- `value || {}`
abbrev pub or_empty : Option Json → Json
or_empty none = obj end
or_empty (some v) = if is_truthy_json (some v) then v else obj end

-- `value || null`
unfoldable pub or_null_json : Option Json → Json
unfolding is_truthy_json
or_null_json none = null
or_null_json (some v) = if is_truthy_json (some v) then v else null

-- The checks on the roles of a delegation.
unfoldable pub checked_roles : Json → Result GateError Json
unfolding is_truthy_json strict_eq member
checked_roles roles = do
  require (is_truthy_json (member "builder" roles) && is_truthy_json (member "reviewer" roles))
      delegation_roles
  throw_if (strict_eq (member "builder" roles) (member "reviewer" roles)) same_reviewer
  throw_if
      (is_truthy_json (member "securityReviewer" roles)
        && strict_eq (member "securityReviewer" roles) (member "builder" roles))
      same_security_reviewer
  ok roles

-- The roles of a valid delegation.
unfoldable pub read_delegation : SpecFile → String → Result GateError Json
unfolding checked_roles
read_delegation missing slug = err delegation_missing
read_delegation unreadable slug = err delegation_unreadable
read_delegation (holds document) slug = do
  feature ← member_of delegation_unreadable "feature" document
  require (strict_eq feature (some (str slug))) delegation_feature
  roles ← member_of delegation_unreadable "roles" document
  checked_roles (or_empty roles)

-- `graph.tasks.verification.status`, where a member that is not there ends the test.
unfoldable pub verification_is_ready : Json → Bool
verification_is_ready graph =
    is_truthy_json (member "tasks" graph)
    && is_truthy_json (member "verification" (or_empty (member "tasks" graph)))
    && strict_eq
        (member "status" (or_empty (member "verification" (or_empty (member "tasks" graph)))))
        (some (str "READY"))

unfoldable pub read_task_graph_state : SpecFile → String → Result GateError Json
unfolding verification_is_ready
read_task_graph_state missing slug = err graph_missing
read_task_graph_state unreadable slug = err graph_unreadable
read_task_graph_state (holds graph) slug = do
  feature ← member_of graph_unreadable "feature" graph
  require (strict_eq feature (some (str slug))) graph_feature
  status ← member_of graph_unreadable "status" graph
  require (strict_eq status (some (str "ACTIVE"))) graph_not_active
  require (verification_is_ready graph) verification_not_ready
  ok graph
