-- ===== src/Gates/AtVerification.antt =====
-- scripts/run-verification-evidence-gate.js: what the two documents say that the gate has read.
use tanden_trust_audit_poc.Base.{
  ◌≡◌, refl, ap, arith, eq_iff, String, Bool, true, false, ◌&&◌, Option, none, some, ok, ◌>>◌,
  require,
}
use tanden_trust_audit_poc.Json.{Json, null, bool, num, str, arr, obj, get_field}
use tanden_trust_audit_poc.Gates.Documents.{
  SpecFile, missing, unreadable, holds, graph_feature, graph_not_active, verification_not_ready,
  delegation_feature, is_truthy_json, strict_eq, member, or_empty, checked_roles,
  verification_is_ready, read_delegation, read_task_graph_state,
}

-- The file holds an ACTIVE graph of the feature, whose Verification task is READY.
pub record AtVerification (file : SpecFile) (slug : String) (graph : Json) : Type 0 where
  pub read : file ≡ holds graph
  pub feature : member "feature" graph ≡ some (str slug)
  pub status : member "status" graph ≡ some (str "ACTIVE")
  pub tasks : Json
  pub has_tasks : member "tasks" graph ≡ some tasks
  pub verification : Json
  pub has_verification : member "verification" tasks ≡ some verification
  pub verification_ready : member "status" verification ≡ some (str "READY")

-- The file holds a delegation of the feature.
pub record OfFeature (file : SpecFile) (slug : String) : Type 0 where
  pub document : Json
  pub read : file ≡ holds document
  pub feature : member "feature" document ≡ some (str slug)

strict_eq-text :
    (o : Option Json) (s : String) → strict_eq o (some (str s)) ≡ true → o ≡ some (str s)
unfolding strict_eq
strict_eq-text (some (str t)) s h = ap (λ x. some (str x)) ((eq_iff t s).0 h)
strict_eq-text o s h = absurd (ground arith)

is_truthy-some :
    (o : Option Json) → is_truthy_json o ≡ true → (v : Json) × (o ≡ some v) × (or_empty o ≡ v)
unfolding is_truthy_json
is_truthy-some none h = absurd (ground arith)
is_truthy-some (some v) h = (v, refl, rw h refl)

all_true : (a b c : Bool) → (a && b && c) ≡ true → (a ≡ true) × (b ≡ true) × (c ≡ true)
all_true true true true h = (refl, refl, refl)
all_true a b c h = absurd (ground arith)

pub graph_checks-passed :
    {A : Type 0}
    → (b c d : Bool) (graph j : A)
    → (require b graph_feature
        >> (require c graph_not_active >> (require d verification_not_ready >> ok graph)))
      ≡ ok j
    → (b ≡ true) × (c ≡ true) × (d ≡ true) × (graph ≡ j)
graph_checks-passed true true true graph j h = (refl, refl, refl, ground arith)
graph_checks-passed b c d graph j h = absurd (ground arith)

ready-AtVerification :
    (graph : Json) (slug : String)
    → member "feature" graph ≡ some (str slug)
    → member "status" graph ≡ some (str "ACTIVE")
    → verification_is_ready graph ≡ true
    → AtVerification (holds graph) slug graph
unfolding verification_is_ready
ready-AtVerification graph slug feature status h =
    let tasks = member "tasks" graph in
    let verification = member "verification" (or_empty tasks) in
    let (t, v, r) =
      all_true (is_truthy_json tasks) (is_truthy_json verification)
        (strict_eq (member "status" (or_empty verification)) (some (str "READY"))) h in
    let (tasks', has_tasks, same_tasks) = is_truthy-some tasks t in
    let (verification', has_verification, same) = is_truthy-some verification v in
    record {
      read = refl;
      feature = feature;
      status = status;
      tasks = tasks';
      has_tasks = has_tasks;
      verification = verification';
      has_verification = rw (← same_tasks) has_verification;
      verification_ready =
          rw (← same) (strict_eq-text (member "status" (or_empty verification)) "READY" r);
    }

pub read_task_graph_state-AtVerification :
    (file : SpecFile) (slug : String) (graph : Json)
    → read_task_graph_state file slug ≡ ok graph
    → AtVerification file slug graph
unfolding read_task_graph_state member
read_task_graph_state-AtVerification (holds (obj fields)) slug graph h =
    let (feature, status, is_ready, same) =
      graph_checks-passed (strict_eq (get_field "feature" fields) (some (str slug)))
        (strict_eq (get_field "status" fields) (some (str "ACTIVE")))
        (verification_is_ready (obj fields)) (obj fields) graph h in
    rw (← same) (
      ready-AtVerification (obj fields) slug
        (strict_eq-text (get_field "feature" fields) slug feature)
        (strict_eq-text (get_field "status" fields) "ACTIVE" status) is_ready)
read_task_graph_state-AtVerification missing slug graph h =
    absurd (unfold strict_eq in ground arith)
read_task_graph_state-AtVerification unreadable slug graph h =
    absurd (unfold strict_eq in ground arith)
read_task_graph_state-AtVerification (holds null) slug graph h =
    absurd (unfold strict_eq in ground arith)
read_task_graph_state-AtVerification (holds (bool b)) slug graph h =
    absurd (unfold strict_eq in ground arith)
read_task_graph_state-AtVerification (holds (num n)) slug graph h =
    absurd (unfold strict_eq in ground arith)
read_task_graph_state-AtVerification (holds (str x)) slug graph h =
    absurd (unfold strict_eq in ground arith)
read_task_graph_state-AtVerification (holds (arr x)) slug graph h =
    absurd (unfold strict_eq in ground arith)

pub read_delegation-OfFeature :
    (file : SpecFile) (slug : String) (roles : Json)
    → read_delegation file slug ≡ ok roles
    → OfFeature file slug
unfolding read_delegation member
read_delegation-OfFeature (holds (obj fields)) slug roles h =
    go (strict_eq (get_field "feature" fields) (some (str slug))) refl h
  where
    go :
        (b : Bool)
        → strict_eq (get_field "feature" fields) (some (str slug)) ≡ b
        → (require b delegation_feature >> checked_roles (or_empty (get_field "roles" fields)))
          ≡ ok roles
        → OfFeature (holds (obj fields)) slug
    go true eq k = record {
      document = obj fields;
      read = refl;
      feature = strict_eq-text (get_field "feature" fields) slug eq;
    }
    go false eq k = absurd (ground arith)
read_delegation-OfFeature missing slug roles h = absurd (unfold strict_eq in ground arith)
read_delegation-OfFeature unreadable slug roles h = absurd (unfold strict_eq in ground arith)
read_delegation-OfFeature (holds null) slug roles h = absurd (unfold strict_eq in ground arith)
read_delegation-OfFeature (holds (bool b)) slug roles h = absurd (unfold strict_eq in ground arith)
read_delegation-OfFeature (holds (num n)) slug roles h = absurd (unfold strict_eq in ground arith)
read_delegation-OfFeature (holds (str x)) slug roles h = absurd (unfold strict_eq in ground arith)
read_delegation-OfFeature (holds (arr x)) slug roles h = absurd (unfold strict_eq in ground arith)
