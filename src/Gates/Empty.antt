-- ===== src/Gates/Empty.antt =====
-- scripts/run-verification-evidence-gate.js: what an empty list of errors says of one check.
use tanden_trust_audit_poc.Base.{
  ◌≡◌, refl, sym, ap, arith, eq_iff, String, Bool, true, false, not, Option, none, some, List, [],
  ◌∷◌, ◌++◌, Result, ok, err,
}
use tanden_trust_audit_poc.Json.{Json, null, bool, num, str}
use tanden_trust_audit_poc.TaskGraph.Model.{OrchestratorError}
use tanden_trust_audit_poc.Gates.Documents.{
  GateError, role_differs, strict_eq, member, or_empty, or_null_json,
}
use tanden_trust_audit_poc.Gates.Gate.{
  push_if, errors_of, role_error, role_errors, runtime_errors, verdict,
}

abbrev pub SameRole : String → Json → Json → Type 0
SameRole role_name graph roles =
    or_null_json (member role_name (or_empty (member "roles" graph)))
    ≡ or_null_json (member role_name roles)

pub append-empty : {A : Type 0} → (xs ys : List A) → xs ++ ys ≡ [] → (xs ≡ []) × (ys ≡ [])
append-empty [] ys h = (refl, h)
append-empty (x ∷ xs) ys h = absurd (ground arith)

pub push_if-empty : (c : Bool) (e : GateError) → push_if c e ≡ [] → c ≡ false
unfolding push_if
push_if-empty true e h = absurd (ground arith)
push_if-empty false e h = refl

pub errors_of-empty :
    {A : Type 0} → (r : Result GateError A) → errors_of r ≡ [] → (a : A) × (r ≡ ok a)
unfolding errors_of
errors_of-empty (ok a) h = (a, refl)
errors_of-empty (err e) h = absurd (ground arith)

pub strict_eq-str :
    (s : String) (o : Option Json) → strict_eq (some (str s)) o ≡ true → o ≡ some (str s)
unfolding strict_eq
strict_eq-str s (some (str t)) h = ap (λ x. some (str x)) (sym ((eq_iff s t).0 h))
strict_eq-str s o h = absurd (ground arith)

strict_eq-eq : (a b : Json) → strict_eq (some a) (some b) ≡ true → b ≡ a
unfolding strict_eq
strict_eq-eq null null h = refl
strict_eq-eq (bool true) (bool true) h = refl
strict_eq-eq (bool false) (bool false) h = refl
strict_eq-eq (num s) (num t) h = ap num (sym ((eq_iff s t).0 h))
strict_eq-eq (str s) (str t) h = ap str (sym ((eq_iff s t).0 h))
strict_eq-eq a b h = absurd (ground arith)

role_error-same :
    (graph_roles roles : Json) (role_name : String)
    → role_error graph_roles roles role_name ≡ []
    → or_null_json (member role_name graph_roles) ≡ or_null_json (member role_name roles)
unfolding role_error
role_error-same graph_roles roles role_name h =
    let same =
      push_if-empty
        (not (
          strict_eq (some (or_null_json (member role_name graph_roles)))
            (some (or_null_json (member role_name roles)))))
        (role_differs role_name) h in
    sym (
      strict_eq-eq (or_null_json (member role_name graph_roles))
        (or_null_json (member role_name roles)) (ground arith))

pub runtime_errors-empty : (o : Option String) → runtime_errors o ≡ [] → o ≡ none
unfolding runtime_errors
runtime_errors-empty none h = refl
runtime_errors-empty (some e) h = absurd (ground arith)

pub verdict-passed :
    (es : List GateError)
    → ◌≡◌ {A = Result OrchestratorError (Result (List GateError) (Unit {0}))}
        (ok (verdict es))
        (ok (ok tt))
    → es ≡ []
unfolding verdict
verdict-passed [] h = refl
verdict-passed (e ∷ es) h = absurd (ground arith)

pub role_errors-same :
    (roles graph : Json)
    → role_errors (ok roles) (ok graph) ≡ []
    → SameRole "builder" graph roles
      × SameRole "reviewer" graph roles
      × SameRole "securityReviewer" graph roles
unfolding role_errors
role_errors-same roles graph h =
    let graph_roles = or_empty (member "roles" graph) in
    let security = role_error graph_roles roles "securityReviewer" in
    let builder = role_error graph_roles roles "builder" in
    let reviewer = role_error graph_roles roles "reviewer" in
    let (rest, s) = append-empty (builder ++ reviewer) security h in
    let (b, r) = append-empty builder reviewer rest in
    (
      role_error-same graph_roles roles "builder" b,
      role_error-same graph_roles roles "reviewer" r,
      role_error-same graph_roles roles "securityReviewer" s,
    )
