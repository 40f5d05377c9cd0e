-- ===== src/Gates/Reviewed.antt =====
-- scripts/run-verification-evidence-gate.js: what a review without errors has established.
use tanden_trust_audit_poc.Base.{
  ◌≡◌, ◌≢◌, ◌⊎◌, inl, inr, refl, arith, String, Bool, true, not, Option, none, some, List, [], ◌∷◌,
  ok, is_truthy, opt_eq, opt_eq-eq,
}
use tanden_trust_audit_poc.Json.{Json, str}
use tanden_trust_audit_poc.Gates.Review.{parse_review_artifact}
use tanden_trust_audit_poc.Gates.Documents.{
  security_reviewer_missing, is_truthy_json, strict_eq, member,
}
use tanden_trust_audit_poc.Gates.Gate.{
  push_if, reviewer_errors, security_reviewer, security_review_required, security_review_errors,
  security_errors, names, is_nonempty,
}
use tanden_trust_audit_poc.Gates.Empty.{append-empty, push_if-empty, strict_eq-str}

-- A review that passed, by the identity of a role, who is not the builder.
pub record Reviewed (artifact : Option String) (role_name : String) (roles : Json) : Type 0 where
  pub markdown : String
  pub present : artifact ≡ some markdown
  pub passed : (parse_review_artifact markdown).status ≡ some "PASS"
  pub identity : String
  pub named : (parse_review_artifact markdown).reviewed_by ≡ some identity
  pub delegated : member role_name roles ≡ some (str identity)
  pub not_builder : member "builder" roles ≢ some (str identity)

-- The checks on one review, at its role.
review-Reviewed :
    (markdown role_name : String) (roles : Json)
    → ((s : String) → member "builder" roles ≡ some (str s) → member role_name roles ≢ some (str s))
    → opt_eq (parse_review_artifact markdown).status (some "PASS") ≡ true
    → (identity : String) → (parse_review_artifact markdown).reviewed_by ≡ some identity
    → strict_eq (some (str identity)) (member role_name roles) ≡ true
    → Reviewed (some markdown) role_name roles
review-Reviewed markdown role_name roles differs passes identity named same =
    let delegated = strict_eq-str identity (member role_name roles) same in
    record {
      markdown = markdown;
      present = refl;
      passed = opt_eq-eq (parse_review_artifact markdown).status (some "PASS") passes;
      identity = identity;
      named = named;
      delegated = delegated;
      not_builder = λ b. differs identity b delegated;
    }

-- The end of the checks on a review: its reviewer is a text, and the one of the role.
at_identity :
    (markdown role_name : String) (roles : Json) (o : Option String)
    → ((s : String) → member "builder" roles ≡ some (str s) → member role_name roles ≢ some (str s))
    → opt_eq (parse_review_artifact markdown).status (some "PASS") ≡ true
    → (parse_review_artifact markdown).reviewed_by ≡ o
    → is_truthy o ≡ true
    → names o (member role_name roles) ≡ true
    → Reviewed (some markdown) role_name roles
at_identity markdown role_name roles none differs passes named present same = absurd (ground arith)
at_identity markdown role_name roles (some s) differs passes named present same =
    review-Reviewed markdown role_name roles differs passes s named same

pub reviewer_errors-empty :
    (roles : Json) (markdown : Option String)
    → ((s : String)
        → member "builder" roles ≡ some (str s)
        → member "reviewer" roles ≢ some (str s))
    → reviewer_errors (ok roles) markdown ≡ []
    → Reviewed markdown "reviewer" roles
unfolding reviewer_errors push_if
reviewer_errors-empty roles none differs h = absurd (ground arith)
reviewer_errors-empty roles (some markdown) differs h =
    at_identity markdown "reviewer" roles (parse_review_artifact markdown).reviewed_by differs
      (ground arith) refl (ground arith) (ground arith)

security_review_errors-empty :
    (is_sensitive : Bool) (roles : Json) (markdown : Option String)
    → ((s : String)
        → member "builder" roles ≡ some (str s)
        → member "securityReviewer" roles ≢ some (str s))
    → is_truthy_json (member "securityReviewer" roles) ≡ true
    → security_review_errors is_sensitive (member "securityReviewer" roles) markdown ≡ []
    → Reviewed markdown "securityReviewer" roles
unfolding security_review_errors push_if
security_review_errors-empty is_sensitive roles none differs named h = absurd (ground arith)
security_review_errors-empty is_sensitive roles (some markdown) differs named h =
    at_identity markdown "securityReviewer" roles (parse_review_artifact markdown).reviewed_by
      differs (ground arith) refl (ground arith) (ground arith)

pub security_errors-empty :
    (roles : Json) (sensitive_files : List String) (markdown : Option String)
    → ((s : String)
        → member "builder" roles ≡ some (str s)
        → member "securityReviewer" roles ≢ some (str s))
    → security_review_required (ok roles) sensitive_files ≡ true
    → security_errors (ok roles) sensitive_files markdown ≡ []
    → Reviewed markdown "securityReviewer" roles
unfolding security_errors security_reviewer
security_errors-empty roles sensitive_files markdown differs required h =
    let role = member "securityReviewer" roles in
    let review = security_review_errors (is_nonempty sensitive_files) role markdown in
    let h' = rw required at h in
    let (unnamed, rest) =
      append-empty (push_if (not (is_truthy_json role)) security_reviewer_missing) review h' in
    let named = push_if-empty (not (is_truthy_json role)) security_reviewer_missing unnamed in
    security_review_errors-empty (is_nonempty sensitive_files) roles markdown differs (ground arith)
      rest

pub required_if :
    (roles : Json) (sensitive_files : List String)
    → (sensitive_files ≢ []) ⊎ (is_truthy_json (member "securityReviewer" roles) ≡ true)
    → security_review_required (ok roles) sensitive_files ≡ true
unfolding security_review_required security_reviewer
required_if roles [] (inl h) = absurd (h refl)
required_if roles [] (inr h) = ground arith
required_if roles (x ∷ xs) h = refl
