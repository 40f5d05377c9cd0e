-- ===== src/Gates/Delegated.antt =====
-- scripts/run-verification-evidence-gate.js: the identities of a valid delegation differ.
use tanden_trust_audit_poc.Base.{
  ◌≡◌, ◌≢◌, refl, sym, ap, ◌∙◌, arith, eq_refl, String, Bool, true, false, ◌&&◌, Option, some, ok,
  ◌>>◌, require, throw_if,
}
use tanden_trust_audit_poc.Json.{Json, str, obj, get_field}
use tanden_trust_audit_poc.Gates.Documents.{
  SpecFile, holds, missing, unreadable, delegation_feature, delegation_roles, same_reviewer,
  same_security_reviewer, is_truthy_json, strict_eq, member, or_empty, checked_roles,
  read_delegation,
}

checks-passed :
    (t e u : Bool) (r roles : Json)
    → (require t delegation_roles
        >> (throw_if e same_reviewer >> (throw_if u same_security_reviewer >> ok r)))
      ≡ ok roles
    → (t ≡ true) × (e ≡ false) × (u ≡ false) × (r ≡ roles)
checks-passed true false false r roles h = (refl, refl, refl, ground arith)
checks-passed t e u r roles h = absurd (ground arith)

-- A text that is the builder's and another's is the same text for `===`.
same_text :
    (s : String) (a b : Option Json) → a ≡ some (str s) → b ≡ some (str s) → strict_eq a b ≡ true
unfolding strict_eq
same_text s a b h k = rw (h, k) (eq_refl s)

-- The two names of a valid delegation's builder and of its reviewers are not the same text.
pub checked_roles-others :
    (r : Json) (roles : Json) (s : String)
    → checked_roles r ≡ ok roles
    → (member "builder" roles ≡ some (str s) → member "reviewer" roles ≢ some (str s))
      × (member "builder" roles ≡ some (str s) → member "securityReviewer" roles ≢ some (str s))
unfolding checked_roles
checked_roles-others r roles s h =
    let (t, e, u, same) =
      checks-passed (is_truthy_json (member "builder" r) && is_truthy_json (member "reviewer" r))
        (strict_eq (member "builder" r) (member "reviewer" r))
        (is_truthy_json (member "securityReviewer" r)
          && strict_eq (member "securityReviewer" r) (member "builder" r))
        r roles h in
    rw (← same) (
      λ b v. let both = same_text s (member "builder" r) (member "reviewer" r) b v in ground arith,
      λ b w.
          let both = same_text s (member "securityReviewer" r) (member "builder" r) w b in
          let truthy = ap is_truthy_json (w ∙ sym b) in ground arith,
    )

pub read_delegation-checked :
    (file : SpecFile) (slug : String) (roles : Json)
    → read_delegation file slug ≡ ok roles
    → (r : Json) × (checked_roles r ≡ ok roles)
unfolding read_delegation
read_delegation-checked missing slug roles h = absurd (ground arith)
read_delegation-checked unreadable slug roles h = absurd (ground arith)
read_delegation-checked (holds (obj fields)) slug roles h =
    at_feature (strict_eq (get_field "feature" fields) (some (str slug))) h
  where
    at_feature :
        (b : Bool)
        → (require b delegation_feature >> checked_roles (or_empty (get_field "roles" fields)))
          ≡ ok roles
        → (r : Json) × (checked_roles r ≡ ok roles)
    at_feature true k = (or_empty (get_field "roles" fields), k)
    at_feature false k = absurd (ground arith)
read_delegation-checked (holds document) slug roles h = absurd (ground arith)
