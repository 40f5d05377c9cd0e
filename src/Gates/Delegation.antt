-- ===== src/Gates/Delegation.antt =====
-- scripts/create-agent-delegation.js: the delegation of a feature. The identities are the texts of
-- the command line, where `none` is undefined.
use tanden_trust_audit_poc.Base.{
  String, Bool, ◌&&◌, not, Option, none, some, List, [], ◌∷◌, ◌++◌, Result, ok, err, ◌>>=◌, ◌>>◌,
  require, map_err, or_else, is_empty, str_eq, if◌then◌else◌,
}
use tanden_trust_audit_poc.Json.{Json, null, num, str, obj, end, field}
use tanden_trust_audit_poc.TaskGraph.Model.{OrchestratorError, validate_feature_slug}
use tanden_trust_audit_poc.Gates.Review.{skip_white_space, trim_end}
use tanden_trust_audit_poc.Gates.Documents.{SpecFile, holds}

pub data IdentityError : Type 0 where
  builder_required reviewer_required same_as_reviewer same_as_security_reviewer : IdentityError

pub data DelegationFailure : Type 0 where
  no_spec_directory : DelegationFailure
  bad_feature : OrchestratorError → DelegationFailure
  bad_identities : List IdentityError → DelegationFailure

-- `String(value || "").trim()`
unfoldable pub normalize_identity : Option String → String
unfolding trim_end skip_white_space
normalize_identity none = ""
normalize_identity (some value) = trim_end (skip_white_space value)

abbrev push_when : Bool → IdentityError → List IdentityError
push_when condition e = if condition then e ∷ [] else []

-- The errors of three normalized identities.
unfoldable pub identity_errors : String → String → String → List IdentityError
identity_errors b r s =
    push_when (is_empty b) builder_required
    ++ push_when (is_empty r) reviewer_required
    ++ push_when (not (is_empty b) && not (is_empty r) && str_eq b r) same_as_reviewer
    ++ push_when (not (is_empty s) && not (is_empty b) && str_eq s b) same_as_security_reviewer

-- `identity || null`
abbrev identity_or_null : String → Json
identity_or_null s = if is_empty s then null else str s

unfoldable pub delegated_roles : String → String → String → Json
delegated_roles b r s = obj (
    field "builder" (identity_or_null b)
      (field "reviewer" (identity_or_null r) (field "securityReviewer" (identity_or_null s) end)))

unfoldable pub validate_delegation_roles :
    Option String → Option String → Option String → List IdentityError × Json
validate_delegation_roles builder reviewer security_reviewer =
    let b = normalize_identity builder in
    let r = normalize_identity reviewer in
    let s = normalize_identity security_reviewer in (identity_errors b r s, delegated_roles b r s)

abbrev pub valid_roles : List IdentityError × Json → Result DelegationFailure Json
valid_roles ([], roles) = ok roles
valid_roles (e ∷ es, roles) = err (bad_identities (e ∷ es))

abbrev pub delegation_document : String → String → Json → Json
delegation_document slug generated_at roles = obj (
    field "schemaVersion" (num "1") (
      field "feature" (str slug)
        (field "generatedAt" (str generated_at) (field "roles" roles end))))

unfoldable pub create_delegation_document :
    String
    → Option String
    → Option String
    → Option String
    → Option String
    → String
    → Result DelegationFailure Json
create_delegation_document slug builder reviewer security_reviewer now clock = do
  map_err bad_feature (validate_feature_slug slug)
  roles ← valid_roles (validate_delegation_roles builder reviewer security_reviewer)
  ok (delegation_document slug (or_else now clock) roles)

-- The document in each file `agent-delegation.json`.
abbrev pub Delegations : Type 0
Delegations = String → SpecFile

-- `fs.writeFileSync(outputPath, …)`
unfoldable pub write_document : Delegations → String → Json → Delegations
write_document files file document other = if str_eq other file then holds document else files other

-- `path slug` is the file that `path.join(specDir, "agent-delegation.json")` names, and `exists` says
-- whether `specDir` is there.
unfoldable pub write_delegation :
    (String → String)
    → Bool
    → Delegations
    → String
    → Option String
    → Option String
    → Option String
    → Option String
    → String
    → Result DelegationFailure (Json × Delegations)
write_delegation path exists files slug builder reviewer security_reviewer now clock = do
  require exists no_spec_directory
  document ← create_delegation_document slug builder reviewer security_reviewer now clock
  ok (document, write_document files (path slug) document)
