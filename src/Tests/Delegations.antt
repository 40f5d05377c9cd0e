-- ===== src/Tests/Delegations.antt =====
-- The delegation of a feature, on the command line's texts.
use tanden_trust_audit_poc.Base.{String, none, some, [], ◌∷◌, true, ok, ◌≡◌, ◌≢◌, refl}
use tanden_trust_audit_poc.Json.{Json}
use tanden_trust_audit_poc.TaskGraph.Model.{validate_feature_slug}
use tanden_trust_audit_poc.Gates.Documents.{missing, read_delegation}
use tanden_trust_audit_poc.Gates.Delegation.{
  builder_required, same_as_security_reviewer, normalize_identity, identity_errors, delegated_roles,
  validate_delegation_roles, delegation_document, create_delegation_document, Delegations,
  write_document, write_delegation,
}
use tanden_trust_audit_poc.Tests.TaskGraphs.{named_file, named_file-KeepsApart}
use tanden_trust_audit_poc.Gates.DelegationRead.{write_delegation-read_delegation}

abbrev before : Delegations
before slug = missing

abbrev document : Json
document = delegation_document "demo" "t0" (delegated_roles "kiro" "codex" "")

after : Delegations
after = write_document before "demo" document

no_builder : identity_errors "" "codex" "" ≡ builder_required ∷ []
unfolding identity_errors
no_builder = refl

own_security_review : identity_errors "kiro" "codex" "kiro" ≡ same_as_security_reviewer ∷ []
unfolding identity_errors
own_security_review = refl

write_delegation-read_delegation_example :
    (read_delegation (after "demo") "demo"
      ≡ ok (
          delegated_roles
            (normalize_identity (some " kiro"))
            (normalize_identity (some "codex "))
            (normalize_identity none)))
    × (validate_feature_slug "demo" ≡ ok tt)
    × ((file : String) → file ≢ "demo" → after file ≡ before file)
    × ((other : String)
        → validate_feature_slug other ≡ ok tt
        → other ≢ "demo"
        → after (named_file other) ≡ before (named_file other))
unfolding after write_delegation create_delegation_document validate_delegation_roles
    validate_feature_slug normalize_identity identity_errors
write_delegation-read_delegation_example =
    write_delegation-read_delegation named_file true before after "demo" (some " kiro")
      (some "codex ") none (some "t0") "t1" document named_file-KeepsApart refl
