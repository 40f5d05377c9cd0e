-- ===== src/Gates/DelegationRead.antt =====
-- scripts/create-agent-delegation.js and scripts/run-verification-evidence-gate.js: a delegation that
-- was written is one that the gate reads.
use tanden_trust_audit_poc.Base.{
  ◌≡◌, ◌≢◌, refl, ap, ◌∙◌, arith, eq_iff, eq_refl, String, Bool, true, false, Option, List, [], ◌∷◌,
  Result, ok, err, ◌>>=◌, ◌>>◌, require, map_err, or_else,
}
use tanden_trust_audit_poc.Json.{Json, get_field}
use tanden_trust_audit_poc.TaskGraph.Model.{OrchestratorError, validate_feature_slug}
use tanden_trust_audit_poc.TaskGraph.Paths.{KeepsApart}
use tanden_trust_audit_poc.Gates.Documents.{
  holds, is_truthy_json, strict_eq, member, checked_roles, read_delegation,
}
use tanden_trust_audit_poc.Gates.Delegation.{
  IdentityError, DelegationFailure, bad_feature, no_spec_directory, normalize_identity,
  identity_errors, delegated_roles, validate_delegation_roles, valid_roles, delegation_document,
  create_delegation_document, Delegations, write_document, write_delegation,
}

identity_errors-read :
    (b r s slug generated_at : String)
    → identity_errors b r s ≡ []
    → read_delegation (holds (delegation_document slug generated_at (delegated_roles b r s))) slug
      ≡ ok (delegated_roles b r s)
unfolding identity_errors delegated_roles read_delegation get_field checked_roles member strict_eq
    is_truthy_json
identity_errors-read b r s slug generated_at h = ground (arith, eq_refl slug)

-- A created document holds the roles of identities that have no error.
create_delegation_document-read :
    (slug : String) (builder reviewer security now : Option String) (clock : String)
    (document : Json)
    → create_delegation_document slug builder reviewer security now clock ≡ ok document
    → read_delegation (holds document) slug
      ≡ ok (
          delegated_roles
            (normalize_identity builder)
            (normalize_identity reviewer)
            (normalize_identity security))
create_delegation_document-read slug builder reviewer security now clock document h =
    at_feature (validate_feature_slug slug)
      (unfold create_delegation_document validate_delegation_roles in h)
  where
    b : String
    b = normalize_identity builder

    r : String
    r = normalize_identity reviewer

    s : String
    s = normalize_identity security

    at_errors :
        (es : List IdentityError)
        → identity_errors b r s ≡ es
        → (valid_roles (es, delegated_roles b r s) >>= λ roles.
            ok (delegation_document slug (or_else now clock) roles))
          ≡ ok document
        → read_delegation (holds document) slug ≡ ok (delegated_roles b r s)
    at_errors [] eq k =
        let made : delegation_document slug (or_else now clock) (delegated_roles b r s) ≡ document =
          ground arith in
        rw (← made) (identity_errors-read b r s slug (or_else now clock) eq)
    at_errors (e ∷ es) eq k = absurd (ground arith)

    at_feature :
        (v : Result OrchestratorError (Unit {0}))
        → (map_err bad_feature v
            >> (valid_roles (identity_errors b r s, delegated_roles b r s) >>= λ roles.
                ok (delegation_document slug (or_else now clock) roles)))
          ≡ ok document
        → read_delegation (holds document) slug ≡ ok (delegated_roles b r s)
    at_feature (err e) k = absurd (ground arith)
    at_feature (ok u) k = at_errors (identity_errors b r s) refl k

written_files : Delegations → Result DelegationFailure (Json × Delegations) → Delegations
written_files files (ok (document, files')) = files'
written_files files (err e) = files

create_delegation_document-named :
    (slug : String) (builder reviewer security now : Option String) (clock : String)
    (document : Json)
    → create_delegation_document slug builder reviewer security now clock ≡ ok document
    → validate_feature_slug slug ≡ ok tt
unfolding create_delegation_document validate_feature_slug
create_delegation_document-named slug builder reviewer security now clock document h = ground arith

-- A delegation that `writeDelegation` has written is one that `readDelegation` accepts for this
-- feature, whose slug is valid, with the trimmed identities as its roles; no other file has changed,
-- and neither has the delegation of any other feature.
pub write_delegation-read_delegation :
    (path : String → String) (exists : Bool) (files files' : Delegations) (slug : String)
    (builder reviewer security now : Option String) (clock : String) (document : Json)
    → KeepsApart path
    → write_delegation path exists files slug builder reviewer security now clock
      ≡ ok (document, files')
    → (read_delegation (files' (path slug)) slug
        ≡ ok (
            delegated_roles
              (normalize_identity builder)
              (normalize_identity reviewer)
              (normalize_identity security)))
      × (validate_feature_slug slug ≡ ok tt)
      × ((file : String) → file ≢ path slug → files' file ≡ files file)
      × ((other : String)
          → validate_feature_slug other ≡ ok tt
          → other ≢ slug
          → files' (path other) ≡ files (path other))
write_delegation-read_delegation path exists files files' slug builder reviewer security now clock
      document apart h =
    go exists (create_delegation_document slug builder reviewer security now clock) refl
      (unfold write_delegation in h)
  where
    Goal : Type 0
    Goal =
        (read_delegation (files' (path slug)) slug
          ≡ ok (
              delegated_roles (normalize_identity builder) (normalize_identity reviewer)
                (normalize_identity security)))
        × (validate_feature_slug slug ≡ ok tt)
        × ((file : String) → file ≢ path slug → files' file ≡ files file)
        × ((other : String)
            → validate_feature_slug other ≡ ok tt
            → other ≢ slug
            → files' (path other) ≡ files (path other))

    here : (d : Json) → write_document files (path slug) d (path slug) ≡ holds d
    here d = unfold write_document in ground (arith, eq_refl (path slug))

    elsewhere :
        (d : Json) (file : String)
        → file ≢ path slug
        → write_document files (path slug) d file ≡ files file
    elsewhere d file differs = unfold write_document in ground (arith, eq_iff file (path slug))

    go :
        (b : Bool) (r : Result DelegationFailure Json)
        → create_delegation_document slug builder reviewer security now clock ≡ r
        → (require b no_spec_directory
            >> ◌>>=◌ {B = Json × Delegations} r (λ d. ok (d, write_document files (path slug) d)))
          ≡ ok (document, files')
        → Goal
    go false r eq k = absurd (ground arith)
    go true (err e) eq k = absurd (ground arith)
    go true (ok d) eq k =
        let written : write_document files (path slug) d ≡ files' =
          unfold written_files in ap (written_files files) k in
        let named =
          create_delegation_document-named slug builder reviewer security now clock d eq in
        (
          rw (← written) (
              ap (λ f. read_delegation f slug) (here d)
              ∙ create_delegation_document-read slug builder reviewer security now clock d eq),
          named,
          λ file differs. rw (← written) (elsewhere d file differs),
          λ other valid differs.
              rw (← written)
                (elsewhere d (path other) (apart.apart_lem slug other named valid differs)),
        )
