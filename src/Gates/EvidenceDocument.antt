-- ===== src/Gates/EvidenceDocument.antt =====
-- scripts/run-verification-evidence-gate.js: `createEvidenceDocument` and `verifyEvidenceDocument`.
use tanden_trust_audit_poc.Base.{
  ◌≡◌, refl, sym, ap, ◌∙◌, eq_iff, eq_refl, String, Bool, true, false, Option, none, some,
  if◌then◌else◌, str_eq,
}
use tanden_trust_audit_poc.Json.{Json, str, Items, Fields, get_field}
use tanden_trust_audit_poc.Gates.Documents.{is_truthy_json, strict_eq, member, or_empty}
use tanden_trust_audit_poc.Gates.Stable.{
  utf16, digest_payload, create_evidence_document, checked_digest, verify_evidence_document,
}
use tanden_trust_audit_poc.Gates.Reordered.{
  Reordered, ReorderedItems, ReorderedFields, Reordered-stable_stringify,
}
use tanden_trust_audit_poc.Gates.Reordered as R

mutual
  trans : {i j k : Json} → Reordered i j → Reordered j k → Reordered i k
  trans R.Reordered.same s = s
  trans (R.Reordered.arr rs) R.Reordered.same = R.Reordered.arr rs
  trans (R.Reordered.arr rs) (R.Reordered.arr ss) = R.Reordered.arr (trans_items rs ss)
  trans (R.Reordered.obj rs) R.Reordered.same = R.Reordered.obj rs
  trans (R.Reordered.obj rs) (R.Reordered.obj ss) =
      R.Reordered.obj (ReorderedFields.followed_by rs ss)

  trans_items :
      {xs ys zs : Items} → ReorderedItems xs ys → ReorderedItems ys zs → ReorderedItems xs zs
  trans_items ReorderedItems.nil ReorderedItems.nil = ReorderedItems.nil
  trans_items (ReorderedItems.cons r rs) (ReorderedItems.cons s ss) =
      ReorderedItems.cons (trans r s) (trans_items rs ss)

-- A member of two such documents.
data SameMember : Option Json → Option Json → Type 0 where
  absent : SameMember none none
  present : {v w : Json} → Reordered v w → SameMember (some v) (some w)

trans_member : {o p q : Option Json} → SameMember o p → SameMember p q → SameMember o q
trans_member absent absent = absent
trans_member (present r) (present s) = present (trans r s)

same_member : (o : Option Json) → SameMember o o
same_member none = absent
same_member (some v) = present R.Reordered.same

get_field-Reordered :
    (key : String) {fs gs : Fields}
    → ReorderedFields fs gs
    → SameMember (get_field key fs) (get_field key gs)
unfolding get_field
get_field-Reordered key ReorderedFields.end = absent
get_field-Reordered key (ReorderedFields.field {key = k} {v} {w} r rs) =
    at_test (str_eq k key) (get_field-Reordered key rs)
  where
    at_test :
        (b : Bool) {o p : Option Json}
        → SameMember o p
        → SameMember (if b then some v else o) (if b then some w else p)
    at_test true s = present r
    at_test false s = s
get_field-Reordered key (ReorderedFields.swap {key = k} {key'} {v} {w} {fs} d) =
    at_tests (str_eq k key) (str_eq key' key) refl refl
  where
    at_tests :
        (b c : Bool)
        → str_eq k key ≡ b
        → str_eq key' key ≡ c
        → SameMember
            (if b then some v else (if c then some w else get_field key fs))
            (if c then some w else (if b then some v else get_field key fs))
    at_tests true true eq eq' =
        absurd (d (ap utf16 ((eq_iff k key).0 eq ∙ sym ((eq_iff key' key).0 eq'))))
    at_tests true false eq eq' = same_member (some v)
    at_tests false c eq eq' = same_member (if c then some w else get_field key fs)
get_field-Reordered key (ReorderedFields.followed_by r s) =
    trans_member (get_field-Reordered key r) (get_field-Reordered key s)

member-Reordered :
    (key : String) {j k : Json} → Reordered j k → SameMember (member key j) (member key k)
unfolding member
member-Reordered key (R.Reordered.same {j}) = same_member (member key j)
member-Reordered key (R.Reordered.arr rs) = absent
member-Reordered key (R.Reordered.obj rs) = get_field-Reordered key rs

is_truthy_json-SameMember :
    {o p : Option Json} → SameMember o p → is_truthy_json o ≡ is_truthy_json p
unfolding is_truthy_json
is_truthy_json-SameMember absent = refl
is_truthy_json-SameMember (present R.Reordered.same) = refl
is_truthy_json-SameMember (present (R.Reordered.arr rs)) = refl
is_truthy_json-SameMember (present (R.Reordered.obj rs)) = refl

strict_eq-SameMember :
    {o p : Option Json} (text : String)
    → SameMember o p
    → strict_eq o (some (str text)) ≡ strict_eq p (some (str text))
unfolding strict_eq
strict_eq-SameMember text absent = refl
strict_eq-SameMember text (present R.Reordered.same) = refl
strict_eq-SameMember text (present (R.Reordered.arr rs)) = refl
strict_eq-SameMember text (present (R.Reordered.obj rs)) = refl

or_empty-SameMember : {o p : Option Json} → SameMember o p → Reordered (or_empty o) (or_empty p)
unfolding is_truthy_json
or_empty-SameMember absent = R.Reordered.same
or_empty-SameMember (present R.Reordered.same) = R.Reordered.same
or_empty-SameMember (present (R.Reordered.arr rs)) = R.Reordered.arr rs
or_empty-SameMember (present (R.Reordered.obj rs)) = R.Reordered.obj rs

module _ (quote sha256 : String → String) where
  checked_digest-SameMember :
      {o p o' p' : Option Json}
      → SameMember o p
      → SameMember o' p'
      → checked_digest quote sha256 o o' ≡ checked_digest quote sha256 p p'
  checked_digest-SameMember absent s = refl
  checked_digest-SameMember (present {v} {w} r) s =
      let digest : digest_payload quote sha256 v ≡ digest_payload quote sha256 w =
        unfold digest_payload in ap sha256 (Reordered-stable_stringify quote r) in
      let payload = is_truthy_json-SameMember (present r) in
      let truthy = is_truthy_json-SameMember s in
      let algorithm =
        strict_eq-SameMember "sha256" (member-Reordered "algorithm" (or_empty-SameMember s)) in
      let value =
        strict_eq-SameMember (digest_payload quote sha256 v)
          (member-Reordered "value" (or_empty-SameMember s)) in
      rw (payload, truthy, algorithm, value, digest) refl

  -- The order of members does not change the verdict.
  verify_evidence_document-Reordered :
      {j k : Json}
      → Reordered j k
      → verify_evidence_document quote sha256 (some j)
        ≡ verify_evidence_document quote sha256 (some k)
  unfolding verify_evidence_document
  verify_evidence_document-Reordered r =
      checked_digest-SameMember (member-Reordered "payload" r) (member-Reordered "digest" r)

  create_evidence_document-verified :
      (payload : Json)
      → is_truthy_json (some payload) ≡ true
      → verify_evidence_document quote sha256 (some (create_evidence_document quote sha256 payload))
        ≡ true
  unfolding verify_evidence_document create_evidence_document member get_field strict_eq
      is_truthy_json
  create_evidence_document-verified payload truthy =
      rw (truthy, eq_refl (digest_payload quote sha256 payload)) refl

  -- A document that `createEvidenceDocument` has made of a payload that JavaScript takes as true
  -- passes `verifyEvidenceDocument`, also after the members of its objects have been put in another
  -- order, at any depth.
  pub create_evidence_document-verifies :
      (payload document : Json)
      → is_truthy_json (some payload) ≡ true
      → Reordered (create_evidence_document quote sha256 payload) document
      → verify_evidence_document quote sha256 (some document) ≡ true
  create_evidence_document-verifies payload document truthy r =
      sym (verify_evidence_document-Reordered r) ∙ create_evidence_document-verified payload truthy
