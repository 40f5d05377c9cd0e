-- ===== src/Metadata/Sound.antt =====
-- lib/metadata.js: what a metadata object that passes `validateSidecarMetadataV2` looks like.
use tanden_trust_audit_poc.Base.{
  String, Bool, true, false, Option, none, some, List, [], ◌∷◌, ◌++◌, ok, is_empty, eq_iff,
  is_sha256_hex, ◌≡◌, ◌≢◌, refl, arith, Option-cases, inl, inr, subst,
}
use tanden_trust_audit_poc.Json.{Json, null, bool, num, str, arr, obj, Fields, get_field}
use tanden_trust_audit_poc.Metadata.Schema.{
  Metadata, MetadataError, metadata_schema_version, canonicalization, digest_algorithm,
  digest_encoding, signature_algorithm, signature_curve, signature_encoding, signing_target,
  is_iso_date,
}
use tanden_trust_audit_poc.Metadata.Validate.{
  non_empty_text, require_string, missing, differs, fails, version_error, required_keys,
  missing_keys, metadata_errors, found, metadata_of, kept_text, accept,
  validate_sidecar_metadata_v2,
}

-- The schema of the sidecar metadata.
pub record IsValid (m : Metadata) : Type 0 where
  pub version : m.schema_version ≡ metadata_schema_version
  pub canonical : m.canonicalization ≡ canonicalization
  pub algorithm : m.digest_algorithm ≡ digest_algorithm
  pub encoding : m.digest_encoding ≡ digest_encoding
  pub digest_hex : is_sha256_hex m.digest ≡ true
  pub signing : m.signature_algorithm ≡ signature_algorithm
  pub curve : m.signature_curve ≡ signature_curve
  pub signature_text : m.signature_encoding ≡ signature_encoding
  pub target : m.signing_target ≡ signing_target
  pub dated : is_iso_date m.signed_at ≡ true
  pub evidence_named : is_empty m.evidence_id ≡ false
  pub version_named : m.evidence_version_id ≢ some ""
  pub evidence_keyed : is_empty m.evidence_key ≡ false
  pub signed : is_empty m.signature ≡ false
  pub key_named : is_empty m.key_id ≡ false
  pub key_referenced : is_empty m.public_key_ref ≡ false

append-nil_parts : (xs ys : List MetadataError) → xs ++ ys ≡ [] → (xs ≡ []) × (ys ≡ [])
append-nil_parts [] ys h = (refl, h)
append-nil_parts (x ∷ xs) ys h = cc

-- A required text that was found.
abbrev Present : Fields → String → Type 0
Present fs key = (s : String) × (require_string fs key ≡ some s) × (is_empty s ≡ false)

abbrev AllPresent : Fields → List String → Type 0
AllPresent fs [] = Unit
AllPresent fs (key ∷ keys) = Present fs key × AllPresent fs keys

non_empty_text_lem : (v : Option Json) {s : String} → non_empty_text v ≡ some s → is_empty s ≡ false
non_empty_text_lem none h = cc
non_empty_text_lem (some (str s)) h = ground arith
non_empty_text_lem (some null) h = cc
non_empty_text_lem (some _) h = cc

missing-Present :
    (fs : Fields) (key : String) → missing key (require_string fs key) ≡ [] → Present fs key
unfolding missing
missing-Present fs key h = elim (Option-cases (require_string fs key)) [
  | inl absent ↦ absurd (ground arith)
  | inr (s, present) ↦
      (s, present, non_empty_text_lem (get_field key fs) (unfold require_string in present))
]

missing_keys-AllPresent :
    (fs : Fields) (keys : List String) → missing_keys fs keys ≡ [] → AllPresent fs keys
missing_keys-AllPresent fs [] h = tt
missing_keys-AllPresent fs (key ∷ keys) h =
    let (here, later) =
      append-nil_parts (missing key (require_string fs key)) (missing_keys fs keys)
        (unfold missing_keys in h) in
    (missing-Present fs key here, missing_keys-AllPresent fs keys later)

found_non_empty :
    (fs : Fields) (key : String) → Present fs key → is_empty (found (require_string fs key)) ≡ false
found_non_empty fs key (s, present, filled) = rw present filled

differs-found :
    (fs : Fields) (key constant : String)
    → Present fs key
    → differs key constant (require_string fs key) ≡ []
    → found (require_string fs key) ≡ constant
unfolding differs
differs-found fs key constant (s, present, filled) h = ground (arith, eq_iff s constant)

fails-found :
    (fs : Fields) (key : String) (test : String → Bool) (e : MetadataError)
    → Present fs key
    → fails test e (require_string fs key) ≡ []
    → test (found (require_string fs key)) ≡ true
unfolding fails
fails-found fs key test e (s, present, filled) h = ground arith

-- No check pushed a message.
record NoErrors (fs : Fields) : Type 0 where
  keys : AllPresent fs required_keys
  optional : version_error (get_field "evidenceVersionId" fs) ≡ []
  c1 : differs "schemaVersion" metadata_schema_version (require_string fs "schemaVersion") ≡ []
  c2 : differs "canonicalization" canonicalization (require_string fs "canonicalization") ≡ []
  c3 : differs "digestAlgorithm" digest_algorithm (require_string fs "digestAlgorithm") ≡ []
  c4 : differs "digestEncoding" digest_encoding (require_string fs "digestEncoding") ≡ []
  c5 : fails is_sha256_hex MetadataError.bad_digest (require_string fs "digest") ≡ []
  c6 :
      differs "signatureAlgorithm" signature_algorithm (require_string fs "signatureAlgorithm") ≡ []
  c7 : differs "signatureCurve" signature_curve (require_string fs "signatureCurve") ≡ []
  c8 : differs "signatureEncoding" signature_encoding (require_string fs "signatureEncoding") ≡ []
  c9 : differs "signingTarget" signing_target (require_string fs "signingTarget") ≡ []
  c10 : fails is_iso_date MetadataError.bad_signed_at (require_string fs "signedAt") ≡ []

metadata_errors-NoErrors : (fs : Fields) → metadata_errors fs ≡ [] → NoErrors fs
unfolding metadata_errors
metadata_errors-NoErrors fs h =
    let r0 = append-nil_parts (missing_keys fs required_keys) _ h in
    let r1 = append-nil_parts _ _ r0.1 in
    let r2 = append-nil_parts _ _ r1.1 in
    let r3 = append-nil_parts _ _ r2.1 in
    let r4 = append-nil_parts _ _ r3.1 in
    let r5 = append-nil_parts _ _ r4.1 in
    let r6 = append-nil_parts _ _ r5.1 in
    let r7 = append-nil_parts _ _ r6.1 in
    let r8 = append-nil_parts _ _ r7.1 in
    let r9 = append-nil_parts _ _ r8.1 in
    let r10 = append-nil_parts _ _ r9.1 in
    record {
      keys = missing_keys-AllPresent fs required_keys r0.0;
      optional = r1.0;
      c1 = r2.0;
      c2 = r3.0;
      c3 = r4.0;
      c4 = r5.0;
      c5 = r6.0;
      c6 = r7.0;
      c7 = r8.0;
      c8 = r9.0;
      c9 = r10.0;
      c10 = r10.1;
    }

accept-eq-ok :
    (es : List MetadataError) (m m' : Metadata) → accept es m ≡ ok m' → (es ≡ []) × (m ≡ m')
accept-eq-ok [] m m' h = (refl, ground arith)
accept-eq-ok (e ∷ es) m m' h = absurd (ground arith)

-- An evidenceVersionId that passes is a text that is not empty.
version_error-named : (o : Option Json) → version_error o ≡ [] → kept_text o ≢ some ""
unfolding version_error kept_text
version_error-named none h e = absurd (ground arith)
version_error-named (some (str s)) h e = absurd (ground (arith, eq_iff s ""))
version_error-named (some null) h e = absurd (ground arith)
version_error-named (some (bool b)) h e = absurd (ground arith)
version_error-named (some (num n)) h e = absurd (ground arith)
version_error-named (some (arr x)) h e = absurd (ground arith)
version_error-named (some (obj x)) h e = absurd (ground arith)

metadata_of-IsValid : (fs : Fields) → NoErrors fs → IsValid (metadata_of fs)
unfolding metadata_of required_keys
metadata_of-IsValid fs e =
    let (
      version,
      (
        id,
        (
          key,
          (
            canon,
            (dalg, (denc, (dig, (salg, (curve, (senc, (sig, (kid, (pref, (at, (target, _))))))))))),
          ),
        ),
      ),
    ) =
      e.keys in
    record {
      version = differs-found fs "schemaVersion" metadata_schema_version version e.c1;
      canonical = differs-found fs "canonicalization" canonicalization canon e.c2;
      algorithm = differs-found fs "digestAlgorithm" digest_algorithm dalg e.c3;
      encoding = differs-found fs "digestEncoding" digest_encoding denc e.c4;
      digest_hex = fails-found fs "digest" is_sha256_hex MetadataError.bad_digest dig e.c5;
      signing = differs-found fs "signatureAlgorithm" signature_algorithm salg e.c6;
      curve = differs-found fs "signatureCurve" signature_curve curve e.c7;
      signature_text = differs-found fs "signatureEncoding" signature_encoding senc e.c8;
      target = differs-found fs "signingTarget" signing_target target e.c9;
      dated = fails-found fs "signedAt" is_iso_date MetadataError.bad_signed_at at e.c10;
      evidence_named = found_non_empty fs "evidenceId" id;
      version_named = version_error-named (get_field "evidenceVersionId" fs) e.optional;
      evidence_keyed = found_non_empty fs "evidenceKey" key;
      signed = found_non_empty fs "signature" sig;
      key_named = found_non_empty fs "keyId" kid;
      key_referenced = found_non_empty fs "publicKeyRef" pref;
    }

-- Metadata that `validateSidecarMetadataV2` accepts names the one supported version, algorithm,
-- curve, encodings and signing target, has a lowercase SHA-256 digest and an ISO date, and none of
-- its texts is empty, the optional evidenceVersionId included.
pub validate_sidecar_metadata_v2-IsValid :
    (value : Json) (m : Metadata) → validate_sidecar_metadata_v2 value ≡ ok m → IsValid m
unfolding validate_sidecar_metadata_v2
validate_sidecar_metadata_v2-IsValid (obj fs) m h =
    let (clean, same) = accept-eq-ok (metadata_errors fs) (metadata_of fs) m h in
    subst IsValid same (metadata_of-IsValid fs (metadata_errors-NoErrors fs clean))
validate_sidecar_metadata_v2-IsValid null m h = cc
validate_sidecar_metadata_v2-IsValid (bool b) m h = cc
validate_sidecar_metadata_v2-IsValid (num n) m h = cc
validate_sidecar_metadata_v2-IsValid (str s) m h = cc
validate_sidecar_metadata_v2-IsValid (arr xs) m h = cc
