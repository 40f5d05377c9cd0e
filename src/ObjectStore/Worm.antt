-- ===== src/ObjectStore/Worm.antt =====
-- lib/s3-json-object-store.js: objects are written once, and read back as they were written.
use tanden_trust_audit_poc.Base.{
  String, some, Result, ok, err, ◌>>=◌, ◌≡◌, ◌≢◌, ◌⊎◌, inl, inr, refl, ap, ◌∙◌, arith,
  String-discrete, Bool-cases,
}
use tanden_trust_audit_poc.Json.{Json}
use tanden_trust_audit_poc.Platform.{Bytes}
use tanden_trust_audit_poc.ObjectStore.Key.{ObjectStoreError, Paths, assert_valid_object_key}
use tanden_trust_audit_poc.ObjectStore.Local.{JsonText}
use tanden_trust_audit_poc.ObjectStore.Bucket.{
  S3Error, Body, PutObjectInput, S3Client, BucketPut, is_precondition_failed_error, put_input,
  stream_to_string, put_answered, put_under, put_json_object, get_answered, get_json_object,
}

-- What S3 documents: a conditional write of a key that is there is refused and writes nothing, a
-- write that is answered with success stores its body, and no write concerns another object.
pub record IsBucketService (utf8 : Bytes → String) (c : S3Client) : Type 0 where
  pub conditional_lem :
      (input : PutObjectInput) (body : Body) (s : c.State)
      → input.if_none_match ≡ "*"
      → c.get_object input.bucket input.key s ≡ ok body
      → (e : S3Error) × (c.put_object input s ≡ (err e, s))
  pub stored_lem :
      (input : PutObjectInput) (s s' : c.State)
      → c.put_object input s ≡ (ok tt, s')
      → (body : Body) × (c.get_object input.bucket input.key s' ≡ ok body)
        × (stream_to_string utf8 body ≡ ok input.body)
  pub others_lem :
      (input : PutObjectInput) (bucket key : String) (s : c.State)
      → (bucket ≢ input.bucket) ⊎ (key ≢ input.key)
      → c.get_object bucket key (c.put_object input s).1 ≡ c.get_object bucket key s

module _ (paths : Paths) (json : JsonText) (utf8 : Bytes → String) (c : S3Client)
    (laws : IsBucketService utf8 c) where
  put_object-kept :
      (input : PutObjectInput) (bucket key : String) (body : Body) (s : c.State)
      → input.if_none_match ≡ "*"
      → c.get_object bucket key s ≡ ok body
      → c.get_object bucket key (c.put_object input s).1 ≡ ok body
  put_object-kept input bucket key body s conditional held =
      elim (String-discrete bucket input.bucket) [
        | no differs ↦ laws.others_lem input bucket key s (inl differs) ∙ held
        | yes same_bucket ↦ elim (String-discrete key input.key) [
          | no differs ↦ laws.others_lem input bucket key s (inr differs) ∙ held
          | yes same_key ↦
              let (e, refused) =
                laws.conditional_lem input body s conditional
                  (rw (← same_bucket, ← same_key) held) in
              rw refused held
        ]
      ]

  put_answered-state :
      (bucket key body : String) (r : Result S3Error (Unit {0}) × c.State)
      → (put_answered paths json utf8 c bucket key body r).1 ≡ r.1
  put_answered-state bucket key body (ok u, s) = unfold put_answered in refl
  put_answered-state bucket key body (err e, s) = unfold put_answered in refl

  get_answered-ok :
      (r : Result S3Error Body) (v : Json)
      → get_answered paths json utf8 c r ≡ ok v
      → (body : Body) × (r ≡ ok body)
  get_answered-ok (ok body) v h = (body, refl)
  get_answered-ok (err e) v h = absurd (unfold get_answered in ground arith)

  -- What `getJsonObject` returns for some bucket and key, it returns after any `putJsonObject`,
  -- whatever that is given and whether it returns or throws.
  pub put_json_object-WriteOnce :
      (bucket bucket' : String) (key key' value v : Json) (s : c.State)
      → get_json_object paths json utf8 c bucket' key' s ≡ ok v
      → get_json_object paths json utf8 c bucket' key'
          (put_json_object paths json utf8 c bucket key value s).1
        ≡ ok v
  put_json_object-WriteOnce bucket bucket' key key' value v s held =
      unfold get_json_object put_json_object in
      at_key (assert_valid_object_key paths key) (assert_valid_object_key paths key')
        (unfold get_json_object in held)
    where
      at_key :
          (r r' : Result ObjectStoreError String)
          → (r' >>= λ normalized.
              get_answered paths json utf8 c (c.get_object bucket' normalized s))
            ≡ ok v
          → (r' >>= λ normalized.
              get_answered paths json utf8 c
                (c.get_object bucket' normalized (put_under paths json utf8 c bucket value r s).1))
            ≡ ok v
      at_key r (err e) h = absurd (ground arith)
      at_key (err e) (ok normalized) h = unfold put_under in h
      at_key (ok target) (ok normalized) h =
          let input = put_input paths json utf8 c bucket target (json.print value) in
          let (body, found) = get_answered-ok (c.get_object bucket' normalized s) v h in
          let kept = put_object-kept input bucket' normalized body s refl found in
          let state = put_answered-state bucket target (json.print value) (c.put_object input s) in
          unfold put_under in rw (state, kept) (rw (← found) h)

  -- A `putJsonObject` that returns has stored an object that was not there, and `getJsonObject` of
  -- the same key gives its value back, for a value that JSON prints and parses to itself.
  pub put_json_object-stored :
      (bucket : String) (key value : Json) (put : BucketPut) (s s' : c.State)
      → json.parse (json.print value) ≡ some value
      → put_json_object paths json utf8 c bucket key value s ≡ (ok put, s')
      → ((v : Json) → get_json_object paths json utf8 c bucket key s ≢ ok v)
        × (get_json_object paths json utf8 c bucket key s' ≡ ok value)
        × (assert_valid_object_key paths key ≡ ok put.key)
  put_json_object-stored bucket key value put s s' prints h =
      unfold get_json_object in go (assert_valid_object_key paths key) (unfold put_json_object in h)
    where
      Goal : Result ObjectStoreError String → Type 0
      Goal r =
          ((v : Json)
            → (r >>= λ k. get_answered paths json utf8 c (c.get_object bucket k s)) ≢ ok v)
          × ((r >>= λ k. get_answered paths json utf8 c (c.get_object bucket k s')) ≡ ok value)
          × (r ≡ ok put.key)

      at_answer :
          (k : String) (r : Result S3Error (Unit {0}) × c.State)
          → c.put_object (put_input paths json utf8 c bucket k (json.print value)) s ≡ r
          → put_answered paths json utf8 c bucket k (json.print value) r ≡ (ok put, s')
          → Goal (ok k)
      at_answer k (err e, s'') sent h = absurd (elim (Bool-cases (is_precondition_failed_error e)) [
        | inl b ↦ unfold put_answered in ground arith
        | inr b ↦ unfold put_answered in ground arith
      ])
      at_answer k (ok tt, s'') sent h =
          let same_state : s'' ≡ s' = unfold put_answered in ground arith in
          let same_key : k ≡ put.key = unfold put_answered in ground arith in
          let input = put_input paths json utf8 c bucket k (json.print value) in
          let (body, found, text) = laws.stored_lem input s s'' sent in
          (
            λ v there.
                let (before, present) = get_answered-ok (c.get_object bucket k s) v there in
                let (e, refused) = laws.conditional_lem input before s refl present in ground arith,
            rw (← same_state) (unfold get_answered in rw (found, text, prints) refl),
            ap ok same_key,
          )

      go :
          (r : Result ObjectStoreError String)
          → put_under paths json utf8 c bucket value r s ≡ (ok put, s')
          → Goal r
      go (err e) h = absurd (unfold put_under in ground arith)
      go (ok k) h =
          at_answer k (c.put_object (put_input paths json utf8 c bucket k (json.print value)) s)
            refl (unfold put_under in h)
