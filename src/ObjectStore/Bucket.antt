-- ===== src/ObjectStore/Bucket.antt =====
-- lib/s3-json-object-store.js: `S3JsonObjectStore`. The S3 client and the decoding of UTF-8 are
-- parameters; the client throws error objects, and the chunks of a stream are bytes.
use tanden_trust_audit_poc.Base.{
  ℕ, String, Bool, false, ◌||◌, Option, none, some, List, [], ◌∷◌, ◌++◌, Result, ok, err, ◌>>=◌,
  ◌==◌, is_empty, opt_eq, map_err, if◌then◌else◌,
}
use tanden_trust_audit_poc.Json.{Json, str}
use tanden_trust_audit_poc.Platform.{Bytes}
use tanden_trust_audit_poc.ObjectStore.Key.{
  ObjectStoreError, invalid_bucket, object_not_found, object_already_exists, unsupported_s3_body,
  platform_error, Paths, assert_valid_object_key,
}
use tanden_trust_audit_poc.ObjectStore.Local.{JsonText, json_content_type, parsed_json}

-- An error of the S3 client. `aws_code` is its member `Code`, and `http_status_code` that of
-- `$metadata`.
pub record S3Error : Type 0 where
  pub name : Option String
  pub aws_code : Option String
  pub code : Option String
  pub http_status_code : Option ℕ
  pub message : String

-- The body of a response, by the tests of `streamToString`.
pub data Body : Type 0 where
  missing : Body
  text : String → Body
  buffer byte_array : Bytes → Body
  -- what `transformToString` does
  transformable : Result S3Error String → Body
  -- what the iteration yields
  async_iterable : Result S3Error (List Bytes) → Body
  unsupported : Body

pub record PutObjectInput : Type 0 where
  pub bucket : String
  pub key : String
  pub body : String
  pub content_type : String
  pub if_none_match : String

-- The two commands that the store sends.
pub record S3Client : Type 1 where
  pub State : Type 0
  pub put_object : PutObjectInput → State → Result S3Error (Unit {0}) × State
  pub get_object : String → String → State → Result S3Error Body

pub record BucketPut : Type 0 where
  pub bucket : String
  pub key : String
  pub content_type : String
  pub bytes_written : ℕ

unfoldable pub assert_valid_bucket : Json → Result ObjectStoreError String
assert_valid_bucket (str bucket) = if is_empty bucket then err invalid_bucket else ok bucket
assert_valid_bucket _ = err invalid_bucket

abbrev has_status : ℕ → Option ℕ → Bool
has_status n none = false
has_status n (some m) = m == n

-- `error.name === kind || error.Code === kind || error.code === kind`
abbrev is_named : String → S3Error → Bool
is_named kind e =
    opt_eq e.name (some kind) || opt_eq e.aws_code (some kind) || opt_eq e.code (some kind)

unfoldable pub is_precondition_failed_error : S3Error → Bool
is_precondition_failed_error e =
    is_named "PreconditionFailed" e || has_status 412 e.http_status_code

unfoldable pub is_not_found_error : S3Error → Bool
is_not_found_error e =
    is_named "NoSuchKey" e || is_named "NotFound" e || has_status 404 e.http_status_code

-- `Buffer.concat(chunks)`
unfoldable pub concat_chunks : List Bytes → Bytes
concat_chunks [] = []
concat_chunks (chunk ∷ chunks) = chunk ++ concat_chunks chunks

abbrev thrown : S3Error → ObjectStoreError
thrown e = platform_error e.message

-- `utf8` is `buffer.toString("utf8")`.
unfoldable pub stream_to_string : (Bytes → String) → Body → Result ObjectStoreError String
unfolding concat_chunks
stream_to_string utf8 missing = ok ""
stream_to_string utf8 (text s) = ok s
stream_to_string utf8 (buffer bytes) = ok (utf8 bytes)
stream_to_string utf8 (byte_array bytes) = ok (utf8 bytes)
stream_to_string utf8 (transformable r) = map_err thrown r
stream_to_string utf8 (async_iterable r) = do
  chunks ← map_err thrown r
  ok (utf8 (concat_chunks chunks))
stream_to_string utf8 unsupported = err unsupported_s3_body

module _ (paths : Paths) (json : JsonText) (utf8 : Bytes → String) (c : S3Client) where
  -- The answer to PutObject.
  unfoldable pub put_answered :
      String
      → String
      → String
      → Result S3Error (Unit {0}) × c.State
      → Result ObjectStoreError BucketPut × c.State
  put_answered bucket key body (ok u, s) = (
    ok (record {
      bucket = bucket;
      key = key;
      content_type = json_content_type;
      bytes_written = json.byte_length body;
    }),
    s,
  )
  put_answered bucket key body (err e, s) =
      (if is_precondition_failed_error e then err object_already_exists else err (thrown e), s)

  abbrev pub put_input : String → String → String → PutObjectInput
  put_input bucket key body = record {
    bucket = bucket;
    key = key;
    body = body;
    content_type = json_content_type;
    if_none_match = "*";
  }

  unfoldable pub put_under :
      String
      → Json
      → Result ObjectStoreError String
      → c.State
      → Result ObjectStoreError BucketPut × c.State
  put_under bucket value (err e) s = (err e, s)
  put_under bucket value (ok key) s =
      put_answered bucket key (json.print value)
        (c.put_object (put_input bucket key (json.print value)) s)

  unfoldable pub put_json_object :
      String → Json → Json → c.State → Result ObjectStoreError BucketPut × c.State
  put_json_object bucket key value s = put_under bucket value (assert_valid_object_key paths key) s

  -- The answer to GetObject.
  unfoldable pub get_answered : Result S3Error Body → Result ObjectStoreError Json
  get_answered (err e) = if is_not_found_error e then err object_not_found else err (thrown e)
  get_answered (ok body) = do raw ← stream_to_string utf8 body; parsed_json (json.parse raw)

  unfoldable pub get_json_object : String → Json → c.State → Result ObjectStoreError Json
  get_json_object bucket key s = do
    normalized ← assert_valid_object_key paths key
    get_answered (c.get_object bucket normalized s)
