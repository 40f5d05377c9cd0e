-- ===== src/Tests/ObjectStores.antt =====
-- JSON objects in files and in a bucket, in memory.
use tanden_trust_audit_poc.Base.{
  String, true, Option, none, some, Result, ok, err, ◌≡◌, ◌≢◌, ◌⊎◌, inl, inr, refl, ap, arith,
  str_eq, eq_iff, eq_refl, if◌then◌else◌, codes, Bool-cases,
}
use tanden_trust_audit_poc.Json.{Json, str, obj, end}
use tanden_trust_audit_poc.Platform.{Bytes}
use tanden_trust_audit_poc.ObjectStore.Key.{Paths, starts_with, assert_valid_object_key}
use tanden_trust_audit_poc.ObjectStore.Local.{
  FsError, FileSystem, IsFileSystem, JsonText, LocalPut, json_content_type, is_within,
  resolve_object_path,
}
use tanden_trust_audit_poc.ObjectStore.Local as Local
use tanden_trust_audit_poc.ObjectStore.Bucket.{
  S3Error, Body, text, missing, PutObjectInput, S3Client, BucketPut, stream_to_string,
}
use tanden_trust_audit_poc.ObjectStore.Bucket as Bucket
use tanden_trust_audit_poc.ObjectStore.Files.{put_json_object-get_json_object}
use tanden_trust_audit_poc.ObjectStore.Worm.{
  IsBucketService, put_json_object-WriteOnce, put_json_object-stored,
}

-- A text for each path, or for each key of one bucket.
abbrev Texts : Type 0
Texts = String → Option String

abbrev put : Texts → String → String → Texts
put s path body other = if str_eq other path then some body else s other

put_same : (s : Texts) (path body : String) → put s path body path ≡ some body
put_same s path body = ground (arith, eq_refl path)

put_other : (s : Texts) (path body other : String) → other ≢ path → put s path body other ≡ s other
put_other s path body other h = ground (arith, eq_iff other path)

abbrev paths : Paths
paths = record {
  is_absolute = λ key. starts_with (codes "/") (codes key);
  posix_normalize = λ key. key;
  resolve = λ base key. if str_eq key "a.json" then "/data/a.json" else "/data/other";
  dirname = λ path. "/data";
  with_separator = λ dir. "/data/";
}

abbrev json : JsonText
json = record {
  print = λ value. "{}\n";
  parse = λ raw. if str_eq raw "{}\n" then some (obj end) else none;
  byte_length = λ raw. 3;
}

abbrev absent : FsError
absent = record { code = some "ENOENT"; message = "no such file" }

abbrev read : Option String → Result FsError String
read none = err absent
read (some body) = ok body

abbrev files : FileSystem
files = record {
  State = Texts;
  mkdir = λ dir s. (ok tt, s);
  write_file = λ path body s. (ok tt, put s path body);
  read_file = λ path s. read (s path);
}

same_state :
    {E A S : Type 0}
    → (s : S) (s' : S) (a a' : A) → ◌≡◌ {A = Result E A × S} (ok a, s) (ok a', s')
    → s ≡ s'
same_state s s' a a' h = ap (λ r. r.1) h

files-IsFileSystem : IsFileSystem files
files-IsFileSystem = record {
  written_lem = λ path body s s' h.
      rw (← same_state (put s path body) s' tt tt h) (ap read (put_same s path body));
}

abbrev disk : Texts
disk = put (λ path. none) "/etc/passwd" "root"

disk' : Texts
disk' = put disk "/data/a.json" "{}\n"

abbrev local_put : LocalPut
local_put = record {
  key = "a.json";
  path = "/data/a.json";
  content_type = json_content_type;
  bytes_written = 3;
}

put_json_object-get_json_object_example :
    (Local.get_json_object paths files json "/data" (str "a.json") disk' ≡ ok (obj end))
    × (resolve_object_path paths files json "/data" (str "a.json") ≡ ok "/data/a.json")
    × (is_within paths files json "/data" "/data/a.json" ≡ true)
unfolding disk' Local.put_json_object Local.put_resolved Local.made Local.written
    resolve_object_path is_within assert_valid_object_key starts_with
put_json_object-get_json_object_example =
    put_json_object-get_json_object paths files json files-IsFileSystem "/data" (str "a.json")
      (obj end) local_put disk disk' refl refl

abbrev failed : S3Error
failed = record {
  name = some "PreconditionFailed";
  aws_code = none;
  code = none;
  http_status_code = some 412;
  message = "At least one of the pre-conditions you specified did not hold";
}

abbrev no_such_key : S3Error
no_such_key = record {
  name = some "NoSuchKey";
  aws_code = none;
  code = none;
  http_status_code = some 404;
  message = "The specified key does not exist";
}

-- The objects of each bucket.
abbrev Objects : Type 0
Objects = String → Texts

abbrev body_of : Option String → Result S3Error Body
body_of none = err no_such_key
body_of (some body) = ok (text body)

abbrev put_object : Objects → String → String → String → Objects
put_object s bucket key body other =
    if str_eq other bucket then put (s bucket) key body else s other

abbrev put_answer : Objects → PutObjectInput → Option String → Result S3Error (Unit {0}) × Objects
put_answer s input none = (ok tt, put_object s input.bucket input.key input.body)
put_answer s input (some body) =
    if str_eq input.if_none_match "*"
    then (err failed, s)
    else (ok tt, put_object s input.bucket input.key input.body)

abbrev s3 : S3Client
s3 = record {
  State = Objects;
  put_object = λ input s. put_answer s input (s input.bucket input.key);
  get_object = λ bucket key s. body_of (s bucket key);
}

abbrev utf8 : Bytes → String
utf8 bytes = "{}\n"

-- What an object is after a write that was answered with success.
written :
    (s s' : Objects) (input : PutObjectInput) (o : Option String)
    → put_answer s input o ≡ (ok tt, s')
    → put_object s input.bucket input.key input.body ≡ s'
written s s' input none h = same_state (put_object s input.bucket input.key input.body) s' tt tt h
written s s' input (some body) h = elim (Bool-cases (str_eq input.if_none_match "*")) [
  | inl b ↦ absurd (ground arith)
  | inr b ↦
      same_state (put_object s input.bucket input.key input.body) s' tt tt
        (let h' = rw b at h in h')
]

found_object :
    (s : Objects) (bucket key body : String) → put_object s bucket key body bucket key ≡ some body
found_object s bucket key body = ground (arith, eq_refl bucket, eq_refl key)

refused :
    (s : Objects) (input : PutObjectInput) (o : Option String) (body : Body)
    → input.if_none_match ≡ "*"
    → body_of o ≡ ok body
    → (e : S3Error) × (put_answer s input o ≡ (err e, s))
refused s input none body h held = absurd (ground arith)
refused s input (some old) body h held = (failed, rw h refl)

other_object :
    (s : Objects) (input : PutObjectInput) (bucket key : String) (o : Option String)
    → (bucket ≢ input.bucket) ⊎ (key ≢ input.key)
    → (put_answer s input o).1 bucket key ≡ s bucket key
other_object s input bucket key none d =
    ground (arith, eq_iff bucket input.bucket, eq_iff key input.key)
other_object s input bucket key (some old) d =
    ground (arith, eq_iff bucket input.bucket, eq_iff key input.key)

s3-IsBucketService : IsBucketService utf8 s3
unfolding stream_to_string
s3-IsBucketService = record {
  conditional_lem = λ input body s h held. refused s input (s input.bucket input.key) body h held;
  stored_lem = λ input s s' h. (
    text input.body,
    rw (← written s s' input (s input.bucket input.key) h)
        (ap body_of (found_object s input.bucket input.key input.body)),
    refl,
  );
  others_lem = λ input bucket key s d.
      ap body_of (other_object s input bucket key (s input.bucket input.key) d);
}

abbrev empty_bucket : Objects
empty_bucket bucket key = none

one_object : Objects
one_object = put_object empty_bucket "evidence" "a.json" "{}\n"

abbrev bucket_put : BucketPut
bucket_put = record {
  bucket = "evidence";
  key = "a.json";
  content_type = json_content_type;
  bytes_written = 3;
}

put_json_object-WriteOnce_example :
    Bucket.get_json_object paths json utf8 s3 "evidence"
      (str "a.json")
      (Bucket.put_json_object paths json utf8 s3 "evidence" (str "a.json") (str "b") one_object).1
    ≡ ok (obj end)
unfolding one_object Bucket.get_json_object Bucket.get_answered stream_to_string
    assert_valid_object_key starts_with
put_json_object-WriteOnce_example =
    put_json_object-WriteOnce paths json utf8 s3 s3-IsBucketService "evidence" "evidence"
      (str "a.json") (str "a.json") (str "b") (obj end) one_object refl

put_json_object-stored_example :
    ((v : Json)
      → Bucket.get_json_object paths json utf8 s3 "evidence" (str "a.json") empty_bucket ≢ ok v)
    × (Bucket.get_json_object paths json utf8 s3 "evidence" (str "a.json") one_object
        ≡ ok (obj end))
    × (assert_valid_object_key paths (str "a.json") ≡ ok bucket_put.key)
unfolding one_object Bucket.put_json_object Bucket.put_under Bucket.put_answered
    assert_valid_object_key starts_with
put_json_object-stored_example =
    put_json_object-stored paths json utf8 s3 s3-IsBucketService "evidence" (str "a.json") (obj end)
      bucket_put empty_bucket one_object refl refl
