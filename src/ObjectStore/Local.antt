-- ===== src/ObjectStore/Local.antt =====
-- lib/json-object-store.js: `LocalJsonObjectStore`. The file system and JSON's texts are parameters.
use tanden_trust_audit_poc.Base.{
  ℕ, String, Bool, ◌||◌, Option, none, some, Result, ok, err, ◌>>=◌, ◌>>◌, require, str_eq, opt_eq,
  is_empty, codes, if◌then◌else◌, ◌≡◌,
}
use tanden_trust_audit_poc.Json.{Json}
use tanden_trust_audit_poc.ObjectStore.Key.{
  ObjectStoreError, invalid_object_key, invalid_base_dir, object_not_found, invalid_json_object,
  platform_error, Paths, starts_with, assert_valid_object_key,
}

-- An error of node:fs.
pub record FsError : Type 0 where
  pub code : Option String
  pub message : String

-- node:fs/promises, whose calls leave a state behind whether they fail or not.
pub record FileSystem : Type 1 where
  pub State : Type 0
  pub mkdir : String → State → Result FsError (Unit {0}) × State
  pub write_file : String → String → State → Result FsError (Unit {0}) × State
  pub read_file : String → State → Result FsError String

-- A file that was written is read back.
pub record IsFileSystem (fs : FileSystem) : Type 0 where
  pub written_lem :
      (path body : String) (s s' : fs.State)
      → fs.write_file path body s ≡ (ok tt, s')
      → fs.read_file path s' ≡ ok body

-- `JSON.stringify(value, null, 2) + "\n"` and `JSON.parse`.
pub record JsonText : Type 0 where
  pub print : Json → String
  pub parse : String → Option Json
  -- Buffer.byteLength(text, "utf8")
  pub byte_length : String → ℕ

-- `try { return JSON.parse(raw) } catch`
abbrev pub parsed_json : Option Json → Result ObjectStoreError Json
parsed_json none = err invalid_json_object
parsed_json (some j) = ok j

abbrev pub json_content_type : String
json_content_type = "application/json"

pub record LocalPut : Type 0 where
  pub key : String
  pub path : String
  pub content_type : String
  pub bytes_written : ℕ

module _ (paths : Paths) (fs : FileSystem) (json : JsonText) where
  -- The constructor: `path.resolve(baseDir)`, given here as the resolved directory.
  unfoldable pub create_local_store : String → String → Result ObjectStoreError String
  create_local_store base_dir resolved =
      if is_empty base_dir then err invalid_base_dir else ok resolved

  -- A path below the base directory, or that directory itself.
  unfoldable pub is_within : String → String → Bool
  is_within base_dir path =
      starts_with (codes (paths.with_separator base_dir)) (codes path) || str_eq path base_dir

  unfoldable pub resolve_object_path : String → Json → Result ObjectStoreError String
  unfolding is_within
  resolve_object_path base_dir key = do
    normalized ← assert_valid_object_key paths key
    require (is_within base_dir (paths.resolve base_dir normalized)) invalid_object_key
    ok (paths.resolve base_dir normalized)

  unfoldable pub written :
      Json
      → String
      → String
      → Result FsError (Unit {0}) × fs.State
      → Result ObjectStoreError LocalPut × fs.State
  written key path body (err e, s) = (err (platform_error e.message), s)
  written key path body (ok u, s) = (
    (do
      normalized ← assert_valid_object_key paths key
      ok (record {
        key = normalized;
        path = path;
        content_type = json_content_type;
        bytes_written = json.byte_length body;
      })),
    s,
  )

  unfoldable pub made :
      Json
      → String
      → String
      → Result FsError (Unit {0}) × fs.State
      → Result ObjectStoreError LocalPut × fs.State
  made key path body (err e, s) = (err (platform_error e.message), s)
  made key path body (ok u, s) = written key path body (fs.write_file path body s)

  unfoldable pub put_resolved :
      Json
      → Json
      → Result ObjectStoreError String
      → fs.State
      → Result ObjectStoreError LocalPut × fs.State
  put_resolved key value (err e) s = (err e, s)
  put_resolved key value (ok path) s =
      made key path (json.print value) (fs.mkdir (paths.dirname path) s)

  unfoldable pub put_json_object :
      String → Json → Json → fs.State → Result ObjectStoreError LocalPut × fs.State
  put_json_object base_dir key value s = put_resolved key value (resolve_object_path base_dir key) s

  unfoldable pub read_body : Result FsError String → Result ObjectStoreError Json
  read_body (err e) =
      if opt_eq e.code (some "ENOENT") then err object_not_found else err (platform_error e.message)
  read_body (ok raw) = parsed_json (json.parse raw)

  unfoldable pub get_json_object : String → Json → fs.State → Result ObjectStoreError Json
  get_json_object base_dir key s = do
    path ← resolve_object_path base_dir key
    read_body (fs.read_file path s)
