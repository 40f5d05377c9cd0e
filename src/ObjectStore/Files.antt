-- ===== src/ObjectStore/Files.antt =====
-- lib/json-object-store.js: what `putJsonObject` writes, and that `getJsonObject` reads it back.
use tanden_trust_audit_poc.Base.{
  String, Bool, true, false, some, Result, ok, err, ◌>>=◌, ◌>>◌, require, ◌≡◌, refl, ap, ◌∙◌, arith,
}
use tanden_trust_audit_poc.Json.{Json}
use tanden_trust_audit_poc.ObjectStore.Key.{
  ObjectStoreError, invalid_object_key, Paths, assert_valid_object_key,
}
use tanden_trust_audit_poc.ObjectStore.Local.{
  FsError, FileSystem, IsFileSystem, JsonText, LocalPut, json_content_type, is_within,
  resolve_object_path, written, made, put_resolved, put_json_object, read_body, get_json_object,
}

module _ (paths : Paths) (fs : FileSystem) (json : JsonText) where
  -- A key resolves into the base directory.
  resolve_object_path-within :
      (base_dir : String) (key : Json) (path : String)
      → resolve_object_path paths fs json base_dir key ≡ ok path
      → is_within paths fs json base_dir path ≡ true
  resolve_object_path-within base_dir key path h =
      go (assert_valid_object_key paths key) (unfold resolve_object_path in h)
    where
      at_test :
          (b : Bool) (r : String)
          → is_within paths fs json base_dir r ≡ b
          → (require b invalid_object_key >> ok r) ≡ ok path
          → is_within paths fs json base_dir path ≡ true
      at_test true r eq k = let same : r ≡ path = ground arith in rw (← same) eq
      at_test false r eq k = absurd (ground arith)

      go :
          (m : Result ObjectStoreError String)
          → (m >>= λ normalized.
              require
                (is_within paths fs json base_dir (paths.resolve base_dir normalized))
                invalid_object_key
              >> ok (paths.resolve base_dir normalized))
            ≡ ok path
          → is_within paths fs json base_dir path ≡ true
      go (err e) k = absurd (ground arith)
      go (ok normalized) k =
          at_test (is_within paths fs json base_dir (paths.resolve base_dir normalized))
            (paths.resolve base_dir normalized) refl k

  -- What `putJsonObject` has stored, `getJsonObject` of the same key gives back, from a path within
  -- the base directory, for a value that JSON prints and parses to itself.
  pub put_json_object-get_json_object :
      (laws : IsFileSystem fs) (base_dir : String) (key value : Json) (put : LocalPut)
      (s s' : fs.State)
      → json.parse (json.print value) ≡ some value
      → put_json_object paths fs json base_dir key value s ≡ (ok put, s')
      → (get_json_object paths fs json base_dir key s' ≡ ok value)
        × (resolve_object_path paths fs json base_dir key ≡ ok put.path)
        × (is_within paths fs json base_dir put.path ≡ true)
  put_json_object-get_json_object laws base_dir key value put s s' prints h =
      go (resolve_object_path paths fs json base_dir key) refl (unfold put_json_object in h)
    where
      Goal : Type 0
      Goal =
          (get_json_object paths fs json base_dir key s' ≡ ok value)
          × (resolve_object_path paths fs json base_dir key ≡ ok put.path)
          × (is_within paths fs json base_dir put.path ≡ true)

      returned :
          (path : String) (m : Result ObjectStoreError String)
          → (m >>= λ normalized. ok (record {
            key = normalized;
            path = path;
            content_type = json_content_type;
            bytes_written = json.byte_length (json.print value);
          }))
            ≡ ok put
          → path ≡ put.path
      returned path (err e) k = absurd (ground arith)
      returned path (ok normalized) k = ground arith

      at_write :
          (path : String) (r : Result FsError (Unit {0}) × fs.State) (before : fs.State)
          → resolve_object_path paths fs json base_dir key ≡ ok path
          → fs.write_file path (json.print value) before ≡ r
          → written paths fs json key path (json.print value) r ≡ (ok put, s')
          → Goal
      at_write path (err e, s'') before eq ew k = absurd (unfold written in ground arith)
      at_write path (ok tt, s'') before eq ew k =
          let same_path : path ≡ put.path =
            returned path (assert_valid_object_key paths key) (unfold written in ground arith) in
          let same_state : s'' ≡ s' = unfold written in ground arith in
          let body = laws.written_lem path (json.print value) before s'' ew in
          let resolved : resolve_object_path paths fs json base_dir key ≡ ok put.path =
            eq ∙ ap ok same_path in
          (
            rw (← same_state) (unfold get_json_object read_body in rw (eq, body, prints) refl),
            resolved,
            resolve_object_path-within base_dir key put.path resolved,
          )

      at_make :
          (path : String) (r : Result FsError (Unit {0}) × fs.State)
          → resolve_object_path paths fs json base_dir key ≡ ok path
          → made paths fs json key path (json.print value) r ≡ (ok put, s')
          → Goal
      at_make path (err e, s'') eq k = absurd (unfold made in ground arith)
      at_make path (ok u, s'') eq k =
          at_write path (fs.write_file path (json.print value) s'') s'' eq refl (unfold made in k)

      go :
          (r : Result ObjectStoreError String)
          → resolve_object_path paths fs json base_dir key ≡ r
          → put_resolved paths fs json key value r s ≡ (ok put, s')
          → Goal
      go (err e) eq k = absurd (unfold put_resolved in ground arith)
      go (ok path) eq k =
          at_make path (fs.mkdir (paths.dirname path) s) eq (unfold put_resolved in k)
