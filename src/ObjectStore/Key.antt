-- ===== src/ObjectStore/Key.antt =====
-- lib/json-object-store.js: `assertValidObjectKey`. The functions of node:path are a parameter.
use tanden_trust_audit_poc.Base.{
  ℕ, String, Bool, true, false, ◌&&◌, ◌||◌, List, [], ◌∷◌, Result, ok, err, ◌>>◌, throw_if, str_eq,
  is_empty, any, ◌==◌, codes,
}
use tanden_trust_audit_poc.Json.{Json, str}

pub data ObjectStoreError : Type 0 where
  invalid_object_key invalid_base_dir invalid_bucket : ObjectStoreError
  object_not_found object_already_exists invalid_json_object unsupported_s3_body : ObjectStoreError
  -- an error of the platform, passed on
  platform_error : String → ObjectStoreError

-- node:path. `resolve base key` is the absolute path of a key under a directory.
pub record Paths : Type 0 where
  pub is_absolute : String → Bool
  pub posix_normalize : String → String
  pub resolve : String → String → String
  pub dirname : String → String
  -- `prefix + path.sep`
  pub with_separator : String → String

-- `text.startsWith(prefix)`
unfoldable pub starts_with : List ℕ → List ℕ → Bool
starts_with [] text = true
starts_with (c ∷ prefix) [] = false
starts_with (c ∷ prefix) (d ∷ text) = c == d && starts_with prefix text

-- `text.includes(c)` for one character.
abbrev includes : ℕ → String → Bool
includes c text = any (λ d. d == c) (codes text)

module _ (paths : Paths) where
  -- The checks on the normalized key.
  normalized_key : String → String → Result ObjectStoreError String
  unfolding starts_with
  normalized_key key normalized = do
    throw_if
        (str_eq normalized "."
          || starts_with (codes "../") (codes normalized)
          || str_eq normalized "..")
        invalid_object_key
    throw_if (includes 0x5c normalized || includes 0 key) invalid_object_key
    ok normalized

  relative_key : String → Result ObjectStoreError String
  unfolding normalized_key
  relative_key key = do
    throw_if (is_empty key) invalid_object_key
    throw_if (paths.is_absolute key) invalid_object_key
    normalized_key key (paths.posix_normalize key)

  unfoldable pub assert_valid_object_key : Json → Result ObjectStoreError String
  unfolding relative_key
  assert_valid_object_key (str key) = relative_key key
  assert_valid_object_key _ = err invalid_object_key
