-- ===== src/Platform.antt =====
-- What the code takes from Node and from npm packages: the RFC 8785 serialiser of `canonicalize`
-- and SHA-256 of node:crypto. They are parameters; a theorem that relies on more than their types
-- names it.
use tanden_trust_audit_poc.Base.{ℕ, String, Bool, Option, List}
use tanden_trust_audit_poc.Json.{Json}

abbrev pub Bytes : Type 0
Bytes = List ℕ

pub record Crypto : Type 1 where
  -- the texts that `canonicalize` returns
  pub CanonicalText : Type 0
  pub text_discrete : Discrete CanonicalText
  -- `none` is undefined, which `canonicalize` returns for what is no JSON value
  pub canonicalize : Json → Option CanonicalText
  pub sha256_hex : CanonicalText → String
  -- Buffer.from(text, 'utf8')
  pub utf8 : CanonicalText → Bytes

-- The keys, signatures and encodings of node:crypto and Buffer.
pub record Ecdsa : Type 1 where
  pub KeyObject : Type 0
  pub key_type : KeyObject → String
  pub asymmetric_key_type : KeyObject → String
  pub named_curve : KeyObject → Option String
  -- `none` where the call throws
  pub create_private_key : String → Option KeyObject
  pub create_public_key : String → Option KeyObject
  pub sign : KeyObject → Bytes → Bytes
  pub verify : KeyObject → Bytes → Bytes → Bool
  pub to_base64 : Bytes → String
  pub to_base64url : Bytes → String
  pub from_base64url : String → Bytes

-- An error of the database driver, with the `code` that it carries.
pub record DbError : Type 0 where
  pub code : Option String
  pub message : String
