-- ===== src/Kms/Encode.antt =====
-- lib/aws-kms-provider.js: `encodeRawToDer`.
use tanden_trust_audit_poc.Base.{
  not, [], ◌∷◌, ◌++◌, Result, ok, ◌>>◌, throw_if, ltb, leb, ◌==◌, if◌then◌else◌, length, take, drop,
}
use tanden_trust_audit_poc.Kms.Der.{DerError, not_64_bytes, body_too_long, Bytes}

-- The `while` loop: leading zeros go, but for the last byte.
unfoldable pub strip_zeros : Bytes → Bytes
strip_zeros [] = []
strip_zeros (b ∷ []) = b ∷ []
strip_zeros (b ∷ c ∷ bs) = let rest = strip_zeros (c ∷ bs) in if b == 0 then rest else b ∷ c ∷ bs

-- `trimmed[0] & 0x80`.
unfoldable pub keep_unsigned : Bytes → Bytes
keep_unsigned [] = []
keep_unsigned (b ∷ bs) = if leb 128 b then 0 ∷ b ∷ bs else b ∷ bs

unfoldable pub encode_integer : Bytes → Bytes
unfolding strip_zeros keep_unsigned
encode_integer bytes32 =
    let trimmed = keep_unsigned (strip_zeros bytes32) in 0x02 ∷ length trimmed ∷ trimmed

unfoldable pub encode_raw_to_der : Bytes → Result DerError Bytes
unfolding encode_integer
encode_raw_to_der raw = do
  throw_if (not (length raw == 64)) not_64_bytes
  let body = encode_integer (take 32 raw) ++ encode_integer (drop 32 raw)
  throw_if (ltb 127 (length body)) body_too_long
  ok (0x30 ∷ length body ∷ body)
