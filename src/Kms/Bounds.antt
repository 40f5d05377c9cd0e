-- ===== src/Kms/Bounds.antt =====
-- lib/aws-kms-provider.js: what `decodeDerSignatureToRaw` accepts has the length that
-- `assertRawSignature` wants.
use tanden_trust_audit_poc.Base.{
  ℕ, ◌-◌, ◌≤◌, Bool, true, false, [], ◌∷◌, ◌++◌, Result, ok, err, ◌==◌, not, throw_if, ◌>>=◌, ◌>>◌,
  length, take, replicate, ◌≡◌, refl, arith, length-append, length-take, length-replicate,
}
use tanden_trust_audit_poc.Kms.Der.{
  DerError, Bytes, normalize_integer, integer_body, read_int, read_length, sequence_body,
  expected_integer, expected_sequence, no_more, sequence_length_mismatch,
  decode_der_signature_to_raw,
}

normalize_integer-length :
    (bytes out : Bytes) → length bytes ≤ 33 → normalize_integer bytes ≡ ok out → length out ≡ 32
unfolding normalize_integer
normalize_integer-length [] out n h = ground arith
normalize_integer-length (b ∷ bs) out n h = ground (
  arith,
  length-append (replicate (32 - length (b ∷ bs)) 0) (b ∷ bs),
  length-replicate (32 - length (b ∷ bs)) (zero_byte),
)
  where
    zero_byte : ℕ
    zero_byte = 0

integer_body-length :
    (len : ℕ) (rest out after : Bytes) → integer_body len rest ≡ ok (out, after) → length out ≡ 32
unfolding integer_body
integer_body-length len rest out after h = go (normalize_integer (take len rest)) refl
  where
    go : (m : Result DerError Bytes) → normalize_integer (take len rest) ≡ m → length out ≡ 32
    go (err e) eq = absurd (ground arith)
    go (ok bytes) eq =
        normalize_integer-length (take len rest) out (ground (arith, length-take len rest))
          (ground arith)

read_int-length : (rest out after : Bytes) → read_int rest ≡ ok (out, after) → length out ≡ 32
unfolding read_int
read_int-length [] out after h = absurd (ground arith)
read_int-length (tag ∷ rest) out after h = go (tag == 0x02) (read_length rest) h
  where
    go :
        (tagged : Bool) (m : Result DerError (ℕ × Bytes))
        → (throw_if (not tagged) expected_integer >> (m >>= λ (len, body). integer_body len body))
          ≡ ok (out, after)
        → length out ≡ 32
    go false m k = absurd (ground arith)
    go true (err e) k = absurd (ground arith)
    go true (ok (len, body)) k = integer_body-length len body out after k

sequence_body-length : (n : ℕ) (rest raw : Bytes) → sequence_body n rest ≡ ok raw → length raw ≡ 64
unfolding sequence_body
sequence_body-length n rest raw h = go (n == length rest) (read_int rest) refl h
  where
    last :
        (r after_r : Bytes) (m : Result DerError (Bytes × Bytes))
        → read_int after_r ≡ m
        → length r ≡ 32
        → (m >>= λ (s, after_s). no_more after_s >> ok (r ++ s)) ≡ ok raw
        → length raw ≡ 64
    last r after_r (err e) eq lr k = absurd (ground arith)
    last r after_r (ok (s, [])) eq lr k =
        ground (arith, length-append r s, read_int-length after_r s [] eq)
    last r after_r (ok (s, b ∷ bs)) eq lr k = absurd (ground arith)

    go :
        (sized : Bool) (m : Result DerError (Bytes × Bytes))
        → read_int rest ≡ m
        → (throw_if (not sized) sequence_length_mismatch
            >> (m >>= λ (r, after_r).
                read_int after_r >>= λ (s, after_s). no_more after_s >> ok (r ++ s)))
          ≡ ok raw
        → length raw ≡ 64
    go false m eq k = absurd (ground arith)
    go true (err e) eq k = absurd (ground arith)
    go true (ok (r, after_r)) eq k =
        last r after_r (read_int after_r) refl (read_int-length rest r after_r eq) k

-- Whatever bytes KMS returns, `decodeDerSignatureToRaw` throws or gives exactly 64 bytes.
pub length-decode_der_signature_to_raw :
    (der raw : Bytes) → decode_der_signature_to_raw der ≡ ok raw → length raw ≡ 64
unfolding decode_der_signature_to_raw
length-decode_der_signature_to_raw [] raw h = absurd (ground arith)
length-decode_der_signature_to_raw (tag ∷ rest) raw h = go (tag == 0x30) (read_length rest) h
  where
    go :
        (tagged : Bool) (m : Result DerError (ℕ × Bytes))
        → (throw_if (not tagged) expected_sequence >> (m >>= λ (len, body). sequence_body len body))
          ≡ ok raw
        → length raw ≡ 64
    go false m k = absurd (ground arith)
    go true (err e) k = absurd (ground arith)
    go true (ok (len, body)) k = sequence_body-length len body raw k
