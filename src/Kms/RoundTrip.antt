-- ===== src/Kms/RoundTrip.antt =====
-- lib/aws-kms-provider.js: decoding what was encoded gives the raw signature back.
use tanden_trust_audit_poc.Base.{
  ℕ, zero, suc, ◌+◌, ◌-◌, ◌≤◌, true, [], ◌∷◌, ◌++◌, ok, ltb, ◌==◌, length, take, drop, replicate,
  ◌≡◌, refl, ap, ◌∙◌, arith, Bool-cases, inl, inr, length-append, length-take, length-drop,
  take-append, drop-append, replicate_snoc, take-append-drop, append-nil, subst,
}
use tanden_trust_audit_poc.Kms.Der.{
  Bytes, read_length, normalize_integer, integer_body, read_int, sequence_body,
  decode_der_signature_to_raw,
}
use tanden_trust_audit_poc.Kms.Encode.{
  strip_zeros, keep_unsigned, encode_integer, encode_raw_to_der,
}

-- The zeros that were stripped, put back.
record Stripped (xs : Bytes) : Type 0 where
  dropped : ℕ
  head : ℕ
  tail : Bytes
  result : strip_zeros xs ≡ head ∷ tail
  total : dropped + length (head ∷ tail) ≡ length xs
  padded : replicate dropped 0 ++ head ∷ tail ≡ xs

strip_zeros-Stripped : (b : ℕ) (bs : Bytes) → Stripped (b ∷ bs)
unfolding strip_zeros
strip_zeros-Stripped b [] = record {
  dropped = 0;
  head = b;
  tail = [];
  result = refl;
  total = refl;
  padded = refl;
}
strip_zeros-Stripped b (c ∷ bs) = elim (Bool-cases (b == 0)) [
  | inr other ↦ record {
    dropped = 0;
    head = b;
    tail = c ∷ bs;
    result = rw other;
    total = omega arith;
    padded = refl;
  }
  | inl null ↦
      let later = strip_zeros-Stripped c bs in
      record {
        dropped = suc later.dropped;
        head = later.head;
        tail = later.tail;
        result = rw null later.result;
        total = omega (arith, later.total);
        padded = ground (arith, later.padded);
      }
]

abbrev zeros : ℕ → Bytes
zeros n = replicate n 0

-- Padding undoes the stripping and the sign byte.
normalize_integer-keep_unsigned :
    (k c : ℕ) (cs : Bytes)
    → k + length (c ∷ cs) ≡ 32
    → normalize_integer (keep_unsigned (c ∷ cs)) ≡ ok (replicate k 0 ++ c ∷ cs)
unfolding normalize_integer keep_unsigned
normalize_integer-keep_unsigned zero c cs h = ground arith
normalize_integer-keep_unsigned (suc k) c cs h =
    let e : 32 - length (0 ∷ c ∷ cs) ≡ k = omega arith in
    let e' : 32 - length (c ∷ cs) ≡ suc k = omega arith in
    ground (arith, replicate_snoc k 0 (c ∷ cs), ap zeros e, ap zeros e')

keep_unsigned-length :
    (c : ℕ) (cs : Bytes)
    → (1 ≤ length (keep_unsigned (c ∷ cs)))
      × (length (keep_unsigned (c ∷ cs)) ≤ length (c ∷ cs) + 1)
unfolding keep_unsigned
keep_unsigned-length c cs = ground arith

-- The body of an INTEGER of at most 33 bytes is read back, whatever follows it.
integer_body_append :
    (body rest value : Bytes)
    → 1 ≤ length body
    → length body ≤ 33
    → normalize_integer body ≡ ok value
    → integer_body (length body) (body ++ rest) ≡ ok (value, rest)
unfolding integer_body
integer_body_append body rest value lo hi h =
    let size = length-append body rest in
    ground (arith, take-append body rest, drop-append body rest, size)

read_int_body :
    (body rest value : Bytes)
    → 1 ≤ length body
    → length body ≤ 33
    → normalize_integer body ≡ ok value
    → read_int (0x02 ∷ length body ∷ body ++ rest) ≡ ok (value, rest)
unfolding read_int read_length
read_int_body body rest value lo hi h =
    let short : ltb (length body) 128 ≡ true = ground arith in
    rw short (integer_body_append body rest value lo hi h)

encode_integer-body :
    (bytes : Bytes)
    → length bytes ≡ 32
    → (body : Bytes) × (encode_integer bytes ≡ 0x02 ∷ length body ∷ body)
      × (1 ≤ length body)
      × (length body ≤ 33)
      × (normalize_integer body ≡ ok bytes)
unfolding encode_integer
encode_integer-body [] n = absurd (omega arith)
encode_integer-body (b ∷ bs) n =
    let s = strip_zeros-Stripped b bs in
    (
      keep_unsigned (s.head ∷ s.tail),
      rw s.result refl,
      (keep_unsigned-length s.head s.tail).0,
      omega (arith, keep_unsigned-length s.head s.tail, s.total),
      normalize_integer-keep_unsigned s.dropped s.head s.tail (s.total ∙ n) ∙ ap ok s.padded,
    )

-- A raw signature is its two halves.
length_halves :
    (raw : Bytes) → length raw ≡ 64 → (length (take 32 raw) ≡ 32) × (length (drop 32 raw) ≡ 32)
length_halves raw n = (omega (arith, length-take 32 raw), omega (arith, length-drop 32 raw))

-- The sequence around two INTEGERs that are read back.
sequence_body_pair :
    (r s br bs : Bytes)
    → read_int (0x02 ∷ length br ∷ br ++ (0x02 ∷ length bs ∷ bs)) ≡ ok (r, 0x02 ∷ length bs ∷ bs)
    → read_int (0x02 ∷ length bs ∷ bs) ≡ ok (s, [])
    → let body = 0x02 ∷ length br ∷ br ++ (0x02 ∷ length bs ∷ bs) in
      sequence_body (length body) body ≡ ok (r ++ s)
unfolding sequence_body
sequence_body_pair r s br bs first second = ground arith

decode_of_bodies :
    (r s br bs : Bytes)
    → (1 ≤ length br) × (length br ≤ 33) × (normalize_integer br ≡ ok r)
    → (1 ≤ length bs) × (length bs ≤ 33) × (normalize_integer bs ≡ ok s)
    → let body = 0x02 ∷ length br ∷ br ++ (0x02 ∷ length bs ∷ bs) in
      (length body ≤ 70) × (decode_der_signature_to_raw (0x30 ∷ length body ∷ body) ≡ ok (r ++ s))
unfolding decode_der_signature_to_raw read_length
decode_of_bodies r s br bs (lo, hi, hr) (lo', hi', hs) =
    let small : length (0x02 ∷ length br ∷ br ++ (0x02 ∷ length bs ∷ bs)) ≤ 70 =
      omega (arith, length-append br (0x02 ∷ length bs ∷ bs)) in
    let pair = sequence_body_pair r s br bs (read_int_body br (0x02 ∷ length bs ∷ bs) r lo hi hr) (
      subst (λ xs. read_int (0x02 ∷ length bs ∷ xs) ≡ ok (s, [])) (append-nil bs)
        (read_int_body bs [] s lo' hi' hs)) in
    (small, ground (arith, pair))

-- `encodeRawToDer` accepts every raw signature of 64 bytes, and `decodeDerSignatureToRaw` gives the
-- same 64 bytes back.
pub decode_der_signature_to_raw-encode_raw_to_der :
    (raw : Bytes)
    → length raw ≡ 64
    → (der : Bytes) × (encode_raw_to_der raw ≡ ok der) × (decode_der_signature_to_raw der ≡ ok raw)
unfolding encode_raw_to_der
decode_der_signature_to_raw-encode_raw_to_der raw n =
    let (nr, ns) = length_halves raw n in
    let (br, er, r1, r2, r3) = encode_integer-body (take 32 raw) nr in
    let (bs, es, s1, s2, s3) = encode_integer-body (drop 32 raw) ns in
    let (small, decoded) =
      decode_of_bodies (take 32 raw) (drop 32 raw) br bs (r1, r2, r3) (s1, s2, s3) in
    let body : Bytes = 0x02 ∷ length br ∷ br ++ (0x02 ∷ length bs ∷ bs) in
    (
      0x30 ∷ length body ∷ body,
      ground (arith, er, es, small),
      decoded ∙ ap ok (take-append-drop 32 raw),
    )
