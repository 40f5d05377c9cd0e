-- ===== src/Kms/Der.antt =====
-- lib/aws-kms-provider.js: `decodeDerSignatureToRaw`. A buffer is its list of bytes. The cursor
-- `offset` is the list of the bytes from it on, so `offset >= length` is an empty list, and
-- `offset + n > length` is a list shorter than n.
use tanden_trust_audit_poc.Base.{
  ℕ, ◌+◌, ◌-◌, ◌*◌, ◌%◌, ◌||◌, not, List, [], ◌∷◌, ◌++◌, Result, ok, err, ◌>>=◌, ◌>>◌, throw_if,
  ltb, leb, ◌==◌, if◌then◌else◌, length, take, drop, replicate,
}

pub data DerError : Type 0 where
  missing_length invalid_long_form expected_sequence sequence_length_mismatch : DerError
  expected_integer invalid_integer_length integer_not_unsigned invalid_padding trailing_data :
      DerError
  not_64_bytes body_too_long : DerError

abbrev pub Bytes : Type 0
Bytes = List ℕ

-- What a read returns: a value, and the bytes behind it.
abbrev pub Read : Type 0 → Type 0
Read A = Result DerError (A × Bytes)

-- The loop over the bytes of a long-form length.
accumulate : ℕ → Bytes → ℕ
accumulate acc [] = acc
accumulate acc (b ∷ bs) = accumulate (acc * 256 + b) bs

-- `first & 0x7f` is `first % 128`.
long_length : ℕ → Bytes → Read ℕ
unfolding accumulate
long_length n rest =
    if n == 0 || ltb 2 n || ltb (length rest) n
    then err invalid_long_form
    else ok (accumulate 0 (take n rest), drop n rest)

unfoldable pub read_length : Bytes → Read ℕ
unfolding long_length
read_length [] = err missing_length
read_length (first ∷ rest) =
    if ltb first 128 then ok (first, rest) else long_length (first % 128) rest

-- The checks on the bytes of an INTEGER, and its 32 bytes.
unfoldable pub normalize_integer : Bytes → Result DerError Bytes
normalize_integer [] = ok (replicate 32 0)
normalize_integer (b ∷ bs) =
    if leb 128 b
    then err integer_not_unsigned
    else if length (b ∷ bs) == 33
    then (if not (b == 0) then err invalid_padding else ok bs)
    else ok (replicate (32 - length (b ∷ bs)) 0 ++ b ∷ bs)

-- `offset + len > sequenceEnd`: the sequence ends where the buffer does.
unfoldable pub integer_body : ℕ → Bytes → Read Bytes
unfolding normalize_integer
integer_body len rest = do
  throw_if (ltb len 1 || ltb 33 len || ltb (length rest) len) invalid_integer_length
  bytes ← normalize_integer (take len rest)
  ok (bytes, drop len rest)

unfoldable pub read_int : Bytes → Read Bytes
unfolding integer_body read_length
read_int [] = err expected_integer
read_int (tag ∷ rest) = do
  throw_if (not (tag == 0x02)) expected_integer
  (len, body) ← read_length rest
  integer_body len body

unfoldable pub no_more : Bytes → Result DerError (Unit {0})
no_more [] = ok tt
no_more (b ∷ bs) = err trailing_data

unfoldable pub sequence_body : ℕ → Bytes → Result DerError Bytes
unfolding read_int no_more
sequence_body sequence_length rest = do
  throw_if (not (sequence_length == length rest)) sequence_length_mismatch
  (r, after_r) ← read_int rest
  (s, after_s) ← read_int after_r
  no_more after_s
  ok (r ++ s)

unfoldable pub decode_der_signature_to_raw : Bytes → Result DerError Bytes
unfolding sequence_body read_length
decode_der_signature_to_raw [] = err expected_sequence
decode_der_signature_to_raw (tag ∷ rest) = do
  throw_if (not (tag == 0x30)) expected_sequence
  (sequence_length, body) ← read_length rest
  sequence_body sequence_length body
