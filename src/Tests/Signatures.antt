-- ===== src/Tests/Signatures.antt =====
-- A signature whose r is 1 and whose s has its highest bit set.
use tanden_trust_audit_poc.Base.{ℕ, ◌≡◌, refl, ◌∷◌, ◌++◌, ok, replicate, length}
use tanden_trust_audit_poc.Kms.Der.{Bytes, decode_der_signature_to_raw}
use tanden_trust_audit_poc.Kms.Encode.{encode_raw_to_der}
use tanden_trust_audit_poc.Kms.RoundTrip.{decode_der_signature_to_raw-encode_raw_to_der}
use tanden_trust_audit_poc.Kms.Bounds.{length-decode_der_signature_to_raw}

abbrev zeros : ℕ → Bytes
zeros n = replicate n 0

abbrev raw : Bytes
raw = zeros 31 ++ 1 ∷ 200 ∷ zeros 31

abbrev der : Bytes
der = 0x30 ∷ 38 ∷ 2 ∷ 1 ∷ 1 ∷ 2 ∷ 33 ∷ 0 ∷ 200 ∷ zeros 31

encoded : encode_raw_to_der raw ≡ ok der
unfolding encode_raw_to_der
encoded = refl

decode_der_signature_to_raw-encode_raw_to_der_example :
    (d : Bytes) × (encode_raw_to_der raw ≡ ok d) × (decode_der_signature_to_raw d ≡ ok raw)
decode_der_signature_to_raw-encode_raw_to_der_example =
    decode_der_signature_to_raw-encode_raw_to_der raw refl

length-decode_der_signature_to_raw_example : length raw ≡ 64
unfolding decode_der_signature_to_raw
length-decode_der_signature_to_raw_example = length-decode_der_signature_to_raw der raw refl
