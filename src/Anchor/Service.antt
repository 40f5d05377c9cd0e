-- ===== src/Anchor/Service.antt =====
-- lib/verified-anchor-service.js: the checks of `VerifiedAnchorService` on keys, digests, ledger
-- confirmations and transaction results. What an anchor client returns is data here.
use tanden_trust_audit_poc.Base.{
  ℕ, ◌+◌, ◌*◌, ◌-◌, String, Bool, true, false, not, ◌&&◌, ◌||◌, Option, none, some, List, [], ◌∷◌,
  ◌++◌, Result, ok, err, ◌>>=◌, ◌>>◌, throw_if, require, str_eq, is_empty, is_sha256_hex,
  is_hex_any_case, is_digit, ltb, leb, ◌==◌, if◌then◌else◌, all, codes, length, drop, Number,
  natural, negative, non_integer,
}
use tanden_trust_audit_poc.Json.{Json, str}
use tanden_trust_audit_poc.Signing.Digest.{SigningError}
use tanden_trust_audit_poc.Anchor.Sidecar.{Refusal}
use tanden_trust_audit_poc.Anchor.InternalLedger.{Confirmation, confirmed, refused, LedgerRefusal}

abbrev pub zero_digest_hex : String
zero_digest_hex = "0000000000000000000000000000000000000000000000000000000000000000"

abbrev pub anchor_verification_schema : String
anchor_verification_schema = "tanden.external-anchor.v1"

-- An error of the anchor client, with the three texts that it may carry.
pub record Failure : Type 0 where
  pub message : Option String
  pub reason : Option String
  pub short_message : Option String

pub data Operation : Type 0 where
  read_anchor_state submit_anchor_transaction validate_transaction_result : Operation

pub data LedgerReason : Type 0 where
  refusal : LedgerRefusal → LedgerReason
  malformed_ledger_confirmation ledger_verifier_error : LedgerReason

pub data AnchorError : Type 0 where
  invalid_sidecar_metadata untrusted_signing_key : AnchorError
  evidence_error : SigningError → AnchorError
  verification_not_approved : Option Refusal → AnchorError
  invalid_anchor_digest zero_anchor_digest invalid_ledger_event_id invalid_anchor_state :
      AnchorError
  internal_ledger_not_confirmed : LedgerReason → AnchorError
  already_anchored : String → Option Number → AnchorError
  anchor_transaction : String → Operation → AnchorError
  bad_trusted_keys malformed_value : AnchorError

-- The entries of the resolver's Map.
abbrev pub TrustedKeys : Type 0
TrustedKeys = List (String × String)

checked_entries : TrustedKeys → Result AnchorError TrustedKeys
checked_entries [] = ok []
checked_entries ((key_id, pem) ∷ entries) = do
  throw_if (is_empty key_id || is_empty pem) bad_trusted_keys
  rest ← checked_entries entries
  ok ((key_id, pem) ∷ rest)

-- The constructor of `TrustedKeyResolver`.
unfoldable pub trusted_key_resolver : TrustedKeys → Result AnchorError TrustedKeys
unfolding checked_entries
trusted_key_resolver [] = err bad_trusted_keys
trusted_key_resolver (entry ∷ entries) = checked_entries (entry ∷ entries)

unfoldable pub resolve_public_key : TrustedKeys → String → Result AnchorError String
resolve_public_key [] key_id = err untrusted_signing_key
resolve_public_key ((k, pem) ∷ entries) key_id =
    let rest = resolve_public_key entries key_id in
    if not (str_eq k key_id)
    then rest
    else if is_empty pem
    then err untrusted_signing_key
    else ok pem

unfoldable pub assert_anchor_digest : String → Result AnchorError (Unit {0})
assert_anchor_digest digest_hex = do
  require (is_sha256_hex digest_hex) invalid_anchor_digest
  throw_if (str_eq digest_hex zero_digest_hex) zero_anchor_digest

unfoldable pub assert_non_empty_string : Option Json → Result AnchorError String
assert_non_empty_string (some (str s)) = if is_empty s then err invalid_ledger_event_id else ok s
assert_non_empty_string _ = err invalid_ledger_event_id

pub record InternalLedger : Type 0 where
  pub event_id : String
  pub row_hash : String

unfoldable pub normalize_ledger_confirmation :
    Confirmation → String → Result AnchorError InternalLedger
normalize_ledger_confirmation (refused r) expected = err (internal_ledger_not_confirmed (refusal r))
normalize_ledger_confirmation (confirmed event_id row_hash) expected =
    if not (str_eq event_id expected) || not (is_sha256_hex row_hash)
    then err (internal_ledger_not_confirmed malformed_ledger_confirmation)
    else ok (record { event_id = event_id; row_hash = row_hash })

-- `BigInt(value.toString()) !== 0n`, which throws on what is no integer.
unfoldable pub is_anchored : Number → Result AnchorError Bool
is_anchored (natural n) = ok (not (n == 0))
is_anchored (negative n) = ok true
is_anchored non_integer = err invalid_anchor_state

-- Whether `pattern` stands in `text`.
is_prefix : List ℕ → List ℕ → Bool
is_prefix [] cs = true
is_prefix (p ∷ ps) [] = false
is_prefix (p ∷ ps) (c ∷ cs) = p == c && is_prefix ps cs

includes : List ℕ → List ℕ → Bool
unfolding is_prefix
includes pattern [] = is_prefix pattern []
includes pattern (c ∷ cs) = is_prefix pattern (c ∷ cs) || includes pattern cs

-- `.filter((value) => typeof value === "string")`
texts : List (Option String) → List String
texts [] = []
texts (none ∷ values) = texts values
texts (some s ∷ values) = s ∷ texts values

-- `.join(" ")`
joined : List String → List ℕ
joined [] = []
joined (s ∷ []) = codes s
joined (s ∷ t ∷ ts) = codes s ++ b' ' ∷ joined (t ∷ ts)

unfoldable pub is_already_anchored_failure : Failure → Bool
unfolding includes joined texts
is_already_anchored_failure error =
    includes (codes "Already anchored")
      (joined (texts (error.message ∷ error.reason ∷ error.short_message ∷ [])))

-- `0x${digestHex}`
abbrev pub to_bytes32 : String → String
to_bytes32 digest_hex = String.◌∷◌ "0" (String.◌∷◌ "x" digest_hex)

-- /^0x[0-9a-fA-F]{n}$/
is_hex_value : ℕ → Option Json → Result AnchorError String
unfolding is_prefix
is_hex_value n (some (str s)) =
    let digits = drop 2 (codes s) in
    require (is_prefix (codes "0x") (codes s) && length digits == n && all is_hex_any_case digits)
      malformed_value
    >> ok s
is_hex_value n _ = err malformed_value

-- A bigint, a number or a decimal text, and anything else.
pub data IntegerValue : Type 0 where
  bigint number : Number → IntegerValue
  text : String → IntegerValue
  other : IntegerValue

decimal_value : ℕ → List ℕ → ℕ
decimal_value n [] = n
decimal_value n (c ∷ cs) = decimal_value (n * 10 + (c - b'0')) cs

-- `none` where the conversion throws or the integer is negative, which is refused in both uses.
unfoldable pub to_integer : IntegerValue → Option ℕ
unfolding decimal_value
to_integer (bigint (natural n)) = some n
to_integer (number (natural n)) = if leb n 9007199254740991 then some n else none
to_integer (text s) =
    if not (is_empty s) && all is_digit (codes s) then some (decimal_value 0 (codes s)) else none
to_integer _ = none

at_least : ℕ → Option ℕ → AnchorError → Result AnchorError ℕ
at_least lower none e = err e
at_least lower (some n) e = if ltb n lower then err e else ok n

-- The value that the returned text prints.
unfoldable pub normalize_integer : IntegerValue → Bool → Result AnchorError ℕ
unfolding at_least
normalize_integer value allow_zero =
    at_least (if allow_zero then 0 else 1) (to_integer value) malformed_value

-- The object that `anchorDigest` resolves to; `none` where it is no object.
pub record RawTransaction : Type 0 where
  pub transaction_hash : Option Json
  pub block_number : IntegerValue

pub record Transaction : Type 0 where
  pub transaction_hash : String
  pub block_number : ℕ

unfoldable pub normalize_transaction_result : Option RawTransaction → Result AnchorError Transaction
unfolding is_hex_value
normalize_transaction_result none = err malformed_value
normalize_transaction_result (some value) = do
  transaction_hash ← is_hex_value 64 value.transaction_hash
  block_number ← normalize_integer value.block_number true
  ok (record { transaction_hash = transaction_hash; block_number = block_number })
