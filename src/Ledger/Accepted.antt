-- ===== src/Ledger/Accepted.antt =====
-- lib/pg-signing-logger.js: what the checks of `appendEvent` say of its argument.
use tanden_trust_audit_poc.Base.{String, Option, none, some, Result, ok, err, ◌≡◌, arith, ◌>>=◌}
use tanden_trust_audit_poc.Json.{Json, null, bool, num, str, arr, obj}
use tanden_trust_audit_poc.Ledger.Row.{
  LedgerError, invalid_event_type, missing_payload, invalid_signature,
}
use tanden_trust_audit_poc.Ledger.Logger.{
  AppendRequest, Checked, check_request, non_empty_string, required,
}

-- A text that passes the check is the text of the argument.
non_empty_string-eq :
    (v : Option Json) (e : LedgerError) (s : String)
    → non_empty_string v e ≡ ok s
    → v ≡ some (str s)
unfolding non_empty_string
non_empty_string-eq (some (str x)) e s h = ground arith
non_empty_string-eq (some null) e s h = ground arith
non_empty_string-eq (some (bool b)) e s h = ground arith
non_empty_string-eq (some (num n)) e s h = ground arith
non_empty_string-eq (some (arr a)) e s h = ground arith
non_empty_string-eq (some (obj fs)) e s h = ground arith
non_empty_string-eq none e s h = ground arith

required-eq : (v : Option Json) (e : LedgerError) (j : Json) → required v e ≡ ok j → v ≡ some j
unfolding required
required-eq (some v) e j h = ground arith
required-eq none e j h = ground arith

-- The three checks, one after the other.
checks :
    (a : Result LedgerError String) (b : Result LedgerError Json) (d : Result LedgerError String)
    (c : Checked)
    → (a >>= λ event_type. b >>= λ payload. d >>= λ signature.
        ok (record { event_type = event_type; payload = payload; signature = signature }))
      ≡ ok c
    → (a ≡ ok c.event_type) × (b ≡ ok c.payload) × (d ≡ ok c.signature)
checks (err e) b d c h = absurd (ground arith)
checks (ok x) (err e) d c h = absurd (ground arith)
checks (ok x) (ok y) (err e) c h = absurd (ground arith)
checks (ok x) (ok y) (ok z) c h = ground arith

pub check_request-eq :
    (request : AppendRequest) (c : Checked)
    → check_request request ≡ ok c
    → (request.event_type ≡ some (str c.event_type))
      × (request.payload ≡ some c.payload)
      × (request.signature ≡ some (str c.signature))
check_request-eq request c h =
    let (a, b, d) =
      checks (non_empty_string request.event_type invalid_event_type)
        (required request.payload missing_payload)
        (non_empty_string request.signature invalid_signature) c (unfold check_request in h) in
    (
      non_empty_string-eq request.event_type invalid_event_type c.event_type a,
      required-eq request.payload missing_payload c.payload b,
      non_empty_string-eq request.signature invalid_signature c.signature d,
    )
