-- ===== src/Base/Text.antt =====
-- JavaScript values that the code tests dynamically: texts and numbers.
use Prim.Native.Nat.{ℕ}
use Prim.Native.Char.{code}
use Prim.Native.String.{String}
use mathlib.Core.Path.{◌≡◌}
use mathlib.Core.Bool.{Bool, true, false, ◌&&◌, ◌||◌, not}
use mathlib.Core.List.{List, [], ◌∷◌}
use mathlib.Core.Logic.{inl, inr}
use mathlib.Core.Option.{Option, none, some}
use text.Mathlib.Text.{◌==◌ as str_eq}
use text.Mathlib.TextEquality.{eq_iff}
use native.Mathlib.Omega.{arith}
use tanden_trust_audit_poc.Base.Tests.{leb, ◌==◌, if◌then◌else◌, Bool-cases}
use tanden_trust_audit_poc.Base.Lists.{length, all}

-- The code points of a text.
abbrev pub codes : String → List ℕ
codes String.[] = []
codes (String.◌∷◌ c s) = code c ∷ codes s

abbrev pub is_empty : String → Bool
is_empty s = str_eq s ""

-- `if (value)` on a text or null.
abbrev pub is_truthy : Option String → Bool
is_truthy none = false
is_truthy (some s) = not (is_empty s)

-- `value || null`.
abbrev pub or_null : Option String → Option String
or_null none = none
or_null (some s) = if is_empty s then none else some s

-- `value || fallback`.
abbrev pub or_else : Option String → String → String
or_else none d = d
or_else (some s) d = if is_empty s then d else s

-- `a === b` on texts and null.
abbrev pub opt_eq : Option String → Option String → Bool
opt_eq none none = true
opt_eq (some a) (some b) = str_eq a b
opt_eq _ _ = false

-- What `String.prototype.trim` takes away.
abbrev pub is_white_space : ℕ → Bool
is_white_space c =
    (leb 0x9 c && leb c 0xd)
    || c == 0x20
    || c == 0xa0
    || c == 0x1680
    || (leb 0x2000 c && leb c 0x200a)
    || c == 0x2028
    || c == 0x2029
    || c == 0x202f
    || c == 0x205f
    || c == 0x3000
    || c == 0xfeff

pub String-discrete : Discrete String
String-discrete a b = elim (Bool-cases (str_eq a b)) [
  | inl same ↦ yes ((eq_iff a b).0 same)
  | inr differs ↦ no (λ e. cc ((eq_iff a b).1 e))
]

pub opt_eq-eq : (a b : Option String) → opt_eq a b ≡ true → a ≡ b
opt_eq-eq none none h = ground arith
opt_eq-eq (some a) (some b) h = ground (arith, eq_iff a b)
opt_eq-eq none (some b) h = ground arith
opt_eq-eq (some a) none h = ground arith

abbrev pub is_lower : ℕ → Bool
is_lower c = leb b'a' c && leb c b'z'

abbrev pub is_digit : ℕ → Bool
is_digit c = leb b'0' c && leb c b'9'

-- [0-9a-f], and with the flag `i`.
abbrev pub is_hex : ℕ → Bool
is_hex c = is_digit c || (leb b'a' c && leb c b'f')

abbrev pub is_hex_any_case : ℕ → Bool
is_hex_any_case c = is_hex c || (leb b'A' c && leb c b'F')

-- /^[0-9a-f]{64}$/
unfoldable pub is_sha256_hex : String → Bool
is_sha256_hex s = length (codes s) == 64 && all is_hex (codes s)

-- A JavaScript number, as far as `Number.isInteger` and comparisons with integers see it:
-- `negative n` is -(n + 1), and `non_integer` is a fraction, an infinity or NaN.
pub data Number : Type 0 where
  natural : ℕ → Number
  negative : ℕ → Number
  non_integer : Number
