-- ===== src/Gates/Review.antt =====
-- scripts/run-verification-evidence-gate.js: `parseReviewArtifact`. The regular expressions are
-- written out as what their match captures, trimmed.
use tanden_trust_audit_poc.Base.{
  ℕ, String, Bool, true, ◌&&◌, ◌||◌, not, Option, none, some, List, [], ◌∷◌, leb, ◌==◌, any, codes,
  is_empty, if◌then◌else◌, is_white_space, ◌+◌,
}
use Prim.Native.Char.{code}

-- What `.` does not match, and what `^` and `$` stand at under the flag m.
unfoldable is_line_terminator : ℕ → Bool
is_line_terminator c = c == 0xa || c == 0xd || c == 0x2028 || c == 0x2029

-- `\s*` in front of a character that is no white space, and `trimStart`.
unfoldable pub skip_white_space : String → String
skip_white_space String.[] = ""
skip_white_space (String.◌∷◌ c s) =
    let rest = skip_white_space s in if is_white_space (code c) then rest else String.◌∷◌ c s

unfoldable pub trim_end : String → String
trim_end String.[] = ""
trim_end (String.◌∷◌ c s) =
    let rest = trim_end s in
    if is_empty rest && is_white_space (code c) then "" else String.◌∷◌ c rest

-- `.+` from here on.
unfoldable take_line : String → String
unfolding is_line_terminator
take_line String.[] = ""
take_line (String.◌∷◌ c s) =
    let rest = take_line s in if is_line_terminator (code c) then "" else String.◌∷◌ c rest

-- An ASCII capital as its small letter, as the flag i compares.
abbrev lower : ℕ → ℕ
lower c = if leb 0x41 c && leb c 0x5a then c + 0x20 else c

-- The text behind a prefix.
unfoldable after : List ℕ → String → Option String
after [] s = some s
after (p ∷ ps) String.[] = none
after (p ∷ ps) (String.◌∷◌ c s) = if lower (code c) == lower p then after ps s else none

-- `\s*(.+)\s*$` and `trim()`: where only white space is left, `\s*` gives back one character for
-- the group, unless all of them end lines.
unfoldable captured : String → Option String
unfolding skip_white_space trim_end take_line is_line_terminator
captured s =
    if is_empty (skip_white_space s)
    then (if any (λ c. not (is_line_terminator c)) (codes s) then some "" else none)
    else some (trim_end (take_line (skip_white_space s)))

abbrev then_after : List ℕ → Option String → Option String
then_after prefix none = none
then_after prefix (some s) = after prefix (skip_white_space s)

abbrev then_captured : Option String → Option String
then_captured none = none
then_captured (some s) = captured s

-- A match that starts here: `^\s*-\s*<label>:\s*(.+)\s*$`.
unfoldable match_at : String → String → Option String
unfolding captured after skip_white_space
match_at label s = then_captured (then_after (codes label) (then_after (codes "-") (some s)))

abbrev or_later : Option String → Option String → Option String
or_later none later = later
or_later (some s) later = some s

-- The first match, by the position at which it starts.
unfoldable find_from : String → Bool → String → Option String
unfolding match_at is_line_terminator
find_from label at_start String.[] = none
find_from label at_start (String.◌∷◌ c s) =
    let later = find_from label (is_line_terminator (code c)) s in
    if at_start then or_later (match_at label (String.◌∷◌ c s)) later else later

pub record Review : Type 0 where
  pub status : Option String
  pub reviewed_by : Option String

unfoldable pub parse_review_artifact : String → Review
unfolding find_from
parse_review_artifact markdown = record {
  status = find_from "Status:" true markdown;
  reviewed_by = find_from "Reviewed by:" true markdown;
}
