-- ===== src/Gates/Stable.antt =====
-- scripts/run-verification-evidence-gate.js: `stableStringify` and the evidence document. `quote`
-- is JSON.stringify of a text, and `sha256` the hash of a text's UTF-8.
use tanden_trust_audit_poc.Base.{
  ℕ, ◌+◌, ◌-◌, ◌/◌, ◌%◌, String, Bool, true, false, ◌&&◌, ◌||◌, Option, none, some, List, [], ◌∷◌,
  ltb, ◌==◌, codes, if◌then◌else◌,
}
use Prim.Native.String.{◌++◌}
use tanden_trust_audit_poc.Json.{
  Json, null, bool, num, str, arr, obj, Items, nil, cons, Fields, end, field,
}
use tanden_trust_audit_poc.Gates.Documents.{is_truthy_json, strict_eq, member, or_empty}

-- The UTF-16 code units of a code point.
abbrev code_units : ℕ → List ℕ → List ℕ
code_units c rest =
    if ltb c 0x10000
    then c ∷ rest
    else (0xd800 + (c - 0x10000) / 0x400) ∷ (0xdc00 + (c - 0x10000) % 0x400) ∷ rest

unfoldable to_utf16 : List ℕ → List ℕ
to_utf16 [] = []
to_utf16 (c ∷ cs) = code_units c (to_utf16 cs)

unfoldable pub utf16 : String → List ℕ
unfolding to_utf16
utf16 s = to_utf16 (codes s)

-- The order in which `sort()` puts texts.
unfoldable pub units_leb : List ℕ → List ℕ → Bool
units_leb [] ys = true
units_leb (x ∷ xs) [] = false
units_leb (x ∷ xs) (y ∷ ys) = ltb x y || x == y && units_leb xs ys

-- A member of an object, with the text of its value.
abbrev pub Member : Type 0
Member = String × String

abbrev pub member_leb : Member → Member → Bool
member_leb m n = units_leb (utf16 m.0) (utf16 n.0)

unfoldable pub insert : Member → List Member → List Member
insert m [] = m ∷ []
insert m (n ∷ ns) = let rest = insert m ns in if member_leb m n then m ∷ n ∷ ns else n ∷ rest

-- `Object.keys(value).sort()`, with the values beside the keys.
unfoldable pub sort : List Member → List Member
unfolding insert
sort [] = []
sort (m ∷ ms) = insert m (sort ms)

-- `texts.join(",")`
unfoldable pub join : List String → String
join [] = ""
join (s ∷ []) = s
join (s ∷ t ∷ ts) = s ++ ("," ++ join (t ∷ ts))

abbrev bool_text : Bool → String
bool_text true = "true"
bool_text false = "false"

module _ (quote : String → String) where
  unfoldable pub member_texts : List Member → List String
  member_texts [] = []
  member_texts ((key, text) ∷ ms) = (quote key ++ (":" ++ text)) ∷ member_texts ms

  unfoldable mutual
    unfolding join sort member_texts

    pub stable_stringify : Json → String
    stable_stringify null = "null"
    stable_stringify (bool b) = bool_text b
    stable_stringify (num t) = t
    stable_stringify (str s) = quote s
    stable_stringify (arr items) = "[" ++ (join (item_texts items) ++ "]")
    stable_stringify (obj fields) = "{" ++ (join (member_texts (sort (members fields))) ++ "}")

    pub item_texts : Items → List String
    item_texts nil = []
    item_texts (cons item items) = stable_stringify item ∷ item_texts items

    pub members : Fields → List Member
    members end = []
    members (field key value fields) = (key, stable_stringify value) ∷ members fields

  module _ (sha256 : String → String) where
    unfoldable pub digest_payload : Json → String
    digest_payload payload = sha256 (stable_stringify payload)

    unfoldable pub create_evidence_document : Json → Json
    create_evidence_document payload = obj (
        field "payload" payload (
          field "digest"
            (obj
              (field "algorithm" (str "sha256") (field "value" (str (digest_payload payload)) end)))
            end))

    -- `document` and its members, where `none` is undefined.
    abbrev pub checked_digest : Option Json → Option Json → Bool
    checked_digest none digest = false
    checked_digest (some payload) digest =
        is_truthy_json (some payload)
        && is_truthy_json digest
        && strict_eq (member "algorithm" (or_empty digest)) (some (str "sha256"))
        && strict_eq (member "value" (or_empty digest)) (some (str (digest_payload payload)))

    unfoldable pub verify_evidence_document : Option Json → Bool
    verify_evidence_document none = false
    verify_evidence_document (some document) =
        checked_digest (member "payload" document) (member "digest" document)
