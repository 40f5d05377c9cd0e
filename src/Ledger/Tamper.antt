-- ===== src/Ledger/Tamper.antt =====
-- lib/pg-signing-logger.js: what a verified ledger commits to.
use tanden_trust_audit_poc.Base.{
  ℕ, String, Option, some, none, ok, ◌≡◌, refl, sym, ap, ◌∙◌, ◌⊎◌, inl, inr, ◌≢◌, List, [], ◌∷◌,
  arith, length,
}
use mathlib.Core.List.{Memᴰ}
use mathlib.Core.List.Memᴰ.{head, tail}
use tanden_trust_audit_poc.Json.{Json, Fields, str, obj, get_field}
use tanden_trust_audit_poc.Platform.{Crypto}
use tanden_trust_audit_poc.Ledger.Row.{
  Row, HashInput, genesis_hash, hash_fields, hash_object, compute_row_hash,
}
use tanden_trust_audit_poc.Ledger.Verify.{valid, verify_signing_event_rows}
use tanden_trust_audit_poc.Ledger.Chain.{Chain, verify_signing_event_rows_iff}

module _ (crypto : Crypto) where
  -- Two events with the same fields; their payloads are one JSON value up to RFC 8785.
  pub record SameEvent (a b : HashInput) : Type 0 where
    pub same_id : a.event_id ≡ b.event_id
    pub same_type : a.event_type ≡ b.event_type
    pub same_payload : crypto.canonicalize a.payload ≡ crypto.canonicalize b.payload
    pub same_signature : a.signature ≡ b.signature
    pub same_previous : a.previous_hash ≡ b.previous_hash

  -- The members of two JSON objects under one key: neither has it, or both have the same value up to
  -- RFC 8785.
  abbrev pub SameMember : Option Json → Option Json → Type 0
  SameMember none none = Unit
  SameMember (some v) (some w) = crypto.canonicalize v ≡ crypto.canonicalize w
  SameMember _ _ = ⊥

  -- An RFC 8785 text is a JSON text of the value that it prints: it determines a text, and the
  -- members of an object.
  pub record IsJsonText : Type 0 where
    pub text_lem :
        (s t : String) → crypto.canonicalize (str s) ≡ crypto.canonicalize (str t) → s ≡ t
    pub member_lem :
        (fs gs : Fields) (text : crypto.CanonicalText) (key : String)
        → crypto.canonicalize (obj fs) ≡ some text
        → crypto.canonicalize (obj gs) ≡ some text
        → SameMember (get_field key fs) (get_field key gs)

  -- Two rows of the two ledgers whose hashed texts differ, with one SHA-256 digest.
  pub record Collision (rows others : List Row) : Type 0 where
    pub one : Row
    pub other : Row
    pub among_rows : Memᴰ one rows
    pub among_others : Memᴰ other others
    pub text : crypto.CanonicalText
    pub text' : crypto.CanonicalText
    pub printed : crypto.canonicalize (hash_object one.input) ≡ some text
    pub printed' : crypto.canonicalize (hash_object other.input) ≡ some text'
    pub texts_differ : text ≢ text'
    pub one_digest : crypto.sha256_hex text ≡ crypto.sha256_hex text'

  -- The same events with the same hashes, in the same order.
  abbrev pub SameRows : List Row → List Row → Type 0
  SameRows [] [] = Unit
  SameRows (a ∷ rows) (b ∷ others) =
      SameEvent a.input b.input × (a.row_hash ≡ b.row_hash) × SameRows rows others
  SameRows _ _ = ⊥

  hash-eq-ok :
      (a : HashInput) (hash : String)
      → compute_row_hash crypto a ≡ ok hash
      → (text : crypto.CanonicalText) × (crypto.canonicalize (hash_object a) ≡ some text)
        × (crypto.sha256_hex text ≡ hash)
  hash-eq-ok a hash h = go (crypto.canonicalize (hash_object a)) refl
    where
      go :
          (o : Option crypto.CanonicalText)
          → crypto.canonicalize (hash_object a) ≡ o
          → (text : crypto.CanonicalText) × (crypto.canonicalize (hash_object a) ≡ some text)
            × (crypto.sha256_hex text ≡ hash)
      go none e = absurd (unfold compute_row_hash in ground arith)
      go (some text) e = (text, e, unfold compute_row_hash in ground arith)

  -- Every field of an event is a member of the object that is hashed.
  hash_object-SameEvent :
      IsJsonText
      → (a b : HashInput) (text : crypto.CanonicalText)
      → crypto.canonicalize (hash_object a) ≡ some text
      → crypto.canonicalize (hash_object b) ≡ some text
      → SameEvent a b
  unfolding get_field
  hash_object-SameEvent laws a b text ha hb =
      let member =
        λ (key : String). laws.member_lem (hash_fields a) (hash_fields b) text key ha hb in
      record {
        same_id = laws.text_lem a.event_id b.event_id (member "eventId");
        same_type = laws.text_lem a.event_type b.event_type (member "eventType");
        same_payload = member "payload";
        same_signature = laws.text_lem a.signature b.signature (member "signature");
        same_previous = laws.text_lem a.previous_hash b.previous_hash (member "previousHash");
      }

  same_hash :
      IsJsonText
      → (rows others : List Row) (a b : Row) (hash : String) → Memᴰ a rows
      → Memᴰ b others
      → compute_row_hash crypto a.input ≡ ok hash
      → compute_row_hash crypto b.input ≡ ok hash
      → SameEvent a.input b.input ⊎ Collision rows others
  same_hash laws rows others a b hash ma mb ha hb =
      let (s, sa, sh) = hash-eq-ok a.input hash ha in
      let (t, tb, th) = hash-eq-ok b.input hash hb in
      elim (crypto.text_discrete s t) [
        | yes e ↦ inl (hash_object-SameEvent laws a.input b.input s sa (tb ∙ ap some (sym e)))
        | no n ↦ inr (record {
          one = a;
          other = b;
          among_rows = ma;
          among_others = mb;
          text = s;
          text' = t;
          printed = sa;
          printed' = tb;
          texts_differ = n;
          one_digest = sh ∙ sym th;
        })
      ]

  later :
      {a b : Row} {rows others : List Row}
      → Collision rows others
      → Collision (a ∷ rows) (b ∷ others)
  later c = record {
    one = c.one;
    other = c.other;
    among_rows = tail c.among_rows;
    among_others = tail c.among_others;
    text = c.text;
    text' = c.text';
    printed = c.printed;
    printed' = c.printed';
    texts_differ = c.texts_differ;
    one_digest = c.one_digest;
  }

  Chain-SameRows :
      IsJsonText
      → (rows others : List Row) (before before' last : String) → length rows ≡ length others
      → Chain crypto before rows last
      → Chain crypto before' others last
      → ((before ≡ before') × SameRows rows others) ⊎ Collision rows others
  Chain-SameRows laws [] [] before before' last n c c' = inl (c ∙ sym c', tt)
  Chain-SameRows laws [] (b ∷ others) before before' last n c c' = absurd (omega arith)
  Chain-SameRows laws (a ∷ rows) [] before before' last n c c' = absurd (omega arith)
  Chain-SameRows laws (a ∷ rows) (b ∷ others) before before' last n (l, c) (l', c') =
      elim (Chain-SameRows laws rows others a.row_hash b.row_hash last (omega arith) c c') [
        | inr found ↦ inr (later found)
        | inl (same, rest) ↦
            elim (same_hash laws (a ∷ rows) (b ∷ others) a b a.row_hash (head refl) (head refl) l.1
              (l'.1 ∙ ap ok (sym same))) [
                | inr found ↦ inr found
                | inl event ↦ inl (sym l.0 ∙ event.same_previous ∙ l'.0, (event, same, rest))
              ]
      ]

  -- Two ledgers that verify with the same number of events and the same last hash hold the same
  -- events in the same order, or else a row of one and a row of the other exhibit a collision of
  -- SHA-256: if the RFC 8785 text of an object determines its members.
  pub verify_signing_event_rows-SameRows :
      IsJsonText
      → (rows others : List Row) (n : ℕ) (last : String)
      → verify_signing_event_rows crypto rows ≡ ok (valid n last)
      → verify_signing_event_rows crypto others ≡ ok (valid n last)
      → SameRows rows others ⊎ Collision rows others
  verify_signing_event_rows-SameRows laws rows others n last h h' =
      let (m, c) = (verify_signing_event_rows_iff crypto rows n last).0 h in
      let (m', c') = (verify_signing_event_rows_iff crypto others n last).0 h' in
      elim (Chain-SameRows laws rows others genesis_hash genesis_hash last (sym m ∙ m') c c') [
        | inr found ↦ inr found
        | inl same ↦ inl same.1
      ]
