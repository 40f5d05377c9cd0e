-- ===== src/Gates/Reordered.antt =====
-- scripts/run-verification-evidence-gate.js: the digest of an evidence document does not depend on
-- the order of members.
use tanden_trust_audit_poc.Base.{
  ◌≡◌, ◌≢◌, refl, ap, ◌∙◌, arith, ℕ, String, true, false, List, [], ◌∷◌,
}
use Prim.Native.String.{◌++◌}
use tanden_trust_audit_poc.Json.{Json, Items, Fields}
use tanden_trust_audit_poc.Gates.Stable.{
  utf16, units_leb, Member, insert, sort, join, member_texts, stable_stringify, item_texts, members,
}

units_leb_total : (xs ys : List ℕ) → units_leb xs ys ≡ false → units_leb ys xs ≡ true
unfolding units_leb
units_leb_total [] ys h = absurd (ground arith)
units_leb_total (x ∷ xs) [] h = refl
units_leb_total (x ∷ xs) (y ∷ ys) h = ground (arith, units_leb_total xs ys)

units_leb_antisym : (xs ys : List ℕ) → units_leb xs ys ≡ true → units_leb ys xs ≡ true → xs ≡ ys
unfolding units_leb
units_leb_antisym [] [] h k = refl
units_leb_antisym [] (y ∷ ys) h k = absurd (ground arith)
units_leb_antisym (x ∷ xs) [] h k = absurd (ground arith)
units_leb_antisym (x ∷ xs) (y ∷ ys) h k = ground (arith, units_leb_antisym xs ys)

units_leb_trans :
    (xs ys zs : List ℕ) → units_leb xs ys ≡ true → units_leb ys zs ≡ true → units_leb xs zs ≡ true
unfolding units_leb
units_leb_trans [] ys zs h k = refl
units_leb_trans (x ∷ xs) [] zs h k = absurd (ground arith)
units_leb_trans (x ∷ xs) (y ∷ ys) [] h k = absurd (ground arith)
units_leb_trans (x ∷ xs) (y ∷ ys) (z ∷ zs) h k = ground (arith, units_leb_trans xs ys zs)

-- Two members of different keys are put in the same places, whichever is inserted first.
insert-insert :
    (m n : Member) (ms : List Member)
    → utf16 m.0 ≢ utf16 n.0
    → insert m (insert n ms) ≡ insert n (insert m ms)
unfolding insert
insert-insert m n [] d =
    ground
      (arith, units_leb_total (utf16 m.0) (utf16 n.0), units_leb_antisym (utf16 m.0) (utf16 n.0))
insert-insert m n (p ∷ ps) d = ground (
  arith,
  units_leb_total (utf16 m.0) (utf16 n.0),
  units_leb_antisym (utf16 m.0) (utf16 n.0),
  units_leb_trans (utf16 n.0) (utf16 m.0) (utf16 p.0),
  units_leb_trans (utf16 m.0) (utf16 n.0) (utf16 p.0),
  insert-insert m n ps d,
)

-- Documents that differ in the order of the members of their objects, at any depth. Two members
-- change places only if their keys differ, as those of an object do.
mutual
  pub data Reordered : Json → Json → Type 0 where
    same : {j : Json} → Reordered j j
    arr : {xs ys : Items} → ReorderedItems xs ys → Reordered (Json.arr xs) (Json.arr ys)
    obj : {fs gs : Fields} → ReorderedFields fs gs → Reordered (Json.obj fs) (Json.obj gs)

  pub data ReorderedItems : Items → Items → Type 0 where
    nil : ReorderedItems Items.nil Items.nil
    cons :
        {x y : Json} {xs ys : Items}
        → Reordered x y
        → ReorderedItems xs ys
        → ReorderedItems (Items.cons x xs) (Items.cons y ys)

  pub data ReorderedFields : Fields → Fields → Type 0 where
    end : ReorderedFields Fields.end Fields.end
    field :
        {key : String} {v w : Json} {fs gs : Fields}
        → Reordered v w
        → ReorderedFields fs gs
        → ReorderedFields (Fields.field key v fs) (Fields.field key w gs)
    swap :
        {key key' : String} {v w : Json} {fs : Fields}
        → utf16 key ≢ utf16 key'
        → ReorderedFields
            (Fields.field key v (Fields.field key' w fs))
            (Fields.field key' w (Fields.field key v fs))
    followed_by :
        {fs gs hs : Fields} → ReorderedFields fs gs → ReorderedFields gs hs → ReorderedFields fs hs

module _ (quote : String → String) where
  mutual
    unfolding stable_stringify sort

    pub Reordered-stable_stringify :
        {j k : Json} → Reordered j k → stable_stringify quote j ≡ stable_stringify quote k
    Reordered-stable_stringify same = refl
    Reordered-stable_stringify (arr rs) =
        ap (λ ts. "[" ++ (join ts ++ "]")) (ReorderedItems-item_texts rs)
    Reordered-stable_stringify (obj rs) =
        ap (λ ms. "{" ++ (join (member_texts quote ms) ++ "}")) (ReorderedFields-sort rs)

    ReorderedItems-item_texts :
        {xs ys : Items} → ReorderedItems xs ys → item_texts quote xs ≡ item_texts quote ys
    ReorderedItems-item_texts nil = refl
    ReorderedItems-item_texts (cons r rs) =
        rw (Reordered-stable_stringify r, ReorderedItems-item_texts rs) refl

    ReorderedFields-sort :
        {fs gs : Fields} → ReorderedFields fs gs → sort (members quote fs) ≡ sort (members quote gs)
    ReorderedFields-sort end = refl
    ReorderedFields-sort (field r rs) =
        rw (Reordered-stable_stringify r, ReorderedFields-sort rs) refl
    ReorderedFields-sort (swap {key} {key'} {v} {w} {fs} d) =
        insert-insert (key, stable_stringify quote v) (key', stable_stringify quote w)
          (sort (members quote fs)) d
    ReorderedFields-sort (followed_by r s) = ReorderedFields-sort r ∙ ReorderedFields-sort s
