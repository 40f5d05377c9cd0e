-- ===== src/Base/Throws.antt =====
-- Code that may throw: a value, or the error that it throws.
use mathlib.Core.Path.{◌≡◌, refl}
use mathlib.Core.Bool.{Bool, true, false}

pub data Result {ℓ κ} (E : Type ℓ) (A : Type κ) : Type (ℓ ⊔ κ) where
  ok : A → Result E A
  err : E → Result E A

infixl 5 ◌>>=◌ ◌>>◌
abbrev pub ◌>>=◌ {ℓ κ μ} :
    {E : Type ℓ} {A : Type κ} {B : Type μ} → Result E A → (A → Result E B) → Result E B
ok a >>= f = f a
err e >>= f = err e

abbrev pub ◌>>◌ {ℓ κ} : {E : Type ℓ} {B : Type κ} → Result E (Unit {0}) → Result E B → Result E B
m >> k = m >>= λ _. k

-- `if (!test) throw e`.
abbrev pub require {ℓ} : {E : Type ℓ} → Bool → E → Result E (Unit {0})
require true e = ok tt
require false e = err e

-- `if (test) throw e`.
abbrev pub throw_if {ℓ} : {E : Type ℓ} → Bool → E → Result E (Unit {0})
throw_if true e = err e
throw_if false e = ok tt

-- `try { m } catch (cause) { throw f(cause) }`.
abbrev pub map_err {ℓ κ μ} :
    {E : Type ℓ} {F : Type κ} {A : Type μ} → (E → F) → Result E A → Result F A
map_err f (ok a) = ok a
map_err f (err e) = err (f e)

module _ {ℓ κ} {E : Type ℓ} {A : Type κ} where
  pub >>=-ok {μ} :
      {B : Type μ} (m : Result E A) (f : A → Result E B) {b : B}
      → m >>= f ≡ ok b
      → (a : A) × (m ≡ ok a) × (f a ≡ ok b)
  >>=-ok (ok a) f h = (a, refl, h)
  >>=-ok (err e) f h = cc

  pub ok_injective : {a b : A} (m : Result E A) → m ≡ ok a → m ≡ ok b → a ≡ b
  ok_injective m h h' = cc

  pub map_err-ok {μ} :
      {F : Type μ} (f : E → F) (m : Result E A) {a : A} → map_err f m ≡ ok a → m ≡ ok a
  map_err-ok f (ok a) h = cc
  map_err-ok f (err e) h = cc

module _ {ℓ} {E : Type ℓ} where
  pub require-ok : (b : Bool) (e : E) {u : Unit {0}} → require b e ≡ ok u → b ≡ true
  require-ok true e h = refl
  require-ok false e h = cc

  pub throw_if-ok : (b : Bool) (e : E) {u : Unit {0}} → throw_if b e ≡ ok u → b ≡ false
  throw_if-ok false e h = refl
  throw_if-ok true e h = cc
