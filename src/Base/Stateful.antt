-- ===== src/Base/Stateful.antt =====
-- Code that reads and writes a state and may throw: the state that an error leaves behind is kept.
use tanden_trust_audit_poc.Base.Throws.{Result, ok, err}

abbrev pub Stateful {ℓ κ μ} : Type ℓ → Type κ → Type μ → Type (ℓ ⊔ κ ⊔ μ)
Stateful S E A = S → Result E A × S

abbrev pub continue {ℓ κ μ ν} :
    {S : Type ℓ} {E : Type κ} {A : Type μ} {B : Type ν}
    → (A → Stateful S E B)
    → Result E A × S
    → Result E B × S
continue f (ok a, s) = f a s
continue f (err e, s) = (err e, s)

infixl 5 ◌>>=◌ ◌>>◌
abbrev pub ◌>>=◌ {ℓ κ μ ν} :
    {S : Type ℓ} {E : Type κ} {A : Type μ} {B : Type ν}
    → Stateful S E A
    → (A → Stateful S E B)
    → Stateful S E B
◌>>=◌ m f s = continue f (m s)

abbrev pub ◌>>◌ {ℓ κ ν} :
    {S : Type ℓ} {E : Type κ} {B : Type ν}
    → Stateful S E (Unit {0})
    → Stateful S E B
    → Stateful S E B
m >> k = m >>= λ _. k

-- A step that leaves the state alone.
abbrev pub lift {ℓ κ μ} : {S : Type ℓ} {E : Type κ} {A : Type μ} → Result E A → Stateful S E A
lift r s = (r, s)
