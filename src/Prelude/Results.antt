-- ===== src/Prelude/Results.antt =====
-- Go's `(value, error)` returns: a value, or an error and no value.
use mathlib.Core.Path.{◌≡◌, refl}
use mathlib.Core.Logic.{◌⊎◌, inl, inr}
use mathlib.Core.Bool.{Bool, true, false}
use mathlib.Core.Option.{Option, none, some}

pub data Result {ℓ κ} (E : Type ℓ) (A : Type κ) : Type (ℓ ⊔ κ) where
  ok : A → Result E A
  err : E → Result E A

module _ {ℓ κ ι} {E : Type ℓ} {A : Type κ} {B : Type ι} where
  infixl 5 ◌>>=◌
  abbrev pub ◌>>=◌ : Result E A → (A → Result E B) → Result E B
  ok a >>= f = f a
  err e >>= f = err e

-- `if err != nil { return Other{…} }`: the callee's error is replaced.
module _ {ℓ κ ι} {D : Type ℓ} {E : Type κ} {A : Type ι} where
  abbrev pub or_else : Result D A → E → Result E A
  or_else (ok a) e = ok a
  or_else (err d) e = err e

-- `v, ok := …; if !ok { return e }`
module _ {ℓ κ} {E : Type ℓ} {A : Type κ} where
  abbrev pub or_missing : Option A → E → Result E A
  or_missing none e = err e
  or_missing (some a) e = ok a

-- `if test { return e }`
module _ {ℓ} {E : Type ℓ} where
  abbrev pub fail_if : Bool → E → Result E (Unit {0})
  fail_if true e = err e
  fail_if false e = ok tt

module _ {ℓ κ} {E : Type ℓ} {B : Type κ} where
  infixl 5 ◌>>◌
  abbrev pub ◌>>◌ : Result E (Unit {0}) → Result E B → Result E B
  ok u >> m = m
  err e >> m = err e

pub Result-cases {ℓ κ} :
    {E : Type ℓ} {A : Type κ} (r : Result E A) → ((a : A) × (r ≡ ok a)) ⊎ ((e : E) × (r ≡ err e))
Result-cases (ok a) = inl (a, refl)
Result-cases (err e) = inr (e, refl)
