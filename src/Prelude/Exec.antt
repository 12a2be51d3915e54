-- ===== src/Prelude/Exec.antt =====
-- Methods that write and may fail: what was written before the failure stays.
use mathlib.Core.Path.{◌≡◌, refl, sym, ap}
use aequitas_ledger.Prelude.Results.{Result, ok, err}

abbrev pub Exec : Type 0 → Type 0 → Type 0 → Type 0
Exec E S A = S → Result E A × S

module _ {E S : Type 0} where
  infixl 5 ◌>>=◌ ◌>>◌
  abbrev pub ◌>>=◌ : {A B : Type 0} → Exec E S A → (A → Exec E S B) → Exec E S B
  ◌>>=◌ m f s = let (r, s') = m s in elim r [ ok a ↦ f a s' | err e ↦ (err e, s') ]

  abbrev pub ◌>>◌ : {B : Type 0} → Exec E S (Unit {0}) → Exec E S B → Exec E S B
  m >> k = m >>= λ _. k

  abbrev pub lift : {A : Type 0} → Result E A → Exec E S A
  lift r m = (r, m)

  abbrev pub modify : (S → S) → Exec E S (Unit {0})
  modify f m = (ok tt, f m)

  -- A block whose first step succeeds goes on from there.
  pub bind_runs :
      {A B : Type 0} (act : Exec E S A) (f : A → Exec E S B) (s : S) {a : A} {s' : S}
      → act s ≡ (ok a, s')
      → (act >>= f) s ≡ f a s'
  bind_runs {A} {B} act f s h =
      ap
        (λ (x : Result E A × S). elim x.0 as (λ y. Result E B × S) [
          | ok a ↦ f a x.1
          | err e ↦ (err e, x.1)
        ])
        h

  -- A block that succeeds: its first step succeeded, and the rest from where that step ended.
  pub bind_ok :
      {A B : Type 0} (act : Exec E S A) (f : A → Exec E S B) (s : S) {b : B} {s' : S}
      → (act >>= f) s ≡ (ok b, s')
      → (a : A) × (s₁ : S) × (act s ≡ (ok a, s₁)) × (f a s₁ ≡ (ok b, s'))
  bind_ok {A} {B} act f s {b} {s'} h = go (act s) refl h
    where
      go :
          (r : Result E A × S)
          → act s ≡ r
          → elim r.0 [ ok a ↦ f a r.1 | err e ↦ (err e, r.1) ] ≡ (ok b, s')
          → (a : A) × (s₁ : S) × (act s ≡ (ok a, s₁)) × (f a s₁ ≡ (ok b, s'))
      go (ok a, s₁) e k = (a, s₁, e, k)
      go (err x, s₁) e k = absurd (cc)

module _ {E S : Type 0} where
  -- A step that can fail, followed by a write that cannot.
  pub modify_ok :
      (act : Exec E S (Unit {0})) (f : S → S) (s : S) {s' : S}
      → (act >> modify f) s ≡ (ok tt, s')
      → (s₁ : S) × (act s ≡ (ok tt, s₁)) × (s' ≡ f s₁)
  modify_ok act f s h =
      let (u, s₁, e₁, e₂) = bind_ok act (λ _. modify f) s h in (s₁, e₁, ap (λ p. p.1) (sym e₂))
