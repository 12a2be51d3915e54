-- ===== src/Engine/Ring/Slots.antt =====
-- Slots of internal/engine/ring_buffer.go: numbers less than a size apart have different ones.
use native.Mathlib.Nat.{mod-lt, mod-add-mod, mod-eq_of_lt, mod-eq-sub-mod}
use native.Mathlib.Decide.{dec_lt}
use aequitas_ledger.Prelude.{
  ℕ, zero, suc, ◌+◌, ◌-◌, ◌%◌, ◌≤◌, ◌<◌, ◌≡◌, ◌≢◌, refl, sym, arith, List, [], ◌∷◌, ◌++◌, length,
  get_elem?, take, drop, some, ap,
}

-- Counting up from `a` by less than a round does not come back to its slot.
pub mod-ne : (n a d : ℕ) → suc d < n → (a + suc d) % n ≢ a % n
mod-ne n a d h same =
    let r = a % n in
    let small : r < n = mod-lt a (omega arith) in
    elim (dec_lt (r + suc d) n) [
      | yes p ↦ omega (arith, mod-add-mod a n (suc d), mod-eq_of_lt p)
      | no p ↦ omega (
        arith,
        mod-add-mod a n (suc d),
        mod-eq-sub-mod {n = r + suc d} {m = n} (omega arith),
        mod-eq_of_lt {n = r + suc d - n} {m = n} (omega arith),
      )
    ]

-- Numbers of one window of a size that have one slot are the same.
pub slot_inj :
    (n low a b : ℕ) → low ≤ a → a < low + n → low ≤ b → b < low + n → a % n ≡ b % n → a ≡ b
slot_inj n low a b ha ha' hb hb' same = elim (dec_lt a b) [
  | yes p ↦
      let split : a + suc (b - a - 1) ≡ b = omega arith in
      absurd (mod-ne n a (b - a - 1) (omega arith) (rw split (sym same)))
  | no p ↦ elim (dec_lt b a) [
    | yes q ↦
        let split : b + suc (a - b - 1) ≡ a = omega arith in
        absurd (mod-ne n b (a - b - 1) (omega arith) (rw split same))
    | no q ↦ omega arith
  ]
]

module _ {ℓ} {A : Type ℓ} where
  pub take-append_le : (k : ℕ) (xs ys : List A) → k ≤ length xs → take k (xs ++ ys) ≡ take k xs
  take-append_le zero xs ys h = refl
  take-append_le (suc k) [] ys h = absurd (omega arith)
  take-append_le (suc k) (x ∷ xs) ys h = ap (λ l. x ∷ l) (take-append_le k xs ys (omega arith))

  pub take-suc :
      (k : ℕ) (xs : List A) {a : A}
      → get_elem? xs k ≡ some a
      → take (suc k) xs ≡ take k xs ++ a ∷ []
  take-suc k [] h = cc
  take-suc zero (x ∷ xs) h = cc
  take-suc (suc k) (x ∷ xs) h = ap (λ l. x ∷ l) (take-suc k xs h)

  pub take-drop :
      (k t : ℕ) (xs : List A) {a : A}
      → get_elem? xs t ≡ some a
      → take (suc k) (drop t xs) ≡ a ∷ take k (drop (suc t) xs)
  take-drop k t [] h = cc
  take-drop k zero (x ∷ xs) h = cc
  take-drop k (suc t) (x ∷ xs) h = take-drop k t xs h
