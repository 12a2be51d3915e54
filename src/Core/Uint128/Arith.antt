-- ===== src/Core/Uint128/Arith.antt =====
-- The word arithmetic of internal/core/uint128.go against the natural numbers.
use aequitas_ledger.Prelude.{ℕ, ◌+◌, ◌-◌, ◌≡◌, arith, ltb, ok, err, if◌then◌else◌, ◌==◌}
use aequitas_ledger.Core.Uint128.{
  Uint128, uint128_overflow, uint128_underflow, Sign, less, same, greater, cmp, add, sub, is_zero,
  val, IsWide, limit, of_val,
}

-- The order of two numbers, as `Cmp` reports it.
abbrev pub sign_of : ℕ → ℕ → Sign
sign_of x y = if ltb x y then less else if ltb y x then greater else same

-- Comparison of two 128-bit numbers reports the order of their values.
pub cmp-val : (a b : Uint128) → IsWide a → IsWide b → cmp a b ≡ sign_of (val a) (val b)
unfolding cmp
cmp-val a b ha hb = ground arith

-- Addition of 128-bit numbers is exact, and refused exactly when the sum does not fit into 128 bits.
pub add-val :
    (a b : Uint128)
    → IsWide a
    → IsWide b
    → add a b
      ≡ (if ltb (val a + val b) limit then ok (of_val (val a + val b)) else err uint128_overflow)
unfolding add
add-val a b ha hb = ground arith

-- Subtraction of 128-bit numbers is exact, and refused exactly when the result is below zero.
pub sub-val :
    (a b : Uint128)
    → IsWide a
    → IsWide b
    → sub a b ≡ (if ltb (val a) (val b) then err uint128_underflow else ok (of_val (val a - val b)))
unfolding sub
sub-val a b ha hb = ground arith

pub is_zero-val : (a : Uint128) → is_zero a ≡ (val a == 0)
unfolding is_zero
is_zero-val a = ground arith

-- What is known of an operation that succeeded.
pub add_ok : (a b : Uint128) {c : Uint128} → add a b ≡ ok c → (val c ≡ val a + val b) × IsWide c
unfolding add
add_ok a b h = ground arith

pub sub_ok :
    (a b : Uint128) {c : Uint128}
    → IsWide a
    → IsWide b
    → sub a b ≡ ok c
    → (val a ≡ val c + val b) × IsWide c
unfolding sub cmp
sub_ok a b ha hb h = ground arith
