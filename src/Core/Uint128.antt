-- ===== src/Core/Uint128.antt =====
-- internal/core/uint128.go: the unsigned 128-bit integers in which all amounts are kept.
pub mod Arith
pub mod Forms
use aequitas_ledger.Prelude.{
  ℕ, ◌+◌, ◌*◌, ◌/◌, ◌%◌, ◌<◌, ◌^◌, Bool, ◌&&◌, ◌||◌, ltb, ◌==◌, ◌!=◌, Result, ok, err,
  if◌then◌else◌,
}
use aequitas_ledger.Prelude.Words.{word, add64, sub64, mul64}

pub data WordError : Type 0 where
  uint128_overflow uint128_underflow invalid_uint128_binary invalid_uint128_string : WordError

pub record Uint128 : Type 0 where
  pub lo : ℕ
  pub hi : ℕ

-- The three results of `Cmp`: -1, 0 and 1.
pub data Sign : Type 0 where
  less same greater : Sign

unfoldable pub cmp : Uint128 → Uint128 → Sign
cmp a b =
    if ltb a.hi b.hi
    then less
    else if ltb b.hi a.hi
    then greater
    else if ltb a.lo b.lo
    then less
    else if ltb b.lo a.lo
    then greater
    else same

abbrev pub is_less : Sign → Bool
is_less less = Bool.true
is_less same = Bool.false
is_less greater = Bool.false

abbrev pub is_greater : Sign → Bool
is_greater less = Bool.false
is_greater same = Bool.false
is_greater greater = Bool.true

abbrev pub is_same : Sign → Bool
is_same less = Bool.false
is_same same = Bool.true
is_same greater = Bool.false

unfoldable pub add : Uint128 → Uint128 → Result WordError Uint128
add a b =
    let (lo, carry) = add64 a.lo b.lo 0 in
    let (hi, carry_hi) = add64 a.hi b.hi carry in
    if carry_hi != 0 then err uint128_overflow else ok (record { lo = lo; hi = hi })

unfoldable pub sub : Uint128 → Uint128 → Result WordError Uint128
unfolding cmp
sub a b =
    let (lo, borrow) = sub64 a.lo b.lo 0 in
    let (hi, borrow_hi) = sub64 a.hi b.hi borrow in
    if is_less (cmp a b)
    then err uint128_underflow
    else if borrow_hi != 0
    then err uint128_underflow
    else ok (record { lo = lo; hi = hi })

unfoldable pub is_zero : Uint128 → Bool
is_zero a = a.hi == 0 && a.lo == 0

unfoldable pub from_uint64 : ℕ → Uint128
from_uint64 v = record { lo = v; hi = 0 }

-- `mul64` of uint128.go
unfoldable pub mul_word : Uint128 → ℕ → Result WordError Uint128
mul_word a m =
    let (hi_hi, hi_lo) = mul64 a.hi m in
    let (lo_hi, lo_lo) = mul64 a.lo m in
    let (new_hi, carry) = add64 hi_lo lo_hi 0 in
    if hi_hi != 0 || carry != 0
    then err uint128_overflow
    else ok (record { lo = lo_lo; hi = new_hi })

-- The number that the two words stand for, and the range of the words.
abbrev pub val : Uint128 → ℕ
val a = a.hi * word + a.lo

abbrev pub IsWide : Uint128 → Type 0
IsWide a = (a.lo < word) × (a.hi < word)

-- The bound of the type, and the value of a number below it.
abbrev pub limit : ℕ
limit = 2 ^ 128

abbrev pub of_val : ℕ → Uint128
of_val n = record { lo = n % word; hi = n / word }
