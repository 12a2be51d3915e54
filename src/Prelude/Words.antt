-- ===== src/Prelude/Words.antt =====
-- Machine words as native numbers: Go's `math/bits`, and words written most significant byte first.
use Prim.Native.Nat.{ℕ, ◌+◌, ◌-◌, ◌*◌, ◌/◌, ◌%◌, ◌^◌}
use mathlib.Core.Bool.{Bool}
use aequitas_ledger.Prelude.Tests.{ltb, if◌then◌else◌}

abbrev pub word : ℕ
word = 2 ^ 64

-- `bits.Add64`: the sum and the carry out.
abbrev pub add64 : ℕ → ℕ → ℕ → ℕ × ℕ
add64 x y carry = ((x + y + carry) % word, (x + y + carry) / word)

-- `bits.Sub64`: the difference and the borrow out.
abbrev pub sub64 : ℕ → ℕ → ℕ → ℕ × ℕ
sub64 x y borrow = ((x + word - y - borrow) % word, if ltb x (y + borrow) then 1 else 0)

-- `bits.Mul64`: the high and the low word of the product.
abbrev pub mul64 : ℕ → ℕ → ℕ × ℕ
mul64 x y = ((x * y) / word, (x * y) % word)

-- `<` on the bit patterns of two int64 values.
abbrev pub signed_less : ℕ → ℕ → Bool
signed_less x y = ltb ((x + 2 ^ 63) % word) ((y + 2 ^ 63) % word)
