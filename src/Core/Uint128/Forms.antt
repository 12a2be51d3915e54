-- ===== src/Core/Uint128/Forms.antt =====
-- The decimal and the binary form of internal/core/uint128.go. `String` prints by math/big and is
-- left out.
use aequitas_ledger.Prelude.{
  ℕ, ◌+◌, ◌*◌, ◌-◌, ◌≤◌, ◌<◌, ◌≡◌, arith, Bool, true, ◌&&◌, ◌||◌, leb, ltb, ◌!=◌, List, [], ◌∷◌,
  ◌++◌, length, length-append, Result, ok, err, ◌>>=◌, ◌>>◌, fail_if, if◌then◌else◌, Bool-cases,
  Result-cases, inl, inr,
}
use aequitas_ledger.Prelude.Bytes.{put_be, field, skip, length-put_be, field-put_be, skip-put_be}
use aequitas_ledger.Core.Uint128.{
  Uint128, WordError, uint128_overflow, invalid_uint128_string, invalid_uint128_binary, add,
  mul_word, from_uint64, val, IsWide, limit, of_val,
}
use aequitas_ledger.Core.Uint128.Arith.{add-val}

-- The loop over the bytes of the text, with the number read so far.
unfoldable from_digits : Uint128 → List ℕ → Result WordError Uint128
from_digits acc [] = ok acc
from_digits acc (c ∷ cs) = do
  fail_if (ltb c 48 || ltb 57 c) invalid_uint128_string
  tens ← mul_word acc 10
  next ← add tens (from_uint64 (c - 48))
  from_digits next cs

unfoldable pub from_string : List ℕ → Result WordError Uint128
unfolding from_digits
from_string [] = err invalid_uint128_string
from_string (c ∷ cs) = from_digits (from_uint64 0) (c ∷ cs)

unfoldable pub marshal_binary : Uint128 → List ℕ
marshal_binary a = put_be 8 a.hi ++ (put_be 8 a.lo ++ [])

unfoldable pub unmarshal_binary : List ℕ → Result WordError Uint128
unmarshal_binary b =
    if length b != 16
    then err invalid_uint128_binary
    else ok (record { hi = field 8 b; lo = field 8 (skip 8 b) })

-- The bytes of a decimal numeral, and the number that it denotes after one read before it.
abbrev pub is_numeral : List ℕ → Bool
is_numeral [] = Bool.true
is_numeral (c ∷ cs) = leb 48 c && leb c 57 && is_numeral cs

abbrev pub denotes : ℕ → List ℕ → ℕ
denotes acc [] = acc
denotes acc (c ∷ cs) = denotes (acc * 10 + (c - 48)) cs

le-denotes : (acc : ℕ) (cs : List ℕ) → acc ≤ denotes acc cs
le-denotes acc [] = omega arith
le-denotes acc (c ∷ cs) = omega (arith, le-denotes (acc * 10 + (c - 48)) cs)

mul_word-val :
    (a : Uint128)
    → IsWide a
    → mul_word a 10
      ≡ (if ltb (val a * 10) limit then ok (of_val (val a * 10)) else err uint128_overflow)
unfolding mul_word
mul_word-val a h = ground arith

of_val-IsWide : (n : ℕ) → n < limit → IsWide (of_val n)
of_val-IsWide n h = (omega arith, omega arith)

val-of_val : (n : ℕ) → val (of_val n) ≡ n
val-of_val n = omega arith

-- One digit more: the product and the sum are exact, or one of them is refused.
next_digit : Uint128 → ℕ → Result WordError Uint128
next_digit acc d = do tens ← mul_word acc 10; add tens (from_uint64 d)

next_digit-val :
    (acc : Uint128) (d : ℕ)
    → IsWide acc
    → d < 10
    → next_digit acc d ≡ (
        if ltb (val acc * 10 + d) limit
        then ok (of_val (val acc * 10 + d))
        else err uint128_overflow)
unfolding next_digit from_uint64
next_digit-val acc d h k = elim (Bool-cases (ltb (val acc * 10) limit)) [
  | inl fits ↦
      let tens = of_val (val acc * 10) in
      let wide : IsWide tens = of_val-IsWide (val acc * 10) (ground arith) in
      let sum = add-val tens (record { lo = d; hi = 0 }) wide (omega arith, omega arith) in
      ground (arith, mul_word-val acc h, sum, val-of_val (val acc * 10))
  | inr over ↦ ground (arith, mul_word-val acc h)
]

from_digits-next :
    (acc : Uint128) (c : ℕ) (cs : List ℕ)
    → 48 ≤ c
    → c ≤ 57
    → from_digits acc (c ∷ cs) ≡ (next_digit acc (c - 48) >>= λ next. from_digits next cs)
unfolding from_digits next_digit
from_digits-next acc c cs h k = elim (Result-cases (mul_word acc 10)) [
  | inl (tens, e) ↦ ground arith
  | inr (w, e) ↦ ground arith
]

from_digits-denotes :
    (acc : Uint128) (cs : List ℕ)
    → IsWide acc
    → is_numeral cs ≡ true
    → from_digits acc cs ≡ (
        if ltb (denotes (val acc) cs) limit
        then ok (of_val (denotes (val acc) cs))
        else err uint128_overflow)
unfolding from_digits
from_digits-denotes acc [] h n = ground arith
from_digits-denotes acc (c ∷ cs) h n =
    let d = c - 48 in
    let total = val acc * 10 + d in
    let split = next_digit-val acc d h (ground arith) in
    elim (Bool-cases (ltb total limit)) [
      | inl fits ↦
          rw (from_digits-next acc c cs (ground arith) (ground arith), split, fits)
            (rw (val-of_val total) at (
              from_digits-denotes (of_val total) cs (of_val-IsWide total (ground arith))
                (ground arith)))
      | inr over ↦
          let more = le-denotes total cs in
          rw (from_digits-next acc c cs (ground arith) (ground arith), split, over) (ground arith)
    ]

length-marshal : (a : Uint128) → length (marshal_binary a) ≡ 16
unfolding marshal_binary
length-marshal a = simp (length-append, length-put_be)

halves-marshal :
    (a : Uint128)
    → IsWide a
    → (field 8 (marshal_binary a) ≡ a.hi) × (field 8 (skip 8 (marshal_binary a)) ≡ a.lo)
unfolding marshal_binary
halves-marshal a h = (
  field-put_be 8 a.hi (omega arith) (put_be 8 a.lo ++ []),
  rw (skip-put_be 8 a.hi (put_be 8 a.lo ++ [])) (field-put_be 8 a.lo (omega arith) []),
)

-- A 128-bit number is read back from its binary form.
pub unmarshal-marshal : (a : Uint128) → IsWide a → unmarshal_binary (marshal_binary a) ≡ ok a
unfolding unmarshal_binary
unmarshal-marshal a h = ground (arith, length-marshal a, halves-marshal a h)

-- A decimal numeral is read exactly, and refused exactly when it denotes a number of more than 128
-- bits, also when an intermediate result is the first to overflow.
pub from_string-denotes :
    (c : ℕ) (cs : List ℕ)
    → is_numeral (c ∷ cs) ≡ true
    → from_string (c ∷ cs) ≡ (
        if ltb (denotes 0 (c ∷ cs)) limit
        then ok (of_val (denotes 0 (c ∷ cs)))
        else err uint128_overflow)
unfolding from_string from_uint64
from_string-denotes c cs n =
    from_digits-denotes (from_uint64 0) (c ∷ cs) (omega arith, omega arith) n
