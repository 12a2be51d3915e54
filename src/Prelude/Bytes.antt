-- ===== src/Prelude/Bytes.antt =====
-- Byte strings: `encoding/binary.BigEndian`, and a cursor that reads fields of known sizes.
use native.Mathlib.Nat.{pow-suc}
use Prim.Native.Nat.{ℕ, zero, suc, ◌+◌, ◌*◌, ◌/◌, ◌%◌, ◌^◌, ◌<◌}
use mathlib.Core.Path.{◌≡◌, refl, ap}
use mathlib.Core.List.{List, [], ◌∷◌, ◌++◌}
use native.Mathlib.Omega.{arith}
use aequitas_ledger.Prelude.Lists.{length, take, drop, replicate, length-append, length-replicate}

-- `BigEndian.PutUint…`: the last `k` bytes of `n`, the most significant first.
unfoldable pub put_be : ℕ → ℕ → List ℕ
put_be zero n = []
put_be (suc k) n = put_be k (n / 256) ++ (n % 256) ∷ []

read_from : ℕ → List ℕ → ℕ
read_from acc [] = acc
read_from acc (b ∷ bs) = read_from (acc * 256 + b) bs

-- `BigEndian.Uint…` of the whole byte string.
unfoldable pub get_be : List ℕ → ℕ
unfolding read_from
get_be bs = read_from 0 bs

-- The number in the next `k` bytes, and what follows them.
unfoldable pub field : ℕ → List ℕ → ℕ
unfolding get_be
field k bs = get_be (take k bs)

unfoldable pub skip : ℕ → List ℕ → List ℕ
skip k bs = drop k bs

unfoldable pub zeros : ℕ → List ℕ
zeros k = replicate k 0

pub length-put_be : (k n : ℕ) → length (put_be k n) ≡ k
unfolding put_be
length-put_be zero n = refl
length-put_be (suc k) n =
    omega (arith, length-append (put_be k (n / 256)) ((n % 256) ∷ []), length-put_be k (n / 256))

pub length-zeros : (k : ℕ) → length (zeros k) ≡ k
unfolding zeros
length-zeros k = length-replicate k 0

read_from-append :
    (acc : ℕ) (xs : List ℕ) (b : ℕ) → read_from acc (xs ++ b ∷ []) ≡ read_from acc xs * 256 + b
unfolding read_from
read_from-append acc [] b = refl
read_from-append acc (x ∷ xs) b = read_from-append (acc * 256 + x) xs b

-- What was written is read back, if it fits into its bytes.
pub get_be-put_be : (k n : ℕ) → n < 256 ^ k → get_be (put_be k n) ≡ n
unfolding put_be get_be
get_be-put_be zero n h = omega arith
get_be-put_be (suc k) n h = rw (read_from-append 0 (put_be k (n / 256)) (n % 256)) (
    omega (
      arith,
      get_be-put_be k (n / 256)
          (let e : 256 ^ suc k ≡ 256 ^ k * 256 = pow-suc 256 k in omega arith),
    ))

pub take-prefix : {A : Type 0} (k : ℕ) (xs ys : List A) → length xs ≡ k → take k (xs ++ ys) ≡ xs
take-prefix zero [] ys h = refl
take-prefix zero (x ∷ xs) ys h = absurd (omega arith)
take-prefix (suc k) [] ys h = absurd (omega arith)
take-prefix (suc k) (x ∷ xs) ys h = ap (λ l. x ∷ l) (take-prefix k xs ys (omega arith))

drop-prefix : {A : Type 0} (k : ℕ) (xs ys : List A) → length xs ≡ k → drop k (xs ++ ys) ≡ ys
drop-prefix zero [] ys h = refl
drop-prefix zero (x ∷ xs) ys h = absurd (omega arith)
drop-prefix (suc k) [] ys h = absurd (omega arith)
drop-prefix (suc k) (x ∷ xs) ys h = drop-prefix k xs ys (omega arith)

pub skip-prefix : (k : ℕ) (xs ys : List ℕ) → length xs ≡ k → skip k (xs ++ ys) ≡ ys
unfolding skip
skip-prefix k xs ys h = drop-prefix k xs ys h

pub field-put_be : (k n : ℕ) → n < 256 ^ k → (rest : List ℕ) → field k (put_be k n ++ rest) ≡ n
unfolding field
field-put_be k n h rest =
    rw (take-prefix k (put_be k n) rest (length-put_be k n)) (get_be-put_be k n h)

pub skip-put_be : (k n : ℕ) (rest : List ℕ) → skip k (put_be k n ++ rest) ≡ rest
unfolding skip
skip-put_be k n rest = drop-prefix k (put_be k n) rest (length-put_be k n)

pub skip-zeros : (k : ℕ) (rest : List ℕ) → skip k (zeros k ++ rest) ≡ rest
unfolding skip
skip-zeros k rest = drop-prefix k (zeros k) rest (length-zeros k)
