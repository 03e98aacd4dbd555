-- ===== src/Base/Decimal.antt =====
-- `%d` on a number that is not negative, and the digits read back.
use biology.Base.Tests.{ltb, leb, if◌then◌else◌}
use biology.Base.Lists.{All, length, length-append}
use Prim.Native.Nat.{ℕ, zero, suc, ◌+◌, ◌-◌, ◌*◌, ◌/◌, ◌%◌, ◌≤◌, ◌<◌, ◌^◌}
use mathlib.Core.Path.{◌≡◌, refl, ap, ◌∙◌}
use mathlib.Core.Bool.{Bool, ◌&&◌}
use mathlib.Core.List.{List, [], ◌∷◌, ◌++◌}
use native.Mathlib.Omega.{arith}

unfoldable pub digits : ℕ → ℕ → List ℕ
digits zero n = []
digits (suc fuel) n =
    let front = digits fuel (n / 10) in
    if ltb n 10 then (b'0' + n) ∷ [] else front ++ ((b'0' + n % 10) ∷ [])

-- A number has at most as many digits as its value, or one.
unfoldable pub print_dec : ℕ → List ℕ
unfolding digits
print_dec n = digits (suc n) n

abbrev pub is_digit : ℕ → Bool
is_digit c = leb b'0' c && leb c b'9'

-- The digits at the front, read as by `atoi`.
unfoldable pub read_dec : ℕ → List ℕ → ℕ
read_dec acc [] = acc
read_dec acc (c ∷ cs) = if is_digit c then read_dec (acc * 10 + (c - b'0')) cs else acc

abbrev pub IsDigit : ℕ → Type 0
IsDigit c = (b'0' ≤ c) × (c ≤ b'9')

All-append : (P : ℕ → Type 0) (xs ys : List ℕ) → All P xs → All P ys → All P (xs ++ ys)
All-append P [] ys h k = k
All-append P (x ∷ xs) ys (h, hs) k = (h, All-append P xs ys hs k)

digits-IsDigit : (fuel n : ℕ) → All IsDigit (digits fuel n)
unfolding digits
digits-IsDigit zero n = tt
digits-IsDigit (suc fuel) n = ground (
  arith,
  All-append IsDigit (digits fuel (n / 10)) ((b'0' + n % 10) ∷ []) (digits-IsDigit fuel (n / 10)),
)

-- A number below the power of ten has no more digits.
length-digits_le : (k fuel n : ℕ) → n < 10 ^ suc k → length (digits fuel n) ≤ suc k
unfolding digits
length-digits_le k zero n h = omega arith
length-digits_le zero (suc fuel) n h = ground arith
length-digits_le (suc k) (suc fuel) n h = ground (
  arith,
  length-append (digits fuel (n / 10)) ((b'0' + n % 10) ∷ []),
  length-digits_le k fuel (n / 10) (omega arith),
)

pub length-print_dec_le : (k n : ℕ) → n < 10 ^ suc k → length (print_dec n) ≤ suc k
unfolding print_dec
length-print_dec_le k n h = length-digits_le k (suc n) n h

pub print_dec-IsDigit : (n : ℕ) → All IsDigit (print_dec n)
unfolding print_dec
print_dec-IsDigit n = digits-IsDigit (suc n) n

read_dec-append :
    (xs ys : List ℕ) (acc : ℕ)
    → All IsDigit xs
    → read_dec acc (xs ++ ys) ≡ read_dec (read_dec acc xs) ys
unfolding read_dec
read_dec-append [] ys acc h = refl
read_dec-append (x ∷ xs) ys acc (h, hs) =
    ground (arith, read_dec-append xs ys (acc * 10 + (x - b'0')) hs)

read_dec-digits : (fuel n : ℕ) → n < fuel → read_dec 0 (digits fuel n) ≡ n
unfolding digits read_dec
read_dec-digits zero n h = absurd (omega arith)
read_dec-digits (suc fuel) n h = ground (
  arith,
  read_dec-append (digits fuel (n / 10)) ((b'0' + n % 10) ∷ []) 0 (digits-IsDigit fuel (n / 10)),
  read_dec-digits fuel (n / 10),
)

-- A printed number reads back, up to the first character that is no digit.
pub read_dec-print_dec :
    (n : ℕ) (rest : List ℕ) → read_dec 0 (print_dec n ++ rest) ≡ read_dec n rest
unfolding print_dec
read_dec-print_dec n rest =
    read_dec-append (digits (suc n) n) rest 0 (digits-IsDigit (suc n) n)
    ∙ ap (λ k. read_dec k rest) (read_dec-digits (suc n) n (omega arith))
