-- ===== src/Base/Bytes.antt =====
-- Fixed-width integers in memory: least significant byte first, as on x86-64.
use biology.Base.Lists.{length, All}
use Prim.Native.Nat.{ℕ, zero, suc, ◌+◌, ◌-◌, ◌*◌, ◌/◌, ◌%◌, ◌^◌, ◌≤◌, ◌<◌}
use native.Mathlib.Nat.{pow-suc}
use mathlib.Core.Path.{◌≡◌, refl, ap}
use mathlib.Core.List.{List, [], ◌∷◌}
use native.Mathlib.Omega.{arith}

abbrev pub IsByte : ℕ → Type 0
IsByte b = b < 256

-- The `n` bytes of an unsigned `8 * n`-bit integer.
unfoldable pub le_bytes : ℕ → ℕ → List ℕ
le_bytes zero v = []
le_bytes (suc n) v = (v % 256) ∷ le_bytes n (v / 256)

unfoldable pub le_value : List ℕ → ℕ
le_value [] = 0
le_value (b ∷ bs) = b + 256 * le_value bs

pub length-le_bytes : (n v : ℕ) → length (le_bytes n v) ≡ n
unfolding le_bytes
length-le_bytes zero v = refl
length-le_bytes (suc n) v = ap suc (length-le_bytes n (v / 256))

pub le_bytes-IsByte : (n v : ℕ) → All IsByte (le_bytes n v)
unfolding le_bytes
le_bytes-IsByte zero v = tt
le_bytes-IsByte (suc n) v = (omega arith, le_bytes-IsByte n (v / 256))

pub le_value-le_bytes : (n v : ℕ) → v < 256 ^ n → le_value (le_bytes n v) ≡ v
unfolding le_bytes le_value
le_value-le_bytes zero v h = omega arith
le_value-le_bytes (suc n) v h =
    rw (le_value-le_bytes n (v / 256) (omega (arith, pow-suc 256 n))) (omega arith)

-- The addition of the type `size_t`.
infixl 65 ◌+u64◌
unfoldable pub ◌+u64◌ : ℕ → ℕ → ℕ
a +u64 b = (a + b) % 2 ^ 64

-- The subtraction of the type `size_t`.
infixl 65 ◌-u64◌
unfoldable pub ◌-u64◌ : ℕ → ℕ → ℕ
a -u64 b = (a + 2 ^ 64 - b) % 2 ^ 64

pub +u64_lem : (a b : ℕ) → a + b < 2 ^ 64 → a +u64 b ≡ a + b
unfolding ◌+u64◌
+u64_lem a b h = omega arith

pub -u64_lem : (a b : ℕ) → b ≤ a → a < 2 ^ 64 → a -u64 b ≡ a - b
unfolding ◌-u64◌
-u64_lem a b h k = omega arith
