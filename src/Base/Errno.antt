-- ===== src/Base/Errno.antt =====
-- The error numbers that the program returns, and what its return codes look like as `size_t`.
use Prim.Native.Nat.{ℕ, ◌-◌, ◌^◌}

pub data Errno : Type 0 where
  enoent eio enomem einval ealready : Errno

-- The numbers of asm-generic/errno-base.h and errno.h.
abbrev pub code : Errno → ℕ
code enoent = 2
code eio = 5
code enomem = 12
code einval = 22
code ealready = 114

-- `-e` stored in a `size_t`.
abbrev pub as_size : Errno → ℕ
as_size e = 2 ^ 64 - code e

-- A result that the code returns as a negative error number, or a value.
pub data Ret {ℓ} (A : Type ℓ) : Type ℓ where
  ok : A → Ret A
  err : Errno → Ret A

-- The `int` of a function that returns 0 or a negative error number.
abbrev pub Status : Type 0
Status = Ret (Unit {0})
