-- ===== src/Control/Words.antt =====
-- How a command is cut into words: biology-proxy-common.h and biology-gen-common.h. A command is
-- the memory from its pointer on, and a read behind its end is a fault.
use biology.Base.{
  ℕ, zero, suc, ◌+◌, ◌-◌, ◌<◌, ◌≡◌, refl, Bool, true, false, Option, none, some, List, [], ◌∷◌,
  ◌++◌, ◌==◌, if◌then◌else◌, ◌>>=◌, length, drop, All, ◌≢◌, arith,
}
use biology.Base.Bytes.{◌-u64◌}
use biology.Base.Memory.{read}
use biology.Base.Errno.{einval, Ret, ok, err}
use biology.Kernel.{Allocator}

-- `first_word_size` and `word_size`
unfoldable pub first_word_size : List ℕ → ℕ → Option ℕ
first_word_size [] cnt = if cnt == 0 then some 0 else none
first_word_size (c ∷ cs) cnt =
    let rest = first_word_size cs (cnt - 1) in
    if cnt == 0 then some 0 else if c == b' ' then some 0 else (rest >>= λ n. some (suc n))

-- The C string at the front of a block; a block without a zero is a fault.
unfoldable pub c_string : List ℕ → Option (List ℕ)
c_string [] = none
c_string (c ∷ cs) =
    let rest = c_string cs in if c == 0 then some [] else (rest >>= λ t. some (c ∷ t))

-- `strncmp(s, t, n) == 0`
unfoldable pub strncmp_equal : List ℕ → List ℕ → ℕ → Option Bool
strncmp_equal s t zero = some true
strncmp_equal [] t (suc n) = none
strncmp_equal (c ∷ s) [] (suc n) = none
strncmp_equal (c ∷ s) (d ∷ t) (suc n) =
    let rest = strncmp_equal s t n in
    if c == d then (if c == 0 then some true else rest) else some false

-- `strcmp(s, t) == 0` on the strings themselves.
unfoldable pub strcmp_equal : List ℕ → List ℕ → Bool
strcmp_equal [] [] = true
strcmp_equal [] (d ∷ t) = false
strcmp_equal (c ∷ s) [] = false
strcmp_equal (c ∷ s) (d ∷ t) = let rest = strcmp_equal s t in if c == d then rest else false

-- A command that is not at its end, and what is left of it.
pub record Cursor : Type 0 where
  pub buf : List ℕ
  pub cnt : ℕ

-- `parse_word`: the word, and the command behind it and one character more.
unfoldable pub parse_word : Allocator → Cursor → Option (Ret (List ℕ × Cursor))
parse_word A cursor = do
  size ← first_word_size cursor.buf cursor.cnt
  bytes ← read 0 size cursor.buf
  word ← c_string (bytes ++ (0 ∷ []))
  elim (A.kmalloc (size + 1)) [
    | none ↦ some (err einval)
    | some block ↦
        some
          (ok (word, record { buf = drop (size + 1) cursor.buf; cnt = cursor.cnt -u64 (size + 1) }))
  ]

-- Characters that end no word and no string.
abbrev pub IsWordChar : ℕ → Type 0
IsWordChar c = (c ≢ 0) × (c ≢ b' ')

abbrev pub IsChar : ℕ → Type 0
IsChar c = c ≢ 0

pub first_word_size-space :
    (word rest : List ℕ) (cnt : ℕ)
    → All IsWordChar word
    → length word < cnt
    → first_word_size (word ++ (b' ' ∷ rest)) cnt ≡ some (length word)
unfolding first_word_size
first_word_size-space [] rest cnt h k = ground arith
first_word_size-space (c ∷ word) rest cnt ((nz, ns), h) k =
    rw (first_word_size-space word rest (cnt - 1) h (omega arith)) (ground arith)

pub first_word_size-end :
    (word rest : List ℕ)
    → All IsWordChar word
    → first_word_size (word ++ rest) (length word) ≡ some (length word)
unfolding first_word_size
first_word_size-end [] [] h = refl
first_word_size-end [] (c ∷ rest) h = refl
first_word_size-end (c ∷ word) rest ((nz, ns), h) =
    let less : suc (length word) - 1 ≡ length word = omega arith in
    rw less (rw (first_word_size-end word rest h) (ground arith))

pub c_string-zero :
    (word rest : List ℕ) → All IsChar word → c_string (word ++ (0 ∷ rest)) ≡ some word
unfolding c_string
c_string-zero [] rest h = refl
c_string-zero (c ∷ word) rest (nz, h) = rw (c_string-zero word rest h) (ground arith)
