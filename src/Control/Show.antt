-- ===== src/Control/Show.antt =====
-- The counts that a device shows, as the library reads them: the `show` functions of
-- biology-proxy-dev-ctl.c, and `blgy_lib_prxy_dev_traced` with its like of biologylib.
use biology.Base.{
  ◌||◌, ◌&&◌, leb, ℕ, suc, ◌+◌, ◌-◌, ◌%◌, ◌^◌, ◌≤◌, ◌<◌, ◌≡◌, refl, sym, ap, ◌∙◌, Bool, false,
  Option, none, some, List, [], ◌∷◌, ◌++◌, ltb, lt→ltb, ◌==◌, if◌then◌else◌, ◌>>=◌, length, take,
  replicate, All, take_all, take-append_len, append-nil, append_assoc, arith,
}
use biology.Base.Decimal.{
  length-print_dec_le, print_dec, read_dec, IsDigit, print_dec-IsDigit, read_dec-print_dec,
}
use biology.Base.Errno.{enoent, Ret, ok, err}
use biology.Kernel.{Allocator}
use biology.Control.Words.{c_string, IsChar, c_string-zero}

-- "%d" of an `int`, given as its bit pattern.
unfoldable pub print_int : ℕ → List ℕ
print_int n = if ltb n (2 ^ 31) then print_dec n else (b'-' ∷ print_dec (2 ^ 32 - n))

-- `snprintf(buf, sizeof(int), "%d", n)`: what is written, with its terminator, and the result,
-- which is the length of the whole text.
unfoldable pub show_int : ℕ → List ℕ × ℕ
unfolding print_int
show_int n = (take 3 (print_int n) ++ (0 ∷ []), length (print_int n))

-- `dev_ctl_sysfs_entry_active_show`
unfoldable pub active_show : Bool → List ℕ × ℕ
unfolding show_int
active_show enabled = show_int (if enabled then 1 else 0)

-- `dev_ctl_sysfs_entry_traced_show` of the counter of requests.
unfoldable pub traced_show : ℕ → List ℕ × ℕ
unfolding show_int
traced_show bio_id_counter = show_int ((bio_id_counter + 1) % 2 ^ 32)

-- `dev_ctl_sysfs_entry_inflight_show`
unfoldable pub inflight_show : ℕ → List ℕ × ℕ
unfolding show_int
inflight_show bio_inflight = show_int bio_inflight

-- A sign, if any, and the digits behind it, as a bit pattern.
unfoldable pub signed_int : List ℕ → ℕ
signed_int [] = 0
signed_int (c ∷ text) =
    if c == b'-'
    then (2 ^ 32 - read_dec 0 text % 2 ^ 32) % 2 ^ 32
    else if c == b'+'
    then read_dec 0 text % 2 ^ 32
    else read_dec 0 (c ∷ text) % 2 ^ 32

-- The white space of `isspace`: a blank, and the tab, the newline and the three characters behind it.
abbrev pub is_space : ℕ → Bool
is_space c = c == b' ' || leb 9 c && leb c 13

-- `atoi`, as a bit pattern: white space at the front is skipped.
unfoldable pub atoi : List ℕ → ℕ
unfolding signed_int
atoi [] = 0
atoi (c ∷ text) = if is_space c then atoi text else signed_int (c ∷ text)

-- `blgy_lib_prxy_dev_traced`, `blgy_lib_prxy_dev_active` and `blgy_lib_prxy_dev_inflight`, on what
-- the file holds, `none` if it is not opened. A null buffer is written to, which is a fault.
unfoldable pub dev_count : Allocator → ℕ → Option (List ℕ) → Option (Ret ℕ)
dev_count A size none = some (err enoent)
dev_count A size (some file) = do
  block ← A.kmalloc size
  text ← c_string (take size file ++ replicate (size - length file) 0)
  some (ok (atoi text))

IsDigit-IsChar : (text : List ℕ) → All IsDigit text → All IsChar text
IsDigit-IsChar [] h = tt
IsDigit-IsChar (c ∷ text) ((low, high), h) = (omega arith, IsDigit-IsChar text h)

atoi-digits : (text : List ℕ) → All IsDigit text → atoi text ≡ read_dec 0 text % 2 ^ 32
unfolding atoi signed_int read_dec
atoi-digits [] h = refl
atoi-digits (c ∷ text) ((low, high), h) =
    let no_space : is_space c ≡ false = ground arith in
    let no_minus : (c == b'-') ≡ false = ground arith in
    let no_plus : (c == b'+') ≡ false = ground arith in rw no_space (rw (no_minus, no_plus) refl)

-- A count below 1000 that a device shows is what the library returns, if the file holds the bytes
-- that `show` says, of what it wrote and zeros behind it, and the page is larger than the text.
pub dev_count-show_int :
    (A : Allocator) (n size zeros : ℕ) (block : List ℕ)
    → n < 1000
    → 4 ≤ size
    → A.kmalloc size ≡ some block
    → dev_count A size (some (take (show_int n).1 ((show_int n).0 ++ replicate zeros 0)))
      ≡ some (ok n)
unfolding dev_count show_int print_int read_dec
dev_count-show_int A n size zeros block small page granted =
    let text = print_dec n in
    let short : length text ≤ 3 = length-print_dec_le 2 n small in
    let written : print_int n ≡ text = rw (lt→ltb n (2 ^ 31) (omega arith)) refl in
    let shown : take (length text) ((text ++ (0 ∷ [])) ++ replicate zeros 0) ≡ text =
      ap (take (length text)) (append_assoc text (0 ∷ []) (replicate zeros 0))
      ∙ take-append_len (length text) text (0 ∷ replicate zeros 0) refl in
    let left : size - length text ≡ suc (size - length text - 1) = omega arith in
    let value : atoi text ≡ n =
      atoi-digits text (print_dec-IsDigit n)
      ∙ ap (λ t. read_dec 0 t % 2 ^ 32) (sym (append-nil text))
      ∙ ap (λ k. k % 2 ^ 32) (read_dec-print_dec n [])
      ∙ omega arith in
    rw (written, granted)
      (rw (take_all 3 text short) (
        rw shown (
          rw (take_all size text (omega arith), left)
            (rw
              (c_string-zero text (replicate (size - length text - 1) 0)
                (IsDigit-IsChar text (print_dec-IsDigit n)))
              (ap (λ k. some (ok k)) value)))))
