-- ===== src/Control/RoundTrip.antt =====
-- The commands of the library, as the handlers take them: a command comes with a zero behind it.
use biology.Base.{
  ℕ, suc, ◌+◌, ◌-◌, ◌<◌, ◌≡◌, refl, ap, Bool, true, false, Option, none, some, List, [], ◌∷◌, ◌++◌,
  ◌==◌, ◌>>=◌, le→leb, length, drop, All, length-append, take-append_len, append_assoc, arith,
}
use biology.Base.Decimal.{print_dec, digits}
use biology.Base.Errno.{ok, err, Status}
use biology.Base.Memory.{read}
use biology.Kernel.{Allocator}
use biology.Control.Words.{
  strncmp_equal, strcmp_equal, IsWordChar, IsChar, first_word_size-space, c_string-zero,
}
use biology.Control.Handlers.{
  taken, retaken, DevOps, dev_ctl_enable, dev_ctl_store, ctl_create, ctl_store,
}
use biology.Control.Library.{create_dev_cmd, dev_enable_cmd}

pub IsChar-word : (word : List ℕ) → All IsWordChar word → All IsChar word
IsChar-word [] h = tt
IsChar-word (c ∷ word) ((nz, ns), h) = (nz, IsChar-word word h)

pub read-front : (word rest : List ℕ) → read 0 (length word) (word ++ rest) ≡ some word
unfolding read
read-front word rest =
    rw
      (
        le→leb (0 + length word) (length (word ++ rest)) (omega (arith, length-append word rest)),
        take-append_len (length word) word rest refl,
      )
      refl

-- The words of the commands hold no space and no zero.
create_letters-IsWordChar : All IsWordChar (b'c' ∷ b'r' ∷ b'e' ∷ b'a' ∷ b't' ∷ b'e' ∷ [])
create_letters-IsWordChar = ground arith

enable_letters-IsWordChar : All IsWordChar (b'e' ∷ b'n' ∷ b'a' ∷ b'b' ∷ b'l' ∷ b'e' ∷ [])
enable_letters-IsWordChar = ground arith

pub start_letters-IsWordChar : All IsWordChar (b's' ∷ b't' ∷ b'a' ∷ b'r' ∷ b't' ∷ [])
start_letters-IsWordChar = ground arith

print_one : print_dec 1 ≡ b'1' ∷ []
unfolding print_dec digits
print_one = refl

print_zero : print_dec 0 ≡ b'0' ∷ []
unfolding print_dec digits
print_zero = refl

-- The word behind a command's first, with its rest.
pub behind_word : (word rest : List ℕ) → drop (length word + 1) (word ++ (b' ' ∷ rest)) ≡ rest
behind_word [] rest = refl
behind_word (c ∷ word) rest =
    let more : suc (length word) + 1 ≡ suc (length word + 1) = omega arith in
    rw more (behind_word word rest)

taken-retaken : {D : Type 0} (n m : ℕ) (r : D × Status) → retaken m (taken n r) ≡ taken m r
unfolding taken retaken
taken-retaken n m (d, err e) = refl
taken-retaken n m (d, ok x) = refl

module _ {D : Type 0} (create : List ℕ → List ℕ → D → D × Status) (A : Allocator) where
  ctl_create-words :
      (name device block : List ℕ) (devs : D) (cnt : ℕ)
      → All IsWordChar name
      → All IsChar device
      → A.kmalloc (length name + 1) ≡ some block
      → length name < cnt
      → ctl_create create A devs (name ++ (b' ' ∷ (device ++ (0 ∷ [])))) cnt
        ≡ some (taken cnt (create name device devs))
  unfolding ctl_create
  ctl_create-words name device block devs cnt wn wd granted more =
      let some_left : (cnt == 0) ≡ false = ground arith in
      let inside : (length name == cnt) ≡ false = ground arith in
      rw (some_left, first_word_size-space name (device ++ (0 ∷ [])) cnt wn more)
        (rw (inside, granted)
          (rw
            (
              read-front name (b' ' ∷ (device ++ (0 ∷ []))),
              c_string-zero name [] (IsChar-word name wn),
              behind_word name (device ++ (0 ∷ [])),
              c_string-zero device [] wd,
            )
            refl))

  -- A device is created with the name and the path that the library was given, for a name without
  -- spaces and zeros and a path without zeros, where there is memory for the name; the handler takes
  -- the whole command or returns the error of the creation.
  pub ctl_store-create_dev_cmd :
      (name device block : List ℕ) (devs : D)
      → All IsWordChar name
      → All IsChar device
      → A.kmalloc (length name + 1) ≡ some block
      → ctl_store create A devs
          (create_dev_cmd name device ++ (0 ∷ []))
          (length (create_dev_cmd name device))
        ≡ some (taken (length (create_dev_cmd name device)) (create name device devs))
  unfolding ctl_store create_dev_cmd strncmp_equal
  ctl_store-create_dev_cmd name device block devs wn wd granted =
      let n : ℕ = length (name ++ (b' ' ∷ device)) in
      let total : ℕ = suc (suc (suc (suc (suc (suc (suc n)))))) in
      let inside : (6 == total) ≡ false = ground arith in
      let left : total - 6 - 1 ≡ n = omega arith in
      let shape = append_assoc name (b' ' ∷ device) (0 ∷ []) in
      rw shape (
        rw
          (first_word_size-space (b'c' ∷ b'r' ∷ b'e' ∷ b'a' ∷ b't' ∷ b'e' ∷ [])
            (name ++ (b' ' ∷ (device ++ (0 ∷ [])))) total create_letters-IsWordChar (omega arith))
          (rw (inside, left)
            (rw
              (ctl_create-words name device block devs n wn wd granted
                (omega (arith, length-append name (b' ' ∷ device))))
              (ap some (taken-retaken n total (create name device devs))))))

taken-both :
    {D : Type 0} (n m : ℕ) (r : Option (D × Status))
    → ((r >>= λ x. some (taken n x)) >>= λ x. some (retaken m x)) ≡ (r >>= λ x. some (taken m x))
taken-both n m none = refl
taken-both n m (some r) = ap some (taken-retaken n m r)

module _ {D : Type 0} (O : DevOps D) (A : Allocator) where
  dev_ctl_enable-words :
      (word dump block : List ℕ) (dev : D) (cnt : ℕ)
      → All IsWordChar word
      → All IsChar dump
      → A.kmalloc (length word + 1) ≡ some block
      → length word < cnt
      → dev_ctl_enable O A dev (word ++ (b' ' ∷ (dump ++ (0 ∷ [])))) cnt
        ≡ (O.enable (strcmp_equal (b'1' ∷ []) word) dump dev >>= λ r. some (taken cnt r))
  unfolding dev_ctl_enable
  dev_ctl_enable-words word dump block dev cnt ww wd granted more =
      let inside : (length word == cnt) ≡ false = ground arith in
      rw (first_word_size-space word (dump ++ (0 ∷ [])) cnt ww more) (
        rw (inside, granted)
          (rw
            (
              read-front word (b' ' ∷ (dump ++ (0 ∷ []))),
              c_string-zero word [] (IsChar-word word ww),
              behind_word word (dump ++ (0 ∷ [])),
              c_string-zero dump [] wd,
            )
            refl))

  store-enable :
      (word dump block : List ℕ) (dev : D)
      → All IsWordChar word
      → All IsChar dump
      → A.kmalloc (length word + 1) ≡ some block
      → let tail = word ++ (b' ' ∷ dump) in
        dev_ctl_store O A dev
          (b'e' ∷ b'n' ∷ b'a' ∷ b'b' ∷ b'l' ∷ b'e' ∷ b' ' ∷ (tail ++ (0 ∷ [])))
          (suc (suc (suc (suc (suc (suc (suc (length tail))))))))
        ≡ (O.enable (strcmp_equal (b'1' ∷ []) word) dump dev >>= λ r.
            some (taken (suc (suc (suc (suc (suc (suc (suc (length tail)))))))) r))
  unfolding dev_ctl_store strncmp_equal
  store-enable word dump block dev ww wd granted =
      let n : ℕ = length (word ++ (b' ' ∷ dump)) in
      let total : ℕ = suc (suc (suc (suc (suc (suc (suc n)))))) in
      let inside : (6 == total) ≡ false = ground arith in
      let left : total - 6 - 1 ≡ n = omega arith in
      rw (append_assoc word (b' ' ∷ dump) (0 ∷ [])) (
        rw
          (first_word_size-space (b'e' ∷ b'n' ∷ b'a' ∷ b'b' ∷ b'l' ∷ b'e' ∷ [])
            (word ++ (b' ' ∷ (dump ++ (0 ∷ [])))) total enable_letters-IsWordChar (omega arith))
          (rw (inside, left)
            (rw
              (dev_ctl_enable-words word dump block dev n ww wd granted
                (omega (arith, length-append word (b' ' ∷ dump))))
              (taken-both n total (O.enable (strcmp_equal (b'1' ∷ []) word) dump dev)))))

  -- Tracing is enabled with the directory and the choice of the payload that the library was
  -- given, for a directory without zeros and with memory for the choice; the handler takes the whole
  -- command or returns the error of the device.
  pub dev_ctl_store-dev_enable_cmd :
      (dump_payload : Bool) (dump block : List ℕ) (dev : D)
      → All IsChar dump
      → A.kmalloc 2 ≡ some block
      → dev_ctl_store O A dev
          (dev_enable_cmd dump_payload dump ++ (0 ∷ []))
          (length (dev_enable_cmd dump_payload dump))
        ≡ (O.enable dump_payload dump dev >>= λ r.
            some (taken (length (dev_enable_cmd dump_payload dump)) r))
  unfolding dev_enable_cmd strcmp_equal
  dev_ctl_store-dev_enable_cmd true dump block dev wd granted =
      rw print_one
        (store-enable (b'1' ∷ []) dump block dev ((omega arith, omega arith), tt) wd granted)
  dev_ctl_store-dev_enable_cmd false dump block dev wd granted =
      rw print_zero
        (store-enable (b'0' ∷ []) dump block dev ((omega arith, omega arith), tt) wd granted)
