-- ===== src/Control/Start.antt =====
-- The "start" command of biologylib, as the generator's handler takes it.
use biology.Base.{
  ℕ, suc, ◌+◌, ◌^◌, ◌<◌, ◌≡◌, refl, ◌∙◌, Option, some, List, [], ◌∷◌, ◌++◌, length, drop, All,
  length-append, append_assoc, arith,
}
use biology.Base.Bytes.{◌-u64◌, -u64_lem}
use biology.Base.Decimal.{print_dec, IsDigit, print_dec-IsDigit}
use biology.Base.Errno.{ok, Status}
use biology.Kernel.{Allocator}
use biology.Control.Words.{
  strncmp_equal, Cursor, parse_word, IsWordChar, first_word_size-space, first_word_size-end,
  c_string-zero,
}
use biology.Control.Handlers.{taken, GroupConfig, with_word, start_group, gen_ctl_store}
use biology.Control.Library.{start_worker_cmd}
use biology.Control.RoundTrip.{IsChar-word, read-front, behind_word, start_letters-IsWordChar}

IsDigit-word : (word : List ℕ) → All IsDigit word → All IsWordChar word
IsDigit-word [] h = tt
IsDigit-word (c ∷ word) ((low, high), h) = ((omega arith, omega arith), IsDigit-word word h)

module _ (A : Allocator) (fresh : ℕ → List ℕ)
    (grants : (n : ℕ) → A.kmalloc n ≡ some (fresh n)) where
  parse_word-space :
      (word rest : List ℕ) (n : ℕ)
      → All IsWordChar word
      → length word + 1 + n < 2 ^ 64
      → parse_word A (record { buf = word ++ (b' ' ∷ rest); cnt = length word + 1 + n })
        ≡ some (ok (word, record { buf = rest; cnt = n }))
  unfolding parse_word
  parse_word-space word rest n w small =
      let left : (length word + 1 + n) -u64 (length word + 1) ≡ n =
        -u64_lem (length word + 1 + n) (length word + 1) (omega arith) small ∙ omega arith in
      rw (first_word_size-space word rest (length word + 1 + n) w (omega arith)) (
        rw
          (
            read-front word (b' ' ∷ rest),
            c_string-zero word [] (IsChar-word word w),
            grants (length word + 1),
            behind_word word rest,
            left,
          )
          refl)

  parse_word-end :
      (word : List ℕ)
      → All IsWordChar word
      → (behind : Cursor) × (parse_word A (record { buf = word ++ (0 ∷ []); cnt = length word })
          ≡ some (ok (word, behind)))
  unfolding parse_word
  parse_word-end word w = (
    record {
      buf = drop (length word + 1) (word ++ (0 ∷ []));
      cnt = length word -u64 (length word + 1);
    },
    rw (first_word_size-end word (0 ∷ []) w) (
        rw
          (
            read-front word (0 ∷ []),
            c_string-zero word [] (IsChar-word word w),
            grants (length word + 1),
          )
          refl),
  )

  module _ {G : Type 0} (create : GroupConfig → G → G × Status)
      (kstrtoint : List ℕ → Option ℕ) where
    start_cursor :
        (groups : G) (cnt : ℕ) (name device dump cpu : List ℕ) (n : ℕ)
        → All IsWordChar name
        → All IsWordChar device
        → All IsWordChar dump
        → All IsWordChar cpu
        → kstrtoint cpu ≡ some n
        → length name + 1 + (length device + 1 + (length dump + 1 + length cpu)) < 2 ^ 64
        → with_word create kstrtoint A groups
            (record {
              buf = name ++ (b' ' ∷ (device ++ (b' ' ∷ (dump ++ (b' ' ∷ (cpu ++ (0 ∷ [])))))));
              cnt = length name + 1 + (length device + 1 + (length dump + 1 + length cpu));
            })
            (λ name' c1. with_word create kstrtoint A groups c1 (λ target_path c2.
              with_word create kstrtoint A groups c2 (λ dump_dir_path c3.
                with_word create kstrtoint A groups c3 (λ cpu' c4.
                  start_group create kstrtoint A groups cnt name' target_path dump_dir_path cpu'))))
          ≡ some (
              taken cnt (
                create
                  (record { name = name; target_path = device; dump_dir_path = dump; cpu_cnt = n })
                  groups))
    unfolding with_word start_group
    start_cursor groups cnt name device dump cpu n wn wd wp wc reads small =
        rw
          (parse_word-space name (device ++ (b' ' ∷ (dump ++ (b' ' ∷ (cpu ++ (0 ∷ []))))))
            (length device + 1 + (length dump + 1 + length cpu)) wn small)
          (rw
            (parse_word-space device (dump ++ (b' ' ∷ (cpu ++ (0 ∷ []))))
              (length dump + 1 + length cpu) wd (omega arith))
            (rw (parse_word-space dump (cpu ++ (0 ∷ [])) (length cpu) wp (omega arith))
              (rw ((parse_word-end cpu wc).1) (rw (reads, start_group) refl))))

    -- The group is created with the name, the device, the directory and the number of processors
    -- that the library was given: for words without spaces and zeros, a number below 2^31, a
    -- `kstrtoint` that reads back the numbers below 2^31 that "%d" prints, an allocator that grants
    -- what is asked for, and a command shorter than 2^64.
    pub gen_ctl_store-start_worker_cmd :
        (groups : G) (name device dump : List ℕ) (cpucnt : ℕ)
        → All IsWordChar name
        → All IsWordChar device
        → All IsWordChar dump
        → cpucnt < 2 ^ 31
        → ((n : ℕ) → n < 2 ^ 31 → kstrtoint (print_dec n) ≡ some n)
        → length (start_worker_cmd name device dump cpucnt) < 2 ^ 64
        → gen_ctl_store create kstrtoint A groups
            (start_worker_cmd name device dump cpucnt ++ (0 ∷ []))
            (length (start_worker_cmd name device dump cpucnt))
          ≡ some (
              taken (length (start_worker_cmd name device dump cpucnt)) (
                create
                  (record {
                    name = name;
                    target_path = device;
                    dump_dir_path = dump;
                    cpu_cnt = cpucnt;
                  })
                  groups))
    unfolding gen_ctl_store start_worker_cmd strncmp_equal
    gen_ctl_store-start_worker_cmd groups name device dump cpucnt wn wd wp int reads small =
        let cpu = print_dec cpucnt in
        let t2 : List ℕ = dump ++ (b' ' ∷ cpu) in
        let t1 : List ℕ = device ++ (b' ' ∷ t2) in
        let t : List ℕ = name ++ (b' ' ∷ t1) in
        let total : ℕ = suc (suc (suc (suc (suc (suc (length t)))))) in
        let size : length t
            ≡ length name + 1 + (length device + 1 + (length dump + 1 + length cpu)) =
          omega (
            arith,
            length-append name (b' ' ∷ t1),
            length-append device (b' ' ∷ t2),
            length-append dump (b' ' ∷ cpu),
          ) in
        let left : total -u64 6
            ≡ length name + 1 + (length device + 1 + (length dump + 1 + length cpu)) =
          -u64_lem total 6 (omega arith) small ∙ omega arith in
        rw
          (
            append_assoc name (b' ' ∷ t1) (0 ∷ []),
            append_assoc device (b' ' ∷ t2) (0 ∷ []),
            append_assoc dump (b' ' ∷ cpu) (0 ∷ []),
          )
          (rw
            (first_word_size-space (b's' ∷ b't' ∷ b'a' ∷ b'r' ∷ b't' ∷ [])
              (name ++ (b' ' ∷ (device ++ (b' ' ∷ (dump ++ (b' ' ∷ (cpu ++ (0 ∷ [])))))))) total
              start_letters-IsWordChar (omega arith))
            (rw left (
              start_cursor groups total name device dump cpu cpucnt wn wd wp
                (IsDigit-word cpu (print_dec-IsDigit cpucnt)) (reads cpucnt int) (omega arith))))
