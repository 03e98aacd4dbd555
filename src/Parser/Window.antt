-- ===== src/Parser/Window.antt =====
-- What a parser has still to read: the valid part of its buffer, then the rest of the file.
use biology.Base.{
  ℕ, ◌-◌, ◌^◌, ◌≤◌, ◌<◌, ◌≡◌, refl, sym, ap, inl, inr, some, List, ◌++◌, ltb, Bool-cases, length,
  take, drop, length-take, length-drop, arith,
}
use biology.Base.Bytes.{ -u64_lem}
use biology.Kernel.{Allocator, IsAllocator, Source, IsSource, ptr}
use biology.Serial.Info.{Schema}
use biology.Parser.State.{Parser, buf_avail, grow}

module _ (S : Source) (schema : Schema) (f : S.File) where
  -- A parser with an open file and a buffer.
  abbrev pub reading : ℕ → List ℕ → ℕ → ℕ → Parser S
  reading pos block valid offset = record {
    file = record { file = ptr f; offset = pos };
    schema = some schema;
    buf = some block;
    size = length block;
    valid = valid;
    offset = offset;
  }

  abbrev pub window : List ℕ → ℕ → ℕ → List ℕ
  window block valid offset = take (valid - offset) (drop offset block)

  abbrev pub pending : ℕ → List ℕ → ℕ → ℕ → List ℕ
  pending pos block valid offset = window block valid offset ++ drop pos (S.contents f)

-- The valid part lies in the buffer, and no size comes near that of `size_t`.
pub record InBounds (block : List ℕ) (valid offset : ℕ) : Type 0 where
  pub offset_le : offset ≤ valid
  pub valid_le : valid ≤ length block
  pub block_small : length block < 2 ^ 63

-- `krealloc` has a block of every size below `2 ^ 63`.
abbrev pub Grows : Allocator → Type 0
Grows A = (old : List ℕ) (n : ℕ) → n < 2 ^ 63 → (block : List ℕ) × (A.krealloc old n ≡ some block)

module _ (S : Source) (schema : Schema) (f : S.File) where
  pub buf_avail-reading :
      (pos : ℕ) (block : List ℕ) (valid offset : ℕ)
      → InBounds block valid offset
      → buf_avail (reading S schema f pos block valid offset) ≡ valid - offset
  unfolding buf_avail
  buf_avail-reading pos block valid offset b =
      -u64_lem valid offset b.offset_le (omega (arith, b.valid_le, b.block_small))

  pub length-window :
      (block : List ℕ) (valid offset : ℕ)
      → InBounds block valid offset
      → length (window S schema f block valid offset) ≡ valid - offset
  length-window block valid offset b = omega (
    arith,
    length-take (valid - offset) (drop offset block),
    length-drop offset block,
    b.offset_le,
    b.valid_le,
  )

  module _ (A : Allocator) (M : IsAllocator A) (G : Grows A) (R : IsSource S) where
    -- `grow` leaves room for the request and keeps the bytes that were saved.
    pub grow-room :
        (pos : ℕ) (block : List ℕ) (valid save requested : ℕ)
        → length block < 2 ^ 63
        → requested < 2 ^ 63
        → save < requested
        → save ≤ length block
        → (block' : List ℕ) × (grow A (reading S schema f pos block valid 0) requested
            ≡ reading S schema f pos block' valid 0)
          × (requested ≤ length block')
          × (length block' < 2 ^ 63)
          × (take save block' ≡ take save block)
    unfolding grow
    grow-room pos block valid save requested small asked more fits =
        elim (Bool-cases (ltb (length block) requested)) [
          | inl less ↦
              let (block', granted) = G block requested asked in
              let size = M.krealloc_length block requested granted in
              (
                block',
                rw (less, granted)
                    (ap (λ n. record (reading S schema f pos block' valid 0) { size = n })
                      (sym size)),
                omega arith,
                omega arith,
                M.krealloc_keeps block requested save granted fits (omega arith),
              )
          | inr enough ↦ (block, rw enough refl, ground arith, small, refl)
        ]
