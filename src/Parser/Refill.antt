-- ===== src/Parser/Refill.antt =====
-- `blgy_gen_parser_refill_buf` loses nothing of what is still to be read, and brings a request
-- into the buffer if the file has it.
use Prim.Native.Nat.{min}
use biology.Base.{
  ℕ, ◌+◌, ◌-◌, ◌^◌, ◌≤◌, ◌<◌, ◌≡◌, refl, sym, ap, subst, ◌∙◌, inl, inr, Option, some, List, ◌++◌,
  le→leb, ltb, ltb→lt, Bool-cases, length, take, drop, length-append, length-take, take-append_len,
  drop-drop, take-drop-length, append_assoc, arith,
}
use biology.Base.Bytes.{+u64_lem, -u64_lem}
use biology.Base.Memory.{read, write_fits, splice, length-splice, take-splice}
use biology.Kernel.{Allocator, IsAllocator, Source, IsSource, ptr}
use biology.Serial.Info.{Schema}
use biology.Parser.State.{Parser, file_read, fill_behind, refill_buf, refill_below}
use biology.Parser.Window.{
  reading, window, pending, InBounds, Grows, buf_avail-reading, length-window, grow-room,
}

module _ (S : Source) (schema : Schema) (f : S.File) (A : Allocator) (M : IsAllocator A)
    (G : Grows A) (R : IsSource S) where
  abbrev rest_of_file : ℕ → List ℕ
  rest_of_file pos = drop pos (S.contents f)

  -- The bytes that a read of at most `n` brings.
  abbrev brought : ℕ → ℕ → List ℕ
  brought pos n = take n (rest_of_file pos)

  file_read-brought :
      (pos : ℕ) (block : List ℕ) (save n : ℕ)
      → save + n ≤ length block
      → file_read {S = S} (record { file = ptr f; offset = pos }) (some block) save n
        ≡ some (
          record { file = ptr f; offset = pos + length (brought pos n) },
          splice save (brought pos n) block,
          length (brought pos n),
        )
  unfolding file_read
  file_read-brought pos block save n h =
      rw (R.read_full f pos n) (
        rw
          (write_fits save (brought pos n) block (omega (arith, length-take n (rest_of_file pos)))))

  -- The end of a refill: `block` begins with the bytes saved, and has room for the request.
  filled :
      (pos : ℕ) (block : List ℕ) (saved : List ℕ)
      → length block < 2 ^ 63
      → length saved ≤ length block
      → take (length saved) block ≡ saved
      → let bs = brought pos (length block - length saved) in
        InBounds (splice (length saved) bs block) (length bs + length saved) 0
        × (pending S schema f
              (pos + length bs)
              (splice (length saved) bs block)
              (length bs + length saved)
              0
            ≡ saved ++ rest_of_file pos)
        × (length bs + length saved ≡ min (length block) (length saved + length (rest_of_file pos)))
  filled pos block saved small le starts =
      let n : ℕ = length block - length saved in
      let bs = brought pos n in
      let amount = length-take n (rest_of_file pos) in
      let size = length-splice (length saved) bs block (omega arith) in
      let ends : length bs + length saved - 0 ≡ length saved + length bs = omega arith in
      (
        record { offset_le = omega arith; valid_le = omega arith; block_small = omega arith },
        ap (λ k. take k (splice (length saved) bs block) ++ drop (pos + length bs) (S.contents f))
              ends
            ∙ ap (λ t. t ++ drop (pos + length bs) (S.contents f))
                (take-splice (length saved) bs block le ∙ ap (λ t. t ++ bs) starts)
            ∙ append_assoc saved bs (drop (pos + length bs) (S.contents f))
            ∙ ap (λ t. saved ++ t)
                (ap (λ t. bs ++ t) (sym (drop-drop pos (length bs) (S.contents f)))
                  ∙ take-drop-length n (rest_of_file pos)),
        omega arith,
      )

  fill_behind-Refilled :
      (pos : ℕ) (block : List ℕ) (valid requested : ℕ) (saved : List ℕ)
      → length block < 2 ^ 63
      → requested < 2 ^ 63
      → length saved < requested
      → length saved ≤ length block
      → take (length saved) block ≡ saved
      → (pos' : ℕ) × (block' : List ℕ) × (valid' : ℕ) × (fill_behind A
            (reading S schema f pos block valid 0)
            (length saved)
            requested
          ≡ some (reading S schema f pos' block' valid' 0))
        × InBounds block' valid' 0
        × (pending S schema f pos' block' valid' 0 ≡ saved ++ rest_of_file pos)
        × (requested ≤ length (saved ++ rest_of_file pos) → requested ≤ valid')
  unfolding fill_behind
  fill_behind-Refilled pos block valid requested saved small asked more le starts =
      let (grown, run, room, small', keeps) =
        grow-room S schema f A M G R pos block valid (length saved) requested small asked more le in
      let bs = brought pos (length grown - length saved) in
      let (inside, still, amount) = filled pos grown saved small' (omega arith) (keeps ∙ starts) in
      (
        pos + length bs,
        splice (length saved) bs grown,
        length bs + length saved,
        rw
            (
              run,
              -u64_lem (length grown) (length saved) (omega arith) (omega arith),
              file_read-brought pos grown (length saved) (length grown - length saved)
                  (omega arith),
              +u64_lem (length bs) (length saved) (omega arith),
            )
            (ap
              (λ n.
                some
                  (record (reading S schema f (pos + length bs) (splice (length saved) bs grown)
                    (length bs + length saved) 0) { size = n }))
              (sym (length-splice (length saved) bs grown (omega (arith, amount))))),
        inside,
        still,
        λ enough. omega (arith, amount, length-append saved (rest_of_file pos)),
      )

  -- Where a guarded refill ends: nothing is lost, and the request is in the buffer if the file has it.
  pub record Refilled (pos : ℕ) (block : List ℕ) (valid offset requested : ℕ)
      (result : Option (Parser S)) : Type 0 where
    pub pos' : ℕ
    pub block' : List ℕ
    pub valid' : ℕ
    pub offset' : ℕ
    pub runs : result ≡ some (reading S schema f pos' block' valid' offset')
    pub inside : InBounds block' valid' offset'
    pub same :
        pending S schema f pos' block' valid' offset' ≡ pending S schema f pos block valid offset
    pub served :
        requested ≤ length (pending S schema f pos block valid offset)
        → requested ≤ valid' - offset'

  refill_buf-Refilled :
      (pos : ℕ) (block : List ℕ) (valid offset requested : ℕ)
      → InBounds block valid offset
      → requested < 2 ^ 63
      → valid - offset < requested
      → Refilled pos block valid offset requested
          (refill_buf A (reading S schema f pos block valid offset) requested)
  unfolding refill_buf read
  refill_buf-Refilled pos block valid offset requested b asked less =
      let saved = window S schema f block valid offset in
      let len = length-window S schema f block valid offset b in
      let block1 = splice 0 saved block in
      let fits : 0 + length saved ≤ length block = omega (arith, b.valid_le) in
      let len1 : length block1 ≡ length block = length-splice 0 saved block fits in
      let (pos', block', valid', run, inside, same, served) =
        fill_behind-Refilled pos block1 valid requested saved (omega (arith, b.block_small)) asked
          (omega arith) (omega arith) (take-append_len (length saved) saved _ refl) in
      let run' =
        subst
          (λ n.
            fill_behind A (record (reading S schema f pos block1 valid 0) { size = n })
              (length saved) requested
            ≡ some (reading S schema f pos' block' valid' 0))
          len1 run in
      record {
        pos' = pos';
        block' = block';
        valid' = valid';
        offset' = 0;
        runs =
            rw
              (
                buf_avail-reading S schema f pos block valid offset b,
                le→leb (offset + (valid - offset)) (length block)
                    (omega (arith, b.offset_le, b.valid_le)),
                write_fits 0 saved block fits,
              )
              (subst
                (λ k.
                  fill_behind A
                    (record (reading S schema f pos block1 valid 0) { size = length block }) k
                    requested
                  ≡ some (reading S schema f pos' block' valid' 0))
                len run');
        inside = inside;
        same = same;
        served = λ enough. omega (arith, served enough);
      }

  pub refill_below-Refilled :
      (pos : ℕ) (block : List ℕ) (valid offset requested : ℕ)
      → InBounds block valid offset
      → requested < 2 ^ 63
      → Refilled pos block valid offset requested
          (refill_below A (reading S schema f pos block valid offset) requested)
  unfolding refill_below
  refill_below-Refilled pos block valid offset requested b asked =
      rw (buf_avail-reading S schema f pos block valid offset b)
        (elim (Bool-cases (ltb (valid - offset) requested)) [
          | inl less ↦ rw less (
              refill_buf-Refilled pos block valid offset requested b asked
                (ltb→lt (valid - offset) requested less))
          | inr enough ↦ rw enough (record {
            pos' = pos;
            block' = block;
            valid' = valid;
            offset' = offset;
            runs = refl;
            inside = b;
            same = refl;
            served = λ _. ground arith;
          })
        ])
