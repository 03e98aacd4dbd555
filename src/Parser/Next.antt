-- ===== src/Parser/Next.antt =====
-- `blgy_gen_parser_read_next` against what is still to be read.
use biology.Base.{
  ℕ, ◌+◌, ◌-◌, ◌^◌, ◌≤◌, ◌<◌, ◌≡◌, refl, sym, ap, ◌∙◌, some, List, ◌++◌, le→leb, lt→ltb, le→ltb,
  length, take, drop, length-append, take-append_len, take-append_le, drop-append_le,
  drop-append_len, take-append-drop, drop-drop, drop-take, append_assoc, arith,
}
use biology.Base.Bytes.{le_bytes, length-le_bytes, le_value-le_bytes, +u64_lem}
use biology.Base.Memory.{read, length-take_le}
use biology.Kernel.{Allocator, IsAllocator, Source, IsSource, Pages, IsPages}
use biology.Serial.Info.{Schema, Bio, BioInfo}
use biology.Serial.Decode.{Block, serialized_size}
use biology.Serial.Layout.{IsWhole, body_bytes, record_bytes, length-record_bytes}
use biology.Serial.RoundTrip.{transfer}
use biology.Serial.Payload.{receive_gen, Grants, deserialize_gen-record_bytes}
use biology.Parser.State.{next_ok, next_empty, read_record, read_sized, read_next}
use biology.Parser.Window.{
  reading, window, pending, InBounds, Grows, buf_avail-reading, length-window,
}
use biology.Parser.Refill.{refill_below-Refilled}

-- A record that begins `xs ++ ys` and fits in `xs` begins `xs`.
pub front_of :
    (xs ys front rest : List ℕ)
    → xs ++ ys ≡ front ++ rest
    → length front ≤ length xs
    → xs ≡ front ++ drop (length front) xs
front_of xs ys front rest e h =
    let same : take (length front) xs ≡ front =
      sym (take-append_le (length front) xs ys h)
      ∙ ap (take (length front)) e
      ∙ take-append_len (length front) front rest refl in
    sym (take-append-drop (length front) xs) ∙ ap (λ t. t ++ drop (length front) xs) same

module _ (S : Source) (schema : Schema) (f : S.File) where
  -- The buffer, cut at its two positions.
  cut :
      (block : List ℕ) (valid offset : ℕ)
      → block
        ≡ take offset block
          ++ (window S schema f block valid offset ++ drop (valid - offset) (drop offset block))
  cut block valid offset =
      sym (take-append-drop offset block)
      ∙ ap (λ t. take offset block ++ t)
          (sym (take-append-drop (valid - offset) (drop offset block)))

  peek :
      (pos : ℕ) (block : List ℕ) (valid offset n : ℕ)
      → InBounds block valid offset
      → n ≤ valid - offset
      → read offset n block ≡ some (take n (pending S schema f pos block valid offset))
  unfolding read
  peek pos block valid offset n b h =
      let len = length-window S schema f block valid offset b in
      let w = window S schema f block valid offset in
      rw (le→leb (offset + n) (length block) (omega (arith, b.offset_le, b.valid_le))) (
        ap some (
          ap (take n) (sym (take-append-drop (valid - offset) (drop offset block)))
          ∙ take-append_le n w (drop (valid - offset) (drop offset block)) (omega arith)
          ∙ sym (take-append_le n w (drop pos (S.contents f)) (omega arith))))

  pub advance :
      (pos : ℕ) (block : List ℕ) (valid offset n : ℕ)
      → InBounds block valid offset
      → n ≤ valid - offset
      → pending S schema f pos block valid (offset + n)
        ≡ drop n (pending S schema f pos block valid offset)
  advance pos block valid offset n b h =
      let len = length-window S schema f block valid offset b in
      let w = window S schema f block valid offset in
      let split : n + (valid - (offset + n)) ≡ valid - offset = omega arith in
      sym (
        drop-append_le n w (drop pos (S.contents f)) (omega arith)
        ∙ ap (λ t. t ++ drop pos (S.contents f))
            (ap (λ k. drop n (take k (drop offset block))) (sym split)
              ∙ drop-take n (valid - (offset + n)) (drop offset block)
              ∙ ap (take (valid - (offset + n))) (drop-drop offset n block)))

module _ (S : Source) (schema : Schema) (f : S.File) (A : Allocator) (M : IsAllocator A)
    (G : Grows A) (R : IsSource S) (P : Pages) (I : IsPages P) (info : BioInfo Bio)
    (w : IsWhole info) (granted : Grants A info.payload.size)
    (small : length (record_bytes P schema info) < 2 ^ 63) where
  abbrev bytes : List ℕ
  bytes = record_bytes P schema info

  read_record-ok :
      (pos : ℕ) (block : List ℕ) (valid offset : ℕ) (rest : List ℕ) (to : BioInfo Block)
      → InBounds block valid offset
      → pending S schema f pos block valid offset ≡ bytes ++ rest
      → length bytes ≤ valid - offset
      → (read_record A (reading S schema f pos block valid offset) to
          ≡ some (
            reading S schema f pos block valid (offset + length bytes),
            next_ok (transfer (receive_gen P) schema info to),
          ))
        × InBounds block valid (offset + length bytes)
        × (pending S schema f pos block valid (offset + length bytes) ≡ rest)
  unfolding read_record
  read_record-ok pos block valid offset rest to b e h =
      let len = length-window S schema f block valid offset b in
      let win = window S schema f block valid offset in
      let tail = drop (valid - offset) (drop offset block) in
      let starts = front_of win (drop pos (S.contents f)) bytes rest e (omega arith) in
      let shape : block ≡ take offset block ++ (bytes ++ (drop (length bytes) win ++ tail)) =
        cut S schema f block valid offset
        ∙ ap (λ t. take offset block ++ (t ++ tail)) starts
        ∙ ap (λ t. take offset block ++ t) (append_assoc bytes (drop (length bytes) win) tail) in
      (
        rw (
          deserialize_gen-record_bytes P I info w A M granted schema to offset block
              (take offset block) (drop (length bytes) win ++ tail) shape
              (sym (length-take_le offset block (omega (arith, b.offset_le, b.valid_le)))),
          +u64_lem offset (length bytes) (omega (arith, b.valid_le, b.block_small)),
        ),
        record {
          offset_le = omega (arith, b.offset_le);
          valid_le = b.valid_le;
          block_small = b.block_small;
        },
        advance S schema f pos block valid offset (length bytes) b h
            ∙ ap (drop (length bytes)) e
            ∙ drop-append_len (length bytes) bytes rest refl,
      )

  header_of :
      (rest : List ℕ) → take 8 (bytes ++ rest) ≡ le_bytes 8 (length (body_bytes P schema info))
  unfolding record_bytes
  header_of rest =
      let head = le_bytes 8 (length (body_bytes P schema info)) in
      ap (take 8) (append_assoc head (body_bytes P schema info) rest)
      ∙ take-append_len 8 head _ (sym (length-le_bytes 8 (length (body_bytes P schema info))))

  size_of :
      (pos : ℕ) (block : List ℕ) (valid offset : ℕ) (rest : List ℕ)
      → InBounds block valid offset
      → pending S schema f pos block valid offset ≡ bytes ++ rest
      → 8 ≤ valid - offset
      → serialized_size offset block ≡ some (length bytes)
  unfolding serialized_size
  size_of pos block valid offset rest b e h =
      let total = length-record_bytes P schema info in
      let body : ℕ = length (body_bytes P schema info) in
      rw (peek S schema f pos block valid offset 8 b h, e, header_of rest)
        (rw (le_value-le_bytes 8 body (omega arith), +u64_lem body 8 (omega arith))
          (ap some (omega arith)))

  read_sized-ok :
      (pos : ℕ) (block : List ℕ) (valid offset : ℕ) (rest : List ℕ) (to : BioInfo Block)
      → InBounds block valid offset
      → pending S schema f pos block valid offset ≡ bytes ++ rest
      → 8 ≤ valid - offset
      → (pos' : ℕ) × (block' : List ℕ) × (valid' : ℕ) × (offset' : ℕ) × (read_sized A
            (reading S schema f pos block valid offset)
            to
          ≡ some (
            reading S schema f pos' block' valid' offset',
            next_ok (transfer (receive_gen P) schema info to),
          ))
        × InBounds block' valid' offset'
        × (pending S schema f pos' block' valid' offset' ≡ rest)
  unfolding read_sized
  read_sized-ok pos block valid offset rest to b e h =
      let r =
        refill_below-Refilled S schema f A M G R pos block valid offset (length bytes) b small in
      let room : length bytes ≤ r.valid' - r.offset' =
        r.served (rw e (omega (arith, length-append bytes rest))) in
      let (run, inside, left) =
        read_record-ok r.pos' r.block' r.valid' r.offset' rest to r.inside (r.same ∙ e) room in
      (
        r.pos',
        r.block',
        r.valid',
        r.offset' + length bytes,
        rw
            (
              size_of pos block valid offset rest b e h,
              r.runs,
              buf_avail-reading S schema f r.pos' r.block' r.valid' r.offset' r.inside,
              le→ltb (r.valid' - r.offset') (length bytes) room,
            )
            run,
        inside,
        left,
      )

  -- With a whole record next, the parser delivers it and stands behind it, however the record
  -- lies across the buffer and the file.
  pub read_next-record_bytes :
      (pos : ℕ) (block : List ℕ) (valid offset : ℕ) (rest : List ℕ) (to : BioInfo Block)
      → InBounds block valid offset
      → pending S schema f pos block valid offset ≡ bytes ++ rest
      → (pos' : ℕ) × (block' : List ℕ) × (valid' : ℕ) × (offset' : ℕ) × (read_next A
            (reading S schema f pos block valid offset)
            to
          ≡ some (
            reading S schema f pos' block' valid' offset',
            next_ok (transfer (receive_gen P) schema info to),
          ))
        × InBounds block' valid' offset'
        × (pending S schema f pos' block' valid' offset' ≡ rest)
  unfolding read_next
  read_next-record_bytes pos block valid offset rest to b e =
      let total = length-record_bytes P schema info in
      let r = refill_below-Refilled S schema f A M G R pos block valid offset 8 b (omega arith) in
      let room : 8 ≤ r.valid' - r.offset' =
        r.served (rw e (omega (arith, length-append bytes rest))) in
      rw
        (
          r.runs,
          buf_avail-reading S schema f r.pos' r.block' r.valid' r.offset' r.inside,
          le→ltb (r.valid' - r.offset') 8 room,
        )
        (read_sized-ok r.pos' r.block' r.valid' r.offset' rest to r.inside (r.same ∙ e) room)

module _ (S : Source) (schema : Schema) (f : S.File) (A : Allocator) (M : IsAllocator A)
    (G : Grows A) (R : IsSource S) where
  -- The valid part of the buffer is a part of what is to be read.
  avail_le :
      (pos : ℕ) (block : List ℕ) (valid offset : ℕ)
      → InBounds block valid offset
      → valid - offset ≤ length (pending S schema f pos block valid offset)
  avail_le pos block valid offset b = omega (
    arith,
    length-append (window S schema f block valid offset) (drop pos (S.contents f)),
    length-window S schema f block valid offset b,
  )

  -- With less than a size field to be read the parser answers that the dump is at its end.
  pub read_next_empty :
      (pos : ℕ) (block : List ℕ) (valid offset : ℕ) (to : BioInfo Block)
      → InBounds block valid offset
      → length (pending S schema f pos block valid offset) < 8
      → (pos' : ℕ) × (block' : List ℕ) × (valid' : ℕ) × (offset' : ℕ) × (read_next A
            (reading S schema f pos block valid offset)
            to
          ≡ some (reading S schema f pos' block' valid' offset', next_empty))
  unfolding read_next
  read_next_empty pos block valid offset to b h =
      let r = refill_below-Refilled S schema f A M G R pos block valid offset 8 b (omega arith) in
      let few : r.valid' - r.offset' < 8 =
        omega
          (arith, avail_le r.pos' r.block' r.valid' r.offset' r.inside, ap {B = ℕ} length r.same) in
      rw
        (
          r.runs,
          buf_avail-reading S schema f r.pos' r.block' r.valid' r.offset' r.inside,
          lt→ltb (r.valid' - r.offset') 8 few,
        )
        (r.pos', r.block', r.valid', r.offset', refl)
