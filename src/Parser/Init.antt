-- ===== src/Parser/Init.antt =====
-- `blgy_gen_parser_init`: a dump whose header is read, and the failures that it does not notice.
use biology.Base.{
  ℕ, ◌+◌, ◌-◌, ◌*◌, ◌^◌, ◌≤◌, ◌<◌, ◌≡◌, refl, sym, ap, ap₂, ◌∙◌, true, false, none, some, List, [],
  ◌++◌, ◌==◌, length, take, drop, length-append, length-take, take-append_len, drop-append_len,
  take-append-drop, take-drop-length, append_assoc, arith,
}
use biology.Base.Bytes.{le_bytes, length-le_bytes, +u64_lem}
use biology.Base.Errno.{einval, as_size, Ret, ok, err}
use biology.Base.Memory.{write_fits, splice, length-splice}
use biology.Kernel.{Allocator, IsAllocator, Source, IsSource, ptr}
use biology.Serial.Info.{Schema}
use biology.Serial.Schema.{schema_deserialize}
use biology.Serial.Header.{
  header_bytes, length-header_bytes, length-id_bytes, schema_deserialize-header_bytes, id_bytes,
  schema_deserialize_unknown,
}
use biology.Parser.State.{Parser, initial_buf_size, file_read, take_header, parser_init}
use biology.Parser.Window.{reading, pending, InBounds}
use biology.Parser.Next.{front_of, advance}

-- What was read, at the front of the buffer, and what was not.
refound :
    (n : ℕ) (c tail : List ℕ)
    → take (length (take n (drop 0 c)) - 0) (drop 0 (take n (drop 0 c) ++ tail))
        ++ drop (0 + length (take n (drop 0 c))) c
      ≡ c
refound n c tail =
    let all : length (take n c) - 0 ≡ length (take n c) = omega arith in
    let same : 0 + length (take n c) ≡ length (take n c) = omega arith in
    ap₂ ◌++◌
      (ap (λ k. take k (take n c ++ tail)) all
        ∙ take-append_len (length (take n c)) (take n c) tail refl)
      (ap (λ k. drop k c) same)
    ∙ take-drop-length n c

module _ (S : Source) (R : IsSource S) (A : Allocator) (M : IsAllocator A) (f : S.File)
    (block : List ℕ) (granted : A.kmalloc initial_buf_size ≡ some block) where
  -- The bytes of the first read, and the buffer after it.
  abbrev first : List ℕ
  first = take initial_buf_size (drop 0 (S.contents f))

  abbrev loaded : List ℕ
  loaded = splice 0 first block

  length-first : 0 + length first ≤ length block
  length-first = omega (
    arith,
    length-take initial_buf_size (drop 0 (S.contents f)),
    M.kmalloc_length initial_buf_size granted,
  )

  length-loaded : length loaded ≡ initial_buf_size
  length-loaded =
      length-splice 0 first block length-first ∙ M.kmalloc_length initial_buf_size granted

  first_read :
      file_read {S = S}
        (record { file = ptr f; offset = 0 })
        (A.kmalloc initial_buf_size)
        0
        initial_buf_size
      ≡ some (record { file = ptr f; offset = 0 + length first }, loaded, length first)
  unfolding file_read
  first_read =
      rw (granted, R.read_full f 0 initial_buf_size) (rw (write_fits 0 first block length-first))

  abbrev unread : Parser S
  unread = record {
    file = record { file = ptr f; offset = 0 + length first };
    schema = none;
    buf = some loaded;
    size = initial_buf_size;
    valid = length first;
    offset = 0;
  }

  init-header :
      (header : Ret (Schema × ℕ))
      → 0 < length first
      → schema_deserialize A 0 loaded ≡ some header
      → parser_init A (ptr f) ≡ some (take_header A unread header, ok tt)
  unfolding parser_init
  init-header header some_bytes e =
      let nonzero : (length first == 0) ≡ false = ground arith in rw first_read (rw (nonzero, e))

  -- An empty dump file is refused.
  pub parser_init_empty :
      S.contents f ≡ [] → (parser : Parser S) × (parser_init A (ptr f) ≡ some (parser, err einval))
  unfolding parser_init
  parser_init_empty e =
      let nothing : length first ≡ 0 = rw e (omega arith) in
      let zero_test : (length first == 0) ≡ true = ground arith in
      rw first_read (rw zero_test (_, refl))

  whole_first :
      (header rest : List ℕ)
      → S.contents f ≡ header ++ rest
      → length header ≤ initial_buf_size
      → first ≡ header ++ drop (length header) first
  whole_first header rest e fits =
      front_of first (drop initial_buf_size (S.contents f)) header rest
        (take-append-drop initial_buf_size (S.contents f) ∙ e)
        (omega (
          arith,
          length-take initial_buf_size (drop 0 (S.contents f)),
          ap {B = ℕ} length e,
          length-append header rest,
        ))

  -- A dump that begins with the header of a schema is opened, and what is still to be read is all
  -- that follows the header.
  pub parser_init-header_bytes :
      (schema : Schema) (rest array : List ℕ)
      → S.contents f ≡ header_bytes schema ++ rest
      → length (header_bytes schema) ≤ initial_buf_size
      → A.kmalloc (8 * (length schema + 1)) ≡ some array
      → (pos : ℕ) × (block' : List ℕ) × (valid : ℕ) × (offset : ℕ) × (parser_init A (ptr f)
          ≡ some (reading S schema f pos block' valid offset, ok tt))
        × InBounds block' valid offset
        × (pending S schema f pos block' valid offset ≡ rest)
  unfolding take_header
  parser_init-header_bytes schema rest array e fits cells =
      let header = header_bytes schema in
      let size = length-header_bytes schema in
      let front = whole_first header rest e fits in
      let total : length first ≡ length header + length (drop (length header) first) =
        ap {B = ℕ} length front ∙ length-append header (drop (length header) first) in
      let shape : loaded
          ≡ [] ++ (header ++ (drop (length header) first ++ drop (0 + length first) block)) =
        ap (λ t. t ++ drop (0 + length first) block) front
        ∙ append_assoc header (drop (length header) first) (drop (0 + length first) block) in
      let run = init-header (ok (schema, length header)) (omega arith) (
        schema_deserialize-header_bytes A schema 0 loaded [] _ array (omega arith) cells shape
          refl) in
      let inside : InBounds loaded (length first) 0 = record {
        offset_le = omega arith;
        valid_le = omega (arith, length-first, length-splice 0 first block length-first);
        block_small = omega (arith, length-loaded);
      } in
      (
        0 + length first,
        loaded,
        length first,
        0 + length header,
        rw run (
            rw (+u64_lem 0 (length header) (omega arith)) (
              ap
                (λ n. some (
                  record (reading S schema f (0 + length first) loaded (length first)
                      (0 + length header)) { size = n },
                  ok tt,
                ))
                (sym length-loaded))),
        record {
          offset_le = omega arith;
          valid_le = inside.valid_le;
          block_small = inside.block_small;
        },
        advance S schema f (0 + length first) loaded (length first) 0 (length header) inside
              (omega arith)
            ∙ ap (drop (length header))
                (refound initial_buf_size (S.contents f) (drop (0 + length first) block) ∙ e)
            ∙ drop-append_len (length header) header rest refl,
      )

  -- A dump in whose header another field stands, behind any known ones and with any number of fields
  -- after it: `blgy_gen_parser_init` returns 0 all the same, with no schema, and with -EINVAL added to
  -- the offset of its buffer. The header is found in the first read up to this field, and there is
  -- memory for as many fields as it counts.
  pub parser_init_unknown :
      (fs : Schema) (id more : ℕ) (rest array : List ℕ)
      → 9 ≤ id
      → id < 2 ^ 32
      → 4 * length fs + 8 ≤ initial_buf_size
      → length fs + more + 2 < 2 ^ 32
      → S.contents f ≡ le_bytes 4 (length fs + more + 1) ++ (id_bytes fs ++ (le_bytes 4 id ++ rest))
      → A.kmalloc (8 * (length fs + more + 2)) ≡ some array
      → (parser : Parser S) × (parser_init A (ptr f) ≡ some (parser, ok tt))
        × (parser.schema ≡ none)
        × (parser.offset ≡ as_size einval)
  unfolding take_header
  parser_init_unknown fs id more rest array large small fits few e cells =
      let n : ℕ = length fs + more + 1 in
      let ids = id_bytes fs ++ le_bytes 4 id in
      let front = le_bytes 4 n ++ ids in
      let size : length front ≡ 4 * length fs + 8 = omega (
        arith,
        length-append (le_bytes 4 n) ids,
        length-append (id_bytes fs) (le_bytes 4 id),
        length-le_bytes 4 n,
        length-le_bytes 4 id,
        length-id_bytes fs,
      ) in
      let split : (back : List ℕ)
          → front ++ back ≡ le_bytes 4 n ++ (id_bytes fs ++ (le_bytes 4 id ++ back)) =
        λ back.
          append_assoc (le_bytes 4 n) ids back
          ∙ ap (λ t. le_bytes 4 n ++ t) (append_assoc (id_bytes fs) (le_bytes 4 id) back) in
      let starts = whole_first front rest (e ∙ sym (split rest)) (omega arith) in
      let total : length first ≡ length front + length (drop (length front) first) =
        ap {B = ℕ} length starts ∙ length-append front (drop (length front) first) in
      let back = drop (length front) first ++ drop (0 + length first) block in
      let shape : loaded ≡ le_bytes 4 n ++ (id_bytes fs ++ (le_bytes 4 id ++ back)) =
        ap (λ t. t ++ drop (0 + length first) block) starts
        ∙ append_assoc front (drop (length front) first) (drop (0 + length first) block)
        ∙ split back in
      let refusal : schema_deserialize A 0 loaded ≡ some (err einval) =
        schema_deserialize_unknown A fs id more 0 loaded [] back array large small few cells shape
          refl in
      (
        take_header A unread (err einval),
        init-header (err einval) (omega arith) refusal,
        refl,
        +u64_lem 0 (as_size einval) (omega arith),
      )
