-- ===== src/Parser/State.antt =====
-- The functions of biology-gen-parser.c. `none` in the place of a result is a fault.
use biology.Base.{ℕ, ◌+◌, Option, none, some, List, ltb, ◌==◌, if◌then◌else◌, ◌>>=◌, length}
use biology.Base.Bytes.{◌+u64◌, ◌-u64◌}
use biology.Base.Errno.{einval, as_size, Ret, ok, err, Status}
use biology.Base.Memory.{read, write}
use biology.Kernel.{Allocator, Source, Ptr, null, err_ptr, ptr, delivered, refused}
use biology.Serial.Info.{Schema, BioInfo}
use biology.Serial.Schema.{schema_deserialize}
use biology.Serial.Decode.{Block, serialized_size, deserialize_payload_gen, deserialize}
use biology.Dump.Buffer.{deref, krealloc}

-- `BLGY_GEN_PARSER_INITIAL_BUF_SIZE`
abbrev pub initial_buf_size : ℕ
initial_buf_size = 4096

pub record ParserFile (S : Source) : Type 0 where
  pub file : Ptr S.File
  pub offset : ℕ

-- `schema` is null until the header of the dump is read.
pub record Parser (S : Source) : Type 0 where
  pub file : ParserFile S
  pub schema : Option Schema
  pub buf : Option (List ℕ)
  pub size : ℕ
  pub valid : ℕ
  pub offset : ℕ

-- `enum blgy_gen_parser_read_next_ret`, with the request that `info` then holds.
pub data ReadNext : Type 0 where
  next_ok : BioInfo Block → ReadNext
  next_empty : ReadNext
  next_err : ReadNext

module _ {S : Source} where
  -- `blgy_gen_parser_buf_avail`
  unfoldable pub buf_avail : Parser S → ℕ
  buf_avail parser = parser.valid -u64 parser.offset

  -- `blgy_gen_parser_file_init`: the test is for null, which `filp_open` does not return.
  unfoldable pub file_init : Ptr S.File → ParserFile S × Status
  file_init opened = elim opened [
    | null ↦ (record { file = null; offset = 0 }, err einval)
    | err_ptr e ↦ (record { file = err_ptr e; offset = 0 }, ok tt)
    | ptr f ↦ (record { file = ptr f; offset = 0 }, ok tt)
  ]

  -- `blgy_gen_parser_file_free`
  unfoldable pub file_free : ParserFile S → Option (ParserFile S)
  file_free file = do f ← deref file.file; some (record file { file = null })

  -- `blgy_gen_parser_file_read(file, buf + pos, size)`: the file and the block after it, and the
  -- `ssize_t` of the read as a `size_t`.
  unfoldable pub file_read :
      ParserFile S → Option (List ℕ) → ℕ → ℕ → Option (ParserFile S × List ℕ × ℕ)
  file_read file buf pos size = do
    block ← buf
    f ← deref file.file
    elim (S.iter_read f file.offset size) [
      | delivered bytes ↦ do
        block' ← write pos bytes block
        some (record file { offset = file.offset + length bytes }, block', length bytes)
      | refused e ↦ some (file, block, as_size e)
    ]

  module _ (A : Allocator) where
    -- How `parser->offset` and `parser->schema` take the result of the header. A negative result
    -- is added like a count, and leaves the schema null.
    unfoldable pub take_header : Parser S → Ret (Schema × ℕ) → Parser S
    take_header parser (ok (schema, n)) = record parser {
      schema = some schema;
      offset = parser.offset +u64 n;
    }
    take_header parser (err e) = record parser { offset = parser.offset +u64 as_size e }

    -- `blgy_gen_parser_init` on the zeroed parser of a fresh worker, with what `filp_open` returns.
    unfoldable pub parser_init : Ptr S.File → Option (Parser S × Status)
    unfolding take_header file_init file_free
    parser_init opened =
        let (file, status) = file_init opened in
        elim status [
          | err e ↦ some (
            record { file = file; schema = none; buf = none; size = 0; valid = 0; offset = 0 },
            err e,
          )
          | ok _ ↦ do
            (file', block, valid) ← file_read file (A.kmalloc initial_buf_size) 0 initial_buf_size
            let parser : Parser S = record {
              file = file';
              schema = none;
              buf = some block;
              size = initial_buf_size;
              valid = valid;
              offset = 0;
            }
            if valid == 0
                then (file_free file' >>= λ closed.
                    some (record parser { file = closed }, err einval))
                else (schema_deserialize A 0 block >>= λ header.
                    some (take_header parser header, ok tt))
        ]

    -- The growth of the buffer in `blgy_gen_parser_refill_buf`; the result is not tested for null.
    unfoldable pub grow : Parser S → ℕ → Parser S
    unfolding krealloc
    grow parser requested =
        if ltb parser.size requested
        then record parser { buf = krealloc A parser.buf requested; size = requested }
        else parser

    -- The end of `blgy_gen_parser_refill_buf`: with `save` bytes at the front of the buffer.
    unfoldable pub fill_behind : Parser S → ℕ → ℕ → Option (Parser S)
    fill_behind parser save requested = do
      let grown = grow parser requested
      (file, block, n) ← file_read grown.file grown.buf save (grown.size -u64 save)
      some (record grown { file = file; buf = some block; valid = n +u64 save })

    -- `blgy_gen_parser_refill_buf`
    unfoldable pub refill_buf : Parser S → ℕ → Option (Parser S)
    refill_buf parser requested = do
      let save = buf_avail parser
      block ← parser.buf
      kept ← read parser.offset save block
      block' ← write 0 kept block
      fill_behind (record parser { buf = some block'; offset = 0 }) save requested

    -- The two guarded calls of it: `if (avail < requested) refill(requested)`.
    unfoldable pub refill_below : Parser S → ℕ → Option (Parser S)
    refill_below parser requested =
        if ltb (buf_avail parser) requested then refill_buf parser requested else some parser

    -- The end of `blgy_gen_parser_read_next`, with a whole record in the buffer.
    unfoldable pub read_record : Parser S → BioInfo Block → Option (Parser S × ReadNext)
    read_record parser info = do
      block ← parser.buf
      schema ← parser.schema
      (info', n) ← deserialize (deserialize_payload_gen A) info parser.offset block schema
      some (record parser { offset = parser.offset +u64 n }, next_ok info')

    -- From the size of the record on.
    unfoldable pub read_sized : Parser S → BioInfo Block → Option (Parser S × ReadNext)
    read_sized parser info = do
      block ← parser.buf
      size ← serialized_size parser.offset block
      filled ← refill_below parser size
      if ltb (buf_avail filled) size then some (filled, next_err) else read_record filled info

    -- `blgy_gen_parser_read_next`
    unfoldable pub read_next : Parser S → BioInfo Block → Option (Parser S × ReadNext)
    read_next parser info = do
      filled ← refill_below parser 8
      if ltb (buf_avail filled) 8 then some (filled, next_empty) else read_sized filled info

  -- `blgy_gen_parser_free`
  unfoldable pub parser_free : Parser S → Option (Parser S)
  unfolding file_free
  parser_free parser = do
    closed ← file_free parser.file
    some (record parser { buf = none; file = closed })
