-- ===== src/Serial/Encode.antt =====
-- `blgy_prxy_bio_serialize` as the proxy builds it (`C_PRXY`), over a block with checked access.
use biology.Base.{ℕ, ◌+◌, ◌-◌, ◌*◌, Option, some, List, [], ◌∷◌, ◌==◌, if◌then◌else◌, ◌>>=◌}
use biology.Base.Bytes.{le_bytes, ◌+u64◌}
use biology.Base.Memory.{write}
use biology.Kernel.{Pages}
use biology.Serial.Info.{BioVec, Bio, BioInfo, Field, Schema, field_size, load_field}

module _ {D : Type 0} where
  -- The loop of `blgy_prxy_bio_serial_size`, over the fields not yet counted.
  unfoldable pub serial_size_loop : BioInfo D → ℕ → Schema → ℕ
  serial_size_loop info size [] = size
  serial_size_loop info size (f ∷ fs) = serial_size_loop info (size +u64 field_size f info) fs

  -- `blgy_prxy_bio_serial_size`
  unfoldable pub serial_size : BioInfo D → Schema → ℕ
  unfolding serial_size_loop
  serial_size info schema = serial_size_loop info 0 schema

module _ (P : Pages) where
  -- The source of the copy is `bvec->bv_page + bvec->bv_offset`, where `bv_page` points to a
  -- `struct page`, so that the offset counts in units of that size.
  unfoldable pub bvec_bytes : BioVec → List ℕ
  bvec_bytes v = P.bytes_at (v.bv_page + v.bv_offset * P.sizeof_page) v.bv_len

  -- The loop over `bio->bi_io_vec`; `bufp` is `buf + offset`.
  unfoldable pub copy_bvecs : List BioVec → ℕ → List ℕ → Option (List ℕ)
  copy_bvecs [] bufp buf = some buf
  copy_bvecs (v ∷ vs) bufp buf = do
    buf' ← write bufp (bvec_bytes v) buf
    copy_bvecs vs (bufp + v.bv_len) buf'

  -- `blgy_prxy_bio_serial_schema_field_serialize_fn_payload`
  unfoldable pub serialize_payload : BioInfo Bio → ℕ → List ℕ → Option (List ℕ)
  serialize_payload info bufp buf = do
    buf' ← write bufp (le_bytes 8 info.payload.size) buf
    if info.payload.size == 0
        then some buf'
        else copy_bvecs info.payload.content.bi_io_vec (bufp + 8) buf'

  -- `schema->serialize(schema, info, buf)`
  unfoldable pub serialize_field : Field → BioInfo Bio → ℕ → List ℕ → Option (List ℕ)
  serialize_field Field.payload info bufp buf = serialize_payload info bufp buf
  serialize_field f info bufp buf =
      write bufp (le_bytes (field_size f info) (load_field f info)) buf

  -- The loop of `blgy_prxy_bio_serialize`; the final `bufp` comes with the block.
  unfoldable pub serialize_loop : Schema → BioInfo Bio → ℕ → List ℕ → Option (ℕ × List ℕ)
  serialize_loop [] info bufp buf = some (bufp, buf)
  serialize_loop (f ∷ fs) info bufp buf = do
    buf' ← serialize_field f info bufp buf
    serialize_loop fs info (bufp + field_size f info) buf'

  -- `blgy_prxy_bio_serialize(info, buf + pos, schema)`: the count of bytes and the block.
  unfoldable pub serialize : BioInfo Bio → ℕ → List ℕ → Schema → Option (ℕ × List ℕ)
  unfolding serialize_loop
  serialize info pos buf schema = do
    buf' ← write pos (le_bytes 8 (serial_size info schema)) buf
    (bufp, buf'') ← serialize_loop schema info (pos + 8) buf'
    some (bufp - pos, buf'')
