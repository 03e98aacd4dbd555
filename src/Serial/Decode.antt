-- ===== src/Serial/Decode.antt =====
-- `blgy_prxy_bio_deserialize` as the generator (`C_GEN`) and to-json (`C_TO_JSON`) build it.
use biology.Base.{ℕ, ◌+◌, ◌-◌, Option, none, some, List, [], ◌∷◌, ◌==◌, if◌then◌else◌, ◌>>=◌}
use biology.Base.Bytes.{le_value, ◌+u64◌}
use biology.Base.Memory.{read, write}
use biology.Kernel.{Allocator}
use biology.Serial.Info.{BioInfo, Field, Schema, field_size, store_field}

-- `blgy_prxy_bio_serialized_size(buf + pos)`
unfoldable pub serialized_size : ℕ → List ℕ → Option ℕ
serialized_size pos buf = do bytes ← read pos 8 buf; some (le_value bytes +u64 8)

-- The payload of the generator: the bytes of an allocated block, or null.
abbrev pub Block : Type 0
Block = Option (List ℕ)

module _ (A : Allocator) where
  -- `blgy_prxy_bio_serial_schema_field_deserialize_fn_payload` under `C_GEN`. The result of the
  -- allocation is not tested, so a null one is copied to, which is a fault.
  unfoldable pub deserialize_payload_gen : BioInfo Block → ℕ → List ℕ → Option (BioInfo Block)
  deserialize_payload_gen info bufp buf = do
    bytes ← read bufp 8 buf
    let size = le_value bytes
    let filled = do
      block ← A.kmalloc size
      payload ← read (bufp + 8) size buf
      block' ← write 0 payload block
      some (record info { payload = record { size = size; content = some block' } })
    if size == 0
        then some (record info { payload = record { size = size; content = none } })
        else filled

-- The same under `C_TO_JSON`, which has no use for the data.
unfoldable pub deserialize_payload_json : BioInfo Block → ℕ → List ℕ → Option (BioInfo Block)
deserialize_payload_json info bufp buf = do
  bytes ← read bufp 8 buf
  some (record info { payload = record { size = le_value bytes; content = info.payload.content } })

module _ {D : Type 0} (deserialize_payload : BioInfo D → ℕ → List ℕ → Option (BioInfo D)) where
  -- `schema->deserialize(schema, info, buf)`
  unfoldable pub deserialize_field : Field → BioInfo D → ℕ → List ℕ → Option (BioInfo D)
  deserialize_field Field.payload info bufp buf = deserialize_payload info bufp buf
  deserialize_field f info bufp buf = do
    bytes ← read bufp (field_size f info) buf
    some (store_field f (le_value bytes) info)

  -- The loop of `blgy_prxy_bio_deserialize`. The size of a field is that of the member just read.
  unfoldable pub deserialize_loop : Schema → BioInfo D → ℕ → List ℕ → Option (BioInfo D × ℕ)
  deserialize_loop [] info bufp buf = some (info, bufp)
  deserialize_loop (f ∷ fs) info bufp buf = do
    info' ← deserialize_field f info bufp buf
    deserialize_loop fs info' (bufp + field_size f info') buf

  -- `blgy_prxy_bio_deserialize(info, buf + pos, schema)`: the request and the count of bytes.
  unfoldable pub deserialize : BioInfo D → ℕ → List ℕ → Schema → Option (BioInfo D × ℕ)
  unfolding deserialize_loop
  deserialize info pos buf schema = do
    (info', bufp) ← deserialize_loop schema info (pos + 8) buf
    some (info', bufp - pos)
