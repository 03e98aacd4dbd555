-- ===== src/Serial/Schema.antt =====
-- The header of a dump: the functions on schemas of shared/biology-proxy-bio-serial.c.
-- A buffer is a block with checked access, and a position in it stands for `bufp`.
use biology.Base.{
  ℕ, zero, suc, ◌+◌, ◌-◌, ◌*◌, ◌%◌, ◌^◌, Option, none, some, List, [], ◌∷◌, ◌==◌, if◌then◌else◌,
  length, ◌>>=◌,
}
use biology.Base.Bytes.{le_bytes, le_value}
use biology.Base.Errno.{enomem, einval, Ret, ok, err}
use biology.Base.Memory.{read, write}
use biology.Kernel.{Allocator}
use biology.Serial.Info.{Field, Schema, field_id, schema_all}

find_by_id : Schema → ℕ → Option Field
find_by_id [] id = none
find_by_id (f ∷ fs) id = if field_id f == id then some f else find_by_id fs id

-- `_get_serial_schema_field_by_id`
unfoldable pub get_serial_schema_field_by_id : ℕ → Option Field
unfolding find_by_id field_id
get_serial_schema_field_by_id id = find_by_id schema_all id

-- `blgy_prxy_bio_serial_schema_size`: a `size_t` count returned as `uint32_t`.
unfoldable pub schema_size : Schema → ℕ
schema_size schema = length schema % 2 ^ 32

unfoldable pub write_ids : Schema → ℕ → List ℕ → Option (ℕ × List ℕ)
write_ids [] bufp buf = some (bufp, buf)
write_ids (f ∷ fs) bufp buf = do
  buf' ← write bufp (le_bytes 4 (field_id f)) buf
  write_ids fs (bufp + 4) buf'

-- `blgy_prxy_bio_serial_schema_serialize(schema, buf + pos)`; `none` in place of the block is a
-- null `buf`. The count of bytes written comes with the block after it.
unfoldable pub schema_serialize : Schema → ℕ → Option (List ℕ) → Option (Ret (ℕ × List ℕ))
unfolding write_ids
schema_serialize schema pos none = some (err enomem)
schema_serialize schema pos (some buf) = do
  buf' ← write pos (le_bytes 4 (schema_size schema)) buf
  (bufp, buf'') ← write_ids schema (pos + 4) buf'
  some (ok (bufp - pos, buf''))

-- `memcpy(&v, buf + pos, n)` into an unsigned integer.
unfoldable pub read_value : ℕ → ℕ → List ℕ → Option ℕ
read_value n pos buf = do bytes ← read pos n buf; some (le_value bytes)

abbrev pub prepend : Field → Ret (Schema × ℕ) → Ret (Schema × ℕ)
prepend f (ok (fs, bufp)) = ok (f ∷ fs, bufp)
prepend f (err e) = err e

-- The test of the field that was looked up; `rest` is the rest of the loop.
abbrev pub store_found : Option Field → Option (Ret (Schema × ℕ)) → Option (Ret (Schema × ℕ))
store_found none rest = some (err einval)
store_found (some f) rest = do r ← rest; some (prepend f r)

-- The loop of `blgy_prxy_bio_serial_schema_deserialize` and the null that ends the array: `left`
-- ids are still to be read, and `slots` cells of the array are free. A store past it is a fault.
unfoldable pub read_ids : ℕ → ℕ → ℕ → List ℕ → Option (Ret (Schema × ℕ))
read_ids left zero bufp buf = none
read_ids zero (suc slots) bufp buf = some (ok ([], bufp))
read_ids (suc left) (suc slots) bufp buf = do
  id ← read_value 4 bufp buf
  let rest = read_ids left slots (bufp + 4) buf
  store_found (get_serial_schema_field_by_id id) rest

abbrev pub counted_from : ℕ → Ret (Schema × ℕ) → Ret (Schema × ℕ)
counted_from buf (ok (schema, bufp)) = ok (schema, bufp - buf)
counted_from buf (err e) = err e

-- From the test of the allocated array on.
unfoldable pub fill_schema : Option (List ℕ) → ℕ → ℕ → List ℕ → Option (Ret (Schema × ℕ))
fill_schema none size pos buf = some (err enomem)
fill_schema (some array) size pos buf = do
  r ← read_ids size ((size + 1) % 2 ^ 32) (pos + 4) buf
  some (counted_from pos r)

-- `blgy_prxy_bio_serial_schema_deserialize(&schema, buf + pos)`. The number of cells to allocate is
-- computed in `uint32_t`. The result is the schema with the count of bytes read.
unfoldable pub schema_deserialize : Allocator → ℕ → List ℕ → Option (Ret (Schema × ℕ))
unfolding fill_schema
schema_deserialize A pos buf = do
  size ← read_value 4 pos buf
  fill_schema (A.kmalloc (8 * ((size + 1) % 2 ^ 32))) size pos buf
