-- ===== src/Serial/Info.antt =====
-- `struct blgy_prxy_bio_info` and the schema fields of shared/biology-proxy-bio-serial.c.
-- A member is the bit pattern of its type, so a negative `int` is a number above `2 ^ 31`.
use biology.Base.{ℕ, List, [], ◌∷◌}
use biology.Base.Bytes.{◌+u64◌}

-- A segment of a request: `bv_page` is the address of the page's `struct page`.
pub record BioVec : Type 0 where
  pub bv_page : ℕ
  pub bv_offset : ℕ
  pub bv_len : ℕ

-- The members of `struct bio` that the program reads; the list holds the `bi_vcnt` segments.
pub record Bio : Type 0 where
  pub bi_sector : ℕ
  pub bi_size : ℕ
  pub bi_opf : ℕ
  pub bi_status : ℕ
  pub bi_io_vec : List BioVec

-- `data` is a `struct bio *` in the proxy and a `char *` in the generator and in to-json.
pub record Payload (D : Type 0) : Type 0 where
  pub size : ℕ
  pub content : D

pub record BioInfo (D : Type 0) : Type 0 where
  pub cpu : ℕ
  pub id : ℕ
  pub start_ts : ℕ
  pub end_ts : ℕ
  pub sector : ℕ
  pub size : ℕ
  pub op : ℕ
  pub status : ℕ
  pub payload : Payload D

-- The static `struct blgy_prxy_bio_serial_schema_field` objects, and null-terminated arrays of them.
pub data Field : Type 0 where
  id start_ts end_ts sector size op cpu status payload : Field

abbrev pub Schema : Type 0
Schema = List Field

-- `schema->id`
unfoldable pub field_id : Field → ℕ
field_id Field.id = 0
field_id Field.start_ts = 1
field_id Field.end_ts = 2
field_id Field.sector = 3
field_id Field.size = 4
field_id Field.op = 5
field_id Field.cpu = 6
field_id Field.status = 7
field_id Field.payload = 8

module _ {D : Type 0} where
  -- `schema->size(info)`
  unfoldable pub field_size : Field → BioInfo D → ℕ
  field_size Field.id info = 4
  field_size Field.start_ts info = 8
  field_size Field.end_ts info = 8
  field_size Field.sector info = 8
  field_size Field.size info = 4
  field_size Field.op info = 4
  field_size Field.cpu info = 4
  field_size Field.status info = 1
  field_size Field.payload info = info.payload.size +u64 8

  -- What `schema->ptr(info)` points to. The payload has a null pointer, which nothing reads.
  unfoldable pub load_field : Field → BioInfo D → ℕ
  load_field Field.id info = info.id
  load_field Field.start_ts info = info.start_ts
  load_field Field.end_ts info = info.end_ts
  load_field Field.sector info = info.sector
  load_field Field.size info = info.size
  load_field Field.op info = info.op
  load_field Field.cpu info = info.cpu
  load_field Field.status info = info.status
  load_field Field.payload info = 0

  unfoldable pub store_field : Field → ℕ → BioInfo D → BioInfo D
  store_field Field.id v info = record info { id = v }
  store_field Field.start_ts v info = record info { start_ts = v }
  store_field Field.end_ts v info = record info { end_ts = v }
  store_field Field.sector v info = record info { sector = v }
  store_field Field.size v info = record info { size = v }
  store_field Field.op v info = record info { op = v }
  store_field Field.cpu v info = record info { cpu = v }
  store_field Field.status v info = record info { status = v }
  store_field Field.payload v info = info

-- `blgy_prxy_bio_serial_schema_default`, `_payload` and `_all`.
abbrev pub schema_default : Schema
schema_default =
    Field.id ∷ Field.start_ts ∷ Field.end_ts ∷ Field.sector ∷ Field.size ∷ Field.op ∷ Field.cpu
    ∷ Field.status ∷ []

abbrev pub schema_payload : Schema
schema_payload =
    Field.id ∷ Field.start_ts ∷ Field.end_ts ∷ Field.sector ∷ Field.size ∷ Field.op ∷ Field.cpu
    ∷ Field.status ∷ Field.payload ∷ []

abbrev pub schema_all : Schema
schema_all =
    Field.id ∷ Field.start_ts ∷ Field.end_ts ∷ Field.sector ∷ Field.size ∷ Field.op ∷ Field.cpu
    ∷ Field.status ∷ Field.payload ∷ []
