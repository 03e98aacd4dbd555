-- ===== src/Serial/Header.antt =====
-- The header of a dump: `blgy_prxy_bio_serial_schema_serialize` and what reads it back.
use biology.Base.{
  ℕ, zero, suc, ◌+◌, ◌-◌, ◌*◌, ◌%◌, ◌^◌, ◌≤◌, ◌<◌, ◌≡◌, refl, sym, ap, subst, ◌∙◌, none, some, List,
  [], ◌∷◌, ◌++◌, length, length-append, take-append-drop, append_assoc, arith,
}
use native.Mathlib.Nat.{add-zero}
use biology.Base.Bytes.{le_bytes, length-le_bytes, le_value-le_bytes}
use biology.Base.Errno.{einval, ok, err}
use biology.Base.Memory.{splice, write_fits, length-splice, splice-splice}
use biology.Kernel.{Allocator}
use biology.Serial.Info.{Field, Schema, field_id}
use biology.Serial.Schema.{
  get_serial_schema_field_by_id, schema_size, write_ids, schema_serialize, read_value, read_ids,
  schema_deserialize,
}
use biology.Serial.RoundTrip.{read_at}

unfoldable pub id_bytes : Schema → List ℕ
id_bytes [] = []
id_bytes (f ∷ fs) = le_bytes 4 (field_id f) ++ id_bytes fs

-- The number of fields, and their ids.
unfoldable pub header_bytes : Schema → List ℕ
header_bytes schema = le_bytes 4 (length schema) ++ id_bytes schema

pub length-id_bytes : (fs : Schema) → length (id_bytes fs) ≡ 4 * length fs
unfolding id_bytes
length-id_bytes [] = refl
length-id_bytes (f ∷ fs) = omega (
  arith,
  length-append (le_bytes 4 (field_id f)) (id_bytes fs),
  length-le_bytes 4 (field_id f),
  length-id_bytes fs,
)

pub length-header_bytes : (schema : Schema) → length (header_bytes schema) ≡ 4 + 4 * length schema
unfolding header_bytes
length-header_bytes schema = omega (
  arith,
  length-append (le_bytes 4 (length schema)) (id_bytes schema),
  length-le_bytes 4 (length schema),
  length-id_bytes schema,
)

write_ids-id_bytes :
    (fs : Schema) (bufp : ℕ) (buf : List ℕ)
    → bufp + length (id_bytes fs) ≤ length buf
    → write_ids fs bufp buf ≡ some (bufp + length (id_bytes fs), splice bufp (id_bytes fs) buf)
unfolding write_ids id_bytes
write_ids-id_bytes [] bufp buf h = rw (add-zero, take-append-drop bufp buf)
write_ids-id_bytes (f ∷ fs) bufp buf h =
    let one = le_bytes 4 (field_id f) in
    let four : length one ≡ 4 = length-le_bytes 4 (field_id f) in
    let both = length-append one (id_bytes fs) in
    let fits : bufp + length one ≤ length buf = omega arith in
    let seam : splice (bufp + 4) (id_bytes fs) (splice bufp one buf)
        ≡ splice bufp (one ++ id_bytes fs) buf =
      subst
        (λ k.
          splice (bufp + k) (id_bytes fs) (splice bufp one buf)
          ≡ splice bufp (one ++ id_bytes fs) buf)
        four (splice-splice bufp one (id_bytes fs) buf (omega arith)) in
    let total : bufp + 4 + length (id_bytes fs) ≡ bufp + length (one ++ id_bytes fs) =
      omega arith in
    rw (write_fits bufp one buf fits) (
      write_ids-id_bytes fs (bufp + 4) (splice bufp one buf)
        (rw (length-splice bufp one buf fits) (omega arith))
      ∙ ap some (rw (seam, total)))

-- The header lands at the position given, and nothing else of the buffer changes.
pub schema_serialize-header_bytes :
    (schema : Schema) (pos : ℕ) (buf : List ℕ)
    → length schema < 2 ^ 32
    → pos + length (header_bytes schema) ≤ length buf
    → schema_serialize schema pos (some buf)
      ≡ some (ok (length (header_bytes schema), splice pos (header_bytes schema) buf))
unfolding schema_serialize schema_size header_bytes
schema_serialize-header_bytes schema pos buf small h =
    let head = le_bytes 4 (length schema) in
    let four : length head ≡ 4 = length-le_bytes 4 (length schema) in
    let both = length-append head (id_bytes schema) in
    let fits : pos + length head ≤ length buf = omega arith in
    let same : length schema % 2 ^ 32 ≡ length schema = omega arith in
    let seam : splice (pos + 4) (id_bytes schema) (splice pos head buf)
        ≡ splice pos (head ++ id_bytes schema) buf =
      subst
        (λ k.
          splice (pos + k) (id_bytes schema) (splice pos head buf)
          ≡ splice pos (head ++ id_bytes schema) buf)
        four (splice-splice pos head (id_bytes schema) buf (omega arith)) in
    let total : pos + 4 + length (id_bytes schema) - pos ≡ length (head ++ id_bytes schema) =
      omega arith in
    rw (same, write_fits pos head buf fits)
      (rw
        (write_ids-id_bytes schema (pos + 4) (splice pos head buf)
          (rw (length-splice pos head buf fits) (omega arith)))
        (rw (total, seam)))

field_id_small : (f : Field) → field_id f < 256 ^ 4
unfolding field_id
field_id_small f = ground arith

field_by_id : (f : Field) → get_serial_schema_field_by_id (field_id f) ≡ some f
unfolding get_serial_schema_field_by_id
field_by_id f = ground arith

read_value-le_bytes :
    (buf front back : List ℕ) (pos n v : ℕ)
    → v < 256 ^ n
    → buf ≡ front ++ (le_bytes n v ++ back)
    → pos ≡ length front
    → read_value n pos buf ≡ some v
unfolding read_value
read_value-le_bytes buf front back pos n v fits e p =
    rw (read_at buf front (le_bytes n v) back pos n e p (sym (length-le_bytes n v)))
      (ap some (le_value-le_bytes n v fits))

-- One id read, with the position behind it.
behind_id :
    (id : ℕ) (buf front more : List ℕ) (bufp : ℕ)
    → id < 2 ^ 32
    → buf ≡ front ++ (le_bytes 4 id ++ more)
    → bufp ≡ length front
    → (read_value 4 bufp buf ≡ some id)
      × (buf ≡ (front ++ le_bytes 4 id) ++ more)
      × (bufp + 4 ≡ length (front ++ le_bytes 4 id))
behind_id id buf front more bufp fits e p = (
  read_value-le_bytes buf front more bufp 4 id fits e p,
  e ∙ sym (append_assoc front (le_bytes 4 id) more),
  omega (arith, length-append front (le_bytes 4 id), length-le_bytes 4 id),
)

read_ids-id_bytes :
    (fs : Schema) (bufp : ℕ) (buf front back : List ℕ)
    → buf ≡ front ++ (id_bytes fs ++ back)
    → bufp ≡ length front
    → read_ids (length fs) (suc (length fs)) bufp buf ≡ some (ok (fs, bufp + length (id_bytes fs)))
unfolding read_ids id_bytes
read_ids-id_bytes [] bufp buf front back e p = rw add-zero
read_ids-id_bytes (f ∷ fs) bufp buf front back e p =
    let one = le_bytes 4 (field_id f) in
    let (value, e', p') =
      behind_id (field_id f) buf front (id_bytes fs ++ back) bufp (field_id_small f)
        (e ∙ ap (λ t. front ++ t) (append_assoc one (id_bytes fs) back)) p in
    let total : bufp + 4 + length (id_bytes fs) ≡ bufp + length (one ++ id_bytes fs) =
      omega (arith, length-append one (id_bytes fs), length-le_bytes 4 (field_id f)) in
    rw (value, field_by_id f, read_ids-id_bytes fs (bufp + 4) buf (front ++ one) back e' p', total)

-- The header reads back as the schema, and all its bytes are counted.
pub schema_deserialize-header_bytes :
    (A : Allocator) (schema : Schema) (pos : ℕ) (buf front back array : List ℕ)
    → length schema + 1 < 2 ^ 32
    → A.kmalloc (8 * (length schema + 1)) ≡ some array
    → buf ≡ front ++ (header_bytes schema ++ back)
    → pos ≡ length front
    → schema_deserialize A pos buf ≡ some (ok (schema, length (header_bytes schema)))
unfolding schema_deserialize header_bytes
schema_deserialize-header_bytes A schema pos buf front back array small granted e p =
    let head = le_bytes 4 (length schema) in
    let (value, e', p') =
      behind_id (length schema) buf front (id_bytes schema ++ back) pos (omega arith)
        (e ∙ ap (λ t. front ++ t) (append_assoc head (id_bytes schema) back)) p in
    let slots : (length schema + 1) % 2 ^ 32 ≡ suc (length schema) = omega arith in
    let cells : length schema + 1 ≡ suc (length schema) = omega arith in
    let total : pos + 4 + length (id_bytes schema) - pos ≡ length (head ++ id_bytes schema) =
      omega (arith, length-append head (id_bytes schema), length-le_bytes 4 (length schema)) in
    let loop = read_ids-id_bytes schema (pos + 4) buf (front ++ head) back e' p' in
    rw (value, slots, rw cells at granted) (rw (slots, loop, total))

-- An id that no field has.
unknown_id : (id : ℕ) → 9 ≤ id → get_serial_schema_field_by_id id ≡ none
unfolding get_serial_schema_field_by_id
unknown_id id h = ground arith

read_ids_unknown :
    (fs : Schema) (id left more : ℕ) (bufp : ℕ) (buf front back : List ℕ)
    → 9 ≤ id
    → id < 2 ^ 32
    → left ≡ length fs + suc more
    → buf ≡ front ++ (id_bytes fs ++ (le_bytes 4 id ++ back))
    → bufp ≡ length front
    → read_ids left (suc left) bufp buf ≡ some (err einval)
unfolding read_ids id_bytes
read_ids_unknown fs id zero more bufp buf front back h fits n e p = absurd (omega arith)
read_ids_unknown [] id (suc left) more bufp buf front back h fits n e p =
    let (value, e', p') = behind_id id buf front back bufp fits e p in rw (value, unknown_id id h)
read_ids_unknown (f ∷ fs) id (suc left) more bufp buf front back h fits n e p =
    let one = le_bytes 4 (field_id f) in
    let (value, e', p') =
      behind_id (field_id f) buf front (id_bytes fs ++ (le_bytes 4 id ++ back)) bufp
        (field_id_small f)
        (e ∙ ap (λ t. front ++ t) (append_assoc one (id_bytes fs) (le_bytes 4 id ++ back))) p in
    rw (
      value,
      field_by_id f,
      read_ids_unknown fs id left more (bufp + 4) buf (front ++ one) back h fits (omega arith) e'
          p',
    )

-- A header with an id that no field has, behind any known ones, is refused with `EINVAL`.
pub schema_deserialize_unknown :
    (A : Allocator) (fs : Schema) (id more pos : ℕ) (buf front back array : List ℕ)
    → 9 ≤ id
    → id < 2 ^ 32
    → length fs + more + 2 < 2 ^ 32
    → A.kmalloc (8 * (length fs + more + 2)) ≡ some array
    → buf ≡ front ++ (le_bytes 4 (length fs + more + 1) ++ (id_bytes fs ++ (le_bytes 4 id ++ back)))
    → pos ≡ length front
    → schema_deserialize A pos buf ≡ some (err einval)
unfolding schema_deserialize
schema_deserialize_unknown A fs id more pos buf front back array h fits small granted e p =
    let n : ℕ = length fs + more + 1 in
    let (value, e', p') =
      behind_id n buf front (id_bytes fs ++ (le_bytes 4 id ++ back)) pos (omega arith) e p in
    let slots : (n + 1) % 2 ^ 32 ≡ suc n = omega arith in
    let cells : length fs + more + 2 ≡ suc n = omega arith in
    rw (value, slots, rw cells at granted)
      (rw (
        slots,
        read_ids_unknown fs id n more (pos + 4) buf (front ++ le_bytes 4 n) back h fits
            (omega arith) e' p',
      ))
