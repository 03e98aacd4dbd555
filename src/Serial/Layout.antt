-- ===== src/Serial/Layout.antt =====
-- What `blgy_prxy_bio_serialize` writes, described as a list of bytes, and that it writes it.
use biology.Base.{
  ℕ, ◌+◌, ◌-◌, ◌*◌, ◌^◌, ◌≤◌, ◌<◌, ◌≡◌, refl, sym, ap, ◌∙◌, ◌≢◌, inl, inr, Option, some, List, [],
  ◌∷◌, ◌++◌, ◌==◌, Bool-cases, if◌then◌else◌, ◌>>=◌, length, length-append, take-append-drop,
  append-nil, arith,
}
use native.Mathlib.Nat.{add-zero, add_assoc}
use biology.Base.Bytes.{le_bytes, length-le_bytes, +u64_lem}
use biology.Base.Memory.{
  write, splice, write_fits, splice-nil, length-splice, splice-splice, Writes, Writes-seq,
}
use biology.Kernel.{Pages, IsPages}
use biology.Serial.Info.{BioVec, Bio, BioInfo, Field, Schema, field_size, load_field}
use biology.Serial.Encode.{
  serial_size_loop, serial_size, bvec_bytes, copy_bvecs, serialize_payload, serialize_field,
  serialize_loop, serialize,
}

unfoldable pub total_len : List BioVec → ℕ
total_len [] = 0
total_len (v ∷ vs) = v.bv_len + total_len vs

-- A request whose members fit their types and whose segments add up to the size of its payload.
pub record IsWhole (info : BioInfo Bio) : Type 0 where
  pub id_fits : info.id < 2 ^ 32
  pub start_ts_fits : info.start_ts < 2 ^ 64
  pub end_ts_fits : info.end_ts < 2 ^ 64
  pub sector_fits : info.sector < 2 ^ 64
  pub size_fits : info.size < 2 ^ 32
  pub op_fits : info.op < 2 ^ 32
  pub cpu_fits : info.cpu < 2 ^ 32
  pub status_fits : info.status < 2 ^ 8
  pub payload_fits : info.payload.size < 2 ^ 32
  pub segments_whole :
      info.payload.size ≢ 0 → total_len info.payload.content.bi_io_vec ≡ info.payload.size

module _ (P : Pages) where
  unfoldable pub segment_bytes : List BioVec → List ℕ
  segment_bytes [] = []
  segment_bytes (v ∷ vs) = bvec_bytes P v ++ segment_bytes vs

  -- The bytes of the payload behind its size.
  unfoldable pub payload_bytes : BioInfo Bio → List ℕ
  payload_bytes info =
      if info.payload.size == 0 then [] else segment_bytes info.payload.content.bi_io_vec

  unfoldable pub field_bytes : Field → BioInfo Bio → List ℕ
  field_bytes Field.payload info = le_bytes 8 info.payload.size ++ payload_bytes info
  field_bytes f info = le_bytes (field_size f info) (load_field f info)

  unfoldable pub body_bytes : Schema → BioInfo Bio → List ℕ
  body_bytes [] info = []
  body_bytes (f ∷ fs) info = field_bytes f info ++ body_bytes fs info

  -- A whole record: the size of the body, and the body.
  unfoldable pub record_bytes : Schema → BioInfo Bio → List ℕ
  record_bytes schema info = le_bytes 8 (length (body_bytes schema info)) ++ body_bytes schema info

module _ (P : Pages) (I : IsPages P) where
  length-segment_bytes : (vs : List BioVec) → length (segment_bytes P vs) ≡ total_len vs
  unfolding segment_bytes total_len bvec_bytes
  length-segment_bytes [] = refl
  length-segment_bytes (v ∷ vs) = omega (
    arith,
    length-append (bvec_bytes P v) (segment_bytes P vs),
    I.bytes_at_length (v.bv_page + v.bv_offset * P.sizeof_page) v.bv_len,
    length-segment_bytes vs,
  )

  pub length-payload_bytes :
      (info : BioInfo Bio) → IsWhole info → length (payload_bytes P info) ≡ info.payload.size
  unfolding payload_bytes
  length-payload_bytes info w =
      ground (arith, length-segment_bytes info.payload.content.bi_io_vec, w.segments_whole)

  pub length-field_bytes :
      (f : Field) (info : BioInfo Bio)
      → IsWhole info
      → length (field_bytes P f info) ≡ field_size f info
  unfolding field_bytes field_size
  length-field_bytes Field.payload info w = omega (
    arith,
    length-append (le_bytes 8 info.payload.size) (payload_bytes P info),
    length-le_bytes 8 info.payload.size,
    length-payload_bytes info w,
    +u64_lem info.payload.size 8 (omega (arith, w.payload_fits)),
  )
  length-field_bytes f info w = length-le_bytes _ _

  serial_size_loop-body_bytes :
      (fs : Schema) (info : BioInfo Bio) (size : ℕ)
      → IsWhole info
      → size + length (body_bytes P fs info) < 2 ^ 64
      → serial_size_loop info size fs ≡ size + length (body_bytes P fs info)
  unfolding serial_size_loop body_bytes
  serial_size_loop-body_bytes [] info size w h = omega arith
  serial_size_loop-body_bytes (f ∷ fs) info size w h =
      let whole = length-append (field_bytes P f info) (body_bytes P fs info) in
      let part = length-field_bytes f info w in
      rw (+u64_lem size (field_size f info) (omega arith)) (
        serial_size_loop-body_bytes fs info (size + field_size f info) w (omega arith)
        ∙ omega arith)

  -- For a whole request whose body is below 2^64, `blgy_prxy_bio_serial_size` is the size of the body.
  pub serial_size-body_bytes :
      (schema : Schema) (info : BioInfo Bio)
      → IsWhole info
      → length (body_bytes P schema info) < 2 ^ 64
      → serial_size info schema ≡ length (body_bytes P schema info)
  unfolding serial_size
  serial_size-body_bytes schema info w h =
      serial_size_loop-body_bytes schema info 0 w (omega arith) ∙ omega arith

  copy_bvecs-Writes : (vs : List BioVec) → Writes (copy_bvecs P vs) (segment_bytes P vs)
  unfolding copy_bvecs segment_bytes
  copy_bvecs-Writes [] = λ off buf h. ap some (sym (splice-nil off buf))
  copy_bvecs-Writes (v ∷ vs) =
      Writes-seq (λ off buf. write off (bvec_bytes P v) buf) (copy_bvecs P vs) (bvec_bytes P v)
        (segment_bytes P vs) v.bv_len (unfold bvec_bytes in I.bytes_at_length _ v.bv_len)
        (λ off buf h. write_fits off (bvec_bytes P v) buf h) (copy_bvecs-Writes vs)

  serialize_payload-Writes :
      (info : BioInfo Bio) → Writes (serialize_payload P info) (field_bytes P Field.payload info)
  unfolding serialize_payload field_bytes payload_bytes
  serialize_payload-Writes info = elim (Bool-cases (info.payload.size == 0)) [
    | inl e ↦ rw (e, append-nil) (λ off buf h. rw (write_fits off _ buf h))
    | inr e ↦ rw e (
        Writes-seq (λ off buf. write off (le_bytes 8 info.payload.size) buf)
          (copy_bvecs P info.payload.content.bi_io_vec) (le_bytes 8 info.payload.size)
          (segment_bytes P info.payload.content.bi_io_vec) 8 (length-le_bytes 8 info.payload.size)
          (λ off buf h. write_fits off _ buf h) (copy_bvecs-Writes info.payload.content.bi_io_vec))
  ]

  serialize_field-Writes :
      (f : Field) (info : BioInfo Bio) → Writes (serialize_field P f info) (field_bytes P f info)
  unfolding serialize_field
  serialize_field-Writes Field.payload info = serialize_payload-Writes info
  serialize_field-Writes f info = unfold field_bytes in λ off buf h. write_fits off _ buf h

  serialize_loop-body_bytes :
      (fs : Schema) (info : BioInfo Bio) (bufp : ℕ) (buf : List ℕ)
      → IsWhole info
      → bufp + length (body_bytes P fs info) ≤ length buf
      → serialize_loop P fs info bufp buf
        ≡ some (bufp + length (body_bytes P fs info), splice bufp (body_bytes P fs info) buf)
  unfolding serialize_loop body_bytes
  serialize_loop-body_bytes [] info bufp buf w h = rw (add-zero, take-append-drop bufp buf)
  serialize_loop-body_bytes (f ∷ fs) info bufp buf w h =
      let both = length-append (field_bytes P f info) (body_bytes P fs info) in
      let fits : bufp + length (field_bytes P f info) ≤ length buf = omega arith in
      rw (serialize_field-Writes f info bufp buf fits, ← length-field_bytes f info w)
        (serialize_loop-body_bytes fs info (bufp + length (field_bytes P f info)) _ w
            (rw (length-splice bufp (field_bytes P f info) buf fits) (omega arith))
          ∙ rw (splice-splice bufp (field_bytes P f info) (body_bytes P fs info) buf (omega arith))
              (rw (both, add_assoc)))

  after_head :
      (m : ℕ → List ℕ → Option (ℕ × List ℕ)) (head body : List ℕ) (pos : ℕ) (buf : List ℕ)
      → length head ≡ 8
      → pos + length (head ++ body) ≤ length buf
      → m (pos + 8) (splice pos head buf)
        ≡ some (pos + 8 + length body, splice (pos + 8) body (splice pos head buf))
      → (write pos head buf >>= λ b.
          ◌>>=◌ {B = ℕ × List ℕ} (m (pos + 8) b) (λ r. some (r.0 - pos, r.1)))
        ≡ some (length (head ++ body), splice pos (head ++ body) buf)
  after_head m head body pos buf eight h e =
      let both = length-append head body in
      let count : pos + 8 + length body - pos ≡ length (head ++ body) = omega arith in
      let seam : splice (pos + 8) body (splice pos head buf) ≡ splice pos (head ++ body) buf =
        rw (← eight) (splice-splice pos head body buf (omega arith)) in
      rw (write_fits pos head buf (omega arith)) (rw e (rw (count, seam)))

  -- The record of a whole request, whose body is below 2^64 and which fits in the block, lands at the
  -- position given, all of it, and nothing else of the block changes.
  pub serialize-record_bytes :
      (schema : Schema) (info : BioInfo Bio) (pos : ℕ) (buf : List ℕ)
      → IsWhole info
      → length (body_bytes P schema info) < 2 ^ 64
      → pos + length (record_bytes P schema info) ≤ length buf
      → serialize P info pos buf schema
        ≡ some (length (record_bytes P schema info), splice pos (record_bytes P schema info) buf)
  unfolding serialize record_bytes
  serialize-record_bytes schema info pos buf w small h =
      let head = le_bytes 8 (length (body_bytes P schema info)) in
      let body = body_bytes P schema info in
      let eight : length head ≡ 8 = length-le_bytes 8 _ in
      let fits : pos + length head ≤ length buf = omega (arith, length-append head body) in
      rw (serial_size-body_bytes schema info w small) (
        after_head (λ p b. serialize_loop P schema info p b) head body pos buf eight h
          (serialize_loop-body_bytes schema info (pos + 8) (splice pos head buf) w
            (rw (length-splice pos head buf fits) (omega (arith, length-append head body)))))

pub length-record_bytes :
    (P : Pages) (schema : Schema) (info : BioInfo Bio)
    → length (record_bytes P schema info) ≡ 8 + length (body_bytes P schema info)
unfolding record_bytes
length-record_bytes P schema info =
    let body = body_bytes P schema info in
    omega (arith, length-append (le_bytes 8 (length body)) body, length-le_bytes 8 (length body))
