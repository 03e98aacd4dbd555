-- ===== src/Serial/RoundTrip.antt =====
-- Reading back a record: `blgy_prxy_bio_deserialize` after `blgy_prxy_bio_serialize`.
use mathlib.Core.List.{append_assoc}
use biology.Base.{
  ℕ, ◌+◌, ◌-◌, ◌^◌, ◌<◌, ◌≡◌, refl, sym, ap, ◌∙◌, Option, some, List, [], ◌∷◌, ◌++◌, ◌>>=◌, length,
  length-append, arith,
}
use native.Mathlib.Nat.{add-zero, one-le-pow}
use biology.Base.Bytes.{le_bytes, le_value, length-le_bytes, le_value-le_bytes, ◌+u64◌}
use biology.Base.Memory.{read, read-append}
use biology.Kernel.{Pages, IsPages}
use biology.Serial.Info.{Bio, BioInfo, Field, Schema, field_size, load_field, store_field}
use biology.Serial.Decode.{deserialize_field, deserialize_loop, deserialize}
use biology.Serial.Layout.{IsWhole, field_bytes, body_bytes, record_bytes, length-field_bytes}

load_field_fits :
    (f : Field) (info : BioInfo Bio) → IsWhole info → load_field f info < 256 ^ field_size f info
unfolding load_field field_size
load_field_fits Field.id info w = w.id_fits
load_field_fits Field.start_ts info w = w.start_ts_fits
load_field_fits Field.end_ts info w = w.end_ts_fits
load_field_fits Field.sector info w = w.sector_fits
load_field_fits Field.size info w = w.size_fits
load_field_fits Field.op info w = w.op_fits
load_field_fits Field.cpu info w = w.cpu_fits
load_field_fits Field.status info w = w.status_fits
load_field_fits Field.payload info w = one-le-pow (info.payload.size +u64 8) 256 (omega arith)

module _ {D : Type 0} (receive : BioInfo Bio → BioInfo D → BioInfo D) where
  -- The member of `to` that a field stands for takes its value from `info`.
  unfoldable pub transfer_field : Field → BioInfo Bio → BioInfo D → BioInfo D
  transfer_field Field.payload info to = receive info to
  transfer_field f info to = store_field f (load_field f info) to

  unfoldable pub transfer : Schema → BioInfo Bio → BioInfo D → BioInfo D
  unfolding transfer_field
  transfer [] info to = to
  transfer (f ∷ fs) info to = transfer fs info (transfer_field f info to)

-- A read of `body` behind `front`.
pub read_at :
    (buf front body back : List ℕ) (bufp n : ℕ)
    → buf ≡ front ++ (body ++ back)
    → bufp ≡ length front
    → n ≡ length body
    → read bufp n buf ≡ some body
read_at buf front body back bufp n e p q = rw (e, p, q) (read-append front body back)

module _ {D : Type 0} (P : Pages) (I : IsPages P)
    (deserialize_payload : BioInfo D → ℕ → List ℕ → Option (BioInfo D))
    (receive : BioInfo Bio → BioInfo D → BioInfo D) (info : BioInfo Bio) (w : IsWhole info)
    (reads : (to : BioInfo D) (buf front back : List ℕ)
      → buf ≡ front ++ (field_bytes P Field.payload info ++ back)
      → deserialize_payload to (length front) buf ≡ some (receive info to))
    (sizes : (to : BioInfo D) → (receive info to).payload.size ≡ info.payload.size) where
  scalar_back :
      (f : Field) (to : BioInfo D) (buf front back : List ℕ)
      → field_bytes P f info ≡ le_bytes (field_size f info) (load_field f info)
      → field_size f to ≡ field_size f info
      → buf ≡ front ++ (field_bytes P f info ++ back)
      → (read (length front) (field_size f to) buf >>= λ bytes.
          some (store_field f (le_value bytes) to))
        ≡ some (store_field f (load_field f info) to)
  scalar_back f to buf front back shape same e = rw (
    read_at buf front (field_bytes P f info) back (length front) (field_size f to) e refl
        (same ∙ sym (length-field_bytes P I f info w)),
    shape,
    le_value-le_bytes (field_size f info) (load_field f info) (load_field_fits f info w),
  )

  field_back :
      (f : Field) (to : BioInfo D) (buf front back : List ℕ)
      → buf ≡ front ++ (field_bytes P f info ++ back)
      → deserialize_field deserialize_payload f to (length front) buf
        ≡ some (transfer_field receive f info to)
  unfolding deserialize_field transfer_field
  field_back Field.payload to buf front back e = reads to buf front back e
  field_back f to buf front back e =
      scalar_back f to buf front back (unfold field_bytes in refl) (unfold field_size in refl) e

  size_back :
      (f : Field) (to : BioInfo D)
      → field_size f (transfer_field receive f info to) ≡ field_size f info
  unfolding field_size transfer_field
  size_back Field.payload to = rw (sizes to)
  size_back f to = refl

  loop_back :
      (fs : Schema) (to : BioInfo D) (bufp : ℕ) (buf front back : List ℕ)
      → buf ≡ front ++ (body_bytes P fs info ++ back)
      → bufp ≡ length front
      → deserialize_loop deserialize_payload fs to bufp buf
        ≡ some (transfer receive fs info to, bufp + length (body_bytes P fs info))
  unfolding deserialize_loop transfer body_bytes
  loop_back [] to bufp buf front back e p = rw add-zero
  loop_back (f ∷ fs) to bufp buf front back e p =
      let bs = field_bytes P f info in
      let rest = body_bytes P fs info in
      let e' : buf ≡ front ++ (bs ++ (rest ++ back)) =
        e ∙ ap (λ t. front ++ t) (append_assoc bs rest back) in
      let e'' : buf ≡ (front ++ bs) ++ (rest ++ back) =
        e' ∙ sym (append_assoc front bs (rest ++ back)) in
      let sizes_agree = size_back f to ∙ sym (length-field_bytes P I f info w) in
      let step = rw (← p) at (field_back f to buf front (rest ++ back) e') in
      rw step (
        loop_back fs (transfer_field receive f info to) _ buf (front ++ bs) back e''
          (omega (arith, sizes_agree, length-append front bs))
        ∙ ap (λ n. some (transfer receive fs info (transfer_field receive f info to), n))
            (omega (arith, sizes_agree, length-append bs rest)))

  -- Anywhere in a block, a record reads back as the transfer of its fields, and all its bytes
  -- are counted.
  pub deserialize-record_bytes :
      (schema : Schema) (to : BioInfo D) (pos : ℕ) (buf front back : List ℕ)
      → buf ≡ front ++ (record_bytes P schema info ++ back)
      → pos ≡ length front
      → deserialize deserialize_payload to pos buf schema
        ≡ some (transfer receive schema info to, length (record_bytes P schema info))
  unfolding deserialize record_bytes
  deserialize-record_bytes schema to pos buf front back e p =
      let head = le_bytes 8 (length (body_bytes P schema info)) in
      let body = body_bytes P schema info in
      let eight : length head ≡ 8 = length-le_bytes 8 _ in
      let e' : buf ≡ (front ++ head) ++ (body ++ back) =
        e
        ∙ ap (λ t. front ++ t) (append_assoc head body back)
        ∙ sym (append_assoc front head (body ++ back)) in
      let n : pos + 8 + length body - pos ≡ length (head ++ body) =
        omega (arith, length-append head body) in
      rw
        (loop_back schema to (pos + 8) buf (front ++ head) back e'
          (omega (arith, length-append front head)))
        (rw n)
