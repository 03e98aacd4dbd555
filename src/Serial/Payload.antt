-- ===== src/Serial/Payload.antt =====
-- The two builds that read a record, `C_GEN` and `C_TO_JSON`, and what each gets out of it.
use mathlib.Core.List.{append_assoc}
use biology.Base.{
  ℕ, ◌+◌, ◌≡◌, refl, sym, ap, ◌∙◌, ◌≢◌, inl, inr, none, some, List, ◌++◌, ◌==◌, Bool-cases,
  if◌then◌else◌, length, length-append, drop_all, append-nil, arith,
}
use biology.Base.Bytes.{le_bytes, le_value, length-le_bytes, le_value-le_bytes}
use biology.Base.Memory.{read, write, write_fits}
use biology.Kernel.{Pages, IsPages, Allocator, IsAllocator}
use biology.Serial.Info.{Bio, BioInfo, Field, Schema}
use biology.Serial.Decode.{Block, deserialize_payload_gen, deserialize_payload_json, deserialize}
use biology.Serial.Layout.{IsWhole, payload_bytes, field_bytes, record_bytes, length-payload_bytes}
use biology.Serial.RoundTrip.{read_at, transfer, deserialize-record_bytes}

-- What the generator holds of a payload: null if it is empty, and its bytes if not.
unfoldable pub receive_gen : Pages → BioInfo Bio → BioInfo Block → BioInfo Block
receive_gen P info to = record to {
  payload = record {
    size = info.payload.size;
    content = if info.payload.size == 0 then none else some (payload_bytes P info);
  };
}

-- What to-json holds of it: the size.
unfoldable pub receive_json : BioInfo Bio → BioInfo Block → BioInfo Block
receive_json info to = record to {
  payload = record { size = info.payload.size; content = to.payload.content };
}

-- The allocator has a block for the payload, if there is one.
abbrev pub Grants : Allocator → ℕ → Type 0
Grants A n = n ≢ 0 → (block : List ℕ) × (A.kmalloc n ≡ some block)

write_all : (bytes block : List ℕ) → length bytes ≡ length block → write 0 bytes block ≡ some bytes
write_all bytes block h =
    write_fits 0 bytes block (omega arith)
    ∙ ap some (rw (drop_all (0 + length bytes) block (omega arith), append-nil))

module _ (P : Pages) (I : IsPages P) (info : BioInfo Bio) (w : IsWhole info) where
  abbrev size_bytes : List ℕ
  size_bytes = le_bytes 8 info.payload.size

  size_back :
      (buf front back : List ℕ)
      → buf ≡ front ++ ((size_bytes ++ payload_bytes P info) ++ back)
      → (bytes : List ℕ) × (read (length front) 8 buf ≡ some bytes)
        × (le_value bytes ≡ info.payload.size)
  size_back buf front back e = (
    size_bytes,
    read_at buf front size_bytes (payload_bytes P info ++ back) (length front) 8
        (e ∙ ap (λ t. front ++ t) (append_assoc size_bytes (payload_bytes P info) back)) refl
        (sym (length-le_bytes 8 info.payload.size)),
    le_value-le_bytes 8 info.payload.size (omega (arith, w.payload_fits)),
  )

  payload_back :
      (buf front back : List ℕ)
      → buf ≡ front ++ ((size_bytes ++ payload_bytes P info) ++ back)
      → read (length front + 8) info.payload.size buf ≡ some (payload_bytes P info)
  payload_back buf front back e =
      read_at buf (front ++ size_bytes) (payload_bytes P info) back (length front + 8)
        info.payload.size
        (e
          ∙ ap (λ t. front ++ t) (append_assoc size_bytes (payload_bytes P info) back)
          ∙ sym (append_assoc front size_bytes (payload_bytes P info ++ back)))
        (omega (arith, length-append front size_bytes, length-le_bytes 8 info.payload.size))
        (sym (length-payload_bytes P I info w))

  reads_json :
      (to : BioInfo Block) (buf front back : List ℕ)
      → buf ≡ front ++ (field_bytes P Field.payload info ++ back)
      → deserialize_payload_json to (length front) buf ≡ some (receive_json info to)
  unfolding deserialize_payload_json receive_json field_bytes
  reads_json to buf front back e = let (bytes, p, q) = size_back buf front back e in rw (p, q)

  reads_gen :
      (A : Allocator) (L : IsAllocator A) (g : Grants A info.payload.size) (to : BioInfo Block)
      (buf front back : List ℕ)
      → buf ≡ front ++ (field_bytes P Field.payload info ++ back)
      → deserialize_payload_gen A to (length front) buf ≡ some (receive_gen P info to)
  unfolding deserialize_payload_gen receive_gen field_bytes
  reads_gen A L g to buf front back e =
      let (bytes, p, q) = size_back buf front back e in
      elim (Bool-cases (info.payload.size == 0)) [
        | inl z ↦ rw (p, q, z)
        | inr z ↦
            let (block, a) = g (ground arith) in
            rw (p, q, z, a, payload_back buf front back e)
              (rw (
                write_all (payload_bytes P info) block
                  (length-payload_bytes P I info w ∙ sym (L.kmalloc_length info.payload.size a))))
      ]

  -- The generator reads back what the proxy wrote, wherever it lies in the dump.
  pub deserialize_gen-record_bytes :
      (A : Allocator)
      → IsAllocator A
      → Grants A info.payload.size
      → (schema : Schema) (to : BioInfo Block) (pos : ℕ) (buf front back : List ℕ)
      → buf ≡ front ++ (record_bytes P schema info ++ back)
      → pos ≡ length front
      → deserialize (deserialize_payload_gen A) to pos buf schema
        ≡ some (transfer (receive_gen P) schema info to, length (record_bytes P schema info))
  deserialize_gen-record_bytes A L g =
      deserialize-record_bytes P I (deserialize_payload_gen A) (receive_gen P) info w
        (reads_gen A L g) (λ to. unfold receive_gen in refl)

  -- So does to-json.
  pub deserialize_json-record_bytes :
      (schema : Schema) (to : BioInfo Block) (pos : ℕ) (buf front back : List ℕ)
      → buf ≡ front ++ (record_bytes P schema info ++ back)
      → pos ≡ length front
      → deserialize deserialize_payload_json to pos buf schema
        ≡ some (transfer receive_json schema info to, length (record_bytes P schema info))
  deserialize_json-record_bytes =
      deserialize-record_bytes P I deserialize_payload_json receive_json info w reads_json
        (λ to. unfold receive_json in refl)
