-- ===== src/Json/Prints.antt =====
-- What to-json prints of a dump of the proxy.
use biology.Base.{
  ◌-◌, ◌%◌, replicate, ℕ, zero, suc, ◌+◌, ◌*◌, ◌^◌, ◌≤◌, ◌<◌, ◌≡◌, refl, sym, ap, ◌∙◌, Bool, true,
  false, some, List, [], ◌∷◌, ◌++◌, ◌==◌, ==_iff, if◌then◌else◌, length, All, length-append,
  append_assoc, arith,
}
use biology.Base.Bytes.{◌+u64◌, +u64_lem, le_bytes, length-le_bytes}
use biology.Kernel.{Allocator, Pages, IsPages}
use biology.Serial.Info.{Bio, BioInfo, Schema, load_field, store_field}
use biology.Serial.Decode.{Block}
use biology.Serial.Layout.{IsWhole, body_bytes, record_bytes}
use biology.Serial.Header.{header_bytes, schema_deserialize-header_bytes}
use biology.Serial.RoundTrip.{transfer_field, transfer}
use biology.Serial.Payload.{receive_json, deserialize_json-record_bytes}
use biology.Dump.Session.{all_records}
use biology.Proxy.Device.{schema_for}
use biology.Json.Parse.{
  mapped, comma_text, record_text, json_bio_info, masked, prints, behind, parse_next, parse_loop,
  parse_records, parse_mapped, parse_dump_file,
}

-- The text of requests in their order, with a comma before each but the first of all.
unfoldable pub texts : List (BioInfo Bio) → Bool → List ℕ
texts [] first = []
texts (info ∷ infos) first =
    (if first then [] else comma_text) ++ (record_text (masked info) ++ texts infos false)

unfoldable pub first_after : List (BioInfo Bio) → Bool → Bool
first_after [] first = first
first_after (info ∷ infos) first = first_after infos false

json_bio_info-texts :
    {D : Type 0} (info : BioInfo D) (first : Bool) (rest : List ℕ)
    → json_bio_info info first ++ rest
      ≡ (if first then [] else comma_text) ++ (record_text info ++ rest)
unfolding json_bio_info
json_bio_info-texts info true rest = refl
json_bio_info-texts info false rest = append_assoc comma_text (record_text info) rest

-- Both schemas of the proxy have every member that is printed.
same_text :
    (dump_payload first : Bool) (info : BioInfo Bio) (to : BioInfo Block)
    → json_bio_info (masked (transfer receive_json (schema_for dump_payload) info to)) first
      ≡ json_bio_info (masked info) first
unfolding schema_for transfer transfer_field receive_json load_field store_field record_text
    json_bio_info
same_text true true info to = refl
same_text true false info to = refl
same_text false true info to = refl
same_text false false info to = refl

record_ge :
    (P : Pages) (schema : Schema) (info : BioInfo Bio) → 8 ≤ length (record_bytes P schema info)
unfolding record_bytes
record_ge P schema info = omega (
  arith,
  length-append (le_bytes 8 (length (body_bytes P schema info))) (body_bytes P schema info),
  length-le_bytes 8 (length (body_bytes P schema info)),
)

pub length-all_records_ge :
    (P : Pages) (schema : Schema) (infos : List (BioInfo Bio))
    → length infos ≤ length (all_records P schema infos)
unfolding all_records
length-all_records_ge P schema [] = omega arith
length-all_records_ge P schema (info ∷ infos) = omega (
  arith,
  length-append (record_bytes P schema info) (all_records P schema infos),
  record_ge P schema info,
  length-all_records_ge P schema infos,
)

module _ (P : Pages) (I : IsPages P) (dump_payload : Bool) where
  abbrev schema : Schema
  schema = schema_for dump_payload

  parse_loop-all_records :
      (infos : List (BioInfo Bio)) (fuel offset st_size : ℕ) (to : BioInfo Block)
      (buf front back : List ℕ) (first : Bool)
      → All IsWhole infos
      → buf ≡ front ++ (all_records P schema infos ++ back)
      → offset ≡ length front
      → st_size ≡ length front + length (all_records P schema infos)
      → length infos ≤ fuel
      → st_size < 2 ^ 64
      → parse_loop fuel schema st_size buf to offset first
        ≡ prints (texts infos first) (first_after infos first)
  unfolding parse_loop parse_next behind texts first_after all_records
  parse_loop-all_records [] zero offset st_size to buf front back first w e at ends enough small =
      let done : offset ≡ st_size = omega arith in rw ((==_iff offset st_size).1 done) refl
  parse_loop-all_records [] (suc fuel) offset st_size to buf front back first w e at ends enough
        small =
      let done : offset ≡ st_size = omega arith in rw ((==_iff offset st_size).1 done) refl
  parse_loop-all_records (info ∷ infos) zero offset st_size to buf front back first w e at ends
        enough small =
      absurd (omega arith)
  parse_loop-all_records (info ∷ infos) (suc fuel) offset st_size to buf front back first
        (one, more) e at ends enough small =
      let bytes = record_bytes P schema info in
      let rest = all_records P schema infos in
      let sizes = length-append bytes rest in
      let not_done : (offset == st_size) ≡ false = ground (arith, record_ge P schema info) in
      let next : offset +u64 length bytes ≡ offset + length bytes =
        +u64_lem offset (length bytes) (omega arith) in
      let whole : buf ≡ front ++ (bytes ++ (rest ++ back)) =
        e ∙ ap (λ t. front ++ t) (append_assoc bytes rest back) in
      let read =
        deserialize_json-record_bytes P I info one schema to offset buf front (rest ++ back) whole
          at in
      let later =
        parse_loop-all_records infos fuel (offset + length bytes) st_size
          (masked (transfer receive_json schema info to)) buf (front ++ bytes) back false more
          (whole ∙ sym (append_assoc front bytes (rest ++ back)))
          (omega (arith, length-append front bytes)) (omega (arith, length-append front bytes))
          (omega arith) small in
      rw (not_done, read)
        (rw (next, later, same_text dump_payload first info to)
          (ap (λ t. prints t (first_after infos false))
            (json_bio_info-texts (masked info) first (texts infos false))))

  -- to-json prints every dump of the proxy that holds its header and the records of whole requests:
  -- the requests in the order in which they were dumped, each as it was but for the flags of its
  -- operation, which are masked; a comma stands between two of them, also between files. The schema
  -- that the proxy writes has every member that is printed.
  pub parse_dump_file-all_records :
      (A : Allocator) (array : List ℕ) (to : BioInfo Block) (infos : List (BioInfo Bio))
      (first : Bool)
      → A.kmalloc (8 * (length (schema_for dump_payload) + 1)) ≡ some array
      → All IsWhole infos
      → length (header_bytes (schema_for dump_payload))
          + length (all_records P (schema_for dump_payload) infos)
        < 2 ^ 64
      → parse_dump_file A to
          (some (
            header_bytes (schema_for dump_payload)
            ++ all_records P (schema_for dump_payload) infos))
          first
        ≡ prints (texts infos first) (first_after infos first)
  unfolding parse_dump_file parse_mapped parse_records mapped
  parse_dump_file-all_records A array to infos first granted whole small =
      let head = header_bytes schema in
      let tail = all_records P schema infos in
      let total = length-append head tail in
      let zeros = replicate ((4096 - length (head ++ tail) % 4096) % 4096) 0 in
      let shape = append_assoc head tail zeros in
      let turns : length infos ≤ length ((head ++ tail) ++ zeros) =
        omega (
          arith,
          total,
          length-all_records_ge P schema infos,
          length-append (head ++ tail) zeros,
        ) in
      rw
        (schema_deserialize-header_bytes A schema 0 ((head ++ tail) ++ zeros) [] (tail ++ zeros)
          array (few dump_payload) granted shape refl)
        (parse_loop-all_records infos (length ((head ++ tail) ++ zeros)) (length head)
          (length (head ++ tail)) to ((head ++ tail) ++ zeros) head zeros first whole shape refl
          total turns (omega (arith, total)))
    where
      few : (b : Bool) → length (schema_for b) + 1 < 2 ^ 32
      few true = unfold schema_for in omega arith
      few false = unfold schema_for in omega arith
