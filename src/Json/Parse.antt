-- ===== src/Json/Parse.antt =====
-- to-json: info.c, json.c and `build_file_path` of main.c. A file is mapped to memory, and a read behind
-- the mapping is a fault.
use biology.Base.{
  ℕ, zero, suc, ◌-◌, ◌%◌, ◌^◌, Bool, false, Option, none, some, List, [], ◌∷◌, ◌++◌, ltb, ◌==◌,
  if◌then◌else◌, length, replicate,
}
use biology.Base.Bytes.{◌+u64◌}
use biology.Base.Decimal.{print_dec}
use biology.Base.Errno.{Ret, ok, err}
use biology.Kernel.{Allocator}
use biology.Serial.Info.{BioInfo, Schema}
use biology.Serial.Decode.{Block, deserialize_payload_json, deserialize}
use biology.Serial.Schema.{schema_deserialize}
use biology.Control.Show.{print_int}

abbrev pub comma_text : List ℕ
comma_text = b',' ∷ 10 ∷ []

abbrev cpu_text : List ℕ
cpu_text = b' ' ∷ b' ' ∷ b' ' ∷ b' ' ∷ b'{' ∷ 34 ∷ b'c' ∷ b'p' ∷ b'u' ∷ 34 ∷ b':' ∷ b' ' ∷ []

abbrev id_text : List ℕ
id_text = b',' ∷ b' ' ∷ 34 ∷ b'i' ∷ b'd' ∷ 34 ∷ b':' ∷ b' ' ∷ []

abbrev op_text : List ℕ
op_text = b',' ∷ b' ' ∷ 34 ∷ b'o' ∷ b'p' ∷ 34 ∷ b':' ∷ b' ' ∷ []

abbrev start_ts_text : List ℕ
start_ts_text =
    b',' ∷ b' ' ∷ 34 ∷ b's' ∷ b't' ∷ b'a' ∷ b'r' ∷ b't' ∷ b'_' ∷ b't' ∷ b's' ∷ 34 ∷ b':' ∷ b' ' ∷ []

abbrev end_ts_text : List ℕ
end_ts_text = b',' ∷ b' ' ∷ 34 ∷ b'e' ∷ b'n' ∷ b'd' ∷ b'_' ∷ b't' ∷ b's' ∷ 34 ∷ b':' ∷ b' ' ∷ []

abbrev sector_text : List ℕ
sector_text = b',' ∷ b' ' ∷ 34 ∷ b's' ∷ b'e' ∷ b'c' ∷ b't' ∷ b'o' ∷ b'r' ∷ 34 ∷ b':' ∷ b' ' ∷ []

abbrev size_text : List ℕ
size_text = b',' ∷ b' ' ∷ 34 ∷ b's' ∷ b'i' ∷ b'z' ∷ b'e' ∷ 34 ∷ b':' ∷ b' ' ∷ []

abbrev status_text : List ℕ
status_text = b',' ∷ b' ' ∷ 34 ∷ b's' ∷ b't' ∷ b'a' ∷ b't' ∷ b'u' ∷ b's' ∷ 34 ∷ b':' ∷ b' ' ∷ []

-- "%lld" of a 64 bit integer, given as its bit pattern.
unfoldable pub print_long : ℕ → List ℕ
print_long n = if ltb n (2 ^ 63) then print_dec n else (b'-' ∷ print_dec (2 ^ 64 - n))

-- The text of one request.
unfoldable pub record_text : {D : Type 0} → BioInfo D → List ℕ
unfolding print_long print_int
record_text info =
    cpu_text
    ++ (print_int info.cpu
        ++ (id_text
            ++ (print_int info.id
                ++ (op_text
                    ++ (print_int info.op
                        ++ (start_ts_text
                            ++ (print_long info.start_ts
                                ++ (end_ts_text
                                    ++ (print_long info.end_ts
                                        ++ (sector_text
                                            ++ (print_dec info.sector
                                                ++ (size_text
                                                    ++ (print_dec info.size
                                                        ++ (status_text
                                                            ++ (print_dec info.status
                                                            ++ (b'}' ∷ []))))))))))))))))

-- `json_bio_info`
unfoldable pub json_bio_info : {D : Type 0} → BioInfo D → Bool → List ℕ
unfolding record_text
json_bio_info info first = if first then record_text info else comma_text ++ record_text info

-- `info.op &= REQ_OP_MASK`
abbrev pub masked : {D : Type 0} → BioInfo D → BioInfo D
masked info = record info { op = info.op % 256 }

-- What the parse of a file comes to: the text that is printed and whether no request has been printed
-- yet; a fault; or more turns of the loop than it was given.
pub data Printed : Type 0 where
  prints : List ℕ → Bool → Printed
  faulted : Printed
  unfinished : Printed

unfoldable pub behind : List ℕ → Printed → Printed
behind text (prints more first) = prints (text ++ more) first
behind text faulted = faulted
behind text unfinished = unfinished

-- One turn of the loop of `parse_dump_file`, from the result of `parse_info` on.
unfoldable pub parse_next :
    Bool → Option (BioInfo Block × ℕ) → (BioInfo Block → ℕ → Printed) → Printed
parse_next first none k = faulted
parse_next first (some (info, size)) k =
    behind (json_bio_info (masked info) first) (k (masked info) size)

-- The mapping of a file: `mmap` fills the last page with zeros. A read behind the last page is a fault.
unfoldable pub mapped : List ℕ → List ℕ
mapped file = file ++ replicate ((4096 - length file % 4096) % 4096) 0

-- The loop of `parse_dump_file`, on the size of the file and its mapping, with the `info` that the
-- records are read into, one after another.
unfoldable pub parse_loop : ℕ → Schema → ℕ → List ℕ → BioInfo Block → ℕ → Bool → Printed
unfolding parse_next
parse_loop zero schema st_size buf info offset first =
    if offset == st_size then prints [] first else unfinished
parse_loop (suc fuel) schema st_size buf info offset first =
    let next =
      parse_next first (deserialize deserialize_payload_json info offset buf schema)
        (λ info' size. parse_loop fuel schema st_size buf info' (offset +u64 size) false) in
    if offset == st_size then prints [] first else next

-- `parse_dump_file` from the result of `parse_schema` on. An error of it is stored in a `size_t`, so
-- that the test for a negative one does not see it, and a schema without an end is used: a fault.
unfoldable pub parse_records : ℕ → List ℕ → BioInfo Block → Bool → Ret (Schema × ℕ) → Printed
unfolding parse_loop
parse_records st_size buf info first (err e) = faulted
parse_records st_size buf info first (ok (schema, size)) =
    parse_loop (length buf) schema st_size buf info size first

-- The same from the mapping of the file on.
unfoldable pub parse_mapped :
    ℕ → List ℕ → BioInfo Block → Bool → Option (Ret (Schema × ℕ)) → Printed
unfolding parse_records
parse_mapped st_size buf info first none = faulted
parse_mapped st_size buf info first (some r) = parse_records st_size buf info first r

-- `parse_dump_file`, with what `info` holds at first. A file that is not opened has the descriptor -1,
-- which the test for zero does not see: nothing is mapped, and that is a fault.
unfoldable pub parse_dump_file : Allocator → BioInfo Block → Option (List ℕ) → Bool → Printed
unfolding parse_mapped mapped
parse_dump_file A info none first = faulted
parse_dump_file A info (some file) first =
    parse_mapped (length file) (mapped file) info first (schema_deserialize A 0 (mapped file))
