-- ===== src/Tests/Texts.antt =====
-- The printing of dumps.
use biology.Base.{
  ℕ, ◌+◌, ◌≡◌, ◌≢◌, refl, true, false, Option, some, List, [], ◌∷◌, ◌++◌, length, arith,
}
use biology.Base.Errno.{ok}
use biology.Serial.Info.{Field, load_field, field_size}
use biology.Serial.Header.{id_bytes, header_bytes}
use biology.Base.Bytes.{le_bytes}
use biology.Serial.Layout.{body_bytes, field_bytes, record_bytes}
use biology.Dump.Session.{all_records}
use biology.Proxy.Device.{schema_for}
use biology.Json.Parse.{prints, unfinished, parse_records}
use biology.Json.Prints.{texts, first_after}
use biology.Json.Ends.{is_scalar, parse_records-ends}
use biology.Json.Main.{
  begin_text, end_text, Written, dump, other, entry_of, all_infos, main_output, main_output-texts,
}
use biology.Tests.Machine.{nothing, blank, machine, memory, memory-IsPages, write4, write4-IsWhole}

abbrev directory : List ℕ
directory = b'/' ∷ b't' ∷ []

parse_records-ends_example :
    parse_records 4 (5 ∷ 5 ∷ 5 ∷ 5 ∷ []) nothing true (ok (Field.op ∷ [], 2)) ≢ unfinished
unfolding is_scalar
parse_records-ends_example =
    parse_records-ends (Field.op ∷ []) nothing 2 4 true (5 ∷ 5 ∷ 5 ∷ 5 ∷ []) (refl, tt)
      (λ e. absurd (cc e)) (omega arith) (omega arith) (omega arith)

-- The entries of the directory: `.`, a dump, `..`.
abbrev listed : List Written
listed =
    other (b'.' ∷ [])
    ∷ dump (b'd' ∷ b'0' ∷ []) (write4 ∷ write4 ∷ [])
    ∷ other (b'.' ∷ b'.' ∷ [])
    ∷ []

abbrev found : List ℕ → Option (List ℕ)
found path = some (
    header_bytes (schema_for false) ++ all_records memory (schema_for false) (write4 ∷ write4 ∷ []))

dump0_size :
    length (header_bytes (schema_for false))
      + length (all_records memory (schema_for false) (write4 ∷ write4 ∷ []))
    ≡ 134
unfolding header_bytes id_bytes all_records schema_for record_bytes body_bytes field_bytes le_bytes
    load_field field_size
dump0_size = refl

main_output-texts_example :
    main_output machine found nothing directory (
      record { d_name = b'.' ∷ []; regular = false }
      ∷ record { d_name = b'd' ∷ b'0' ∷ []; regular = true }
      ∷ record { d_name = b'.' ∷ b'.' ∷ []; regular = false }
      ∷ [])
    ≡ prints
        (begin_text ++ (texts (all_infos listed) true ++ end_text))
        (first_after (all_infos listed) true)
unfolding entry_of
main_output-texts_example =
    main_output-texts memory memory-IsPages false machine nothing directory found
      (λ n. (blank n, refl)) listed
      (tt, ((refl, (write4-IsWhole, (write4-IsWhole, tt)), omega (arith, dump0_size)), (tt, tt)))
