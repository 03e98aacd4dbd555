-- ===== src/Tests/Replays.antt =====
-- The generator on small dump files.
use biology.Base.{ℕ, ◌-◌, ◌≡◌, refl, sym, none, some, List, [], ◌∷◌, ◌++◌, append-nil, arith}
use biology.Base.Bytes.{le_bytes}
use biology.Base.Errno.{einval, as_size, ok, err}
use biology.Kernel.{ptr}
use biology.Serial.Info.{Field, schema_default, schema_payload}
use biology.Serial.Layout.{record_bytes}
use biology.Serial.RoundTrip.{transfer}
use biology.Serial.Payload.{receive_gen}
use biology.Serial.Header.{id_bytes, header_bytes, length-header_bytes}
use biology.Dump.Session.{all_records}
use biology.Parser.State.{Parser, initial_buf_size, next_ok, next_empty, parser_init, read_next}
use biology.Parser.Window.{reading, pending, InBounds}
use biology.Parser.Next.{read_next-record_bytes, read_next_empty}
use biology.Parser.Init.{parser_init-header_bytes, parser_init_empty, parser_init_unknown}
use biology.Gen.Request.{replay_delay, replay_delay_lem}
use biology.Gen.Worker.{zeroed}
use biology.Gen.EndToEnd.{replay-dump}
use biology.Gen.Replay.{replay, requests, replay-requests}
use biology.Tests.Machine.{
  two_held, one_held, two_held-put, blank, regrown, machine, machine-IsAllocator, dumps,
  dumps-IsSource, memory, memory-IsPages, layer, write4, write4-IsWhole, write4_size,
  write4-Recordable,
}

abbrev record4 : List ℕ
record4 = record_bytes memory schema_payload write4

fresh_buffer-InBounds : InBounds [] 0 0
fresh_buffer-InBounds = record {
  offset_le = omega arith;
  valid_le = omega arith;
  block_small = omega arith;
}

replay-requests_example :
    replay layer machine two_held
      (record {
        cpu = 0;
        start_ts = 50;
        parser =
            reading dumps schema_payload (all_records memory schema_payload (write4 ∷ [])) 0 [] 0 0;
      })
      (60 ∷ 70 ∷ [])
    ≡ some (
      one_held,
      requests blank memory schema_payload 50 (write4 ∷ []) (60 ∷ 70 ∷ []),
      some (ok tt),
    )
replay-requests_example =
    replay-requests layer machine blank (λ op. refl) (λ buf n. refl) (λ n. refl) dumps
      dumps-IsSource machine-IsAllocator (λ old n small. (regrown old n, refl)) memory
      memory-IsPages schema_payload (all_records memory schema_payload (write4 ∷ [])) 0 50 two_held
      one_held (write4 ∷ []) (60 ∷ 70 ∷ []) [] 0 [] 0 0 refl two_held-put (write4-Recordable, tt)
      refl fresh_buffer-InBounds (sym (append-nil _)) (omega arith)

read_next-record_bytes_example :
    (pos' : ℕ) × (block' : List ℕ) × (valid' : ℕ) × (offset' : ℕ) × (read_next machine
        (reading dumps schema_payload (record4 ++ (9 ∷ [])) 0 [] 0 0)
        zeroed
      ≡ some (
        reading dumps schema_payload (record4 ++ (9 ∷ [])) pos' block' valid' offset',
        next_ok (transfer (receive_gen memory) schema_payload write4 zeroed),
      ))
    × InBounds block' valid' offset'
    × (pending dumps schema_payload (record4 ++ (9 ∷ [])) pos' block' valid' offset' ≡ 9 ∷ [])
read_next-record_bytes_example =
    read_next-record_bytes dumps schema_payload (record4 ++ (9 ∷ [])) machine machine-IsAllocator
      (λ old n small. (regrown old n, refl)) dumps-IsSource memory memory-IsPages write4
      write4-IsWhole (λ nz. (blank 4, refl)) (omega (arith, write4_size)) 0 [] 0 0 (9 ∷ []) zeroed
      fresh_buffer-InBounds refl

read_next_empty_example :
    (pos' : ℕ) × (block' : List ℕ) × (valid' : ℕ) × (offset' : ℕ) × (read_next machine
        (reading dumps schema_payload (1 ∷ 2 ∷ []) 0 [] 0 0)
        zeroed
      ≡ some (reading dumps schema_payload (1 ∷ 2 ∷ []) pos' block' valid' offset', next_empty))
read_next_empty_example =
    read_next_empty dumps schema_payload (1 ∷ 2 ∷ []) machine machine-IsAllocator
      (λ old n small. (regrown old n, refl)) dumps-IsSource 0 [] 0 0 zeroed fresh_buffer-InBounds
      (omega arith)

parser_init-header_bytes_example :
    (pos : ℕ) × (block' : List ℕ) × (valid : ℕ) × (offset : ℕ) × (parser_init machine
        (ptr (header_bytes schema_default ++ (4 ∷ [])))
      ≡ some (
        reading dumps schema_default
            (header_bytes schema_default ++ (4 ∷ []))
            pos
            block'
            valid
            offset,
        ok tt,
      ))
    × InBounds block' valid offset
    × (pending dumps schema_default
          (header_bytes schema_default ++ (4 ∷ []))
          pos
          block'
          valid
          offset
        ≡ 4 ∷ [])
parser_init-header_bytes_example =
    parser_init-header_bytes dumps dumps-IsSource machine machine-IsAllocator
      (header_bytes schema_default ++ (4 ∷ [])) (blank initial_buf_size) refl schema_default
      (4 ∷ []) (blank 72) refl (omega (arith, length-header_bytes schema_default)) refl

parser_init_empty_example :
    (parser : Parser dumps) × (parser_init machine (ptr []) ≡ some (parser, err einval))
parser_init_empty_example =
    parser_init_empty dumps dumps-IsSource machine machine-IsAllocator [] (blank initial_buf_size)
      refl refl

-- A header that counts four fields, of which the third is not known.
abbrev odd_file : List ℕ
odd_file =
    le_bytes 4 4 ++ (id_bytes (Field.op ∷ Field.size ∷ []) ++ (le_bytes 4 99 ++ le_bytes 4 1))

parser_init_unknown_example :
    (parser : Parser dumps) × (parser_init machine (ptr odd_file) ≡ some (parser, ok tt))
    × (parser.schema ≡ none)
    × (parser.offset ≡ as_size einval)
parser_init_unknown_example =
    parser_init_unknown dumps dumps-IsSource machine machine-IsAllocator odd_file
      (blank initial_buf_size) refl (Field.op ∷ Field.size ∷ []) 99 1 (le_bytes 4 1) (blank 40)
      (omega arith) (omega arith) (omega arith) (omega arith) refl refl

replay_delay_lem_example : replay_delay 1070 1000 500 ≡ 500 - (1070 - 1000)
replay_delay_lem_example = replay_delay_lem 1070 1000 500 (omega arith) (omega arith) (omega arith)

abbrev traced_file : List ℕ
traced_file =
    header_bytes schema_payload ++ (all_records memory schema_payload (write4 ∷ write4 ∷ []) ++ [])

replay-dump_example :
    (parser : Parser dumps) × (parser_init machine (ptr traced_file) ≡ some (parser, ok tt))
    × (replay layer machine two_held
          (record { cpu = 2; start_ts = 50; parser = parser })
          (60 ∷ 70 ∷ 80 ∷ [])
        ≡ some (
          one_held,
          requests blank memory schema_payload 50 (write4 ∷ write4 ∷ []) (60 ∷ 70 ∷ 80 ∷ []),
          some (ok tt),
        ))
replay-dump_example =
    replay-dump layer machine blank (λ op. refl) (λ buf n. refl) (λ n. refl) dumps dumps-IsSource
      machine-IsAllocator (λ old n small. (regrown old n, refl)) memory memory-IsPages
      schema_payload traced_file 2 50 two_held one_held (write4 ∷ write4 ∷ []) (60 ∷ 70 ∷ 80 ∷ [])
      [] refl two_held-put (write4-Recordable, (write4-Recordable, tt)) refl refl
      (omega (arith, length-header_bytes schema_payload)) (omega arith)
