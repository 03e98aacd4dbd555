-- ===== src/Tests/Formats.antt =====
-- The format of a record and of a header.
use biology.Base.{◌≡◌, refl, some, [], ◌∷◌, ◌++◌, length, arith}
use biology.Base.Bytes.{le_bytes}
use biology.Base.Errno.{einval, ok, err}
use biology.Base.Memory.{splice}
use biology.Serial.Info.{schema_default, schema_payload}
use biology.Serial.Schema.{schema_serialize, schema_deserialize}
use biology.Serial.Encode.{serial_size, serialize}
use biology.Serial.Decode.{deserialize, deserialize_payload_gen, deserialize_payload_json}
use biology.Serial.Layout.{
  body_bytes, record_bytes, length-record_bytes, serialize-record_bytes, serial_size-body_bytes,
}
use biology.Serial.RoundTrip.{transfer}
use biology.Serial.Payload.{
  receive_gen, receive_json, deserialize_gen-record_bytes, deserialize_json-record_bytes,
}
use biology.Serial.Header.{
  header_bytes, id_bytes, length-header_bytes, schema_serialize-header_bytes,
  schema_deserialize-header_bytes, schema_deserialize_unknown,
}
use biology.Gen.Worker.{zeroed}
use biology.Tests.Machine.{
  blank, machine, machine-IsAllocator, memory, memory-IsPages, write4, write4-IsWhole, write4_size,
  blank-length,
}

body_size : length (body_bytes memory schema_payload write4) ≡ 53
body_size = omega (arith, write4_size, length-record_bytes memory schema_payload write4)

serial_size-body_bytes_example :
    serial_size write4 schema_payload ≡ length (body_bytes memory schema_payload write4)
serial_size-body_bytes_example =
    serial_size-body_bytes memory memory-IsPages schema_payload write4 write4-IsWhole
      (omega (arith, body_size))

serialize-record_bytes_example :
    serialize memory write4 100 (blank 4096) schema_payload
    ≡ some (
      length (record_bytes memory schema_payload write4),
      splice 100 (record_bytes memory schema_payload write4) (blank 4096),
    )
serialize-record_bytes_example =
    serialize-record_bytes memory memory-IsPages schema_payload write4 100 (blank 4096)
      write4-IsWhole (omega (arith, body_size)) (omega (arith, write4_size, blank-length 4096))

deserialize_gen-record_bytes_example :
    deserialize
      (deserialize_payload_gen machine)
      zeroed
      2
      (1 ∷ 2 ∷ (record_bytes memory schema_payload write4 ++ (3 ∷ [])))
      schema_payload
    ≡ some (
      transfer (receive_gen memory) schema_payload write4 zeroed,
      length (record_bytes memory schema_payload write4),
    )
deserialize_gen-record_bytes_example =
    deserialize_gen-record_bytes memory memory-IsPages write4 write4-IsWhole machine
      machine-IsAllocator (λ nz. (blank 4, refl)) schema_payload zeroed 2
      (1 ∷ 2 ∷ (record_bytes memory schema_payload write4 ++ (3 ∷ []))) (1 ∷ 2 ∷ []) (3 ∷ []) refl
      refl

deserialize_json-record_bytes_example :
    deserialize deserialize_payload_json zeroed 2
      (1 ∷ 2 ∷ (record_bytes memory schema_payload write4 ++ (3 ∷ [])))
      schema_payload
    ≡ some (
      transfer receive_json schema_payload write4 zeroed,
      length (record_bytes memory schema_payload write4),
    )
deserialize_json-record_bytes_example =
    deserialize_json-record_bytes memory memory-IsPages write4 write4-IsWhole schema_payload zeroed
      2 (1 ∷ 2 ∷ (record_bytes memory schema_payload write4 ++ (3 ∷ []))) (1 ∷ 2 ∷ []) (3 ∷ []) refl
      refl

schema_serialize-header_bytes_example :
    schema_serialize schema_default 0 (some (blank 64))
    ≡ some (
        ok
          (length (header_bytes schema_default), splice 0 (header_bytes schema_default) (blank 64)))
schema_serialize-header_bytes_example =
    schema_serialize-header_bytes schema_default 0 (blank 64) (omega arith)
      (omega (arith, length-header_bytes schema_default, blank-length 64))

schema_deserialize-header_bytes_example :
    schema_deserialize machine 1 (7 ∷ (header_bytes schema_default ++ []))
    ≡ some (ok (schema_default, length (header_bytes schema_default)))
schema_deserialize-header_bytes_example =
    schema_deserialize-header_bytes machine schema_default 1
      (7 ∷ (header_bytes schema_default ++ [])) (7 ∷ []) [] (blank 72) (omega arith) refl refl refl

schema_deserialize_unknown_example :
    schema_deserialize machine 0
      (le_bytes 4 10 ++ (id_bytes schema_default ++ (le_bytes 4 77 ++ (5 ∷ []))))
    ≡ some (err einval)
schema_deserialize_unknown_example =
    schema_deserialize_unknown machine schema_default 77 1 0
      (le_bytes 4 10 ++ (id_bytes schema_default ++ (le_bytes 4 77 ++ (5 ∷ [])))) [] (5 ∷ [])
      (blank 88) (omega arith) (omega arith) (omega arith) refl refl refl
