-- ===== src/Tests/Dumps.antt =====
-- The proxy's dump of one request.
use biology.Base.{ℕ, ◌≡◌, refl, some, List, [], ◌∷◌, ◌++◌, length, drop, All, arith}
use biology.Base.Errno.{ok, Status}
use biology.Kernel.{ptr}
use biology.Serial.Info.{schema_default, schema_payload}
use biology.Serial.Layout.{record_bytes}
use biology.Serial.Header.{header_bytes, length-header_bytes}
use biology.Dump.Buffer.{Dump, initial_buf_size, dump_bio, buf_drain, destroy}
use biology.Dump.Init.{init}
use biology.Dump.Log.{ready, log, InBounds, Drained, buf_drain-Drained}
use biology.Dump.Record.{Dumped, dump_bio-Dumped}
use biology.Dump.Init.{length-dump_file_path}
use biology.Dump.Session.{dump_all, all_records, Succeeded, init-header_bytes}
use biology.Dump.Total.{session-ok}
use biology.Tests.Machine.{
  blank, blank-length, regrown, machine, machine-IsAllocator, disk, disk-IsVfs, memory,
  memory-IsPages, write4, write4-IsWhole, write4_size, write4-Recordable,
}

abbrev directory : List ℕ
directory = b'/' ∷ b't' ∷ []

old_file : List ℕ
old_file = 1 ∷ 2 ∷ 3 ∷ []

empty_dump-InBounds : InBounds disk [] 0 (blank 8) 0
empty_dump-InBounds = record {
  pos_le = omega arith;
  offset_le = omega arith;
  block_small = omega (arith, blank-length 8);
}

used_dump-InBounds : InBounds disk (1 ∷ []) 1 (blank 8) 5
used_dump-InBounds = record {
  pos_le = omega arith;
  offset_le = omega (arith, blank-length 8);
  block_small = omega (arith, blank-length 8);
}

session-ok_example :
    let bytes =
      header_bytes schema_payload ++ all_records memory schema_payload (write4 ∷ write4 ∷ []) in
    (d0 : Dump disk) × (d : Dump disk) × (statuses : List Status) × (closed : Dump disk)
    × (f' : List ℕ) × (init disk machine (λ path. ptr old_file) schema_payload directory 1
        ≡ some (d0, ok tt))
    × (dump_all machine memory d0 (write4 ∷ write4 ∷ []) ≡ some (d, statuses))
    × All Succeeded statuses
    × (destroy d ≡ some (closed, some f'))
    × (f' ≡ bytes ++ drop (length bytes) old_file)
session-ok_example =
    session-ok disk machine memory disk-IsVfs machine-IsAllocator memory-IsPages
      (λ f off bytes. refl) (λ old n small. (regrown old n, refl)) 1 schema_payload
      (λ path. ptr old_file) directory old_file (blank 4096) (blank initial_buf_size)
      (write4 ∷ write4 ∷ []) (length-dump_file_path directory 1 (omega arith) (omega arith)) refl
      refl refl (omega (arith, length-header_bytes schema_payload)) (omega arith)
      (write4-Recordable, (write4-Recordable, tt))

dump_bio-Dumped_example :
    (r : Dump disk × Status) × (dump_bio machine memory
        (ready disk 0 [] 0 schema_payload (blank 8) 0)
        write4
      ≡ some r)
    × Dumped disk 0 [] 0 schema_payload (blank 8) 0 (record_bytes memory schema_payload write4) r
dump_bio-Dumped_example =
    dump_bio-Dumped disk machine memory memory-IsPages disk-IsVfs machine-IsAllocator 0
      schema_payload write4 write4-IsWhole (omega (arith, write4_size)) [] 0 (blank 8) 0
      empty_dump-InBounds

buf_drain-Drained_example :
    (f' : List ℕ) × (pos' : ℕ) × (status : Status) × (buf_drain
        (ready disk 0 (1 ∷ []) 1 schema_default (blank 8) 5)
      ≡ some (ready disk 0 f' pos' schema_default (blank 8) 0, status))
    × Drained disk (1 ∷ []) f' 1 pos' (blank 8) 5 status
buf_drain-Drained_example =
    buf_drain-Drained disk disk-IsVfs 0 (1 ∷ []) 1 schema_default (blank 8) 5 used_dump-InBounds

init-header_bytes_example :
    (block' : List ℕ) × (init disk machine (λ path. ptr old_file) schema_default directory 3
      ≡ some (
        ready disk 3 old_file 0 schema_default block' (length (header_bytes schema_default)),
        ok tt,
      ))
    × InBounds disk old_file 0 block' (length (header_bytes schema_default))
    × (log disk old_file 0 block' (length (header_bytes schema_default))
        ≡ header_bytes schema_default)
init-header_bytes_example =
    init-header_bytes disk machine machine-IsAllocator (λ path. ptr old_file) schema_default
      directory 3 old_file (blank 4096) (blank initial_buf_size)
      (length-dump_file_path directory 3 (omega arith) (omega arith)) refl refl refl
      (omega (arith, length-header_bytes schema_default)) (omega arith)
