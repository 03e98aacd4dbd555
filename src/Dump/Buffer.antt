-- ===== src/Dump/Buffer.antt =====
-- The file and the buffer of a dump, from biology-proxy-dump.c and .h. `none` in the place of a
-- result is a fault. Each call is made under `dump->lock` or with no other user left.
use biology.Base.{ℕ, ◌+◌, Option, none, some, List, leb, ◌==◌, if◌then◌else◌, ◌>>=◌}
use biology.Base.Bytes.{◌-u64◌, ◌+u64◌}
use biology.Base.Errno.{enomem, eio, einval, as_size, ok, err, Status}
use biology.Base.Memory.{read}
use biology.Kernel.{Allocator, Vfs, Ptr, null, err_ptr, ptr, Count, count, fails, Pages}
use biology.Serial.Info.{Schema, Bio, BioInfo}
use biology.Serial.Encode.{serial_size, serialize}

-- `BLGY_PRXY_DUMP_INITIAL_BUF_SIZE`
abbrev pub initial_buf_size : ℕ
initial_buf_size = 65536

pub record DumpFile (V : Vfs) : Type 0 where
  pub file : Ptr V.File
  pub offset : ℕ

pub record Dump (V : Vfs) : Type 0 where
  pub cpu : ℕ
  pub file : DumpFile V
  pub schema : Schema
  pub buf : Option (List ℕ)
  pub size : ℕ
  pub offset : ℕ

-- A count as the `size_t` that it is compared with, and by how much a position moves.
abbrev pub written_size : Count → ℕ
written_size (count n) = n
written_size (fails e) = as_size e

abbrev pub moved : Count → ℕ
moved (count n) = n
moved (fails e) = 0

-- A call through a pointer. A null or an error pointer is a fault.
abbrev pub deref {ℓ} : {A : Type ℓ} → Ptr A → Option A
deref null = none
deref (err_ptr e) = none
deref (ptr a) = some a

-- `krealloc(buf, n)`, which is `kmalloc(n)` on a null pointer.
unfoldable pub krealloc : Allocator → Option (List ℕ) → ℕ → Option (List ℕ)
krealloc A none n = A.kmalloc n
krealloc A (some block) n = A.krealloc block n

module _ {V : Vfs} where
  -- `blgy_prxy_dump_buf_avail`
  unfoldable pub buf_avail : Dump V → ℕ
  buf_avail dump = dump.size -u64 dump.offset

  -- `blgy_prxy_dump_file_destroy`; the file that was closed comes with it.
  unfoldable pub file_destroy : DumpFile V → Option (DumpFile V × Option V.File)
  file_destroy file = elim file.file [
    | null ↦ some (file, none)
    | err_ptr e ↦ none
    | ptr f ↦ some (record file { file = null }, some f)
  ]

  -- `blgy_prxy_dump_file_init`: the test is for null, which `filp_open` does not return.
  unfoldable pub file_init : Ptr V.File → DumpFile V × Status
  file_init opened = elim opened [
    | null ↦ (record { file = null; offset = 0 }, err einval)
    | err_ptr e ↦ (record { file = err_ptr e; offset = 0 }, ok tt)
    | ptr f ↦ (record { file = ptr f; offset = 0 }, ok tt)
  ]

  -- `blgy_prxy_dump_file_write`
  unfoldable pub file_write : DumpFile V → Option (List ℕ) → ℕ → Option (DumpFile V × Status)
  file_write file buf size = do
    block ← buf
    bytes ← read 0 size block
    f ← deref file.file
    let (f', written) = V.iter_write f file.offset bytes
    some (
      record { file = ptr f'; offset = file.offset + moved written },
      if written_size written == size then ok tt else err eio,
    )

  -- `blgy_prxy_dump_buf_drain`
  unfoldable pub buf_drain : Dump V → Option (Dump V × Status)
  unfolding file_write
  buf_drain dump =
      if dump.offset == 0
      then some (dump, ok tt)
      else (file_write dump.file dump.buf dump.offset >>= λ r.
          some (record dump { file = r.0; offset = 0 }, r.1))

  -- `blgy_prxy_dump_buf_destroy`, which ignores how the drain ends.
  unfoldable pub buf_destroy : Dump V → Option (Dump V)
  buf_destroy dump = do
    (dump', _) ← buf_drain dump
    some (record dump' { buf = none; size = 0; offset = 0 })

  -- `blgy_prxy_dump_destroy`
  unfoldable pub destroy : Dump V → Option (Dump V × Option V.File)
  destroy dump = do
    dump' ← buf_destroy dump
    (file, closed) ← file_destroy dump'.file
    some (record dump' { file = file }, closed)

  module _ (A : Allocator) where
    -- `blgy_prxy_dump_buf_init`
    unfoldable pub buf_init : Dump V → Dump V × Status
    buf_init dump = elim (A.kmalloc initial_buf_size) [
      | none ↦ (record dump { buf = none }, err enomem)
      | some block ↦ (record dump { buf = some block; size = initial_buf_size; offset = 0 }, ok tt)
    ]

    -- `blgy_prxy_dump_buf_resize`
    unfoldable pub buf_resize : Dump V → ℕ → Dump V × Status
    buf_resize dump size = elim (krealloc A dump.buf size) [
      | none ↦ (record dump { buf = none }, err enomem)
      | some block ↦ (record dump { buf = some block; size = size }, ok tt)
    ]

    -- `blgy_prxy_dump_buf_prepare`, in the two tests of the room.
    unfoldable pub prepare_drained : Dump V × Status → ℕ → Dump V × Status
    unfolding buf_resize krealloc
    prepare_drained (dump, err e) size = (dump, err e)
    prepare_drained (dump, ok _) size =
        if leb size (buf_avail dump) then (dump, ok tt) else buf_resize dump size

    unfoldable pub buf_prepare : Dump V → ℕ → Option (Dump V × Status)
    buf_prepare dump size =
        if leb size (buf_avail dump)
        then some (dump, ok tt)
        else (buf_drain dump >>= λ r. some (prepare_drained r size))

    module _ (P : Pages) where
      -- What `blgy_prxy_dump` does once the buffer is prepared. `buf + offset` is a fault on null.
      unfoldable pub append_record : BioInfo Bio → Dump V × Status → Option (Dump V × Status)
      append_record info (dump, err e) = some (dump, err e)
      append_record info (dump, ok _) = do
        block ← dump.buf
        (size, block') ← serialize P info dump.offset block dump.schema
        some (record dump { buf = some block'; offset = dump.offset +u64 size }, ok tt)

      -- `blgy_prxy_dump`
      unfoldable pub dump_bio : Dump V → BioInfo Bio → Option (Dump V × Status)
      unfolding append_record
      dump_bio dump info = do
        prepared ← buf_prepare dump (serial_size info dump.schema +u64 8)
        append_record info prepared
