-- ===== src/Dump/Init.antt =====
-- How a dump is opened and closed: the rest of biology-proxy-dump.c.
use biology.Base.{
  ◌^◌, ◌≤◌, ◌<◌, ◌≡◌, refl, ltb, lt→ltb, length, length-append, arith, Bool, ◌*◌, if◌then◌else◌, ℕ,
  suc, zero, ◌+◌, Option, none, some, List, [], ◌∷◌, ◌++◌, ◌>>=◌,
}
use biology.Base.Bytes.{◌+u64◌}
use biology.Base.Decimal.{length-print_dec_le, print_dec}
use biology.Base.Errno.{enomem, Ret, ok, err, Status}
use biology.Kernel.{Allocator, Vfs, Ptr, null}
use biology.Serial.Info.{Schema}
use biology.Serial.Schema.{schema_serialize}
use biology.Dump.Buffer.{Dump, DumpFile, file_init, buf_init, destroy}

abbrev dump_name : List ℕ
dump_name = b'/' ∷ b'd' ∷ b'u' ∷ b'm' ∷ b'p' ∷ []

-- The text of the format "%s/dump%d".
unfoldable pub dump_file_path : List ℕ → ℕ → List ℕ
dump_file_path dir_path cpu = dir_path ++ (dump_name ++ print_dec cpu)

-- `_dump_build_file_path`, into a block of `PATH_MAX` bytes: a longer text is written behind it.
unfoldable pub build_file_path : List ℕ → ℕ → Option (List ℕ)
unfolding dump_file_path
build_file_path dir_path cpu =
    let path = dump_file_path dir_path cpu in if ltb (length path) 4096 then some path else none

pub build_file_path-fits :
    (dir_path : List ℕ) (cpu : ℕ)
    → length (dump_file_path dir_path cpu) < 4096
    → build_file_path dir_path cpu ≡ some (dump_file_path dir_path cpu)
unfolding build_file_path
build_file_path-fits dir_path cpu fits = rw (lt→ltb _ _ fits) refl

-- The path fits for a directory of up to 4080 letters.
pub length-dump_file_path :
    (dir_path : List ℕ) (cpu : ℕ)
    → length dir_path ≤ 4080
    → cpu < 2 ^ 32
    → length (dump_file_path dir_path cpu) < 4096
unfolding dump_file_path
length-dump_file_path dir_path cpu fits few = omega (
  arith,
  length-append dir_path (dump_name ++ print_dec cpu),
  length-print_dec_le 9 cpu (omega arith),
)

module _ (V : Vfs) where
  -- A dump as `kzalloc` gives it, with its first three members set.
  abbrev pub fresh : ℕ → Schema → Dump V
  fresh cpu schema = record {
    cpu = cpu;
    file = record { file = null; offset = 0 };
    schema = schema;
    buf = none;
    size = 0;
    offset = 0;
  }

  -- `blgy_prxy_dump_schema`
  unfoldable pub dump_schema : Dump V → Option (Dump V × Status)
  dump_schema dump = do
    written ← schema_serialize dump.schema dump.offset dump.buf
    elim written [
      | err e ↦ some (dump, err e)
      | ok r ↦ some (record dump { buf = some r.1; offset = dump.offset +u64 r.0 }, ok tt)
    ]

  -- The label `out` of `blgy_prxy_dump_init`.
  unfoldable pub init_out : Dump V × Status → Option (Dump V × Status)
  init_out (dump, ok _) = some (dump, ok tt)
  init_out (dump, err e) = do (closed, _) ← destroy dump; some (closed, err e)

  -- `blgy_prxy_dump_init` from the test of `blgy_prxy_dump_buf_init` on.
  unfoldable pub init_schema : Dump V × Status → Option (Dump V × Status)
  unfolding init_out dump_schema
  init_schema (dump, err e) = init_out (dump, err e)
  init_schema (dump, ok _) = dump_schema dump >>= init_out

  -- The same from the test of `blgy_prxy_dump_file_init` on.
  unfoldable pub init_buf : Allocator → Dump V × Status → Option (Dump V × Status)
  unfolding init_schema
  init_buf A (dump, err e) = init_out (dump, err e)
  init_buf A (dump, ok _) = init_schema (buf_init A dump)

  abbrev with_file : Dump V → DumpFile V × Status → Dump V × Status
  with_file dump (file, status) = (record dump { file = file }, status)

  -- `blgy_prxy_dump_init`; `filp_open` gives the file at a path.
  unfoldable pub init :
      Allocator → (List ℕ → Ptr V.File) → Schema → List ℕ → ℕ → Option (Dump V × Status)
  unfolding init_buf
  init A filp_open schema dir_path cpu = elim (A.kmalloc 4096) [
    | none ↦ some (fresh cpu schema, err enomem)
    | some block ↦ do
      path ← build_file_path dir_path cpu
      init_buf A (with_file (fresh cpu schema) (file_init (filp_open path)))
  ]

  -- The loop of `blgy_prxy_dumps_init`, with `left` processors from `cpu` on. The dumps already
  -- opened are not closed when a later one fails.
  unfoldable pub dumps_init_loop :
      Allocator → (List ℕ → Ptr V.File) → Schema → List ℕ → ℕ → ℕ → Option (Ret (List (Dump V)))
  dumps_init_loop A filp_open schema dir_path zero cpu = some (ok [])
  dumps_init_loop A filp_open schema dir_path (suc left) cpu = do
    (dump, status) ← init A filp_open schema dir_path cpu
    elim status [
      | err e ↦ some (err e)
      | ok _ ↦ do
        rest ← dumps_init_loop A filp_open schema dir_path left (cpu + 1)
        elim rest [ err e ↦ some (err e) | ok dumps ↦ some (ok (dump ∷ dumps)) ]
    ]

  -- The loop of `blgy_prxy_dumps_destroy`; the files that it closes.
  unfoldable pub dumps_destroy_loop : List (Dump V) → Option (List (Option V.File))
  dumps_destroy_loop [] = some []
  dumps_destroy_loop (dump ∷ dumps) = do
    (_, closed) ← destroy dump
    rest ← dumps_destroy_loop dumps
    some (closed ∷ rest)

-- `struct blgy_prxy_dumps`; `wq` says whether the workqueue is there or null.
pub record Dumps (V : Vfs) : Type 0 where
  pub cpus_num : ℕ
  pub dumps : List (Dump V)
  pub wq : Bool

module _ (V : Vfs) where
  -- What `blgy_prxy_dumps_init` makes of its loop; the result of `alloc_workqueue` is not tested.
  unfoldable pub dumps_ready : ℕ → Bool → Ret (List (Dump V)) → Ret (Dumps V)
  dumps_ready cpus wq (err e) = err e
  dumps_ready cpus wq (ok dumps) = ok (record { cpus_num = cpus; dumps = dumps; wq = wq })

  -- `blgy_prxy_dumps_init` from the test of its array on.
  unfoldable pub dumps_filled :
      Allocator
      → (List ℕ → Ptr V.File)
      → Schema
      → List ℕ
      → ℕ
      → Bool
      → Option (List ℕ)
      → Option (Ret (Dumps V))
  unfolding dumps_ready
  dumps_filled A filp_open schema dir_path cpus wq none = some (err enomem)
  dumps_filled A filp_open schema dir_path cpus wq (some array) = do
    dumps ← dumps_init_loop V A filp_open schema dir_path cpus 0
    some (dumps_ready cpus wq dumps)

  -- `blgy_prxy_dumps_init` with `num_online_cpus()`, `sizeof(struct blgy_prxy_dump)` and whether
  -- there is memory for a workqueue.
  unfoldable pub dumps_init :
      Allocator → (List ℕ → Ptr V.File) → Schema → List ℕ → ℕ → ℕ → Bool → Option (Ret (Dumps V))
  unfolding dumps_filled
  dumps_init A filp_open schema dir_path cpus sizeof_dump wq =
      dumps_filled A filp_open schema dir_path cpus wq (A.kmalloc (sizeof_dump * cpus))

  -- `blgy_prxy_dumps_destroy`, once the works of the queue have run. To flush a null queue is a
  -- fault.
  unfoldable pub dumps_destroy : Dumps V → Option (List (Option V.File))
  dumps_destroy dumps = if dumps.wq then dumps_destroy_loop V dumps.dumps else none
