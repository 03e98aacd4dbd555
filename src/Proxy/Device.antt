-- ===== src/Proxy/Device.antt =====
-- The state of a proxy device: biology-proxy-dev.h, and the enabling and disabling of it in
-- biology-proxy-dev.c.
use biology.Base.{
  ℕ, ◌+◌, ◌-◌, ◌%◌, ◌^◌, Bool, true, false, Option, none, some, List, [], if◌then◌else◌, ◌>>=◌,
}
use biology.Base.Errno.{enomem, ealready, Ret, ok, err, Status}
use biology.Kernel.{Allocator, Vfs, Ptr}
use biology.Serial.Info.{Schema, schema_default, schema_payload}
use biology.Dump.Init.{Dumps, dumps_init, dumps_destroy}

-- The members of `struct blgy_prxy_dev` that the path of a request uses; `dumps` may be null.
pub record Dev (V : Vfs) : Type 0 where
  pub enabled : Bool
  pub dumps : Option (Dumps V)
  pub bio_id_counter : ℕ
  pub bio_inflight : ℕ
  pub start_ts : ℕ

-- `atomic_inc` and `atomic_dec`, on the bit pattern of an `int`.
abbrev pub atomic_inc : ℕ → ℕ
atomic_inc n = (n + 1) % 2 ^ 32

abbrev pub atomic_dec : ℕ → ℕ
atomic_dec n = (n + 2 ^ 32 - 1) % 2 ^ 32

-- The device of `blgy_prxy_dev_create`: both counters are set, the first to -1.
abbrev pub created_dev : (V : Vfs) → Dev V
created_dev V = record {
  enabled = false;
  dumps = none;
  bio_id_counter = 2 ^ 32 - 1;
  bio_inflight = 0;
  start_ts = 0;
}

-- What `blgy_prxy_dev_enable` finds around it: `filp_open`, the number of processors, the sizes of
-- `struct blgy_prxy_dump`, memory for a workqueue, and the clock.
pub record Setting (V : Vfs) : Type 0 where
  pub filp_open : List ℕ → Ptr V.File
  pub cpus : ℕ
  pub sizeof_dump : ℕ
  pub wq : Bool
  pub now : ℕ

-- The choice of the schema in `blgy_prxy_dev_enable`.
unfoldable pub schema_for : Bool → Schema
schema_for dump_payload = if dump_payload then schema_payload else schema_default

module _ {V : Vfs} where
  -- `blgy_prxy_dev_next_bio_id`: the device after it, and the id.
  unfoldable pub next_bio_id : Dev V → Dev V × ℕ
  next_bio_id dev =
      let id = atomic_inc dev.bio_id_counter in (record dev { bio_id_counter = id }, id)

  module _ (A : Allocator) (E : Setting V) where
    -- `blgy_prxy_dev_enable` from the test of `blgy_prxy_dumps_init` on.
    unfoldable pub dev_enabled : Dev V → Ret (Dumps V) → Dev V × Status
    dev_enabled dev (err e) = (record dev { dumps = none }, err e)
    dev_enabled dev (ok dumps) = (
      record dev {
        enabled = true;
        dumps = some dumps;
        bio_id_counter = 2 ^ 32 - 1;
        start_ts = E.now;
      },
      ok tt,
    )

    -- The same from the allocation of the dumps on.
    unfoldable pub dev_allocated : Dev V → Bool → List ℕ → Option (List ℕ) → Option (Dev V × Status)
    unfolding dev_enabled schema_for
    dev_allocated dev dump_payload dump_dir none = some (dev, err enomem)
    dev_allocated dev dump_payload dump_dir (some block) = do
      dumps ←
          dumps_init V A E.filp_open (schema_for dump_payload) dump_dir E.cpus E.sizeof_dump E.wq
      some (dev_enabled dev dumps)

    -- The test of `dev->dumps` in `blgy_prxy_dev_enable`.
    unfoldable pub dev_unless : Option (Dumps V) → Dev V → Bool → List ℕ → Option (Dev V × Status)
    unfolding dev_allocated
    dev_unless (some dumps) dev dump_payload dump_dir = some (dev, err ealready)
    dev_unless none dev dump_payload dump_dir =
        dev_allocated dev dump_payload dump_dir (A.kmalloc E.sizeof_dump)

    -- `blgy_prxy_dev_enable`
    unfoldable pub dev_enable : Dev V → Bool → List ℕ → Option (Dev V × Status)
    unfolding dev_unless
    dev_enable dev dump_payload dump_dir = dev_unless dev.dumps dev dump_payload dump_dir

  -- `blgy_prxy_dev_disable` from the test of `dev->dumps` on, once the works of the queue have run,
  -- with the files that it closes.
  unfoldable pub dev_release : Dev V → Option (Dumps V) → Option (Dev V × List (Option V.File))
  dev_release dev none = some (dev, [])
  dev_release dev (some dumps) = do
    closed ← dumps_destroy V dumps
    some (record dev { dumps = none }, closed)
