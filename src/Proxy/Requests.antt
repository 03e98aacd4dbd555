-- ===== src/Proxy/Requests.antt =====
-- The path of a request through the proxy: biology-proxy-bio.c, and `blgy_prxy_dev_submit_bio`.
use biology.Base.{
  ℕ, zero, suc, ◌-◌, ◌%◌, ◌^◌, Bool, true, false, Option, none, some, List, [], ◌∷◌, ◌++◌, ◌==◌,
  if◌then◌else◌, ◌>>=◌,
}
use biology.Base.Bytes.{◌-u64◌}
use biology.Kernel.{Allocator, Vfs, Pages, Requests}
use biology.Serial.Info.{Bio, BioInfo}
use biology.Dump.Buffer.{dump_bio}
use biology.Dump.Init.{Dumps}
use biology.Proxy.Device.{Dev, atomic_inc, atomic_dec, next_bio_id, dev_release}

-- A device with the requests that it holds. The `info` of a `struct blgy_prxy_bio` has the pointer
-- to the original request in its payload, which is also its member `bio`.
pub record Proxy (V : Vfs) : Type 0 where
  pub dev : Dev V
  -- The clones that the target has not ended.
  pub inflight : List (BioInfo Bio)
  -- The works of the workqueue that have not run; the dump of each is that of `info.cpu`.
  pub queued : List (BioInfo Bio)
  -- The original requests that have been ended, and those that went to the target as they are.
  pub ended : List Bio
  pub passed : List Bio
  -- The requests that were given to `blgy_prxy_dump`, in order.
  pub traced : List (BioInfo Bio)

-- `blgy_prxy_bio_info_init` on zeroed memory, with the original request.
unfoldable pub info_init : ℕ → Bio → BioInfo Bio
info_init id bio = record {
  cpu = 2 ^ 32 - 1;
  id = id;
  start_ts = 0;
  end_ts = 0;
  sector = 0;
  size = 0;
  op = 0;
  status = 0;
  payload = record { size = 0; content = bio };
}

-- `bio_op(bio) == REQ_OP_WRITE`
abbrev pub is_write : Bio → Bool
is_write bio = bio.bi_opf % 256 == 1

-- The members that `blgy_prxy_process_bio` sets, from the processor and the time of the device.
unfoldable pub info_fill : BioInfo Bio → Bio → ℕ → ℕ → BioInfo Bio
info_fill info bio cpu ts = record info {
  sector = bio.bi_sector;
  size = bio.bi_size;
  op = bio.bi_opf;
  cpu = cpu;
  start_ts = ts;
  payload = record { size = if is_write bio then bio.bi_size else 0; content = bio };
}

-- The update of an entry of an array; out of range there is none.
unfoldable pub entry {ℓ} : {A : Type ℓ} → ℕ → List A → Option A
entry i [] = none
entry zero (x ∷ xs) = some x
entry (suc i) (x ∷ xs) = entry i xs

unfoldable pub set_entry {ℓ} : {A : Type ℓ} → ℕ → A → List A → List A
set_entry i a [] = []
set_entry zero a (x ∷ xs) = a ∷ xs
set_entry (suc i) a (x ∷ xs) = x ∷ set_entry i a xs

module _ {V : Vfs} (A : Allocator) (Q : Requests) where
  -- `blgy_prxy_process_bio` from the result of `bio_alloc_clone` on. A negative error number is
  -- stored in the 8 bits of `bi_status`.
  unfoldable pub process_clone : Proxy V → Bio → BioInfo Bio → Bool → Proxy V
  process_clone proxy bio info false = record proxy {
    ended = record bio { bi_status = 256 - 12 } ∷ proxy.ended;
  }
  process_clone proxy bio info true =
      let advanced : BioInfo Bio = record info {
        payload = record { size = info.payload.size; content = Q.bio_advance bio bio.bi_size };
      } in
      record proxy {
        dev = record proxy.dev { bio_inflight = atomic_inc proxy.dev.bio_inflight };
        inflight = advanced ∷ proxy.inflight;
      }

  -- `blgy_prxy_process_bio`, with `sizeof(struct blgy_prxy_bio)`, the processor, the clock and
  -- whether there is memory for a clone. Without memory for its own structure it frees an error
  -- pointer, which is a fault.
  unfoldable pub process_bio : ℕ → ℕ → ℕ → Bool → Proxy V → Bio → Option (Proxy V)
  unfolding info_init info_fill process_clone
  process_bio sizeof_bio cpu now cloned proxy bio = do
    block ← A.kmalloc sizeof_bio
    let (dev, id) = next_bio_id proxy.dev
    let info = info_fill (info_init id bio) bio cpu (now -u64 dev.start_ts)
    some (process_clone (record proxy { dev = dev }) bio info cloned)

  -- `blgy_prxy_dev_submit_bio`
  unfoldable pub submit_bio : ℕ → ℕ → ℕ → Bool → Proxy V → Bio → Option (Proxy V)
  unfolding process_bio
  submit_bio sizeof_bio cpu now cloned proxy bio =
      if proxy.dev.enabled
      then process_bio sizeof_bio cpu now cloned proxy bio
      else some (record proxy { passed = bio ∷ proxy.passed })

-- `blgy_prxy_bio_end_io` on a request that is no longer in flight, with the status of its clone and
-- the clock. The dump is found through the dumps of the device, which must be there.
unfoldable pub end_io : {V : Vfs} → Proxy V → BioInfo Bio → ℕ → ℕ → Option (Proxy V)
end_io proxy info status now = do
  dumps ← proxy.dev.dumps
  let bio = record info.payload.content { bi_status = status }
  let done : BioInfo Bio = record info {
    end_ts = now -u64 proxy.dev.start_ts;
    status = status;
    payload = record { size = info.payload.size; content = bio };
  }
  if dumps.wq then some (record proxy { queued = proxy.queued ++ (done ∷ []) }) else none

module _ {V : Vfs} (A : Allocator) (P : Pages) where
  -- `blgy_prxy_bio_dump_work` on a work that has left the queue. The result of `blgy_prxy_dump` is
  -- not looked at.
  unfoldable pub dump_work : Proxy V → BioInfo Bio → Option (Proxy V)
  dump_work proxy info = do
    dumps ← proxy.dev.dumps
    dump ← entry info.cpu dumps.dumps
    (dump', _) ← dump_bio A P dump info
    some (record proxy {
      dev = record proxy.dev {
        dumps = some (record dumps { dumps = set_entry info.cpu dump' dumps.dumps });
        bio_inflight = atomic_dec proxy.dev.bio_inflight;
      };
      ended = info.payload.content ∷ proxy.ended;
      traced = proxy.traced ++ (info ∷ []);
    })

  -- `flush_workqueue`: every queued work runs, the first that was queued first.
  unfoldable pub flush : Proxy V → List (BioInfo Bio) → Option (Proxy V)
  flush proxy [] = some proxy
  flush proxy (info ∷ infos) = dump_work proxy info >>= λ next. flush next infos

  -- `blgy_prxy_dev_disable` from its test of the dumps on.
  unfoldable pub disable_dumps :
      Proxy V → Option (Dumps V) → Option (Proxy V × List (Option V.File))
  unfolding flush
  disable_dumps proxy none = some (proxy, [])
  disable_dumps proxy (some dumps) = do
    flushed ← flush (record proxy { queued = [] }) proxy.queued
    (dev, closed) ← dev_release flushed.dev flushed.dev.dumps
    some (record flushed { dev = dev }, closed)

  -- `blgy_prxy_dev_disable`, with the files that it closes.
  unfoldable pub disable : Proxy V → Option (Proxy V × List (Option V.File))
  unfolding disable_dumps
  disable proxy =
      disable_dumps (record proxy { dev = record proxy.dev { enabled = false } }) proxy.dev.dumps
