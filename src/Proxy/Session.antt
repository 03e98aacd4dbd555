-- ===== src/Proxy/Session.antt =====
-- A session of a device: from its enabling, through any work, to its disabling, and the files that it
-- leaves.
use biology.Base.{
  ℕ, ◌-◌, ◌*◌, ◌^◌, ◌≤◌, ◌<◌, ◌≡◌, refl, sym, ap, subst, ◌∙◌, Bool, true, false, Option, none, some,
  List, [], ◌∷◌, ◌++◌, length, All, arith,
}
use biology.Base.Errno.{ok}
use biology.Kernel.{
  Allocator, IsAllocator, Vfs, IsVfs, Pages, IsPages, ptr, count, Requests, IsRequests,
}
use biology.Serial.Info.{Bio, BioInfo}
use biology.Serial.Header.{header_bytes, length-header_bytes}
use biology.Dump.Buffer.{initial_buf_size}
use biology.Dump.Init.{Dumps, dump_file_path, dumps_init, dumps_filled, dumps_ready, dumps_destroy}
use biology.Dump.Session.{some_injective}
use biology.Proxy.Device.{
  Dev, Setting, schema_for, dev_enabled, dev_allocated, dev_unless, dev_enable, dev_release,
}
use biology.Proxy.Requests.{Proxy, submit_bio, end_io, dump_work, disable_dumps, disable}
use biology.Proxy.Logs.{AreFiles, dumps_init_loop-AreLogs, dumps_destroy_loop-AreFiles}
use biology.Proxy.Whole.{IsRequest}
use biology.Proxy.Tracing.{
  IsHeld, IsTracing, All-middle, submit_bio-IsTracing, end_io-IsTracing, dump_work-IsTracing,
  flush-IsTracing,
}

module _ {V : Vfs} (A : Allocator) (P : Pages) (Q : Requests) (sizeof_bio cpus : ℕ) where
  -- What happens to a device while it is enabled, in any order.
  pub data Trace (s : Proxy V) : Proxy V → Type 0 where
    begun : Trace s s
    came :
        {t u : Proxy V}
        → Trace s t
        → (bio : Bio) (cpu now : ℕ) (cloned : Bool) → IsRequest bio
        → cpu < cpus
        → submit_bio A Q sizeof_bio cpu now cloned t bio ≡ some u
        → Trace s u
    clone_done :
        {t u : Proxy V}
        → Trace s t
        → (before after : List (BioInfo Bio)) (info : BioInfo Bio) (status now : ℕ)
        → t.inflight ≡ before ++ (info ∷ after)
        → status < 2 ^ 8
        → end_io (record t { inflight = before ++ after }) info status now ≡ some u
        → Trace s u
    work_done :
        {t u : Proxy V}
        → Trace s t
        → (before after : List (BioInfo Bio)) (info : BioInfo Bio)
        → t.queued ≡ before ++ (info ∷ after)
        → dump_work A P (record t { queued = before ++ after }) info ≡ some u
        → Trace s u

pub few_fields_for : (dump_payload : Bool) → length (schema_for dump_payload) ≤ 9
unfolding schema_for
few_fields_for true = omega arith
few_fields_for false = omega arith

header_fits :
    (dump_payload : Bool) → length (header_bytes (schema_for dump_payload)) ≤ initial_buf_size
header_fits dump_payload =
    omega (arith, length-header_bytes (schema_for dump_payload), few_fields_for dump_payload)

module _ (V : Vfs) (A : Allocator) (P : Pages) (L : IsVfs V) (M : IsAllocator A) (I : IsPages P)
    (takes_all : (f : V.File) (off : ℕ) (bytes : List ℕ)
      → (V.iter_write f off bytes).1 ≡ count (length bytes))
    (grows : (old : List ℕ) (n : ℕ)
      → n < 2 ^ 63
      → (block : List ℕ) × (A.krealloc old n ≡ some block))
    (Q : Requests) (X : IsRequests Q) (sizeof_bio : ℕ) (bio_block : List ℕ)
    (granted : A.kmalloc sizeof_bio ≡ some bio_block) (dump_payload : Bool) (old : ℕ → V.File)
    (cpus : ℕ) (few_cpus : cpus < 2 ^ 32) where
  abbrev Tracing : Proxy V → Type 0
  Tracing s = IsTracing V P (schema_for dump_payload) old cpus true s

  -- Whatever happens to an enabled device, its dumps hold what was given to them.
  pub Trace-IsTracing : (s t : Proxy V) → Tracing s → Trace A P Q sizeof_bio cpus s t → Tracing t
  Trace-IsTracing s _ h begun = h
  Trace-IsTracing s t h (came run bio cpu now cloned r small e) =
      let (u, made, k) =
        submit_bio-IsTracing V A P L M I takes_all grows Q X sizeof_bio bio_block granted
          (schema_for dump_payload) (omega (arith, few_fields_for dump_payload)) old cpus few_cpus
          true _ bio cpu now cloned refl (Trace-IsTracing s _ h run) r small in
      subst Tracing (some_injective (sym made ∙ e)) k
  Trace-IsTracing s t h (clone_done run before after info status now at small e) =
      let (u, made, k, i, q) =
        end_io-IsTracing V A P L M I takes_all grows Q X sizeof_bio bio_block granted
          (schema_for dump_payload) (omega (arith, few_fields_for dump_payload)) old cpus few_cpus
          true _ before after info status now (Trace-IsTracing s _ h run) at small in
      subst Tracing (some_injective (sym made ∙ e)) k
  Trace-IsTracing s t h (work_done {t = mid} run before after info at e) =
      let k = Trace-IsTracing s _ h run in
      let (one, others) =
        All-middle (IsHeld cpus) before after info (subst (All (IsHeld cpus)) at k.queued_held) in
      let (u, made, k', i, q, l) =
        dump_work-IsTracing V A P L M I takes_all grows Q X sizeof_bio bio_block granted
          (schema_for dump_payload) (omega (arith, few_fields_for dump_payload)) old cpus few_cpus
          true (record mid { queued = before ++ after }) info
          (record {
            dumps = k.dumps;
            on = k.on;
            present = k.present;
            queue = k.queue;
            each = k.each;
            logs = k.logs;
            inflight_held = k.inflight_held;
            queued_held = others;
            traced_held = k.traced_held;
          })
          one in
      subst Tracing (some_injective (sym made ∙ e)) k'

  -- A device without dumps is enabled, and begins a trace.
  pub dev_enable-IsTracing :
      (s : Proxy V) (E : Setting V) (dump_dir dumps_block array path block : List ℕ)
      → s.dev.dumps ≡ none
      → All (IsHeld cpus) s.inflight
      → All (IsHeld cpus) s.queued
      → E.cpus ≡ cpus
      → E.wq ≡ true
      → length dump_dir ≤ 4080
      → ((i : ℕ) → E.filp_open (dump_file_path dump_dir i) ≡ ptr (old i))
      → A.kmalloc E.sizeof_dump ≡ some dumps_block
      → A.kmalloc (E.sizeof_dump * E.cpus) ≡ some array
      → A.kmalloc 4096 ≡ some path
      → A.kmalloc initial_buf_size ≡ some block
      → (dev : Dev V) × (dev_enable A E s.dev dump_payload dump_dir ≡ some (dev, ok tt))
        × Tracing (record s { dev = dev; traced = [] })
  unfolding dev_enable dev_unless dev_allocated dumps_init dumps_filled dumps_ready dev_enabled
  dev_enable-IsTracing s E dump_dir dumps_block array path block off ih qh n wq short opens g1 g2 g3
        g4 =
      let (dumps, run, logs, sized) =
        dumps_init_loop-AreLogs V A P L M I takes_all grows (schema_for dump_payload) old
          E.filp_open dump_dir path block E.cpus 0 short (omega arith) opens g3 g4
          (header_fits dump_payload) (omega (arith, few_fields_for dump_payload)) in
      let made : Dumps V = record { cpus_num = E.cpus; dumps = dumps; wq = E.wq } in
      (
        record s.dev {
          enabled = true;
          dumps = some made;
          bio_id_counter = 2 ^ 32 - 1;
          start_ts = E.now;
        },
        rw (off, g1, g2) (rw run refl),
        record {
          dumps = made;
          on = refl;
          present = refl;
          queue = wq;
          each = sized ∙ n;
          logs = logs;
          inflight_held = ih;
          queued_held = qh;
          traced_held = tt;
        },
      )

  -- A device that is disabled runs its queue to the end, and closes its files.
  pub disable-AreFiles :
      (s : Proxy V)
      → Tracing s
      → (t : Proxy V) × (closed : List (Option V.File)) × (disable A P s ≡ some (t, closed))
        × AreFiles V P (schema_for dump_payload) old 0 (s.traced ++ s.queued) closed
        × (length closed ≡ cpus)
        × (t.queued ≡ [])
        × (t.inflight ≡ s.inflight)
  unfolding disable disable_dumps dev_release dumps_destroy
  disable-AreFiles s h =
      let (t, run, k, i, q, l) =
        flush-IsTracing V A P L M I takes_all grows Q X sizeof_bio bio_block granted
          (schema_for dump_payload) (omega (arith, few_fields_for dump_payload)) old cpus few_cpus
          false s.queued (record s { dev = record s.dev { enabled = false }; queued = [] })
          (record {
            dumps = h.dumps;
            on = refl;
            present = h.present;
            queue = h.queue;
            each = h.each;
            logs = h.logs;
            inflight_held = h.inflight_held;
            queued_held = tt;
            traced_held = h.traced_held;
          })
          h.queued_held in
      let (closed, closes, files, sized) =
        dumps_destroy_loop-AreFiles V A P L M I takes_all grows (schema_for dump_payload) old
          t.traced k.dumps.dumps 0 k.logs in
      let released : dev_release t.dev t.dev.dumps ≡ some (record t.dev { dumps = none }, closed) =
        ap (dev_release t.dev) k.present ∙ rw k.queue (rw closes refl) in
      (
        record t { dev = record t.dev { dumps = none } },
        closed,
        ap (disable_dumps A P (record s { dev = record s.dev { enabled = false } })) h.present
            ∙ rw run (rw released refl),
        subst (λ l. AreFiles V P (schema_for dump_payload) old 0 l closed) l files,
        sized ∙ k.each,
        q,
        i,
      )

  -- A whole session, over a device without dumps, with a directory of up to 4080 letters, an
  -- allocator that grants what is asked for, a work queue and files that take all: once the device was
  -- enabled, and after whatever requests whose segments are as long as they are, ends of clones and
  -- runs of works, in any order, it can be disabled, which closes a file for each processor. The file
  -- holds the header of the schema, the records of the requests of that processor in the order in
  -- which they were given to the dumps, and behind them what was there when it was opened.
  pub session-AreFiles :
      (s : Proxy V) (E : Setting V) (dump_dir dumps_block array path block : List ℕ)
      → s.dev.dumps ≡ none
      → All (IsHeld cpus) s.inflight
      → All (IsHeld cpus) s.queued
      → E.cpus ≡ cpus
      → E.wq ≡ true
      → length dump_dir ≤ 4080
      → ((i : ℕ) → E.filp_open (dump_file_path dump_dir i) ≡ ptr (old i))
      → A.kmalloc E.sizeof_dump ≡ some dumps_block
      → A.kmalloc (E.sizeof_dump * E.cpus) ≡ some array
      → A.kmalloc 4096 ≡ some path
      → A.kmalloc initial_buf_size ≡ some block
      → (dev : Dev V) → dev_enable A E s.dev dump_payload dump_dir ≡ some (dev, ok tt)
      → (t : Proxy V) → Trace A P Q sizeof_bio cpus (record s { dev = dev; traced = [] }) t
      → (u : Proxy V) × (closed : List (Option V.File)) × (disable A P t ≡ some (u, closed))
        × AreFiles V P (schema_for dump_payload) old 0 (t.traced ++ t.queued) closed
        × (length closed ≡ cpus)
  session-AreFiles s E dump_dir dumps_block array path block off ih qh n wq short opens g1 g2 g3 g4
        dev e t trace =
      let (dev', run, h) =
        dev_enable-IsTracing s E dump_dir dumps_block array path block off ih qh n wq short opens g1
          g2 g3 g4 in
      let same : dev' ≡ dev = ap (λ r. r.0) (some_injective (sym run ∙ e)) in
      let h' = subst (λ d. Tracing (record s { dev = d; traced = [] })) same h in
      let (u, closed, ends, files, sized, q, i) =
        disable-AreFiles t (Trace-IsTracing (record s { dev = dev; traced = [] }) t h' trace) in
      (u, closed, ends, files, sized)
