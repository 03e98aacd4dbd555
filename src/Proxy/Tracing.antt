-- ===== src/Proxy/Tracing.antt =====
-- An enabled device at work: requests come, their clones end, and works of the queue run, in any
-- order. What its dumps hold, and that nothing stops it.
use biology.Base.{
  length-append, ℕ, suc, ◌+◌, ◌-◌, ◌%◌, ◌^◌, ◌<◌, ◌≡◌, refl, sym, ap, subst, ◌∙◌, Bool, true, false,
  some, List, [], ◌∷◌, ◌++◌, if◌then◌else◌, length, All, append-nil, append_assoc, arith,
}
use biology.Base.Bytes.{◌-u64◌}
use biology.Kernel.{Allocator, IsAllocator, Vfs, IsVfs, Pages, IsPages, count, Requests, IsRequests}
use biology.Serial.Info.{Schema, Bio, BioInfo}
use biology.Serial.Layout.{IsWhole}
use biology.Dump.Init.{Dumps}
use biology.Proxy.Device.{Dev, next_bio_id, atomic_inc}
use biology.Proxy.Requests.{
  Proxy, info_init, info_fill, set_entry, process_clone, process_bio, submit_bio, end_io, dump_work,
  flush,
}
use biology.Proxy.Logs.{AreLogs, dump_bio-AreLogs}
use biology.Proxy.Whole.{IsRequest, IsWhole-Recordable, info_fill-IsWhole, end_io-IsWhole}

-- A record of a request that the device holds.
abbrev pub IsHeld : ℕ → BioInfo Bio → Type 0
IsHeld cpus info = IsWhole info × (info.cpu < cpus)

pub All-append :
    (P : BioInfo Bio → Type 0) (xs ys : List (BioInfo Bio)) → All P xs → All P ys → All P (xs ++ ys)
All-append P [] ys h k = k
All-append P (x ∷ xs) ys (h, hs) k = (h, All-append P xs ys hs k)

pub All-middle :
    (P : BioInfo Bio → Type 0) (before after : List (BioInfo Bio)) (info : BioInfo Bio)
    → All P (before ++ (info ∷ after))
    → P info × All P (before ++ after)
All-middle P [] after info h = h
All-middle P (x ∷ before) after info (one, more) =
    let (this, rest) = All-middle P before after info more in (this, (one, rest))

module _ (V : Vfs) (P : Pages) (schema : Schema) (old : ℕ → V.File) (cpus : ℕ)
    (working : Bool) where
  -- The state of a device with dumps, enabled or not: there is a dump for each processor, each holds the records that
  -- were given to it, and the records that are still to come are whole.
  pub record IsTracing (s : Proxy V) : Type 0 where
    pub dumps : Dumps V
    pub on : s.dev.enabled ≡ working
    pub present : s.dev.dumps ≡ some dumps
    pub queue : dumps.wq ≡ true
    pub each : length dumps.dumps ≡ cpus
    pub logs : AreLogs V P schema old 0 s.traced dumps.dumps
    pub inflight_held : All (IsHeld cpus) s.inflight
    pub queued_held : All (IsHeld cpus) s.queued
    pub traced_held : All (IsHeld cpus) s.traced

module _ (V : Vfs) (A : Allocator) (P : Pages) (L : IsVfs V) (M : IsAllocator A) (I : IsPages P)
    (takes_all : (f : V.File) (off : ℕ) (bytes : List ℕ)
      → (V.iter_write f off bytes).1 ≡ count (length bytes))
    (grows : (old : List ℕ) (n : ℕ)
      → n < 2 ^ 63
      → (block : List ℕ) × (A.krealloc old n ≡ some block))
    (Q : Requests) (X : IsRequests Q) (sizeof_bio : ℕ) (bio_block : List ℕ)
    (granted : A.kmalloc sizeof_bio ≡ some bio_block) (schema : Schema)
    (few_fields : length schema < 2 ^ 16) (old : ℕ → V.File) (cpus : ℕ) (few_cpus : cpus < 2 ^ 32)
    (working : Bool) where
  abbrev Tracing : Proxy V → Type 0
  Tracing s = IsTracing V P schema old cpus working s

  -- A request is taken, with a clone or without.
  pub submit_bio-IsTracing :
      (s : Proxy V) (bio : Bio) (cpu now : ℕ) (cloned : Bool)
      → working ≡ true
      → Tracing s
      → IsRequest bio
      → cpu < cpus
      → (t : Proxy V) × (submit_bio A Q sizeof_bio cpu now cloned s bio ≡ some t) × Tracing t
  unfolding submit_bio process_bio process_clone next_bio_id
  submit_bio-IsTracing s bio cpu now cloned w h r small = (_, taken, after cloned)
    where
      id : ℕ
      id = atomic_inc s.dev.bio_id_counter

      info : BioInfo Bio
      info = info_fill (info_init id bio) bio cpu (now -u64 s.dev.start_ts)

      dev : Dev V
      dev = record s.dev { bio_id_counter = id }

      taken :
          submit_bio A Q sizeof_bio cpu now cloned s bio
          ≡ some (process_clone A Q (record s { dev = dev }) bio info cloned)
      taken =
          ap
            (λ b.
              if b
              then process_bio A Q sizeof_bio cpu now cloned s bio
              else some (record s { passed = bio ∷ s.passed }))
            (h.on ∙ w)
          ∙ rw granted refl

      after : (b : Bool) → Tracing (process_clone A Q (record s { dev = dev }) bio info b)
      after false = record {
        dumps = h.dumps;
        on = h.on;
        present = h.present;
        queue = h.queue;
        each = h.each;
        logs = h.logs;
        inflight_held = h.inflight_held;
        queued_held = h.queued_held;
        traced_held = h.traced_held;
      }
      after true = record {
        dumps = h.dumps;
        on = h.on;
        present = h.present;
        queue = h.queue;
        each = h.each;
        logs = h.logs;
        inflight_held = (
          (
            info_fill-IsWhole Q X bio id cpu now s.dev.start_ts r (omega arith) (omega arith),
            unfold info_fill in small,
          ),
          h.inflight_held,
        );
        queued_held = h.queued_held;
        traced_held = h.traced_held;
      }

  -- A clone in flight can end, with any status.
  pub end_io-IsTracing :
      (s : Proxy V) (before after : List (BioInfo Bio)) (info : BioInfo Bio) (status now : ℕ)
      → Tracing s
      → s.inflight ≡ before ++ (info ∷ after)
      → status < 2 ^ 8
      → (t : Proxy V) × (end_io (record s { inflight = before ++ after }) info status now ≡ some t)
        × Tracing t
        × (t.inflight ≡ before ++ after)
        × (length t.queued ≡ suc (length s.queued))
  unfolding end_io
  end_io-IsTracing s before after info status now h at small =
      let ((w, cpu), others) =
        All-middle (IsHeld cpus) before after info (subst (All (IsHeld cpus)) at h.inflight_held) in
      let bio : Bio = record info.payload.content { bi_status = status } in
      let done : BioInfo Bio = record info {
        end_ts = now -u64 s.dev.start_ts;
        status = status;
        payload = record { size = info.payload.size; content = bio };
      } in
      (
        record s { inflight = before ++ after; queued = s.queued ++ (done ∷ []) },
        rw h.present (rw h.queue refl),
        record {
          dumps = h.dumps;
          on = h.on;
          present = h.present;
          queue = h.queue;
          each = h.each;
          logs = h.logs;
          inflight_held = others;
          queued_held =
              All-append (IsHeld cpus) s.queued (done ∷ []) h.queued_held
                ((end_io-IsWhole info status now s.dev.start_ts w small, cpu), tt);
          traced_held = h.traced_held;
        },
        refl,
        omega (arith, length-append s.queued (done ∷ [])),
      )

  -- A work finds its dump, whatever it is.
  pub dump_work-IsTracing :
      (s : Proxy V) (info : BioInfo Bio)
      → Tracing s
      → IsHeld cpus info
      → (t : Proxy V) × (dump_work A P s info ≡ some t)
        × Tracing t
        × (t.inflight ≡ s.inflight)
        × (t.queued ≡ s.queued)
        × (t.traced ≡ s.traced ++ (info ∷ []))
  unfolding dump_work
  dump_work-IsTracing s info h (w, cpu) =
      let (dump, dump', found, run, logs, same) =
        dump_bio-AreLogs V A P L M I takes_all grows schema old s.traced info h.dumps.dumps 0
          info.cpu (IsWhole-Recordable P I schema info few_fields w) h.logs (omega arith)
          (omega (arith, h.each)) in
      let dumps : Dumps V = record h.dumps { dumps = set_entry info.cpu dump' h.dumps.dumps } in
      (
        record s {
          dev = record s.dev {
            dumps = some dumps;
            bio_inflight = (s.dev.bio_inflight + 2 ^ 32 - 1) % 2 ^ 32;
          };
          ended = info.payload.content ∷ s.ended;
          traced = s.traced ++ (info ∷ []);
        },
        rw h.present (rw found (rw run refl)),
        record {
          dumps = dumps;
          on = h.on;
          present = refl;
          queue = h.queue;
          each = same ∙ h.each;
          logs = logs;
          inflight_held = h.inflight_held;
          queued_held = h.queued_held;
          traced_held = All-append (IsHeld cpus) s.traced (info ∷ []) h.traced_held ((w, cpu), tt);
        },
        refl,
        refl,
        refl,
      )

  pub flush-IsTracing :
      (infos : List (BioInfo Bio)) (s : Proxy V)
      → Tracing s
      → All (IsHeld cpus) infos
      → (t : Proxy V) × (flush A P s infos ≡ some t)
        × Tracing t
        × (t.inflight ≡ s.inflight)
        × (t.queued ≡ s.queued)
        × (t.traced ≡ s.traced ++ infos)
  unfolding flush
  flush-IsTracing [] s h held = (s, refl, h, refl, refl, sym (append-nil s.traced))
  flush-IsTracing (info ∷ infos) s h (one, more) =
      let (t, run, h1, i1, q1, t1) = dump_work-IsTracing s info h one in
      let (u, runs, h2, i2, q2, t2) = flush-IsTracing infos t h1 more in
      (
        u,
        rw run runs,
        h2,
        i2 ∙ i1,
        q2 ∙ q1,
        t2 ∙ ap (λ k. k ++ infos) t1 ∙ append_assoc s.traced (info ∷ []) infos,
      )
