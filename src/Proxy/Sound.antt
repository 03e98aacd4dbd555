-- ===== src/Proxy/Sound.antt =====
-- What holds in every state of a device: no request is lost or ended twice, and the counter of
-- requests in flight says how many the device holds.
use biology.Base.{
  ℕ, ◌%◌, ◌^◌, ◌≡◌, refl, sym, ap, subst, ◌∙◌, Bool, false, Option, none, some, List, [], ◌∷◌, ◌++◌,
  >>=-eq-some, length, length-append, arith,
}
use biology.Base.Errno.{Ret, ok, err, Status}
use biology.Kernel.{Allocator, Vfs, Pages, Requests, IsRequests}
use biology.Serial.Info.{BioVec, Bio, BioInfo}
use biology.Dump.Init.{Dumps, dumps_init, dumps_destroy}
use biology.Dump.Session.{some_injective}
use biology.Proxy.Device.{
  Dev, Setting, schema_for, dev_enabled, dev_allocated, dev_unless, dev_enable, dev_release,
}
use biology.Proxy.Requests.{Proxy, flush, disable_dumps, disable}
use biology.Proxy.Steps.{
  created, Step, clone_ended, work_run, device_enabled, device_disabled, Run, here, submitted,
  stepped,
}
use biology.Proxy.Balance.{
  weigh, weigh_infos, weigh_infos-append, IsSound, submit_bio-IsSound, end_io-IsSound,
  dump_work-IsSound, flush-IsSound,
}

module _ {V : Vfs} (A : Allocator) (P : Pages) (Q : Requests) (X : IsRequests Q)
    (w : List BioVec → ℕ) where
  -- A change of the device that keeps the counter.
  device-IsSound :
      (s : Proxy V) (dev : Dev V) (given : List Bio)
      → dev.bio_inflight ≡ s.dev.bio_inflight
      → IsSound w given [] s
      → IsSound w given [] (record s { dev = dev })
  device-IsSound s dev given same h = record { counted = same ∙ h.counted; conserved = h.conserved }

  dev_allocated-keeps :
      (E : Setting V) (dev dev' : Dev V) (dump_payload : Bool) (dump_dir : List ℕ)
      (block : Option (List ℕ)) (status : Status)
      → dev_allocated A E dev dump_payload dump_dir block ≡ some (dev', status)
      → dev'.bio_inflight ≡ dev.bio_inflight
  unfolding dev_allocated dev_enabled
  dev_allocated-keeps E dev dev' dump_payload dump_dir none status e =
      sym (ap (λ t. t.0.bio_inflight) (some_injective e))
  dev_allocated-keeps E dev dev' dump_payload dump_dir (some block) status e =
      let (made, e1, e2) =
        >>=-eq-some
          (dumps_init V A E.filp_open (schema_for dump_payload) dump_dir E.cpus E.sizeof_dump E.wq)
          _ e in
      sym (ap (λ t. t.0.bio_inflight) (some_injective e2)) ∙ made_keeps made
    where
      made_keeps :
          (made : Ret (Dumps V)) → (dev_enabled A E dev made).0.bio_inflight ≡ dev.bio_inflight
      made_keeps (err e) = refl
      made_keeps (ok dumps) = refl

  dev_unless-keeps :
      (E : Setting V) (dumps : Option (Dumps V)) (dev dev' : Dev V) (dump_payload : Bool)
      (dump_dir : List ℕ) (status : Status)
      → dev_unless A E dumps dev dump_payload dump_dir ≡ some (dev', status)
      → dev'.bio_inflight ≡ dev.bio_inflight
  unfolding dev_unless
  dev_unless-keeps E (some dumps) dev dev' dump_payload dump_dir status e =
      sym (ap (λ t. t.0.bio_inflight) (some_injective e))
  dev_unless-keeps E none dev dev' dump_payload dump_dir status e =
      dev_allocated-keeps E dev dev' dump_payload dump_dir (A.kmalloc E.sizeof_dump) status e

  dev_release-keeps :
      (dev : Dev V) (dumps : Option (Dumps V)) (r : Dev V × List (Option V.File))
      → dev_release dev dumps ≡ some r
      → r.0.bio_inflight ≡ dev.bio_inflight
  unfolding dev_release
  dev_release-keeps dev none r e = sym (ap (λ t. t.0.bio_inflight) (some_injective e))
  dev_release-keeps dev (some dumps) r e =
      let (closed, e1, e2) = >>=-eq-some (dumps_destroy V dumps) _ e in
      sym (ap (λ t. t.0.bio_inflight) (some_injective e2))

  -- A request that leaves a list is in the hands of the caller.
  from_inflight :
      (s : Proxy V) (before after : List (BioInfo Bio)) (info : BioInfo Bio) (given : List Bio)
      → s.inflight ≡ before ++ (info ∷ after)
      → IsSound w given [] s
      → IsSound w given (info ∷ []) (record s { inflight = before ++ after })
  unfolding weigh_infos
  from_inflight s before after info given at h = record {
    counted =
        h.counted
        ∙ ap (λ k. k % 2 ^ 32)
            (omega (
              arith,
              ap {B = ℕ} length at,
              length-append before (info ∷ after),
              length-append before after,
            ));
    conserved = omega (
      arith,
      h.conserved,
      ap (weigh_infos w) at,
      weigh_infos-append w before (info ∷ after),
      weigh_infos-append w before after,
    );
  }

  from_queue :
      (s : Proxy V) (before after : List (BioInfo Bio)) (info : BioInfo Bio) (given : List Bio)
      → s.queued ≡ before ++ (info ∷ after)
      → IsSound w given [] s
      → IsSound w given (info ∷ []) (record s { queued = before ++ after })
  unfolding weigh_infos
  from_queue s before after info given at h = record {
    counted =
        h.counted
        ∙ ap (λ k. k % 2 ^ 32)
            (omega (
              arith,
              ap {B = ℕ} length at,
              length-append before (info ∷ after),
              length-append before after,
            ));
    conserved = omega (
      arith,
      h.conserved,
      ap (weigh_infos w) at,
      weigh_infos-append w before (info ∷ after),
      weigh_infos-append w before after,
    );
  }

  disable_dumps-IsSound :
      (s t : Proxy V) (dumps : Option (Dumps V)) (closed : List (Option V.File)) (given : List Bio)
      → IsSound w given [] s
      → disable_dumps A P s dumps ≡ some (t, closed)
      → IsSound w given [] t
  unfolding disable_dumps weigh_infos
  disable_dumps-IsSound s t none closed given h e =
      subst (IsSound w given []) (ap (λ r. r.0) (some_injective e)) h
  disable_dumps-IsSound s t (some dumps) closed given h e =
      let (flushed, e1, e2) = >>=-eq-some (flush A P (record s { queued = [] }) s.queued) _ e in
      let sound =
        flush-IsSound A P Q X w s.queued (record s { queued = [] }) flushed given
          (record { counted = h.counted ∙ omega arith; conserved = omega (arith, h.conserved) })
          e1 in
      let ((dev, files), e3, e4) = >>=-eq-some (dev_release flushed.dev flushed.dev.dumps) _ e2 in
      subst (IsSound w given []) (ap (λ r. r.0) (some_injective e4)) (
        device-IsSound flushed dev given
          (dev_release-keeps flushed.dev flushed.dev.dumps (dev, files) e3) sound)

  Step-IsSound :
      (sizeof_bio : ℕ) (s t : Proxy V) (given : List Bio)
      → Step A P Q sizeof_bio s t
      → IsSound w given [] s
      → IsSound w given [] t
  unfolding weigh_infos dev_enable disable
  Step-IsSound z s t given (clone_ended before after info status now at run) h =
      end_io-IsSound A P Q X w (record s { inflight = before ++ after }) t info status now given
        (from_inflight s before after info given at h) run
  Step-IsSound z s t given (work_run before after info at run) h =
      dump_work-IsSound A P Q X w (record s { queued = before ++ after }) t info [] given
        (from_queue s before after info given at h) run
  Step-IsSound z s t given (device_enabled E dump_payload dump_dir dev status run e) h =
      subst (IsSound w given []) (sym e) (
        device-IsSound s dev given
          (dev_unless-keeps E s.dev.dumps s.dev dev dump_payload dump_dir status run) h)
  Step-IsSound z s t given (device_disabled closed run) h =
      disable_dumps-IsSound (record s { dev = record s.dev { enabled = false } }) t s.dev.dumps
        closed given (device-IsSound s (record s.dev { enabled = false }) given refl h) run

  -- In every state that a created device reaches, whatever the order in which requests come, clones
  -- end, works run and the device is enabled and disabled: each request that came has been ended,
  -- has been passed to the target, is in flight or is in the queue, and is in one of these only; and
  -- the counter of requests in flight is the number of those that the device holds, as an `int`.
  pub Run-IsSound :
      (sizeof_bio : ℕ) (s : Proxy V) (given : List Bio)
      → Run A P Q sizeof_bio (created V) given s
      → IsSound w given [] s
  unfolding weigh weigh_infos
  Run-IsSound z _ _ here = record { counted = refl; conserved = refl }
  Run-IsSound z s _ (submitted run bio cpu now cloned e) =
      submit_bio-IsSound A P Q X w z cpu now cloned _ s bio _ (Run-IsSound z _ _ run) e
  Run-IsSound z s _ (stepped run step) = Step-IsSound z _ s _ step (Run-IsSound z _ _ run)
