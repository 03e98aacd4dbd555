-- ===== src/Proxy/Race.antt =====
-- What is left of a device that was disabled while requests were in flight.
use biology.Base.{
  ℕ, ◌≡◌, refl, sym, ap, ◌∙◌, false, Option, none, some, List, [], ◌∷◌, ◌++◌, >>=-eq-some,
}
use biology.Kernel.{Allocator, Vfs, Pages}
use biology.Serial.Info.{Bio, BioInfo}
use biology.Dump.Buffer.{dump_bio}
use biology.Dump.Init.{Dumps, dumps_destroy}
use biology.Dump.Session.{some_injective}
use biology.Proxy.Device.{Dev, dev_release}
use biology.Proxy.Requests.{Proxy, entry, end_io, dump_work, flush, disable_dumps, disable}

module _ {V : Vfs} (A : Allocator) (P : Pages) where
  dump_work-inflight :
      (s t : Proxy V) (info : BioInfo Bio) → dump_work A P s info ≡ some t → t.inflight ≡ s.inflight
  unfolding dump_work
  dump_work-inflight s t info e =
      let (dumps, e1, e2) = >>=-eq-some s.dev.dumps _ e in
      let (dump, e3, e4) = >>=-eq-some (entry info.cpu dumps.dumps) _ e2 in
      let (r, e5, e6) = >>=-eq-some (dump_bio A P dump info) _ e4 in
      sym (ap (λ p. p.inflight) (some_injective e6))

  flush-inflight :
      (infos : List (BioInfo Bio)) (s t : Proxy V)
      → flush A P s infos ≡ some t
      → t.inflight ≡ s.inflight
  unfolding flush
  flush-inflight [] s t e = sym (ap (λ p. p.inflight) (some_injective e))
  flush-inflight (info ∷ infos) s t e =
      let (next, run, rest) = >>=-eq-some (dump_work A P s info) _ e in
      flush-inflight infos next t rest ∙ dump_work-inflight s next info run

  dev_release-none :
      (dev : Dev V) (dumps : Option (Dumps V)) (r : Dev V × List (Option V.File))
      → dev.dumps ≡ dumps
      → dev_release dev dumps ≡ some r
      → r.0.dumps ≡ none
  unfolding dev_release
  dev_release-none dev none r same e = sym (ap (λ t. t.0.dumps) (some_injective e)) ∙ same
  dev_release-none dev (some dumps) r same e =
      let (closed, e1, e2) = >>=-eq-some (dumps_destroy V dumps) _ e in
      sym (ap (λ t. t.0.dumps) (some_injective e2))

  disable_dumps-none :
      (s t : Proxy V) (dumps : Option (Dumps V)) (closed : List (Option V.File))
      → s.dev.dumps ≡ dumps
      → disable_dumps A P s dumps ≡ some (t, closed)
      → (t.inflight ≡ s.inflight) × (t.dev.dumps ≡ none)
  unfolding disable_dumps
  disable_dumps-none s t none closed same e =
      let back = sym (ap (λ r. r.0) (some_injective e)) in
      (ap (λ p. p.inflight) back, ap (λ p. p.dev.dumps) back ∙ same)
  disable_dumps-none s t (some dumps) closed same e =
      let (flushed, e1, e2) = >>=-eq-some (flush A P (record s { queued = [] }) s.queued) _ e in
      let (r, e3, e4) = >>=-eq-some (dev_release flushed.dev flushed.dev.dumps) _ e2 in
      let back = sym (ap (λ r. r.0) (some_injective e4)) in
      (
        ap (λ p. p.inflight) back ∙ flush-inflight s.queued (record s { queued = [] }) flushed e1,
        ap (λ p. p.dev.dumps) back ∙ dev_release-none flushed.dev flushed.dev.dumps r refl e3,
      )

  -- A request in flight while its device is disabled stays in flight, but the dumps are gone: when its
  -- clone ends before the device is enabled again, that is a fault.
  pub disable-end_io :
      (s t : Proxy V) (closed : List (Option V.File)) (before after : List (BioInfo Bio))
      (info : BioInfo Bio) (status now : ℕ)
      → s.inflight ≡ before ++ (info ∷ after)
      → disable A P s ≡ some (t, closed)
      → (t.inflight ≡ before ++ (info ∷ after))
        × (end_io (record t { inflight = before ++ after }) info status now ≡ none)
  unfolding disable end_io
  disable-end_io s t closed before after info status now at e =
      let (i, d) =
        disable_dumps-none (record s { dev = record s.dev { enabled = false } }) t s.dev.dumps
          closed refl e in
      (i ∙ at, rw d refl)
