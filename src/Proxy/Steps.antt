-- ===== src/Proxy/Steps.antt =====
-- The runs of a device: requests come, their clones end, works of the queue run and the device is
-- enabled and disabled, in any order.
use biology.Base.{ℕ, ◌≡◌, Bool, Option, some, List, [], ◌∷◌, ◌++◌}
use biology.Base.Errno.{Status}
use biology.Kernel.{Allocator, Vfs, Pages, Requests}
use biology.Serial.Info.{Bio, BioInfo}
use biology.Proxy.Device.{Dev, Setting, created_dev, dev_enable}
use biology.Proxy.Requests.{Proxy, submit_bio, end_io, dump_work, disable}

-- The proxy of a device that has just been created.
abbrev pub created : (V : Vfs) → Proxy V
created V = record {
  dev = created_dev V;
  inflight = [];
  queued = [];
  ended = [];
  passed = [];
  traced = [];
}

module _ {V : Vfs} (A : Allocator) (P : Pages) (Q : Requests) (sizeof_bio : ℕ) where
  -- A step that brings no new request.
  pub data Step (s t : Proxy V) : Type 0 where
    clone_ended :
        (before after : List (BioInfo Bio)) (info : BioInfo Bio) (status now : ℕ)
        → s.inflight ≡ before ++ (info ∷ after)
        → end_io (record s { inflight = before ++ after }) info status now ≡ some t
        → Step s t
    work_run :
        (before after : List (BioInfo Bio)) (info : BioInfo Bio)
        → s.queued ≡ before ++ (info ∷ after)
        → dump_work A P (record s { queued = before ++ after }) info ≡ some t
        → Step s t
    device_enabled :
        (E : Setting V) (dump_payload : Bool) (dump_dir : List ℕ) (dev : Dev V) (status : Status)
        → dev_enable A E s.dev dump_payload dump_dir ≡ some (dev, status)
        → t ≡ record s { dev = dev }
        → Step s t
    device_disabled : (closed : List (Option V.File)) → disable A P s ≡ some (t, closed) → Step s t

  -- The states that can be reached from `s`, with the requests that came on the way.
  pub data Run (s : Proxy V) : List Bio → Proxy V → Type 0 where
    here : Run s [] s
    submitted :
        {given : List Bio} {t u : Proxy V}
        → Run s given t
        → (bio : Bio) (cpu now : ℕ) (cloned : Bool)
        → submit_bio A Q sizeof_bio cpu now cloned t bio ≡ some u
        → Run s (bio ∷ given) u
    stepped : {given : List Bio} {t u : Proxy V} → Run s given t → Step t u → Run s given u
