-- ===== src/Control/Counts.antt =====
-- The count of requests in flight, from the device to the library.
use biology.Base.{ℕ, ◌+◌, ◌≤◌, ◌<◌, ◌≡◌, ap, ◌∙◌, some, List, ◌++◌, length, take, replicate, arith}
use biology.Base.Errno.{ok}
use biology.Kernel.{Allocator, Vfs, Pages, Requests, IsRequests}
use biology.Serial.Info.{Bio}
use biology.Proxy.Requests.{Proxy}
use biology.Proxy.Steps.{created, Run}
use biology.Proxy.Sound.{Run-IsSound}
use biology.Control.Show.{inflight_show, show_int, dev_count, dev_count-show_int}
use biology.Control.Sysfs.{call_show, dev_ctl_attr_show, entry_inflight}

-- In every state that a created device reaches, the file "inflight" of the device can be shown, and
-- what the library reads from it is the number of requests that the device holds, in flight at the
-- target or in its queue, if that is below 1000: when the file has the bytes that `show` says, of what
-- it wrote and zeros behind it, and there is memory for a page of four bytes or more.
pub Run-dev_count :
    {V : Vfs} (A : Allocator) (P : Pages) (Q : Requests) (X : IsRequests Q) (sizeof_bio : ℕ)
    (s : Proxy V) (given : List Bio) (L : Allocator) (size zeros : ℕ) (block : List ℕ)
    → Run A P Q sizeof_bio (created V) given s
    → length s.inflight + length s.queued < 1000
    → 4 ≤ size
    → L.kmalloc size ≡ some block
    → (page : List ℕ) × (count : ℕ) × (dev_ctl_attr_show entry_inflight s ≡ some (page, count))
      × (dev_count L size (some (take count (page ++ replicate zeros 0)))
          ≡ some (ok (length s.inflight + length s.queued)))
unfolding dev_ctl_attr_show call_show inflight_show
Run-dev_count A P Q X sizeof_bio s given L size zeros block run few page granted =
    let held : ℕ = length s.inflight + length s.queued in
    let exact : s.dev.bio_inflight ≡ held =
      (Run-IsSound A P Q X (λ v. 0) sizeof_bio s given run).counted ∙ omega arith in
    (
      (show_int held).0,
      (show_int held).1,
      ap (λ n. some (show_int n)) exact,
      dev_count-show_int L held size zeros block few page granted,
    )
