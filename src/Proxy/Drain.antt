-- ===== src/Proxy/Drain.antt =====
-- An enabled device comes to rest: the requests in flight can end, and the works can run.
use biology.Base.{
  ℕ, ◌+◌, ◌%◌, ◌^◌, ◌<◌, ◌≡◌, refl, ap, subst, ◌∙◌, true, some, List, [], ◌∷◌, length, All, arith,
}
use biology.Kernel.{Allocator, IsAllocator, Vfs, IsVfs, Pages, IsPages, count, Requests, IsRequests}
use biology.Serial.Info.{Schema, Bio, BioInfo, BioVec}
use biology.Proxy.Requests.{Proxy}
use biology.Proxy.Tracing.{IsHeld, IsTracing, end_io-IsTracing, dump_work-IsTracing}
use biology.Proxy.Steps.{created, clone_ended, work_run, Run, here, stepped}
use biology.Proxy.Balance.{weigh, weigh_infos}
use biology.Proxy.Sound.{Run-IsSound}

module _ (V : Vfs) (A : Allocator) (P : Pages) (L : IsVfs V) (M : IsAllocator A) (I : IsPages P)
    (takes_all : (f : V.File) (off : ℕ) (bytes : List ℕ)
      → (V.iter_write f off bytes).1 ≡ count (length bytes))
    (grows : (old : List ℕ) (n : ℕ)
      → n < 2 ^ 63
      → (block : List ℕ) × (A.krealloc old n ≡ some block))
    (Q : Requests) (X : IsRequests Q) (sizeof_bio : ℕ) (bio_block : List ℕ)
    (granted : A.kmalloc sizeof_bio ≡ some bio_block) (schema : Schema)
    (few_fields : length schema < 2 ^ 16) (old : ℕ → V.File) (cpus : ℕ) (few_cpus : cpus < 2 ^ 32)
    (r : Proxy V) (given : List Bio) where
  abbrev Tracing : Proxy V → Type 0
  Tracing s = IsTracing V P schema old cpus true s

  -- Reached from the first state with the requests given, and from the state s with no new one.
  abbrev Reached : Proxy V → Proxy V → Type 0
  Reached s t = Run A P Q sizeof_bio r given t × Run A P Q sizeof_bio s [] t

  clones_end :
      (infos : List (BioInfo Bio)) (b s : Proxy V)
      → s.inflight ≡ infos
      → Tracing s
      → Reached b s
      → (t : Proxy V) × Reached b t × Tracing t × (t.inflight ≡ [])
  clones_end [] b s at h run = (s, run, h, at)
  clones_end (info ∷ infos) b s at h (run, since) =
      let (t, made, k, i, q) =
        end_io-IsTracing V A P L M I takes_all grows Q X sizeof_bio bio_block granted schema
          few_fields old cpus few_cpus true s [] infos info 0 0 h at (omega arith) in
      let step = clone_ended [] infos info 0 0 at made in
      clones_end infos b t i k (stepped run step, stepped since step)

  works_run :
      (infos : List (BioInfo Bio)) (b s : Proxy V)
      → s.queued ≡ infos
      → s.inflight ≡ []
      → Tracing s
      → Reached b s
      → (t : Proxy V) × Reached b t × Tracing t × (t.inflight ≡ []) × (t.queued ≡ [])
  works_run [] b s at none_left h run = (s, run, h, none_left, at)
  works_run (info ∷ infos) b s at none_left h (run, since) =
      let (one, more) = subst (All (IsHeld cpus)) at h.queued_held in
      let (t, made, k, i, q, l) =
        dump_work-IsTracing V A P L M I takes_all grows Q X sizeof_bio bio_block granted schema
          few_fields old cpus few_cpus true (record s { queued = infos }) info
          (record {
            dumps = h.dumps;
            on = h.on;
            present = h.present;
            queue = h.queue;
            each = h.each;
            logs = h.logs;
            inflight_held = h.inflight_held;
            queued_held = more;
            traced_held = h.traced_held;
          })
          one in
      let step = work_run [] infos info at made in
      works_run infos b t q (i ∙ none_left) k (stepped run step, stepped since step)

module _ (V : Vfs) (A : Allocator) (P : Pages) (L : IsVfs V) (M : IsAllocator A) (I : IsPages P)
    (takes_all : (f : V.File) (off : ℕ) (bytes : List ℕ)
      → (V.iter_write f off bytes).1 ≡ count (length bytes))
    (grows : (old : List ℕ) (n : ℕ)
      → n < 2 ^ 63
      → (block : List ℕ) × (A.krealloc old n ≡ some block))
    (Q : Requests) (X : IsRequests Q) (sizeof_bio : ℕ) (bio_block : List ℕ)
    (granted : A.kmalloc sizeof_bio ≡ some bio_block) (schema : Schema)
    (few_fields : length schema < 2 ^ 16) (old : ℕ → V.File) (cpus : ℕ)
    (few_cpus : cpus < 2 ^ 32) where
  -- From every tracing state s that a created device reaches with the requests given, with an
  -- allocator that grants what is asked for and files that take all, a run from s without any new
  -- request leads to a state in which nothing is in flight or in the queue, the counter of requests in
  -- flight is zero, and every request given has been ended or has been passed to the target.
  pub Run-drains :
      (s : Proxy V) (given : List Bio)
      → Run A P Q sizeof_bio (created V) given s
      → IsTracing V P schema old cpus true s
      → (t : Proxy V) × Run A P Q sizeof_bio s [] t
        × (t.inflight ≡ [])
        × (t.queued ≡ [])
        × (t.dev.bio_inflight ≡ 0)
        × ((w : List BioVec → ℕ) → weigh w t.ended + weigh w t.passed ≡ weigh w given)
  unfolding weigh_infos
  Run-drains s given run h =
      let (t, run1, h1, i1) =
        clones_end V A P L M I takes_all grows Q X sizeof_bio bio_block granted schema few_fields
          old cpus few_cpus (created V) given s.inflight s s refl h (run, here) in
      let (u, (run2, since), h2, i2, q2) =
        works_run V A P L M I takes_all grows Q X sizeof_bio bio_block granted schema few_fields old
          cpus few_cpus (created V) given t.queued s t refl i1 h1 run1 in
      let nothing : length u.inflight + length u.queued + 0 ≡ 0 =
        omega (arith, ap {B = ℕ} length i2, ap {B = ℕ} length q2) in
      (
        u,
        since,
        i2,
        q2,
        (Run-IsSound A P Q X (λ v. 0) sizeof_bio u given run2).counted
            ∙ ap (λ k. k % 2 ^ 32) nothing,
        λ w. omega (
          arith,
          (Run-IsSound A P Q X w sizeof_bio u given run2).conserved,
          ap (weigh_infos w) i2,
          ap (weigh_infos w) q2,
        ),
      )
