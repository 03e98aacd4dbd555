-- ===== src/Proxy/Balance.antt =====
-- What each step on a request keeps of the balance of a device: no request is lost or ended twice,
-- and the counter of requests in flight says how many the device holds.
use biology.Base.{
  length-append, ℕ, suc, ◌+◌, ◌%◌, ◌^◌, ◌≡◌, subst, ap, ◌∙◌, Bool, true, false, none, some, List,
  [], ◌∷◌, ◌++◌, >>=-eq-some, length, arith,
}
use biology.Base.Bytes.{◌-u64◌}
use biology.Kernel.{Allocator, Vfs, Pages, Requests, IsRequests}
use biology.Serial.Info.{BioVec, Bio, BioInfo}
use biology.Dump.Buffer.{dump_bio}
use biology.Dump.Session.{some_injective}
use biology.Gen.Held.{if-split}
use biology.Proxy.Device.{atomic_dec, next_bio_id}
use biology.Proxy.Requests.{
  Proxy, info_init, info_fill, entry, process_clone, process_bio, submit_bio, end_io, dump_work,
  flush,
}

-- The sum of a weight over the requests of a list, each given by its segments, which the proxy does
-- not change. Two lists with the same sum for every weight hold the same requests.
unfoldable pub weigh : (List BioVec → ℕ) → List Bio → ℕ
weigh w [] = 0
weigh w (bio ∷ bios) = w bio.bi_io_vec + weigh w bios

unfoldable pub weigh_infos : (List BioVec → ℕ) → List (BioInfo Bio) → ℕ
weigh_infos w [] = 0
weigh_infos w (info ∷ infos) = w info.payload.content.bi_io_vec + weigh_infos w infos

pub weigh_infos-append :
    (w : List BioVec → ℕ) (xs ys : List (BioInfo Bio))
    → weigh_infos w (xs ++ ys) ≡ weigh_infos w xs + weigh_infos w ys
unfolding weigh_infos
weigh_infos-append w [] ys = omega arith
weigh_infos-append w (x ∷ xs) ys = omega (arith, weigh_infos-append w xs ys)

dec_counts : (n a b : ℕ) → n ≡ a % 2 ^ 32 → a ≡ suc b → atomic_dec n ≡ b % 2 ^ 32
dec_counts n a b e k = omega arith

-- `extra` requests are in the hands of a caller, besides those of the state.
pub record IsSound {V : Vfs} (w : List BioVec → ℕ) (given : List Bio) (extra : List (BioInfo Bio))
    (s : Proxy V) : Type 0 where
  -- The counter is that of the requests in flight and in the queue, as an `int`.
  pub counted : s.dev.bio_inflight ≡ (length s.inflight + length s.queued + length extra) % 2 ^ 32
  -- Every request that came is in one place.
  pub conserved :
      weigh w s.ended
        + weigh w s.passed
        + weigh_infos w s.inflight
        + weigh_infos w s.queued
        + weigh_infos w extra
      ≡ weigh w given

module _ {V : Vfs} (A : Allocator) (P : Pages) (Q : Requests) (X : IsRequests Q)
    (w : List BioVec → ℕ) where
  pub submit_bio-IsSound :
      (sizeof_bio cpu now : ℕ) (cloned : Bool) (s t : Proxy V) (bio : Bio) (given : List Bio)
      → IsSound w given [] s
      → submit_bio A Q sizeof_bio cpu now cloned s bio ≡ some t
      → IsSound w (bio ∷ given) [] t
  unfolding submit_bio process_bio process_clone weigh weigh_infos info_init info_fill next_bio_id
  submit_bio-IsSound sizeof_bio cpu now cloned s t bio given h e =
      if-split (IsSound w (bio ∷ given) [] t) s.dev.enabled
        (process_bio A Q sizeof_bio cpu now cloned s bio)
        (some (record s { passed = bio ∷ s.passed })) e
        (λ on run. processed cloned (>>=-eq-some (A.kmalloc sizeof_bio) _ run).2)
        (λ off run.
          subst (IsSound w (bio ∷ given) []) (some_injective run)
            (record { counted = h.counted; conserved = omega (arith, h.conserved) }))
    where
      processed :
          (b : Bool)
          → some (
              process_clone A Q
                (record s { dev = (next_bio_id s.dev).0 })
                bio
                (info_fill (info_init (next_bio_id s.dev).1 bio) bio cpu (now -u64 s.dev.start_ts))
                b)
            ≡ some t
          → IsSound w (bio ∷ given) [] t
      processed false run =
          subst (IsSound w (bio ∷ given) []) (some_injective run)
            (record { counted = h.counted; conserved = omega (arith, h.conserved) })
      processed true run = subst (IsSound w (bio ∷ given) []) (some_injective run) (record {
        counted = omega (arith, h.counted);
        conserved = rw (X.same_segments bio bio.bi_size) (omega (arith, h.conserved));
      })

  pub end_io-IsSound :
      (s t : Proxy V) (info : BioInfo Bio) (status now : ℕ) (given : List Bio)
      → IsSound w given (info ∷ []) s
      → end_io s info status now ≡ some t
      → IsSound w given [] t
  unfolding end_io weigh_infos
  end_io-IsSound s t info status now given h e =
      let (dumps, e1, e2) = >>=-eq-some s.dev.dumps _ e in
      let bio : Bio = record info.payload.content { bi_status = status } in
      let done : BioInfo Bio = record info {
        end_ts = now -u64 s.dev.start_ts;
        status = status;
        payload = record { size = info.payload.size; content = bio };
      } in
      if-split (IsSound w given [] t) dumps.wq _ none e2
        (λ queue run. subst (IsSound w given []) (some_injective run) (record {
          counted =
              h.counted ∙ ap (λ k. k % 2 ^ 32) (omega (arith, length-append s.queued (done ∷ [])));
          conserved = omega (arith, h.conserved, weigh_infos-append w s.queued (done ∷ []));
        }))
        (λ null run. absurd (cc run))

  pub dump_work-IsSound :
      (s t : Proxy V) (info : BioInfo Bio) (extra : List (BioInfo Bio)) (given : List Bio)
      → IsSound w given (info ∷ extra) s
      → dump_work A P s info ≡ some t
      → IsSound w given extra t
  unfolding dump_work weigh weigh_infos
  dump_work-IsSound s t info extra given h e =
      let (dumps, e1, e2) = >>=-eq-some s.dev.dumps _ e in
      let (dump, e3, e4) = >>=-eq-some (entry info.cpu dumps.dumps) _ e2 in
      let (r, e5, e6) = >>=-eq-some (dump_bio A P dump info) _ e4 in
      subst (IsSound w given extra) (some_injective e6) (record {
        counted =
            dec_counts s.dev.bio_inflight (length s.inflight + length s.queued + suc (length extra))
              (length s.inflight + length s.queued + length extra) h.counted (omega arith);
        conserved = omega (arith, h.conserved);
      })

  pub flush-IsSound :
      (infos : List (BioInfo Bio)) (s t : Proxy V) (given : List Bio)
      → IsSound w given infos s
      → flush A P s infos ≡ some t
      → IsSound w given [] t
  unfolding flush
  flush-IsSound [] s t given h e = subst (IsSound w given []) (some_injective e) h
  flush-IsSound (info ∷ infos) s t given h e =
      let (next, run, rest) = >>=-eq-some (dump_work A P s info) _ e in
      flush-IsSound infos next t given (dump_work-IsSound s next info infos given h run) rest
