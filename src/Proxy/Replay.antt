-- ===== src/Proxy/Replay.antt =====
-- From a session of the proxy to the generator and to to-json.
use biology.Base.{
  ℕ, zero, suc, ◌+◌, ◌*◌, ◌^◌, ◌<◌, ◌≡◌, sym, ap, subst, ◌∙◌, Bool, true, Option, some, List, [],
  ◌∷◌, ◌++◌, ◌==◌, Bool-cases, inl, inr, length, drop, drop_all, All, append-nil, length-append,
  arith,
}
use biology.Base.Errno.{ok}
use biology.Kernel.{
  Allocator, IsAllocator, Vfs, IsVfs, Pages, IsPages, ptr, count, Source, IsSource, Blocks,
  Requests, IsRequests,
}
use biology.Serial.Info.{Schema, Bio, BioInfo}
use biology.Serial.Decode.{Block}
use biology.Serial.Header.{header_bytes, length-header_bytes}
use biology.Serial.Layout.{IsWhole}
use biology.Dump.Session.{all_records, Recordable, some_injective}
use biology.Parser.State.{Parser, parser_init}
use biology.Parser.Window.{Grows}
use biology.Gen.Worker.{Group, kref_put}
use biology.Gen.Replay.{replay, requests}
use biology.Gen.EndToEnd.{replay-dump}
use biology.Proxy.Device.{schema_for}
use biology.Proxy.Requests.{Proxy, entry, disable}
use biology.Proxy.Logs.{on_cpu, trace_bytes, AreFiles}
use biology.Proxy.Whole.{IsWhole-Recordable}
use biology.Proxy.Tracing.{IsHeld, IsTracing, All-append}
use biology.Proxy.Session.{few_fields_for, disable-AreFiles}
use biology.Json.Parse.{prints, parse_dump_file}
use biology.Json.Prints.{texts, first_after, parse_dump_file-all_records}

on_cpu-IsHeld :
    (cpus cpu : ℕ) (infos : List (BioInfo Bio))
    → All (IsHeld cpus) infos
    → All (IsHeld cpus) (on_cpu cpu infos)
unfolding on_cpu
on_cpu-IsHeld cpus cpu [] h = tt
on_cpu-IsHeld cpus cpu (info ∷ infos) (one, more) = elim (Bool-cases (info.cpu == cpu)) [
  | inl same ↦ rw same (one, on_cpu-IsHeld cpus cpu infos more)
  | inr other ↦ rw other (on_cpu-IsHeld cpus cpu infos more)
]

held-IsWhole : (cpus : ℕ) (infos : List (BioInfo Bio)) → All (IsHeld cpus) infos → All IsWhole infos
held-IsWhole cpus [] h = tt
held-IsWhole cpus (info ∷ infos) ((w, c), more) = (w, held-IsWhole cpus infos more)

whole-Recordable :
    (P : Pages) (I : IsPages P) (schema : Schema) (infos : List (BioInfo Bio))
    → length schema < 2 ^ 16
    → All IsWhole infos
    → All (Recordable P schema) infos
whole-Recordable P I schema [] few h = tt
whole-Recordable P I schema (info ∷ infos) few (w, more) =
    (IsWhole-Recordable P I schema info few w, whole-Recordable P I schema infos few more)

AreFiles-entry :
    (V : Vfs) (P : Pages) (schema : Schema) (old : ℕ → V.File) (traced : List (BioInfo Bio))
    (closed : List (Option V.File)) (cpu i : ℕ) (f : V.File)
    → AreFiles V P schema old cpu traced closed
    → entry i closed ≡ some (some f)
    → V.contents f
      ≡ trace_bytes V P schema old (cpu + i) traced
        ++ drop (length (trace_bytes V P schema old (cpu + i) traced)) (V.contents (old (cpu + i)))
unfolding entry
AreFiles-entry V P schema old traced [] cpu i f h e = absurd (cc e)
AreFiles-entry V P schema old traced (file ∷ closed) cpu zero f ((f', is, bytes), more) e =
    let same : f' ≡ f = some_injective (sym is ∙ some_injective e) in
    let here : cpu ≡ cpu + 0 = omega arith in
    subst
      (λ k.
        V.contents f
        ≡ trace_bytes V P schema old k traced
          ++ drop (length (trace_bytes V P schema old k traced)) (V.contents (old k)))
      here
      (subst
        (λ g.
          V.contents g
          ≡ trace_bytes V P schema old cpu traced
            ++ drop (length (trace_bytes V P schema old cpu traced)) (V.contents (old cpu)))
        same bytes)
AreFiles-entry V P schema old traced (file ∷ closed) cpu (suc i) f (one, more) e =
    let next : suc cpu + i ≡ cpu + suc i = omega arith in
    subst
      (λ k.
        V.contents f
        ≡ trace_bytes V P schema old k traced
          ++ drop (length (trace_bytes V P schema old k traced)) (V.contents (old k)))
      next (AreFiles-entry V P schema old traced closed (suc cpu) i f more e)

-- Every processor has its file.
pub AreFiles-some :
    (V : Vfs) (P : Pages) (schema : Schema) (old : ℕ → V.File) (traced : List (BioInfo Bio))
    (closed : List (Option V.File)) (cpu i : ℕ)
    → AreFiles V P schema old cpu traced closed
    → i < length closed
    → (f : V.File) × (entry i closed ≡ some (some f))
unfolding entry
AreFiles-some V P schema old traced [] cpu i h small = absurd (omega arith)
AreFiles-some V P schema old traced (file ∷ closed) cpu zero ((f, is, bytes), more) small =
    (f, ap some is)
AreFiles-some V P schema old traced (file ∷ closed) cpu (suc i) (one, more) small =
    AreFiles-some V P schema old traced closed (suc cpu) i more (omega arith)

module _ (V : Vfs) (A : Allocator) (P : Pages) (L : IsVfs V) (M : IsAllocator A) (I : IsPages P)
    (takes_all : (f : V.File) (off : ℕ) (bytes : List ℕ)
      → (V.iter_write f off bytes).1 ≡ count (length bytes))
    (grows : (old : List ℕ) (n : ℕ)
      → n < 2 ^ 63
      → (block : List ℕ) × (A.krealloc old n ≡ some block))
    (Q : Requests) (X : IsRequests Q) (sizeof_bio : ℕ) (bio_block : List ℕ)
    (granted : A.kmalloc sizeof_bio ≡ some bio_block) (dump_payload : Bool) (old : ℕ → V.File)
    (cpus : ℕ) (few_cpus : cpus < 2 ^ 32) (fresh_files : (i : ℕ) → V.contents (old i) ≡ []) where
  -- The file of a processor that a session leaves, where it was empty when it was opened.
  pub closed_file :
      (s u : Proxy V) (closed : List (Option V.File)) (i : ℕ) (f : V.File)
      → IsTracing V P (schema_for dump_payload) old cpus true s
      → disable A P s ≡ some (u, closed)
      → entry i closed ≡ some (some f)
      → (V.contents f
          ≡ header_bytes (schema_for dump_payload)
            ++ all_records P (schema_for dump_payload) (on_cpu i (s.traced ++ s.queued)))
        × All IsWhole (on_cpu i (s.traced ++ s.queued))
  closed_file s u closed i f h run at =
      let (u', closed', run', files, sized, q, k) =
        disable-AreFiles V A P L M I takes_all grows Q X sizeof_bio bio_block granted dump_payload
          old cpus few_cpus s h in
      let same : closed' ≡ closed = ap (λ r. r.1) (some_injective (sym run' ∙ run)) in
      let infos = s.traced ++ s.queued in
      let schema = schema_for dump_payload in
      let bytes = trace_bytes V P schema old i infos in
      let from_zero : 0 + i ≡ i = omega arith in
      (
        subst
              (λ k.
                V.contents f
                ≡ trace_bytes V P schema old k infos
                  ++ drop (length (trace_bytes V P schema old k infos)) (V.contents (old k)))
              from_zero
              (AreFiles-entry V P schema old infos closed 0 i f
                (subst (λ c. AreFiles V P schema old 0 infos c) same files) at)
            ∙ ap (λ t. bytes ++ t)
                (drop_all (length bytes) (V.contents (old i))
                  (omega (arith, ap {B = ℕ} length (fresh_files i))))
            ∙ append-nil bytes,
        held-IsWhole cpus (on_cpu i infos) (
            on_cpu-IsHeld cpus i infos
              (All-append (IsHeld cpus) s.traced s.queued h.traced_held h.queued_held)),
      )

  -- A device is disabled that traced whole requests into files which were empty, on a file system that
  -- takes all and with memory for all. What the generator reads from the file of a processor are the requests of
  -- that processor, in the order in which they were dumped: on a machine with memory for all it opens
  -- the file, submits the request of each record, each with its delay, and ends without an error; and
  -- to-json prints of the same bytes the same requests in the same order.
  pub session-replay :
      (s u : Proxy V) (closed : List (Option V.File)) (i : ℕ) (file : V.File) (B : Blocks)
      (fresh : ℕ → List ℕ) (G : Grows A) (S : Source) (R : IsSource S) (f : S.File)
      (cpu start_ts : ℕ) (group group' : Group) (nows : List ℕ) (to : BioInfo Block) (first : Bool)
      → IsTracing V P (schema_for dump_payload) old cpus true s
      → disable A P s ≡ some (u, closed)
      → entry i closed ≡ some (some file)
      → ((op : ℕ) → B.bio_alloc op ≡ true)
      → ((buf : List ℕ) (n : ℕ) → B.bio_add_page buf n ≡ n)
      → ((n : ℕ) → A.kmalloc n ≡ some (fresh n))
      → S.contents f ≡ V.contents file
      → length (V.contents file) < 2 ^ 64
      → group.active ≡ true
      → kref_put group ≡ some group'
      → length nows ≡ length (on_cpu i (s.traced ++ s.queued)) + 1
      → let infos = on_cpu i (s.traced ++ s.queued) in
        (parser : Parser S) × (parser_init A (ptr f) ≡ some (parser, ok tt))
        × (replay B A group (record { cpu = cpu; start_ts = start_ts; parser = parser }) nows
            ≡ some (
              group',
              requests fresh P (schema_for dump_payload) start_ts infos nows,
              some (ok tt),
            ))
        × (parse_dump_file A to (some (V.contents file)) first
            ≡ prints (texts infos first) (first_after infos first))
  session-replay s u closed i file B fresh G S R f cpu start_ts group group' nows to first h run at
        allocates adds grants same small active put reads =
      let schema = schema_for dump_payload in
      let infos = on_cpu i (s.traced ++ s.queued) in
      let head = header_bytes schema in
      let records = all_records P schema infos in
      let (bytes, whole) = closed_file s u closed i file h run at in
      let few = few_fields_for dump_payload in
      let (parser, opened, replayed) =
        replay-dump B A fresh allocates adds grants S R M G P I schema f cpu start_ts group group'
          infos nows [] active put (whole-Recordable P I schema infos (omega (arith, few)) whole)
          reads (same ∙ bytes ∙ ap (λ t. head ++ t) (sym (append-nil records)))
          (omega (arith, few, length-header_bytes schema)) (omega arith) in
      (
        parser,
        opened,
        replayed,
        ap (λ b. parse_dump_file A to (some b) first) bytes
            ∙ parse_dump_file-all_records P I dump_payload A (fresh (8 * (length schema + 1))) to
                infos first (grants (8 * (length schema + 1))) whole
                (omega (arith, ap {B = ℕ} length bytes, length-append head records, small)),
      )
