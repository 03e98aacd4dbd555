-- ===== src/Proxy/Logs.antt =====
-- What the dumps of a device hold: each the records of its processor, in the order in which they
-- were dumped.
use biology.Base.{
  ℕ, zero, suc, ◌+◌, ◌^◌, ◌≤◌, ◌<◌, ◌≡◌, refl, sym, ap, subst, ◌∙◌, ◌≢◌, Option, some, List, [],
  ◌∷◌, ◌++◌, ◌==◌, ==_iff, if◌then◌else◌, length, drop, drop-eq_later, append-nil, append_assoc,
  arith,
}
use biology.Base.Errno.{ok}
use biology.Kernel.{Allocator, IsAllocator, Vfs, IsVfs, Pages, IsPages, Ptr, ptr, count}
use biology.Serial.Info.{Schema, Bio, BioInfo}
use biology.Serial.Layout.{record_bytes}
use biology.Serial.Header.{header_bytes}
use biology.Dump.Buffer.{Dump, initial_buf_size, dump_bio, destroy}
use biology.Dump.Init.{length-dump_file_path, dump_file_path, dumps_init_loop, dumps_destroy_loop}
use biology.Dump.Log.{ready, log, InBounds}
use biology.Dump.Session.{all_records, Recordable, init-header_bytes}
use biology.Dump.Total.{dump_bio-logged, destroy-contents}
use biology.Proxy.Requests.{entry, set_entry}

-- The requests of one processor.
unfoldable pub on_cpu : ℕ → List (BioInfo Bio) → List (BioInfo Bio)
on_cpu cpu [] = []
on_cpu cpu (info ∷ infos) = if info.cpu == cpu then info ∷ on_cpu cpu infos else on_cpu cpu infos

on_cpu-append_same :
    (cpu : ℕ) (infos : List (BioInfo Bio)) (info : BioInfo Bio)
    → info.cpu ≡ cpu
    → on_cpu cpu (infos ++ (info ∷ [])) ≡ on_cpu cpu infos ++ (info ∷ [])
unfolding on_cpu
on_cpu-append_same cpu [] info e = rw ((==_iff info.cpu cpu).1 e) refl
on_cpu-append_same cpu (x ∷ infos) info e = rw (on_cpu-append_same cpu infos info e) (ground arith)

on_cpu-append_other :
    (cpu : ℕ) (infos : List (BioInfo Bio)) (info : BioInfo Bio)
    → info.cpu ≢ cpu
    → on_cpu cpu (infos ++ (info ∷ [])) ≡ on_cpu cpu infos
unfolding on_cpu
on_cpu-append_other cpu [] info ne = ground arith
on_cpu-append_other cpu (x ∷ infos) info ne = rw (on_cpu-append_other cpu infos info ne) refl

all_records-append_one :
    (P : Pages) (schema : Schema) (infos : List (BioInfo Bio)) (info : BioInfo Bio)
    → all_records P schema (infos ++ (info ∷ []))
      ≡ all_records P schema infos ++ record_bytes P schema info
unfolding all_records
all_records-append_one P schema [] info = append-nil (record_bytes P schema info)
all_records-append_one P schema (x ∷ infos) info =
    ap (λ t. record_bytes P schema x ++ t) (all_records-append_one P schema infos info)
    ∙ sym (
        append_assoc (record_bytes P schema x) (all_records P schema infos)
          (record_bytes P schema info))

module _ (V : Vfs) (P : Pages) (schema : Schema) (old : ℕ → V.File) where
  -- The bytes of the dump of a processor for a trace.
  abbrev pub trace_bytes : ℕ → List (BioInfo Bio) → List ℕ
  trace_bytes cpu traced = header_bytes schema ++ all_records P schema (on_cpu cpu traced)

  -- One dump: its file and its buffer hold the bytes of the trace, and behind them the file is as it
  -- was when it was opened.
  pub record IsLog (cpu : ℕ) (traced : List (BioInfo Bio)) (dump : Dump V) : Type 0 where
    pub f : V.File
    pub pos : ℕ
    pub block : List ℕ
    pub offset : ℕ
    pub shape : dump ≡ ready V cpu f pos schema block offset
    pub inside : InBounds V f pos block offset
    pub holds : log V f pos block offset ≡ trace_bytes cpu traced
    pub behind : drop pos (V.contents f) ≡ drop pos (V.contents (old cpu))

  -- All dumps, from that of a processor on.
  abbrev pub AreLogs : ℕ → List (BioInfo Bio) → List (Dump V) → Type 0
  AreLogs cpu traced [] = Unit {0}
  AreLogs cpu traced (dump ∷ dumps) = IsLog cpu traced dump × AreLogs (suc cpu) traced dumps

  -- The files of dumps that were destroyed.
  abbrev pub AreFiles : ℕ → List (BioInfo Bio) → List (Option V.File) → Type 0
  AreFiles cpu traced [] = Unit {0}
  AreFiles cpu traced (file ∷ files) =
      ((f : V.File) × (file ≡ some f)
        × (V.contents f
            ≡ trace_bytes cpu traced
              ++ drop (length (trace_bytes cpu traced)) (V.contents (old cpu))))
      × AreFiles (suc cpu) traced files

  IsLog-other :
      (cpu : ℕ) (traced : List (BioInfo Bio)) (dump : Dump V) (info : BioInfo Bio)
      → info.cpu ≢ cpu
      → IsLog cpu traced dump
      → IsLog cpu (traced ++ (info ∷ [])) dump
  IsLog-other cpu traced dump info ne h = record {
    f = h.f;
    pos = h.pos;
    block = h.block;
    offset = h.offset;
    shape = h.shape;
    inside = h.inside;
    holds =
        h.holds
        ∙ ap (λ t. header_bytes schema ++ all_records P schema t)
            (sym (on_cpu-append_other cpu traced info ne));
    behind = h.behind;
  }

  AreLogs-later :
      (cpu : ℕ) (traced : List (BioInfo Bio)) (dumps : List (Dump V)) (info : BioInfo Bio)
      → info.cpu < cpu
      → AreLogs cpu traced dumps
      → AreLogs cpu (traced ++ (info ∷ [])) dumps
  AreLogs-later cpu traced [] info before h = tt
  AreLogs-later cpu traced (dump ∷ dumps) info before (one, more) = (
    IsLog-other cpu traced dump info (λ e. omega arith) one,
    AreLogs-later (suc cpu) traced dumps info (omega arith) more,
  )

module _ (V : Vfs) (A : Allocator) (P : Pages) (L : IsVfs V) (M : IsAllocator A) (I : IsPages P)
    (takes_all : (f : V.File) (off : ℕ) (bytes : List ℕ)
      → (V.iter_write f off bytes).1 ≡ count (length bytes))
    (grows : (old : List ℕ) (n : ℕ)
      → n < 2 ^ 63
      → (block : List ℕ) × (A.krealloc old n ≡ some block))
    (schema : Schema) (old : ℕ → V.File) where
  -- The dumps that are opened hold the header.
  pub dumps_init_loop-AreLogs :
      (filp_open : List ℕ → Ptr V.File) (dir_path path block : List ℕ) (left cpu : ℕ)
      → length dir_path ≤ 4080
      → cpu + left < 2 ^ 32
      → ((i : ℕ) → filp_open (dump_file_path dir_path i) ≡ ptr (old i))
      → A.kmalloc 4096 ≡ some path
      → A.kmalloc initial_buf_size ≡ some block
      → length (header_bytes schema) ≤ initial_buf_size
      → length schema < 2 ^ 32
      → (dumps : List (Dump V)) × (dumps_init_loop V A filp_open schema dir_path left cpu
          ≡ some (ok dumps))
        × AreLogs V P schema old cpu [] dumps
        × (length dumps ≡ left)
  unfolding dumps_init_loop on_cpu all_records
  dumps_init_loop-AreLogs filp_open dir_path path block zero cpu short few opens named granted fits
        small =
      ([], refl, tt, refl)
  dumps_init_loop-AreLogs filp_open dir_path path block (suc left) cpu short few opens named granted
        fits small =
      let (block', start, b, same) =
        init-header_bytes V A M filp_open schema dir_path cpu (old cpu) path block
          (length-dump_file_path dir_path cpu short (omega arith)) (opens cpu) named granted fits
          small in
      let (dumps, rest, logs, sized) =
        dumps_init_loop-AreLogs filp_open dir_path path block left (cpu + 1) short (omega arith)
          opens named granted fits small in
      let next : cpu + 1 ≡ suc cpu = omega arith in
      (
        ready V cpu (old cpu) 0 schema block' (length (header_bytes schema)) ∷ dumps,
        rw start (rw rest refl),
        (
          record {
            f = old cpu;
            pos = 0;
            block = block';
            offset = length (header_bytes schema);
            shape = refl;
            inside = b;
            holds = same ∙ sym (append-nil (header_bytes schema));
            behind = refl;
          },
          subst (λ k. AreLogs V P schema old k [] dumps) next logs,
        ),
        ap suc sized,
      )

  -- A work finds its dump, and adds its record to it and to no other.
  pub dump_bio-AreLogs :
      (traced : List (BioInfo Bio)) (info : BioInfo Bio) (dumps : List (Dump V)) (cpu i : ℕ)
      → Recordable P schema info
      → AreLogs V P schema old cpu traced dumps
      → info.cpu ≡ cpu + i
      → i < length dumps
      → (dump : Dump V) × (dump' : Dump V) × (entry i dumps ≡ some dump)
        × (dump_bio A P dump info ≡ some (dump', ok tt))
        × AreLogs V P schema old cpu (traced ++ (info ∷ [])) (set_entry i dump' dumps)
        × (length (set_entry i dump' dumps) ≡ length dumps)
  unfolding entry set_entry
  dump_bio-AreLogs traced info [] cpu i r h at small = absurd (omega arith)
  dump_bio-AreLogs traced info (dump ∷ dumps) cpu zero r (one, more) at small =
      let (f, pos, block, offset, run, b, longer, forward, behind) =
        dump_bio-logged V A P L M I takes_all grows cpu schema info r one.f one.pos one.block
          one.offset one.inside in
      let same : info.cpu ≡ cpu = omega arith in
      (
        dump,
        ready V cpu f pos schema block offset,
        refl,
        rw one.shape run,
        (
          record {
            f = f;
            pos = pos;
            block = block;
            offset = offset;
            shape = refl;
            inside = b;
            holds =
                longer
                ∙ ap (λ t. t ++ record_bytes P schema info) one.holds
                ∙ append_assoc (header_bytes schema) (all_records P schema (on_cpu cpu traced))
                    (record_bytes P schema info)
                ∙ ap (λ t. header_bytes schema ++ t)
                    (sym (all_records-append_one P schema (on_cpu cpu traced) info)
                      ∙ sym (ap (all_records P schema) (on_cpu-append_same cpu traced info same)));
            behind =
                behind
                ∙ drop-eq_later one.pos pos (V.contents one.f) (V.contents (old cpu)) forward
                    one.behind;
          },
          AreLogs-later V P schema old (suc cpu) traced dumps info (omega arith) more,
        ),
        refl,
      )
  dump_bio-AreLogs traced info (dump ∷ dumps) cpu (suc i) r (one, more) at small =
      let (d, d', found, run, logs, sized) =
        dump_bio-AreLogs traced info dumps (suc cpu) i r more (omega arith) (omega arith) in
      (
        d,
        d',
        found,
        run,
        (IsLog-other V P schema old cpu traced dump info (λ e. omega arith) one, logs),
        ap suc sized,
      )

  -- The dumps that are destroyed leave their bytes in their files.
  pub dumps_destroy_loop-AreFiles :
      (traced : List (BioInfo Bio)) (dumps : List (Dump V)) (cpu : ℕ)
      → AreLogs V P schema old cpu traced dumps
      → (closed : List (Option V.File)) × (dumps_destroy_loop V dumps ≡ some closed)
        × AreFiles V P schema old cpu traced closed
        × (length closed ≡ length dumps)
  unfolding dumps_destroy_loop
  dumps_destroy_loop-AreFiles traced [] cpu h = ([], refl, tt, refl)
  dumps_destroy_loop-AreFiles traced (dump ∷ dumps) cpu (one, more) =
      let (d, f, run, bytes) =
        destroy-contents V A P L M I takes_all grows cpu schema (old cpu) one.f one.pos one.block
          one.offset (trace_bytes V P schema old cpu traced) one.inside one.holds one.behind in
      let (closed, rest, files, sized) = dumps_destroy_loop-AreFiles traced dumps (suc cpu) more in
      (
        some f ∷ closed,
        rw (ap destroy one.shape ∙ run) (rw rest refl),
        ((f, refl, bytes), files),
        ap suc sized,
      )
