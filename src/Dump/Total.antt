-- ===== src/Dump/Total.antt =====
-- A whole session on a file system that takes every write and with memory for every buffer.
use biology.Base.{
  none, ℕ, zero, suc, ◌+◌, ◌-◌, ◌^◌, ◌≤◌, ◌<◌, ◌≡◌, refl, sym, ap, subst, ◌∙◌, inl, inr, true,
  false, some, List, [], ◌∷◌, ◌++◌, leb, leb→le, le→leb, ◌==◌, Bool-cases, length, take, drop, All,
  arith,
}
use biology.Base.Errno.{ok, Status}
use biology.Base.Memory.{read, length-take_le}
use biology.Kernel.{null, Allocator, IsAllocator, Vfs, IsVfs, Pages, IsPages, Ptr, ptr, count}
use biology.Serial.Info.{Schema, Bio, BioInfo}
use biology.Serial.Layout.{IsWhole, record_bytes}
use biology.Serial.Header.{header_bytes}
use biology.Dump.Buffer.{
  Dump, initial_buf_size, moved, file_write, buf_drain, prepare_drained, buf_prepare, append_record,
  dump_bio, destroy, buf_destroy, file_destroy,
}
use biology.Dump.Init.{dump_file_path, init}
use biology.Dump.Log.{log, ready, InBounds, buf_drain-Drained}
use biology.Dump.Record.{
  buf_avail-ready, room_size, append_record-ready, dump_bio-Dumped, logged, lost, no_memory,
}
use biology.Dump.Session.{
  dump_all, all_records, Recordable, Succeeded, some_injective, init-header_bytes, dump_all-log,
  session-contents, closing,
}

module _ (V : Vfs) (A : Allocator) (P : Pages) (L : IsVfs V) (M : IsAllocator A) (I : IsPages P)
    (takes_all : (f : V.File) (off : ℕ) (bytes : List ℕ)
      → (V.iter_write f off bytes).1 ≡ count (length bytes))
    (grows : (old : List ℕ) (n : ℕ)
      → n < 2 ^ 63
      → (block : List ℕ) × (A.krealloc old n ≡ some block))
    (cpu : ℕ) (schema : Schema) where
  buf_drain-ok :
      (f : V.File) (pos : ℕ) (block : List ℕ) (offset : ℕ)
      → InBounds V f pos block offset
      → (d : Dump V) × (buf_drain (ready V cpu f pos schema block offset) ≡ some (d, ok tt))
  unfolding buf_drain file_write read
  buf_drain-ok f pos block zero b = (_, refl)
  buf_drain-ok f pos block (suc o) b =
      let nonzero : (suc o == 0) ≡ false = ground arith in
      let len : length (take (suc o) block) ≡ suc o = length-take_le (suc o) block b.offset_le in
      let whole : (length (take (suc o) block) == suc o) ≡ true = ground arith in
      (
        record (ready V cpu (V.iter_write f pos (take (suc o) block)).0
            (pos + moved (V.iter_write f pos (take (suc o) block)).1) schema block 0) {
              size = length block;
            },
        rw (nonzero, le→leb (0 + suc o) (length block) (omega (arith, b.offset_le)))
            (rw (takes_all f pos (take (suc o) block)) (rw whole refl)),
      )

  module _ (info : BioInfo Bio) (w : IsWhole info)
      (small : length (record_bytes P schema info) < 2 ^ 63) where
    abbrev size : ℕ
    size = length (record_bytes P schema info)

    prepared-ok :
        (f : V.File) (pos : ℕ) (block : List ℕ)
        → InBounds V f pos block 0
        → (d : Dump V) × (append_record A P info
              (prepare_drained A (ready V cpu f pos schema block 0, ok tt) size)
            ≡ some (d, ok tt))
    unfolding prepare_drained
    prepared-ok f pos block b =
        rw (buf_avail-ready V A P I cpu f pos schema block 0 b)
          (elim (Bool-cases (leb size (length block - 0))) [
            | inl room ↦ rw room (
              _,
              (append_record-ready V A P I cpu f pos schema block 0 info w b
                  (omega (arith, leb→le size (length block - 0) room))).0,
            )
            | inr full ↦ rw full (
                let (block', granted) = grows block size small in
                let same : length block' ≡ size = M.krealloc_length block size granted in
                let inside : InBounds V f pos block' 0 = record {
                  pos_le = b.pos_le;
                  offset_le = omega arith;
                  block_small = omega arith;
                } in
                rw granted (
                  subst
                    (λ n.
                      (d : Dump V) × (append_record A P info (
                        record (ready V cpu f pos schema block 0) { buf = some block'; size = n },
                        ok tt,
                      )
                        ≡ some (d, ok tt)))
                    same
                    (
                      _,
                      (append_record-ready V A P I cpu f pos schema block' 0 info w inside
                          (omega arith)).0,
                    )))
          ])

    dump_bio-ok :
        (f : V.File) (pos : ℕ) (block : List ℕ) (offset : ℕ)
        → InBounds V f pos block offset
        → (d : Dump V) × (dump_bio A P (ready V cpu f pos schema block offset) info
            ≡ some (d, ok tt))
    unfolding dump_bio buf_prepare
    dump_bio-ok f pos block offset b =
        let (f', pos', status, run, done) = buf_drain-Drained V L cpu f pos schema block offset b in
        let (d, fine) = buf_drain-ok f pos block offset b in
        let good : status ≡ ok tt =
          ap (λ (t : Dump V × Status). t.1) (some_injective (sym run ∙ fine)) in
        let inside : InBounds V f' pos' block 0 = record {
          pos_le = done.pos_le;
          offset_le = omega arith;
          block_small = b.block_small;
        } in
        rw
          (
            room_size V A P I schema info w small,
            buf_avail-ready V A P I cpu f pos schema block offset b,
          )
          (elim (Bool-cases (leb size (length block - offset))) [
            | inl room ↦ rw room (
              _,
              (append_record-ready V A P I cpu f pos schema block offset info w b
                  (omega (arith, b.offset_le, leb→le size (length block - offset) room))).0,
            )
            | inr full ↦ rw full (rw run (rw good (prepared-ok f' pos' block inside)))
          ])

  -- The two at once: the record stands at the end of the log.
  pub dump_bio-logged :
      (info : BioInfo Bio)
      → Recordable P schema info
      → (f : V.File) (pos : ℕ) (block : List ℕ) (offset : ℕ) → InBounds V f pos block offset
      → (f' : V.File) × (pos' : ℕ) × (block' : List ℕ) × (offset' : ℕ) × (dump_bio A P
            (ready V cpu f pos schema block offset)
            info
          ≡ some (ready V cpu f' pos' schema block' offset', ok tt))
        × InBounds V f' pos' block' offset'
        × (log V f' pos' block' offset' ≡ log V f pos block offset ++ record_bytes P schema info)
        × (pos ≤ pos')
        × (drop pos' (V.contents f') ≡ drop pos' (V.contents f))
  dump_bio-logged info (w, small) f pos block offset b =
      let (d, run) = dump_bio-ok info w small f pos block offset b in
      let (r, run', out) =
        dump_bio-Dumped V A P I L M cpu schema info w small f pos block offset b in
      let same = some_injective (sym run' ∙ run) in
      elim out [
        | logged f1 pos1 block1 offset1 e b1 longer forward behind ↦
            (f1, pos1, block1, offset1, run' ∙ ap some e, b1, longer, forward, behind)
        | lost f1 pos1 e b1 forward cut ↦
            cc (ap (λ (t : Dump V × Status). t.1) same, ap (λ (t : Dump V × Status). t.1) e)
        | no_memory f1 pos1 e le whole ↦
            cc (ap (λ (t : Dump V × Status). t.1) same, ap (λ (t : Dump V × Status). t.1) e)
      ]

  -- A dump that is destroyed leaves its log in the file.
  pub destroy-contents :
      (f0 f : V.File) (pos : ℕ) (block : List ℕ) (offset : ℕ) (bytes : List ℕ)
      → InBounds V f pos block offset
      → log V f pos block offset ≡ bytes
      → drop pos (V.contents f) ≡ drop pos (V.contents f0)
      → (closed : Dump V) × (f' : V.File) × (destroy (ready V cpu f pos schema block offset)
          ≡ some (closed, some f'))
        × (V.contents f' ≡ bytes ++ drop (length bytes) (V.contents f0))
  unfolding destroy buf_destroy file_destroy
  destroy-contents f0 f pos block offset bytes b same behind =
      let (f2, pos2, status, run, done) = buf_drain-Drained V L cpu f pos schema block offset b in
      let (d, fine) = buf_drain-ok f pos block offset b in
      let good : status ≡ ok tt =
        ap (λ (t : Dump V × Status). t.1) (some_injective (sym run ∙ fine)) in
      (
        record {
          cpu = cpu;
          file = record { file = null; offset = pos2 };
          schema = schema;
          buf = none;
          size = 0;
          offset = 0;
        },
        f2,
        rw run refl,
        closing V A M L P I cpu schema bytes f0 f f2 pos pos2 block offset status b done good same
            behind,
      )

  dump_all-ok :
      (infos : List (BioInfo Bio)) (f : V.File) (pos : ℕ) (block : List ℕ) (offset : ℕ)
      → InBounds V f pos block offset
      → All (Recordable P schema) infos
      → (d : Dump V) × (statuses : List Status) × (dump_all A P
            (ready V cpu f pos schema block offset)
            infos
          ≡ some (d, statuses))
        × All Succeeded statuses
  unfolding dump_all
  dump_all-ok [] f pos block offset b h = (_, [], refl, tt)
  dump_all-ok (info ∷ infos) f pos block offset b (r, h) =
      let (f1, pos1, block1, offset1, run, b1, longer, forward, behind) =
        dump_bio-logged info r f pos block offset b in
      let (d, statuses, rest, good) = dump_all-ok infos f1 pos1 block1 offset1 b1 h in
      (d, ok tt ∷ statuses, rw run (rw rest refl), (refl, good))

  -- A session on a file that is opened, at a path that fits its block, with memory for the path and the buffers, on a file system
  -- that takes every write in full: every call succeeds, and the file that is closed holds the
  -- header of the schema and the records in the order of the calls, and behind them whatever it
  -- held there before.
  pub session-ok :
      (filp_open : List ℕ → Ptr V.File) (dir_path : List ℕ) (f : V.File) (path block : List ℕ)
      (infos : List (BioInfo Bio))
      → length (dump_file_path dir_path cpu) < 4096
      → filp_open (dump_file_path dir_path cpu) ≡ ptr f
      → A.kmalloc 4096 ≡ some path
      → A.kmalloc initial_buf_size ≡ some block
      → length (header_bytes schema) ≤ initial_buf_size
      → length schema < 2 ^ 32
      → All (Recordable P schema) infos
      → let bytes = header_bytes schema ++ all_records P schema infos in
        (d0 : Dump V) × (d : Dump V) × (statuses : List Status) × (closed : Dump V) × (f' : V.File)
        × (init V A filp_open schema dir_path cpu ≡ some (d0, ok tt))
        × (dump_all A P d0 infos ≡ some (d, statuses))
        × All Succeeded statuses
        × (destroy d ≡ some (closed, some f'))
        × (V.contents f' ≡ bytes ++ drop (length bytes) (V.contents f))
  session-ok filp_open dir_path f path block infos short opened named granted fits small whole =
      let (block0, start, b0, log0) =
        init-header_bytes V A M filp_open schema dir_path cpu f path block short opened named
          granted fits small in
      let (d, statuses, run, good) =
        dump_all-ok infos f 0 block0 (length (header_bytes schema)) b0 whole in
      let (f1, pos1, block1, offset1, same1, b1, log1, forward1, behind1) =
        dump_all-log V A M L P I cpu schema infos f 0 block0 (length (header_bytes schema)) d
          statuses b0 whole run good in
      let (drained, finish) = buf_drain-ok f1 pos1 block1 offset1 b1 in
      let (closed, f', close, held) =
        session-contents V A M L P I cpu schema filp_open dir_path f path block infos _ d drained
          (ok tt) statuses short opened named granted fits small whole start run good
          (ap (λ t. buf_drain t) same1 ∙ finish) in
      (_, d, statuses, closed, f', start, run, good, close, held)
