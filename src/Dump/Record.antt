-- ===== src/Dump/Record.antt =====
-- `blgy_prxy_dump` against the log: on every branch the code neither faults nor writes outside its
-- buffer, and the log grows by the record, or the call says that it did not.
use biology.Base.{
  ℕ, ◌+◌, ◌-◌, ◌^◌, ◌≤◌, ◌<◌, ◌≡◌, refl, sym, ap, subst, ◌∙◌, inl, inr, none, some, List, ◌++◌, leb,
  leb→le, Bool-cases, Option-cases, ◌>>=◌, length, take, drop, length-append, take_all, append-nil,
  append_assoc, arith,
}
use biology.Base.Bytes.{le_bytes, length-le_bytes, ◌+u64◌, +u64_lem, -u64_lem}
use biology.Base.Errno.{enomem, eio, ok, err, Status}
use biology.Base.Memory.{splice, length-splice, take-splice}
use biology.Kernel.{Allocator, IsAllocator, Vfs, IsVfs, Pages, IsPages}
use biology.Serial.Info.{Schema, Bio, BioInfo}
use biology.Serial.Encode.{serial_size}
use biology.Serial.Layout.{
  IsWhole, body_bytes, record_bytes, length-record_bytes, serial_size-body_bytes,
  serialize-record_bytes,
}
use biology.Dump.Buffer.{
  Dump, buf_avail, buf_drain, prepare_drained, buf_prepare, append_record, dump_bio,
}
use biology.Dump.Log.{ready, log, InBounds, length-log, buf_drain-Drained}

-- How `blgy_prxy_dump` may end on a dump that stands at `log V f pos block offset`.
pub data Dumped (V : Vfs) (cpu : ℕ) (f : V.File) (pos : ℕ) (schema : Schema) (block : List ℕ)
    (offset : ℕ) (bytes : List ℕ) (r : Dump V × Status) : Type 0 where
  -- The record stands at the end of the log.
  logged :
      (f' : V.File) (pos' : ℕ) (block' : List ℕ) (offset' : ℕ)
      → r ≡ (ready V cpu f' pos' schema block' offset', ok tt)
      → InBounds V f' pos' block' offset'
      → log V f' pos' block' offset' ≡ log V f pos block offset ++ bytes
      → pos ≤ pos'
      → drop pos' (V.contents f') ≡ drop pos' (V.contents f)
      → Dumped V cpu f pos schema block offset bytes r
  -- The file took only a part of the log; the rest of it is lost, and the record too.
  lost :
      (f' : V.File) (pos' : ℕ)
      → r ≡ (ready V cpu f' pos' schema block 0, err eio)
      → InBounds V f' pos' block 0
      → pos ≤ pos'
      → log V f' pos' block 0 ≡ take pos' (log V f pos block offset)
      → Dumped V cpu f pos schema block offset bytes r
  -- The file holds the log, and the buffer is gone.
  no_memory :
      (f' : V.File) (pos' : ℕ)
      → r ≡ (record (ready V cpu f' pos' schema block 0) { buf = none }, err enomem)
      → pos' ≤ length (V.contents f')
      → take pos' (V.contents f') ≡ log V f pos block offset
      → Dumped V cpu f pos schema block offset bytes r

module _ (V : Vfs) (A : Allocator) (P : Pages) (I : IsPages P) where
  pub buf_avail-ready :
      (cpu : ℕ) (f : V.File) (pos : ℕ) (schema : Schema) (block : List ℕ) (offset : ℕ)
      → InBounds V f pos block offset
      → buf_avail (ready V cpu f pos schema block offset) ≡ length block - offset
  unfolding buf_avail
  buf_avail-ready cpu f pos schema block offset b =
      -u64_lem (length block) offset b.offset_le (omega (arith, b.block_small))

  pub room_size :
      (schema : Schema) (info : BioInfo Bio)
      → IsWhole info
      → length (record_bytes P schema info) < 2 ^ 63
      → serial_size info schema +u64 8 ≡ length (record_bytes P schema info)
  unfolding record_bytes
  room_size schema info w small =
      let body = body_bytes P schema info in
      let total = length-append (le_bytes 8 (length body)) body in
      let eight = length-le_bytes 8 (length body) in
      rw (serial_size-body_bytes P I schema info w (omega arith))
        (+u64_lem (length body) 8 (omega arith) ∙ omega arith)

  pub append_record-ready :
      (cpu : ℕ) (f : V.File) (pos : ℕ) (schema : Schema) (block : List ℕ) (offset : ℕ)
      (info : BioInfo Bio)
      → IsWhole info
      → InBounds V f pos block offset
      → offset + length (record_bytes P schema info) ≤ length block
      → let block' = splice offset (record_bytes P schema info) block in
        let offset' = offset + length (record_bytes P schema info) in
        (append_record A P info (ready V cpu f pos schema block offset, ok tt)
          ≡ some (ready V cpu f pos schema block' offset', ok tt))
        × InBounds V f pos block' offset'
        × (log V f pos block' offset' ≡ log V f pos block offset ++ record_bytes P schema info)
  unfolding append_record
  append_record-ready cpu f pos schema block offset info w b fits =
      let bytes = record_bytes P schema info in
      let same = length-splice offset bytes block fits in
      (
        rw
            (
              serialize-record_bytes P I schema info offset block w
                  (omega (arith, length-record_bytes P schema info, b.block_small)) fits,
              +u64_lem offset (length bytes) (omega (arith, b.block_small)),
            )
            (ap
              (λ n. some (
                record (ready V cpu f pos schema block (offset + length bytes)) {
                  buf = some (splice offset bytes block);
                  size = n;
                },
                ok tt,
              ))
              (sym same)),
        record { pos_le = b.pos_le; offset_le = rw same fits; block_small = rw same b.block_small },
        rw (take-splice offset bytes block b.offset_le)
            (sym (append_assoc (take pos (V.contents f)) (take offset block) bytes)),
      )

  module _ (L : IsVfs V) (M : IsAllocator A) (cpu : ℕ) (schema : Schema) (info : BioInfo Bio)
      (w : IsWhole info) (small : length (record_bytes P schema info) < 2 ^ 63) where
    abbrev bytes : List ℕ
    bytes = record_bytes P schema info

    -- With the buffer empty and the log in the file.
    dump_drained :
        (f : V.File) (pos : ℕ) (block : List ℕ) (offset : ℕ) (f' : V.File) (pos' : ℕ)
        → InBounds V f' pos' block 0
        → take pos' (V.contents f') ≡ log V f pos block offset
        → pos ≤ pos'
        → drop pos' (V.contents f') ≡ drop pos' (V.contents f)
        → (r : Dump V × Status) × (append_record A P info
              (prepare_drained A (ready V cpu f' pos' schema block 0, ok tt) (length bytes))
            ≡ some r)
          × Dumped V cpu f pos schema block offset bytes r
    unfolding prepare_drained
    dump_drained f pos block offset f' pos' b whole forward behind =
        rw (buf_avail-ready cpu f' pos' schema block 0 b)
          (elim (Bool-cases (leb (length bytes) (length block - 0))) [
            | inl room ↦
                rw room
                  (fits block b (omega (arith, leb→le (length bytes) (length block - 0) room)))
            | inr full ↦ rw full (elim (Option-cases (A.krealloc block (length bytes))) [
              | inl refused ↦
                  rw refused
                    (unfold append_record in (_, refl, no_memory f' pos' refl b.pos_le whole))
              | inr (block', granted) ↦
                  let size = M.krealloc_length block (length bytes) granted in
                  let inside : InBounds V f' pos' block' 0 = record {
                    pos_le = b.pos_le;
                    offset_le = omega arith;
                    block_small = rw size small;
                  } in
                  rw granted (
                    subst
                      (λ n.
                        (r : Dump V × Status) × (append_record A P info (
                          record (ready V cpu f' pos' schema block 0) {
                            buf = some block';
                            size = n;
                          },
                          ok tt,
                        )
                          ≡ some r)
                        × Dumped V cpu f pos schema block offset bytes r)
                      size (fits block' inside (omega arith)))
            ])
          ])
      where
        fits :
            (block' : List ℕ)
            → InBounds V f' pos' block' 0
            → 0 + length bytes ≤ length block'
            → (r : Dump V × Status) × (append_record A P info
                  (ready V cpu f' pos' schema block' 0, ok tt)
                ≡ some r)
              × Dumped V cpu f pos schema block offset bytes r
        fits block' b' room =
            let (run, inside, grows) =
              append_record-ready cpu f' pos' schema block' 0 info w b' room in
            (
              _,
              run,
              logged f' pos' _ _ refl inside
                  (grows ∙ ap (λ t. t ++ bytes) (append-nil (take pos' (V.contents f')) ∙ whole))
                  forward behind,
            )

    dump_at_once :
        (f : V.File) (pos : ℕ) (block : List ℕ) (offset : ℕ)
        → InBounds V f pos block offset
        → length bytes ≤ length block - offset
        → (r : Dump V × Status) × (append_record A P info
              (ready V cpu f pos schema block offset, ok tt)
            ≡ some r)
          × Dumped V cpu f pos schema block offset bytes r
    dump_at_once f pos block offset b room =
        let (run, inside, grows) =
          append_record-ready cpu f pos schema block offset info w b (omega (arith, b.offset_le)) in
        (_, run, logged f pos _ _ refl inside grows (omega arith) refl)

    dump_after_drain :
        (f : V.File) (pos : ℕ) (block : List ℕ) (offset : ℕ)
        → InBounds V f pos block offset
        → (r : Dump V × Status) × (((buf_drain (ready V cpu f pos schema block offset) >>= λ d.
                some (prepare_drained A d (length bytes)))
              >>= λ prepared. append_record A P info prepared)
            ≡ some r)
          × Dumped V cpu f pos schema block offset bytes r
    dump_after_drain f pos block offset b =
        let (f', pos', status, run, d) = buf_drain-Drained V L cpu f pos schema block offset b in
        let inside : InBounds V f' pos' block 0 = record {
          pos_le = d.pos_le;
          offset_le = omega arith;
          block_small = b.block_small;
        } in
        rw run (elim d.ending [
          | inl (done, full) ↦ rw done (
              dump_drained f pos block offset f' pos' inside
                (d.kept
                  ∙ take_all pos' (log V f pos block offset)
                      (omega (arith, length-log V L f pos block offset b)))
                d.forward (d.behind done))
          | inr failed ↦ rw failed (
              unfold prepare_drained append_record in
              (
                _,
                refl,
                lost f' pos' refl inside d.forward
                    (append-nil (take pos' (V.contents f')) ∙ d.kept),
              ))
        ])

    -- The whole of `blgy_prxy_dump`, for a whole request (its members have their widths and the
    -- segments of a write are as long as it) whose record is below 2^63 bytes, on a dump with an open
    -- file and a buffer in bounds: it is no fault, and either the record is appended to the log, or the
    -- file takes a part of the log and the rest is lost with -EIO, or the growth of the buffer fails
    -- and the buffer is gone with -ENOMEM.
    pub dump_bio-Dumped :
        (f : V.File) (pos : ℕ) (block : List ℕ) (offset : ℕ)
        → InBounds V f pos block offset
        → (r : Dump V × Status) × (dump_bio A P (ready V cpu f pos schema block offset) info
            ≡ some r)
          × Dumped V cpu f pos schema block offset bytes r
    unfolding dump_bio buf_prepare
    dump_bio-Dumped f pos block offset b =
        rw (room_size schema info w small, buf_avail-ready cpu f pos schema block offset b)
          (elim (Bool-cases (leb (length bytes) (length block - offset))) [
            | inl room ↦ rw room (
                dump_at_once f pos block offset b
                  (leb→le (length bytes) (length block - offset) room))
            | inr full ↦ rw full (dump_after_drain f pos block offset b)
          ])
