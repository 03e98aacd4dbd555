-- ===== src/Dump/Session.antt =====
-- A dump from its opening to its closing: what the file holds at the end.
use biology.Base.{
  ℕ, ◌+◌, ◌^◌, ◌≤◌, ◌<◌, ◌≡◌, refl, sym, ap, ap₂, subst, ◌∙◌, inl, inr, Option, none, some, List,
  [], ◌∷◌, ◌++◌, ◌>>=◌, >>=-eq-some, length, take, drop, All, take-append-drop, take_all,
  take-append_len, drop-eq_later, append-nil, append_assoc, arith,
}
use biology.Base.Bytes.{◌+u64◌, +u64_lem}
use biology.Base.Errno.{ok, Status}
use biology.Base.Memory.{splice, length-splice}
use biology.Kernel.{Allocator, IsAllocator, Vfs, IsVfs, Pages, IsPages, Ptr, null, ptr}
use biology.Serial.Info.{Schema, Bio, BioInfo}
use biology.Serial.Layout.{IsWhole, record_bytes}
use biology.Serial.Header.{header_bytes, schema_serialize-header_bytes}
use biology.Dump.Buffer.{
  Dump, initial_buf_size, file_init, buf_init, buf_drain, buf_destroy, file_destroy, destroy,
  dump_bio,
}
use biology.Dump.Init.{build_file_path-fits, dump_file_path, fresh, init}
use biology.Dump.Log.{ready, log, InBounds, Drained, length-log, buf_drain-Drained}
use biology.Dump.Record.{logged, lost, no_memory, dump_bio-Dumped}

-- The requests of a dump as they come to `blgy_prxy_dump`, with the status of each call.
unfoldable pub dump_all :
    {V : Vfs} → Allocator → Pages → Dump V → List (BioInfo Bio) → Option (Dump V × List Status)
dump_all A P dump [] = some (dump, [])
dump_all A P dump (info ∷ infos) = do
  (dump', status) ← dump_bio A P dump info
  (last, statuses) ← dump_all A P dump' infos
  some (last, status ∷ statuses)

unfoldable pub all_records : Pages → Schema → List (BioInfo Bio) → List ℕ
all_records P schema [] = []
all_records P schema (info ∷ infos) = record_bytes P schema info ++ all_records P schema infos

-- Requests that are whole and whose records have a size that a `size_t` and a block can hold.
abbrev pub Recordable : Pages → Schema → BioInfo Bio → Type 0
Recordable P schema info = IsWhole info × (length (record_bytes P schema info) < 2 ^ 63)

abbrev pub Succeeded : Status → Type 0
Succeeded status = status ≡ ok tt

pub some_injective {ℓ} : {B : Type ℓ} {x y : B} → some x ≡ some y → x ≡ y
some_injective e = cc

-- The first call and the others.
pub dump_all_cons :
    {V : Vfs} (A : Allocator) (P : Pages) (dump : Dump V) (info : BioInfo Bio)
    (infos : List (BioInfo Bio)) (r : Dump V × Status) (d : Dump V) (statuses : List Status)
    → dump_bio A P dump info ≡ some r
    → dump_all A P dump (info ∷ infos) ≡ some (d, statuses)
    → (rest : List Status) × (dump_all A P r.0 infos ≡ some (d, rest)) × (statuses ≡ r.1 ∷ rest)
unfolding dump_all
dump_all_cons A P dump info infos r d statuses run e =
    let ((last, rest), e1, e2) =
      >>=-eq-some (dump_all A P r.0 infos) (λ t. some (t.0, r.1 ∷ t.1)) (rw run at e) in
    let same = some_injective e2 in
    (rest, e1 ∙ ap (λ x. some (x, rest)) (ap (λ t. t.0) same), sym (ap (λ t. t.1) same))

module _ (V : Vfs) (A : Allocator) (M : IsAllocator A) where
  buf_init-granted :
      (dump : Dump V) (block : List ℕ)
      → A.kmalloc initial_buf_size ≡ some block
      → buf_init A dump
        ≡ (record dump { buf = some block; size = initial_buf_size; offset = 0 }, ok tt)
  unfolding buf_init
  buf_init-granted dump block granted = rw (granted, buf_init)

  -- A dump whose path fits its block, and whose buffers and file are there, begins with the header of its schema.
  pub init-header_bytes :
      (filp_open : List ℕ → Ptr V.File) (schema : Schema) (dir_path : List ℕ) (cpu : ℕ) (f : V.File)
      (path block : List ℕ)
      → length (dump_file_path dir_path cpu) < 4096
      → filp_open (dump_file_path dir_path cpu) ≡ ptr f
      → A.kmalloc 4096 ≡ some path
      → A.kmalloc initial_buf_size ≡ some block
      → length (header_bytes schema) ≤ initial_buf_size
      → length schema < 2 ^ 32
      → (block' : List ℕ) × (init V A filp_open schema dir_path cpu
          ≡ some (ready V cpu f 0 schema block' (length (header_bytes schema)), ok tt))
        × InBounds V f 0 block' (length (header_bytes schema))
        × (log V f 0 block' (length (header_bytes schema)) ≡ header_bytes schema)
  unfolding init file_init
  init-header_bytes filp_open schema dir_path cpu f path block short opened named granted fits
        small =
      let size = M.kmalloc_length initial_buf_size granted in
      let room : 0 + length (header_bytes schema) ≤ length block = omega arith in
      let bytes = header_bytes schema in
      let count : 0 +u64 length bytes ≡ length bytes =
        +u64_lem 0 (length bytes) (omega arith) ∙ omega arith in
      let start =
        buf_init-granted
          (record (fresh V cpu schema) { file = record { file = ptr f; offset = 0 } }) block
          granted in
      let size' = length-splice 0 bytes block room in
      (
        splice 0 bytes block,
        rw (named, build_file_path-fits dir_path cpu short, init)
            (rw opened (
              rw start (
                rw (schema_serialize-header_bytes schema 0 block small room) (
                  rw count (
                    ap
                      (λ n. some (
                        record (ready V cpu f 0 schema (splice 0 bytes block) (length bytes)) {
                          size = n;
                        },
                        ok tt,
                      ))
                      (sym (size' ∙ size))))))),
        record { pos_le = omega arith; offset_le = omega arith; block_small = omega arith },
        take-append_len (length bytes) bytes (drop (0 + length bytes) block) refl,
      )

  module _ (L : IsVfs V) (P : Pages) (I : IsPages P) (cpu : ℕ) (schema : Schema) where
    pub dump_all-log :
        (infos : List (BioInfo Bio)) (f : V.File) (pos : ℕ) (block : List ℕ) (offset : ℕ)
        (d : Dump V) (statuses : List Status)
        → InBounds V f pos block offset
        → All (Recordable P schema) infos
        → dump_all A P (ready V cpu f pos schema block offset) infos ≡ some (d, statuses)
        → All Succeeded statuses
        → (f' : V.File) × (pos' : ℕ) × (block' : List ℕ) × (offset' : ℕ) × (d
            ≡ ready V cpu f' pos' schema block' offset')
          × InBounds V f' pos' block' offset'
          × (log V f' pos' block' offset' ≡ log V f pos block offset ++ all_records P schema infos)
          × (pos ≤ pos')
          × (drop pos' (V.contents f') ≡ drop pos' (V.contents f))
    unfolding dump_all all_records
    dump_all-log [] f pos block offset d statuses b h e s = (
      f,
      pos,
      block,
      offset,
      sym (ap (λ r. r.0) (some_injective e)),
      b,
      sym (append-nil (log V f pos block offset)),
      omega arith,
      refl,
    )
    dump_all-log (info ∷ infos) f pos block offset d statuses b ((w, small), h) e s =
        let (r, run, out) =
          dump_bio-Dumped V A P I L M cpu schema info w small f pos block offset b in
        let (rest, e', q) = dump_all_cons A P _ info infos r d statuses run e in
        let s' : All Succeeded (r.1 ∷ rest) = subst (All Succeeded) q s in
        elim out [
          | logged f1 pos1 block1 offset1 same b1 grows forward behind ↦
              let (f2, pos2, block2, offset2, same2, b2, grows2, forward2, behind2) =
                dump_all-log infos f1 pos1 block1 offset1 d rest b1 h
                  (subst (λ t. dump_all A P t.0 infos ≡ some (d, rest)) same e') s'.1 in
              (
                f2,
                pos2,
                block2,
                offset2,
                same2,
                b2,
                grows2
                    ∙ ap (λ t. t ++ all_records P schema infos) grows
                    ∙ append_assoc (log V f pos block offset) (record_bytes P schema info) _,
                omega arith,
                behind2 ∙ drop-eq_later pos1 pos2 (V.contents f1) (V.contents f) forward2 behind,
              )
          | lost f1 pos1 same b1 forward cut ↦ cc (s'.0, ap (λ (t : Dump V × Status). t.1) same)
          | no_memory f1 pos1 same le whole ↦ cc (s'.0, ap (λ (t : Dump V × Status). t.1) same)
        ]

    -- What a drain that reports success leaves in the file.
    pub closing :
        (bytes : List ℕ) (f f1 f2 : V.File) (pos1 pos2 : ℕ) (block : List ℕ) (offset : ℕ)
        (status : Status)
        → InBounds V f1 pos1 block offset
        → Drained V f1 f2 pos1 pos2 block offset status
        → status ≡ ok tt
        → log V f1 pos1 block offset ≡ bytes
        → drop pos1 (V.contents f1) ≡ drop pos1 (V.contents f)
        → V.contents f2 ≡ bytes ++ drop (length bytes) (V.contents f)
    closing bytes f f1 f2 pos1 pos2 block offset status b d done same behind = elim d.ending [
      | inr failed ↦ cc (done, failed)
      | inl (_, full) ↦
          let len : length bytes ≡ pos2 =
            sym (ap {B = ℕ} length same) ∙ length-log V L f1 pos1 block offset b ∙ sym full in
          let front : take pos2 (V.contents f2) ≡ bytes =
            d.kept
            ∙ take_all pos2 (log V f1 pos1 block offset)
                (omega (arith, length-log V L f1 pos1 block offset b))
            ∙ same in
          let back : drop pos2 (V.contents f2) ≡ drop (length bytes) (V.contents f) =
            d.behind done
            ∙ drop-eq_later pos1 pos2 (V.contents f1) (V.contents f) d.forward behind
            ∙ ap (λ k. drop k (V.contents f)) (sym len) in
          sym (take-append-drop pos2 (V.contents f2)) ∙ ap₂ ◌++◌ front back
    ]

    -- A dump that is opened, takes requests and is closed, with every call and the last drain
    -- reporting success, leaves the header, the records in the order of the calls, and behind
    -- them whatever the file held there before.
    pub session-contents :
        (filp_open : List ℕ → Ptr V.File) (dir_path : List ℕ) (f : V.File) (path block : List ℕ)
        (infos : List (BioInfo Bio)) (d0 d drained : Dump V) (opening : Status)
        (statuses : List Status)
        → length (dump_file_path dir_path cpu) < 4096
        → filp_open (dump_file_path dir_path cpu) ≡ ptr f
        → A.kmalloc 4096 ≡ some path
        → A.kmalloc initial_buf_size ≡ some block
        → length (header_bytes schema) ≤ initial_buf_size
        → length schema < 2 ^ 32
        → All (Recordable P schema) infos
        → init V A filp_open schema dir_path cpu ≡ some (d0, opening)
        → dump_all A P d0 infos ≡ some (d, statuses)
        → All Succeeded statuses
        → buf_drain d ≡ some (drained, ok tt)
        → let bytes = header_bytes schema ++ all_records P schema infos in
          (closed : Dump V) × (f' : V.File) × (destroy d ≡ some (closed, some f'))
          × (V.contents f' ≡ bytes ++ drop (length bytes) (V.contents f))
    unfolding destroy buf_destroy file_destroy
    session-contents filp_open dir_path f path block infos d0 d drained opening statuses short
          opened named granted fits small whole start run good finish =
        let (block0, first, b0, log0) =
          init-header_bytes filp_open schema dir_path cpu f path block short opened named granted
            fits small in
        let same0 = some_injective (sym start ∙ first) in
        let (f1, pos1, block1, offset1, same1, b1, log1, forward1, behind1) =
          dump_all-log infos f 0 block0 (length (header_bytes schema)) d statuses b0 whole
            (subst (λ (t : Dump V × Status). dump_all A P t.0 infos ≡ some (d, statuses)) same0 run)
            good in
        let (f2, pos2, status2, run2, d2) =
          buf_drain-Drained V L cpu f1 pos1 schema block1 offset1 b1 in
        let ends = sym (ap (λ t. buf_drain t) same1 ∙ run2) ∙ finish in
        let done : status2 ≡ ok tt = ap (λ t. t.1) (some_injective ends) in
        (
          record {
            cpu = cpu;
            file = record { file = null; offset = pos2 };
            schema = schema;
            buf = none;
            size = 0;
            offset = 0;
          },
          f2,
          rw (ap (λ t. buf_drain t) same1 ∙ run2),
          closing (header_bytes schema ++ all_records P schema infos) f f1 f2 pos1 pos2 block1
              offset1 status2 b1 d2 done (log1 ∙ ap (λ t. t ++ all_records P schema infos) log0)
              behind1,
        )
