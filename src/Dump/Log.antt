-- ===== src/Dump/Log.antt =====
-- A dump as the log that it keeps: the bytes before the file position, then those in the buffer.
use biology.Base.{
  ℕ, zero, suc, ◌+◌, ◌^◌, ◌≤◌, ◌<◌, ◌≡◌, refl, sym, ap, subst, ◌∙◌, ◌⊎◌, inl, inr, false, some,
  List, ◌++◌, le→leb, ◌==◌, if◌then◌else◌, length, take, drop, length-append, length-take,
  take-append_len, take-append_add, take_all, append-nil, arith,
}
use native.Mathlib.Nat.{add-zero}
use biology.Base.Errno.{Errno, eio, as_size, ok, err, Status}
use biology.Base.Memory.{read, splice, length-splice_ge, take-splice, drop-splice, length-take_le}
use biology.Kernel.{Vfs, IsVfs, ptr, Count, count, fails}
use biology.Serial.Info.{Schema}
use biology.Dump.Buffer.{Dump, buf_drain, written_size, moved}

Count-cases : (c : Count) → ((n : ℕ) × (c ≡ count n)) ⊎ ((e : Errno) × (c ≡ fails e))
Count-cases (count n) = inl (n, refl)
Count-cases (fails e) = inr (e, refl)

as_size_big : (e : Errno) → 2 ^ 63 ≤ as_size e
as_size_big e = ground arith

module _ (V : Vfs) where
  -- A dump with an open file and a buffer.
  abbrev pub ready : ℕ → V.File → ℕ → Schema → List ℕ → ℕ → Dump V
  ready cpu f pos schema block offset = record {
    cpu = cpu;
    file = record { file = ptr f; offset = pos };
    schema = schema;
    buf = some block;
    size = length block;
    offset = offset;
  }

  abbrev pub log : V.File → ℕ → List ℕ → ℕ → List ℕ
  log f pos block offset = take pos (V.contents f) ++ take offset block

  -- The positions lie inside the file and the buffer, and no size comes near that of `size_t`.
  pub record InBounds (f : V.File) (pos : ℕ) (block : List ℕ) (offset : ℕ) : Type 0 where
    pub pos_le : pos ≤ length (V.contents f)
    pub offset_le : offset ≤ length block
    pub block_small : length block < 2 ^ 63

  -- How a drain may end: in full, or with a part of the log in the file and the rest lost.
  pub record Drained (f f' : V.File) (pos pos' : ℕ) (block : List ℕ) (offset : ℕ) (status : Status)
      : Type 0 where
    pub pos_le : pos' ≤ length (V.contents f')
    pub forward : pos ≤ pos'
    pub kept : take pos' (V.contents f') ≡ take pos' (log f pos block offset)
    -- What the file held behind the new position is still there.
    pub behind : status ≡ ok tt → drop pos' (V.contents f') ≡ drop pos' (V.contents f)
    pub ending : ((status ≡ ok tt) × (pos' ≡ pos + offset)) ⊎ (status ≡ err eio)

  module _ (L : IsVfs V) where
    pub length-log :
        (f : V.File) (pos : ℕ) (block : List ℕ) (offset : ℕ)
        → InBounds f pos block offset
        → length (log f pos block offset) ≡ pos + offset
    length-log f pos block offset b = omega (
      arith,
      length-append (take pos (V.contents f)) (take offset block),
      length-take_le pos (V.contents f) b.pos_le,
      length-take offset block,
      b.offset_le,
    )

    drain_empty :
        (f : V.File) (pos : ℕ) (block : List ℕ)
        → InBounds f pos block 0
        → Drained f f pos pos block 0 (ok tt)
    drain_empty f pos block b = record {
      pos_le = b.pos_le;
      forward = omega arith;
      kept = rw append-nil (
          sym (
            take_all pos (take pos (V.contents f))
              (omega (arith, length-take pos (V.contents f)))));
      behind = λ _. refl;
      ending = inl (refl, omega arith);
    }

    drain_count :
        (f : V.File) (pos : ℕ) (block : List ℕ) (offset n : ℕ)
        → InBounds f pos block offset
        → (V.iter_write f pos (take offset block)).1 ≡ count n
        → Drained f
            (V.iter_write f pos (take offset block)).0
            pos
            (pos + n)
            block
            offset
            (if n == offset then ok tt else err eio)
    drain_count f pos block offset n b e =
        let (short, now) = L.write_count f pos (take offset block) n b.pos_le e in
        let part = take n (take offset block) in
        let len : length part ≡ n = length-take_le n (take offset block) short in
        let front : length (take pos (V.contents f)) ≡ pos = length-take_le pos _ b.pos_le in
        let same : take (pos + n) (splice pos part (V.contents f))
            ≡ take pos (V.contents f) ++ part =
          subst
            (λ k. take (pos + k) (splice pos part (V.contents f)) ≡ take pos (V.contents f) ++ part)
            len (take-splice pos part (V.contents f) b.pos_le) in
        let spec : take (pos + n) (log f pos block offset) ≡ take pos (V.contents f) ++ part =
          subst (λ k. take (k + n) (log f pos block offset) ≡ take pos (V.contents f) ++ part) front
            (take-append_add n (take pos (V.contents f)) (take offset block)) in
        record {
          pos_le = rw now (omega (arith, length-splice_ge pos part (V.contents f) b.pos_le));
          forward = omega arith;
          kept = rw now (same ∙ sym spec);
          behind = λ _. rw now (
              subst
                (λ k.
                  drop (pos + k) (splice pos part (V.contents f)) ≡ drop (pos + k) (V.contents f))
                len (drop-splice pos part (V.contents f) b.pos_le));
          ending = ground (arith, b.offset_le);
        }

    drain_fails :
        (f : V.File) (pos : ℕ) (block : List ℕ) (offset : ℕ) (e : Errno) (status : Status)
        → InBounds f pos block offset
        → (V.iter_write f pos (take offset block)).1 ≡ fails e
        → status ≡ err eio
        → Drained f (V.iter_write f pos (take offset block)).0 pos (pos + 0) block offset status
    drain_fails f pos block offset e status b h s =
        let still = L.write_fails f pos (take offset block) e b.pos_le h in
        let front : length (take pos (V.contents f)) ≡ pos = length-take_le pos _ b.pos_le in
        record {
          pos_le = omega (
            arith,
            ap {B = ℕ} length still,
            length-take pos (V.contents (V.iter_write f pos (take offset block)).0),
          );
          forward = omega arith;
          kept =
              rw add-zero
                (still ∙ sym (take-append_len pos (take pos (V.contents f)) _ (sym front)));
          behind = λ done. cc;
          ending = inr s;
        }

    abbrev after_write : V.File → ℕ → List ℕ → ℕ → V.File × Count
    after_write f pos block offset = V.iter_write f pos (take offset block)

    -- On a dump with an open file and a buffer in bounds, `blgy_prxy_dump_buf_drain` does not fault. It
    -- empties the buffer, and the file holds the log up to its new position: all of the log, or less
    -- with the error `EIO`.
    pub buf_drain-Drained :
        (cpu : ℕ) (f : V.File) (pos : ℕ) (schema : Schema) (block : List ℕ) (offset : ℕ)
        → InBounds f pos block offset
        → (f' : V.File) × (pos' : ℕ) × (status : Status) × (buf_drain
              (ready cpu f pos schema block offset)
            ≡ some (ready cpu f' pos' schema block 0, status))
          × Drained f f' pos pos' block offset status
    unfolding buf_drain read
    buf_drain-Drained cpu f pos schema block zero b =
        (f, pos, ok tt, refl, drain_empty f pos block b)
    buf_drain-Drained cpu f pos schema block (suc o) b =
        let nonzero : (suc o == 0) ≡ false = ground arith in
        (
          (after_write f pos block (suc o)).0,
          pos + moved (after_write f pos block (suc o)).1,
          (if written_size (after_write f pos block (suc o)).1 == suc o then ok tt else err eio),
          rw (nonzero, le→leb (0 + suc o) (length block) (omega (arith, b.offset_le))) refl,
          drained,
        )
      where
        drained :
            Drained f
              (after_write f pos block (suc o)).0
              pos
              (pos + moved (after_write f pos block (suc o)).1)
              block
              (suc o)
              (if written_size (after_write f pos block (suc o)).1 == suc o then ok tt else err eio)
        drained = elim (Count-cases (after_write f pos block (suc o)).1) [
          | inl (n, e) ↦ rw e (drain_count f pos block (suc o) n b e)
          | inr (no_space, e) ↦ rw e (
              drain_fails f pos block (suc o) no_space _ b e
                (ground (arith, as_size_big no_space, b.block_small, b.offset_le)))
        ]
