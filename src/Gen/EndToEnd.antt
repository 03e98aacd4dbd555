-- ===== src/Gen/EndToEnd.antt =====
-- From the file of a dump to the requests of the generator.
use biology.Base.{ℕ, ◌+◌, ◌*◌, ◌≤◌, ◌<◌, ◌≡◌, true, some, List, ◌++◌, length, All}
use biology.Base.Errno.{ok}
use biology.Kernel.{Allocator, IsAllocator, Source, IsSource, Blocks, Pages, IsPages, ptr}
use biology.Serial.Info.{Schema, Bio, BioInfo}
use biology.Serial.Header.{header_bytes}
use biology.Dump.Session.{all_records, Recordable}
use biology.Parser.State.{Parser, initial_buf_size, parser_init}
use biology.Parser.Window.{Grows}
use biology.Parser.Init.{parser_init-header_bytes}
use biology.Gen.Worker.{Group, kref_put}
use biology.Gen.Replay.{replay, requests, replay-requests}

-- A file that holds what a session of the proxy leaves, the header of a schema and records, with
-- fewer bytes than a size field behind them: the generator opens it, submits the request of each
-- record in order, each with its delay, ends without an error and releases its group, where every
-- allocation succeeds, the group is active and the clock is read once for each record and once more.
pub replay-dump :
    (B : Blocks) (A : Allocator) (fresh : ℕ → List ℕ) (allocates : (op : ℕ) → B.bio_alloc op ≡ true)
    (adds : (buf : List ℕ) (n : ℕ) → B.bio_add_page buf n ≡ n)
    (grants : (n : ℕ) → A.kmalloc n ≡ some (fresh n)) (S : Source) (R : IsSource S)
    (M : IsAllocator A) (G : Grows A) (P : Pages) (I : IsPages P) (schema : Schema) (f : S.File)
    (cpu start_ts : ℕ) (group group' : Group) (infos : List (BioInfo Bio)) (nows tail : List ℕ)
    → group.active ≡ true
    → kref_put group ≡ some group'
    → All (Recordable P schema) infos
    → length nows ≡ length infos + 1
    → S.contents f ≡ header_bytes schema ++ (all_records P schema infos ++ tail)
    → length (header_bytes schema) ≤ initial_buf_size
    → length tail < 8
    → (parser : Parser S) × (parser_init A (ptr f) ≡ some (parser, ok tt))
      × (replay B A group (record { cpu = cpu; start_ts = start_ts; parser = parser }) nows
          ≡ some (group', requests fresh P schema start_ts infos nows, some (ok tt)))
replay-dump B A fresh allocates adds grants S R M G P I schema f cpu start_ts group group' infos
      nows tail active put whole count e fits few =
    let (pos, block, valid, offset, opened, inside, left) =
      parser_init-header_bytes S R A M f (fresh initial_buf_size) (grants initial_buf_size) schema
        (all_records P schema infos ++ tail) (fresh (8 * (length schema + 1))) e fits
        (grants (8 * (length schema + 1))) in
    (
      _,
      opened,
      replay-requests B A fresh allocates adds grants S R M G P I schema f cpu start_ts group group'
          infos nows tail pos block valid offset active put whole count inside left few,
    )
