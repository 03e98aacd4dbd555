-- ===== src/Gen/Replay.antt =====
-- The run of one worker: what it submits from a dump, in which order and when.
use biology.Base.{
  ℕ, ◌+◌, ◌<◌, ◌≡◌, refl, ap, ◌∙◌, inl, inr, true, false, Option, none, some, List, [], ◌∷◌, ◌++◌,
  ◌==◌, ==_iff, Bool-cases, if◌then◌else◌, ◌>>=◌, length, All, append_assoc, arith,
}
use biology.Base.Errno.{ok, Status}
use biology.Kernel.{Allocator, IsAllocator, Source, IsSource, Blocks, Pages, IsPages}
use biology.Serial.Info.{Payload, BioInfo, Bio, Schema, Field, store_field}
use biology.Serial.Decode.{Block}
use biology.Serial.Layout.{payload_bytes, record_bytes}
use biology.Serial.RoundTrip.{transfer, transfer_field}
use biology.Serial.Payload.{receive_gen}
use biology.Dump.Session.{all_records, Recordable}
use biology.Parser.State.{read_next, parser_free}
use biology.Parser.Window.{reading, pending, InBounds, Grows}
use biology.Parser.Next.{read_next-record_bytes, read_next_empty}
use biology.Gen.Request.{GenBio, bio_buffer, bio_attach, bio_create, replay_delay}
use biology.Gen.Worker.{
  Group, Worker, zeroed, kref_put, Submitted, scheduled, destroyed, work_destroy, worker_destroy,
  work_read, work_schedule, work_submit,
}

module _ {S : Source} where
  -- What follows a submission: `continue` is the next call of `blgy_gen_work`, once the delay has
  -- passed.
  unfoldable pub replay_next :
      (Group → Worker S → Option (Group × List (GenBio × ℕ) × Option Status))
      → Group × Submitted S
      → Option (Group × List (GenBio × ℕ) × Option Status)
  replay_next continue (group, destroyed status) = some (group, [], some status)
  replay_next continue (group, scheduled worker bio delay) = do
    (last, bios, ending) ← continue group worker
    some (last, (bio, delay) ∷ bios, ending)

  -- `blgy_gen_work`, again and again: a request is submitted, and then the next one is read and
  -- scheduled, at the next reading of the clock. The result is every request with its delay, and
  -- how the work ended, or `none` when there are no more readings.
  unfoldable pub replay :
      Blocks
      → Allocator
      → Group
      → Worker S
      → List ℕ
      → Option (Group × List (GenBio × ℕ) × Option Status)
  unfolding replay_next
  replay B A group worker [] = some (group, [], none)
  replay B A group worker (now ∷ nows) = do
    step ← work_submit B A group worker now
    replay_next (λ group' worker'. replay B A group' worker' nows) step

-- The request that `blgy_gen_bio_create` makes where every allocation succeeds.
unfoldable pub bio_for : (ℕ → List ℕ) → BioInfo Block → GenBio
bio_for fresh info = record {
  bi_opf = info.op;
  bi_sector = info.sector;
  bi_size = info.size;
  bi_private = elim info.payload.content [ none ↦ fresh info.size | some block ↦ block ];
}

-- A payload has a size and a block, or neither.
data HasPayload (payload : Payload Block) : Type 0 where
  without : payload.size ≡ 0 → payload.content ≡ none → HasPayload payload
  with_block :
      (block : List ℕ)
      → (payload.size == 0) ≡ false
      → payload.content ≡ some block
      → HasPayload payload

module _ (P : Pages) (info : BioInfo Bio) where
  receive_gen-HasPayload : (to : BioInfo Block) → HasPayload ((receive_gen P info to).payload)
  unfolding receive_gen
  receive_gen-HasPayload to = elim (Bool-cases (info.payload.size == 0)) [
    | inl z ↦ HasPayload.without ((==_iff info.payload.size 0).0 z) (rw z refl)
    | inr n ↦ HasPayload.with_block (payload_bytes P info) n (rw n refl)
  ]

  transfer-HasPayload :
      (schema : Schema) (to : BioInfo Block)
      → HasPayload to.payload
      → HasPayload ((transfer (receive_gen P) schema info to).payload)
  unfolding transfer transfer_field store_field
  transfer-HasPayload [] to h = h
  transfer-HasPayload (Field.payload ∷ fields) to h =
      transfer-HasPayload fields (receive_gen P info to) (receive_gen-HasPayload to)
  transfer-HasPayload (Field.id ∷ fields) to h = transfer-HasPayload fields _ h
  transfer-HasPayload (Field.start_ts ∷ fields) to h = transfer-HasPayload fields _ h
  transfer-HasPayload (Field.end_ts ∷ fields) to h = transfer-HasPayload fields _ h
  transfer-HasPayload (Field.sector ∷ fields) to h = transfer-HasPayload fields _ h
  transfer-HasPayload (Field.size ∷ fields) to h = transfer-HasPayload fields _ h
  transfer-HasPayload (Field.op ∷ fields) to h = transfer-HasPayload fields _ h
  transfer-HasPayload (Field.cpu ∷ fields) to h = transfer-HasPayload fields _ h
  transfer-HasPayload (Field.status ∷ fields) to h = transfer-HasPayload fields _ h

-- The member values of a record, as the parser delivers them.
abbrev pub received : Pages → Schema → BioInfo Bio → BioInfo Block
received P schema info = transfer (receive_gen P) schema info zeroed

-- Each request with its delay, at the readings of the clock, for a worker that began at
-- `start_ts`.
unfoldable pub requests :
    (ℕ → List ℕ) → Pages → Schema → ℕ → List (BioInfo Bio) → List ℕ → List (GenBio × ℕ)
requests fresh P schema start_ts [] nows = []
requests fresh P schema start_ts (info ∷ infos) [] = []
requests fresh P schema start_ts (info ∷ infos) (now ∷ nows) =
    (
      bio_for fresh (received P schema info),
      replay_delay now start_ts (received P schema info).start_ts,
    )
    ∷ requests fresh P schema start_ts infos nows

module _ (B : Blocks) (A : Allocator) (fresh : ℕ → List ℕ)
    (allocates : (op : ℕ) → B.bio_alloc op ≡ true)
    (adds : (buf : List ℕ) (n : ℕ) → B.bio_add_page buf n ≡ n)
    (grants : (n : ℕ) → A.kmalloc n ≡ some (fresh n)) where
  bio_create-bio_for :
      (info : BioInfo Block)
      → HasPayload info.payload
      → bio_create B A info ≡ some (some (bio_for fresh info))
  unfolding bio_create bio_buffer bio_attach bio_for
  bio_create-bio_for info h =
      let same : (info.size == info.size) ≡ true = (==_iff info.size info.size).1 refl in
      elim h [
        | HasPayload.without z e ↦ rw (allocates info.op) (
            rw ((==_iff info.payload.size 0).1 z)
              (rw (grants info.size, adds (fresh info.size) info.size, same, e) refl))
        | HasPayload.with_block block n e ↦
            rw (allocates info.op) (rw (n, e) (rw (adds block info.size, same) refl))
      ]

  module _ (S : Source) (R : IsSource S) (M : IsAllocator A) (G : Grows A) (P : Pages)
      (I : IsPages P) (schema : Schema) (f : S.File) (cpu start_ts : ℕ) where
    abbrev at : ℕ → List ℕ → ℕ → ℕ → Worker S
    at pos block valid offset = record {
      cpu = cpu;
      start_ts = start_ts;
      parser = reading S schema f pos block valid offset;
    }

    submit_active :
        (group : Group) (worker : Worker S) (now : ℕ)
        → group.active ≡ true
        → work_submit B A group worker now
          ≡ (read_next A worker.parser zeroed >>= work_read B A group worker now)
    unfolding work_submit
    submit_active group worker now active =
        ap
          (λ b.
            if b
            then (read_next A worker.parser zeroed >>= work_read B A group worker now)
            else work_destroy group worker (ok tt))
          active

    submit_next :
        (group : Group) (info : BioInfo Bio) (pos : ℕ) (block : List ℕ) (valid offset : ℕ)
        (rest : List ℕ) (now : ℕ)
        → group.active ≡ true
        → Recordable P schema info
        → InBounds block valid offset
        → pending S schema f pos block valid offset ≡ record_bytes P schema info ++ rest
        → (pos' : ℕ) × (block' : List ℕ) × (valid' : ℕ) × (offset' : ℕ) × (work_submit B A group
              (at pos block valid offset)
              now
            ≡ some (
              group,
              scheduled
                  (at pos' block' valid' offset')
                  (bio_for fresh (received P schema info))
                  (replay_delay now start_ts (received P schema info).start_ts),
            ))
          × InBounds block' valid' offset'
          × (pending S schema f pos' block' valid' offset' ≡ rest)
    unfolding work_read work_schedule
    submit_next group info pos block valid offset rest now active (w, small) b e =
        let (pos', block', valid', offset', run, b', left) =
          read_next-record_bytes S schema f A M G R P I info w
            (λ nz. (fresh info.payload.size, grants info.payload.size)) small pos block valid offset
            rest zeroed b e in
        (
          pos',
          block',
          valid',
          offset',
          submit_active group (at pos block valid offset) now active
              ∙ rw run (
                  rw
                    (bio_create-bio_for (received P schema info)
                      (transfer-HasPayload P info schema zeroed (HasPayload.without refl refl)))
                    refl),
          b',
          left,
        )

    submit_last :
        (group group' : Group) (pos : ℕ) (block : List ℕ) (valid offset now : ℕ)
        → group.active ≡ true
        → kref_put group ≡ some group'
        → InBounds block valid offset
        → length (pending S schema f pos block valid offset) < 8
        → work_submit B A group (at pos block valid offset) now ≡ some (group', destroyed (ok tt))
    unfolding work_read work_destroy worker_destroy parser_free
    submit_last group group' pos block valid offset now active put b few =
        let (pos', block', valid', offset', run) =
          read_next_empty S schema f A M G R pos block valid offset zeroed b few in
        submit_active group (at pos block valid offset) now active ∙ rw run (rw put refl)

    -- A worker that stands before the records of a dump, with fewer bytes than a size field behind
    -- them, submits the request of each record, in order, each with its delay, and then gives its
    -- reference to the group back, provided that every allocation succeeds and the group is not
    -- stopped. It takes one reading of the clock for each record and one more.
    pub replay-requests :
        (group group' : Group) (infos : List (BioInfo Bio)) (nows tail : List ℕ) (pos : ℕ)
        (block : List ℕ) (valid offset : ℕ)
        → group.active ≡ true
        → kref_put group ≡ some group'
        → All (Recordable P schema) infos
        → length nows ≡ length infos + 1
        → InBounds block valid offset
        → pending S schema f pos block valid offset ≡ all_records P schema infos ++ tail
        → length tail < 8
        → replay B A group (at pos block valid offset) nows
          ≡ some (group', requests fresh P schema start_ts infos nows, some (ok tt))
    unfolding replay replay_next requests all_records
    replay-requests group group' [] (now ∷ nows) tail pos block valid offset active put h count b e
          few =
        rw
          (submit_last group group' pos block valid offset now active put b
            (omega (arith, ap {B = ℕ} length e)))
          refl
    replay-requests group group' infos [] tail pos block valid offset active put h count b e few =
        absurd (omega arith)
    replay-requests group group' (info ∷ infos) (now ∷ nows) tail pos block valid offset active put
          (r, h) count b e few =
        let (pos', block', valid', offset', run, b', left) =
          submit_next group info pos block valid offset (all_records P schema infos ++ tail) now
            active r b
            (e ∙ append_assoc (record_bytes P schema info) (all_records P schema infos) tail) in
        rw
          (
            run,
            replay-requests group group' infos nows tail pos' block' valid' offset' active put h
                (omega arith) b' left few,
          )
          refl
