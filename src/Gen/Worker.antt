-- ===== src/Gen/Worker.antt =====
-- The workers and the group of biology-gen-worker.c: creation, one step of the replay, the end.
-- A use of a freed object is a fault.
use biology.Base.{
  ℕ, ◌+◌, ◌-◌, Bool, true, false, Option, none, some, List, [], ◌∷◌, ◌==◌, if◌then◌else◌, ◌>>=◌,
}
use biology.Base.Errno.{eio, enomem, ok, err, Status}
use biology.Kernel.{Allocator, Source, Ptr, err_ptr, Blocks}
use biology.Serial.Info.{BioInfo}
use biology.Serial.Decode.{Block}
use biology.Parser.State.{
  Parser, ReadNext, next_ok, next_empty, next_err, parser_init, parser_free, read_next,
}
use biology.Gen.Request.{GenBio, bio_create, replay_delay}

-- `struct blgy_gen_group`; `freed` once it has been given back.
pub record Group : Type 0 where
  pub active : Bool
  pub refcount : ℕ
  pub kobj_inited : Bool
  pub freed : Bool

-- `struct blgy_gen_worker`, less the pointers to its group and its device.
pub record Worker (S : Source) : Type 0 where
  pub cpu : ℕ
  pub start_ts : ℕ
  pub parser : Parser S

-- The sizes of the structures, which the headers of the kernel decide.
pub record Sizes : Type 0 where
  pub sizeof_group : ℕ
  pub sizeof_worker : ℕ
  pub sizeof_work : ℕ

-- `memset(&info, 0, sizeof(struct blgy_prxy_bio_info))`
abbrev pub zeroed : BioInfo Block
zeroed = record {
  cpu = 0;
  id = 0;
  start_ts = 0;
  end_ts = 0;
  sector = 0;
  size = 0;
  op = 0;
  status = 0;
  payload = record { size = 0; content = none };
}

-- `blgy_gen_group_destroy`
unfoldable pub group_destroy : Group → Group
group_destroy group = record group { kobj_inited = false; freed = true }

-- `kref_get(&group->refcount)`
unfoldable pub kref_get : Group → Option Group
kref_get group = if group.freed then none else some (record group { refcount = group.refcount + 1 })

-- `kref_put(&group->refcount, blgy_gen_group_destroy)`
unfoldable pub kref_put : Group → Option Group
unfolding group_destroy
kref_put group =
    let left : Group = record group { refcount = group.refcount - 1 } in
    if group.freed
    then none
    else if left.refcount == 0
    then some (group_destroy left)
    else some left

-- `blgy_gen_group_stop`
unfoldable pub group_stop : Group → Group
group_stop group = record group { active = false }

-- What is left of a work after `blgy_gen_work_submit`: it is scheduled with a request and a delay
-- in nanoseconds, or it and its worker are destroyed.
pub data Submitted (S : Source) : Type 0 where
  scheduled : Worker S → GenBio → ℕ → Submitted S
  destroyed : Status → Submitted S

module _ {S : Source} where
  -- `blgy_gen_worker_destroy`, and the `kfree` of `blgy_gen_work_destroy`.
  unfoldable pub worker_destroy : Group → Worker S → Option Group
  worker_destroy group worker = do freed ← parser_free worker.parser; kref_put group

  -- `blgy_gen_work_destroy` before a return.
  unfoldable pub work_destroy : Group → Worker S → Status → Option (Group × Submitted S)
  unfolding worker_destroy
  work_destroy group worker status = do
    group' ← worker_destroy group worker
    some (group', destroyed status)

  module _ (B : Blocks) (A : Allocator) where
    -- `blgy_gen_work_submit` from the test of `work->bio` on, with the clock that it reads.
    unfoldable pub work_schedule :
        Group → Worker S → ℕ → BioInfo Block → Option GenBio → Option (Group × Submitted S)
    unfolding work_destroy
    work_schedule group worker now info none = work_destroy group worker (err enomem)
    work_schedule group worker now info (some bio) =
        some (group, scheduled worker bio (replay_delay now worker.start_ts info.start_ts))

    -- The same from the result of `blgy_gen_parser_read_next` on.
    unfoldable pub work_read :
        Group → Worker S → ℕ → Parser S × ReadNext → Option (Group × Submitted S)
    unfolding work_destroy work_schedule
    work_read group worker now (parser, next_empty) =
        work_destroy group (record worker { parser = parser }) (ok tt)
    work_read group worker now (parser, next_err) =
        work_destroy group (record worker { parser = parser }) (err eio)
    work_read group worker now (parser, next_ok info) =
        bio_create B A info >>= work_schedule group (record worker { parser = parser }) now info

    -- `blgy_gen_work_submit`
    unfoldable pub work_submit : Group → Worker S → ℕ → Option (Group × Submitted S)
    unfolding work_destroy work_read
    work_submit group worker now =
        if group.active
        then (read_next A worker.parser zeroed >>= work_read group worker now)
        else work_destroy group worker (ok tt)

  module _ (B : Blocks) (A : Allocator) (Z : Sizes) where
    -- The end of `blgy_gen_worker_create`. The allocation of the work is not tested, and neither is
    -- the result of the first submission.
    unfoldable pub worker_start :
        Group → Worker S → ℕ → Ptr ℕ → Option (Group × List (Submitted S) × Status)
    worker_start group worker now (err_ptr e) = do
      freed ← parser_free worker.parser
      group' ← kref_put group
      some (group', [], err e)
    worker_start group worker now target = do
      work ← A.kmalloc Z.sizeof_work
      (group', submitted) ← work_submit B A group worker now
      some (group', submitted ∷ [], ok tt)

    -- `blgy_gen_worker_create` from the result of `blgy_gen_parser_init` on. When the parser fails,
    -- the worker is freed before its group is reached through it, which is a fault.
    unfoldable pub worker_parsed :
        Group → ℕ → ℕ → ℕ → Ptr ℕ → Parser S × Status → Option (Group × List (Submitted S) × Status)
    unfolding worker_start
    worker_parsed group cpu start_ts now target (parser, err e) = none
    worker_parsed group cpu start_ts now target (parser, ok _) =
        worker_start group (record { cpu = cpu; start_ts = start_ts; parser = parser }) now target

    -- The same from the test of the allocation of the worker on.
    unfoldable pub worker_alloc :
        Group
        → ℕ
        → ℕ
        → ℕ
        → Ptr S.File
        → Ptr ℕ
        → Option (List ℕ)
        → Option (Group × List (Submitted S) × Status)
    unfolding kref_get worker_parsed
    worker_alloc group cpu start_ts now opened target none = some (group, [], err enomem)
    worker_alloc group cpu start_ts now opened target (some worker) = do
      held ← kref_get group
      parsed ← parser_init A opened
      worker_parsed held cpu start_ts now target parsed

    -- `blgy_gen_worker_create`, with the readings of the clock and what the two opens return.
    unfoldable pub worker_create :
        Group → ℕ → ℕ → ℕ → Ptr S.File → Ptr ℕ → Option (Group × List (Submitted S) × Status)
    unfolding worker_alloc
    worker_create group cpu start_ts now opened target =
        worker_alloc group cpu start_ts now opened target (A.kmalloc Z.sizeof_worker)
