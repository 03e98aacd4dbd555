-- ===== src/Gen/Group.antt =====
-- `blgy_gen_group_create`: the workers of a group, and who frees it.
use biology.Base.{
  ltb, ◌^◌, if◌then◌else◌, ℕ, zero, suc, ◌+◌, true, false, Option, some, List, [], ◌++◌, ◌>>=◌,
}
use biology.Base.Errno.{ok, err, Status}
use biology.Kernel.{Allocator, Source, Ptr, Blocks}
use biology.Dump.Init.{build_file_path}
use biology.Gen.Worker.{Group, Sizes, Submitted, kref_put, worker_create}

-- `blgy_gen_group_ctl_init`, with what `kobject_init_and_add` returns.
unfoldable pub group_ctl_init : Group → Status → Group × Status
group_ctl_init group (err e) = (group, err e)
group_ctl_init group (ok _) = (record group { kobj_inited = true }, ok tt)

-- What the code around a group gives: the clock at the creation and at the first submission of
-- each worker, the opens, and `kobject_init_and_add`.
pub record World (S : Source) : Type 0 where
  pub created : ℕ → ℕ
  pub submitted : ℕ → ℕ
  pub filp_open : List ℕ → Ptr S.File
  pub bdev_open : ℕ → Ptr ℕ
  pub kobject_add : Status

-- The turns of the loop for an `int`, given as its bit pattern: none for a negative one.
abbrev pub turns : ℕ → ℕ
turns cpu_cnt = if ltb cpu_cnt (2 ^ 31) then cpu_cnt else 0

module _ {S : Source} (B : Blocks) (A : Allocator) (Z : Sizes) (W : World S) where
  -- The test of the result of a worker in the loop of `blgy_gen_group_create`; `continue` is the
  -- rest of the loop.
  unfoldable pub group_more :
      (Group → Option (Group × List (Submitted S) × Status))
      → Group × List (Submitted S) × Status
      → Option (Group × List (Submitted S) × Status)
  group_more continue (group, first, err e) = some (group, first, err e)
  group_more continue (group, first, ok _) = do
    (last, others, status) ← continue group
    some (last, first ++ others, status)

  -- The loop, with `left` processors from `i` on: the group, the first submissions of the workers,
  -- and the status. A null path is written to, which is a fault.
  unfoldable pub group_workers :
      List ℕ → ℕ → ℕ → Group → Option (Group × List (Submitted S) × Status)
  unfolding group_more
  group_workers dump_dir_path zero i group = some (group, [], ok tt)
  group_workers dump_dir_path (suc left) i group = do
    block ← A.kmalloc 4096
    path ← build_file_path dump_dir_path i
    created ←
        worker_create B A Z group i (W.created i) (W.submitted i) (W.filp_open path) (W.bdev_open i)
    group_more (group_workers dump_dir_path left (i + 1)) created

  -- The label `end`.
  unfoldable pub group_end :
      Group × List (Submitted S) × Status → Option (Group × List (Submitted S) × Status)
  group_end (group, works, status) = do group' ← kref_put group; some (group', works, status)

  -- The creation of the kobject, and the label `end`.
  unfoldable pub group_publish :
      Group × List (Submitted S) × Status → Option (Group × List (Submitted S) × Status)
  unfolding group_end
  group_publish (group, works, err e) = group_end (group, works, err e)
  group_publish (group, works, ok _) =
      let (group', status) = group_ctl_init group W.kobject_add in group_end (group', works, status)

  -- `blgy_gen_group_create`. The group is written to before its pointer is tested, so a null one
  -- is a fault.
  unfoldable pub group_create : List ℕ → ℕ → Option (Group × List (Submitted S) × Status)
  unfolding group_publish
  group_create dump_dir_path cpu_cnt = do
    block ← A.kmalloc Z.sizeof_group
    works ←
        group_workers dump_dir_path (turns cpu_cnt) 0
          (record { active = true; refcount = 1; kobj_inited = false; freed = false })
    group_publish works
