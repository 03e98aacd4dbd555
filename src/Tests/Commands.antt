-- ===== src/Tests/Commands.antt =====
-- The commands of the library, as the handlers take them, and the lives of a group.
use biology.Base.{
  ltb, ◌<◌, lt→ltb, ◌^◌, if◌then◌else◌, ℕ, ◌≡◌, refl, sym, ap, ◌∙◌, append-nil, Bool, true, false,
  Option, some, List, [], ◌∷◌, ◌++◌, length, arith, none, ◌==◌, if◌then◌else◌,
}
use biology.Base.Decimal.{digits, print_dec, read_dec, read_dec-print_dec}
use biology.Kernel.{ptr, Allocator}
use biology.Gen.Worker.{worker_create, worker_alloc, Group, Sizes, group_destroy, kref_put}
use biology.Dump.Init.{build_file_path}
use biology.Gen.Group.{group_more, World, group_workers, group_end, group_publish, group_create}
use biology.Gen.Held.{Held, running}
use biology.Gen.Lifetime.{Reach, group_create-Held}
use biology.Base.Errno.{enomem, err, ok, Status}
use biology.Control.Handlers.{taken, DevOps, GroupConfig, dev_ctl_store, ctl_store, gen_ctl_store}
use biology.Control.Library.{create_dev_cmd, dev_enable_cmd, start_worker_cmd}
use biology.Control.RoundTrip.{ctl_store-create_dev_cmd, dev_ctl_store-dev_enable_cmd}
use biology.Control.Start.{gen_ctl_store-start_worker_cmd}
use biology.Tests.Machine.{regrown, blank, machine, dumps, layer}

abbrev short_name : List ℕ
short_name = b'd' ∷ b'0' ∷ []

abbrev short_path : List ℕ
short_path = b'/' ∷ b'x' ∷ []

-- Creation writes down the name.
abbrev named : List ℕ → List ℕ → List (List ℕ) → List (List ℕ) × Status
named name path names = (name ∷ names, ok tt)

abbrev switch : DevOps Bool
switch = record {
  enable = λ payload dir on. some (true, ok tt);
  disable = λ on. some false;
  destroy = λ on. some on;
}

ctl_store-create_dev_cmd_example :
    ctl_store named machine []
      (create_dev_cmd short_name short_path ++ (0 ∷ []))
      (length (create_dev_cmd short_name short_path))
    ≡ some (taken (length (create_dev_cmd short_name short_path)) (named short_name short_path []))
ctl_store-create_dev_cmd_example =
    ctl_store-create_dev_cmd named machine short_name short_path (blank 3) []
      ((omega arith, omega arith), ((omega arith, omega arith), tt))
      (omega arith, (omega arith, tt)) refl

dev_ctl_store-dev_enable_cmd_example :
    dev_ctl_store switch machine false
      (dev_enable_cmd true short_path ++ (0 ∷ []))
      (length (dev_enable_cmd true short_path))
    ≡ some (taken (length (dev_enable_cmd true short_path)) (true, ok tt))
dev_ctl_store-dev_enable_cmd_example =
    dev_ctl_store-dev_enable_cmd switch machine true short_path (blank 2) false
      (omega arith, (omega arith, tt)) refl

-- A reader of digits that refuses what is no `int`.
abbrev digits_only : List ℕ → Option ℕ
digits_only text = if ltb (read_dec 0 text) (2 ^ 31) then some (read_dec 0 text) else none

digits_only-print_dec : (n : ℕ) → n < 2 ^ 31 → digits_only (print_dec n) ≡ some n
unfolding read_dec
digits_only-print_dec n small =
    let same : read_dec 0 (print_dec n) ≡ n =
      ap (read_dec 0) (sym (append-nil (print_dec n))) ∙ read_dec-print_dec n [] in
    rw same (rw (lt→ltb n (2 ^ 31) small) refl)

start_size : length (start_worker_cmd short_name short_path short_path 2) ≡ 16
unfolding start_worker_cmd print_dec digits
start_size = refl

-- Creation writes down the number of processors.
abbrev counted : GroupConfig → List ℕ → List ℕ × Status
counted cfg counts = (cfg.cpu_cnt ∷ counts, ok tt)

gen_ctl_store-start_worker_cmd_example :
    gen_ctl_store counted digits_only machine []
      (start_worker_cmd short_name short_path short_path 2 ++ (0 ∷ []))
      (length (start_worker_cmd short_name short_path short_path 2))
    ≡ some (taken (length (start_worker_cmd short_name short_path short_path 2)) (2 ∷ [], ok tt))
gen_ctl_store-start_worker_cmd_example =
    gen_ctl_store-start_worker_cmd machine blank (λ n. refl) counted digits_only [] short_name
      short_path short_path 2 ((omega arith, omega arith), ((omega arith, omega arith), tt))
      ((omega arith, omega arith), ((omega arith, omega arith), tt))
      ((omega arith, omega arith), ((omega arith, omega arith), tt)) (omega arith)
      digits_only-print_dec (omega (arith, start_size))

abbrev sizes : Sizes
sizes = record { sizeof_group = 64; sizeof_worker = 128; sizeof_work = 96 }

abbrev world : World dumps
world = record {
  created = λ i. i;
  submitted = λ i. i;
  filp_open = λ path. ptr [];
  bdev_open = λ i. ptr 0;
  kobject_add = ok tt;
}

abbrev freed_group : Group
freed_group = record { active = true; refcount = 0; kobj_inited = false; freed = true }

-- A machine that has no memory for a worker.
abbrev crowded : Allocator
crowded = record {
  kmalloc = λ n. if n == 128 then none else some (blank n);
  krealloc = λ old n. some (regrown old n);
}

-- The creation fails at the first of two processors, and the group is freed.
no_worker : group_create layer crowded sizes world short_path 2 ≡ some (freed_group, [], err enomem)
unfolding group_create group_workers group_more group_publish group_end worker_create worker_alloc
    kref_put group_destroy build_file_path print_dec
no_worker = refl

group_create-Held_example : Held freed_group 0
unfolding running
group_create-Held_example =
    group_create-Held layer crowded sizes world short_path 2 freed_group freed_group [] (err enomem)
      [] no_worker (Reach.here (freed_group, []))
