-- ===== src/Proxy/Create.antt =====
-- How a device is created and destroyed: `blgy_prxy_dev_create` and `blgy_prxy_dev_destroy`, with what
-- they hold of the kernel.
use biology.Base.{
  ℕ, ◌^◌, ◌<◌, ◌≡◌, refl, ap, ◌⊎◌, inl, inr, Bool, true, false, Option, none, some, List, [], ◌∷◌,
  ◌==◌, if◌then◌else◌, ◌>>=◌, arith,
}
use biology.Base.Errno.{Errno, enomem, ok, err, Status}
use biology.Proxy.Device.{atomic_inc, atomic_dec}

-- What a device holds: the text of its name, its memory, the file of its target, its disk, the disk
-- being added, and its kobject.
pub data Resource : Type 0 where
  name_text dev_memory target_file gendisk added_disk dev_kobject : Resource

unfoldable resource_id : Resource → ℕ
resource_id name_text = 0
resource_id dev_memory = 1
resource_id target_file = 2
resource_id gendisk = 3
resource_id added_disk = 4
resource_id dev_kobject = 5

-- To give back what is not held is a fault.
unfoldable pub release : Resource → List Resource → Option (List Resource)
unfolding resource_id
release r [] = none
release r (x ∷ held) =
    let rest = release r held in
    if resource_id x == resource_id r then some held else (rest >>= λ left. some (x ∷ left))

-- What the calls of `blgy_prxy_dev_create` come to: `kzalloc`, `bdev_file_open_by_path`,
-- `blk_alloc_disk`, `add_disk` and `blgy_prxy_dev_ctl_init`.
pub record Answers : Type 0 where
  pub memory : Bool
  pub target : Status
  pub disk : Status
  pub added : Status
  pub ctl : Status

-- What is held, the number of devices, and the result.
abbrev pub Outcome : Type 0
Outcome = List Resource × ℕ × Status

-- The labels `err_free_dev`, `err_put_file`, `err_put_disk` and `err_del_gendisk`.
unfoldable pub err_free_dev : List Resource → ℕ → Errno → Option Outcome
unfolding release
err_free_dev held cnt e = release dev_memory held >>= λ left. some (left, cnt, err e)

unfoldable pub err_put_file : List Resource → ℕ → Errno → Option Outcome
unfolding err_free_dev
err_put_file held cnt e = release target_file held >>= λ left. err_free_dev left cnt e

unfoldable pub err_put_disk : List Resource → ℕ → Errno → Option Outcome
unfolding err_put_file
err_put_disk held cnt e = release gendisk held >>= λ left. err_put_file left cnt e

unfoldable pub err_del_gendisk : List Resource → ℕ → Errno → Option Outcome
unfolding err_put_disk
err_del_gendisk held cnt e = release added_disk held >>= λ left. err_put_disk left cnt e

-- `blgy_prxy_dev_create` from the tests of its calls on, the last first.
unfoldable pub create_ctl : List Resource → ℕ → Status → Option Outcome
unfolding err_del_gendisk
create_ctl held cnt (err e) = err_del_gendisk held cnt e
create_ctl held cnt (ok _) = some (dev_kobject ∷ held, atomic_inc cnt, ok tt)

unfoldable pub create_added : Answers → List Resource → ℕ → Status → Option Outcome
unfolding create_ctl
create_added a held cnt (err e) = err_put_disk held cnt e
create_added a held cnt (ok _) = create_ctl (added_disk ∷ held) cnt a.ctl

unfoldable pub create_disk : Answers → List Resource → ℕ → Status → Option Outcome
unfolding create_added
create_disk a held cnt (err e) = err_put_file held cnt e
create_disk a held cnt (ok _) = create_added a (gendisk ∷ held) cnt a.added

unfoldable pub create_target : Answers → List Resource → ℕ → Status → Option Outcome
unfolding create_disk
create_target a held cnt (err e) = err_free_dev held cnt e
create_target a held cnt (ok _) = create_disk a (target_file ∷ held) cnt a.disk

unfoldable pub create_memory : Answers → List Resource → ℕ → Bool → Option Outcome
unfolding create_target
create_memory a held cnt false = some (held, cnt, err enomem)
create_memory a held cnt true = create_target a (dev_memory ∷ held) cnt a.target

-- `blgy_prxy_dev_create`; the caller holds the text of the name.
unfoldable pub dev_create : Answers → List Resource → ℕ → Option Outcome
unfolding create_memory
dev_create a held cnt = create_memory a held cnt a.memory

-- `_blgy_prxy_dev_destroy_work`
unfoldable pub destroy_work : List Resource → ℕ → Option (List Resource × ℕ)
unfolding release
destroy_work held cnt = do
  h1 ← release dev_kobject held
  h2 ← release added_disk h1
  h3 ← release gendisk h2
  h4 ← release target_file h3
  h5 ← release name_text h4
  h6 ← release dev_memory h5
  some (h6, atomic_dec cnt)

-- `blgy_prxy_dev_destroy` with the work that it queues, once that has run; without memory for the
-- work, the device stays.
unfoldable pub dev_destroy : Bool → List Resource → ℕ → Option (List Resource × ℕ)
unfolding destroy_work
dev_destroy memory held cnt = if memory then destroy_work held cnt else some (held, cnt)

count_back : (cnt : ℕ) → cnt < 2 ^ 32 → atomic_dec (atomic_inc cnt) ≡ cnt
count_back cnt small = omega arith

abbrev IsUndone : List Resource → ℕ → Outcome → Type 0
IsUndone held cnt r = (e : Errno) × (r ≡ (name_text ∷ held, cnt, err e))

abbrev IsDone : List Resource → ℕ → Outcome → Type 0
IsDone held cnt r =
    (r.2 ≡ ok tt) × (r.1 ≡ atomic_inc cnt) × (dev_destroy true r.0 r.1 ≡ some (held, cnt))

module _ (a : Answers) (held : List Resource) (cnt : ℕ) (small : cnt < 2 ^ 32) where
  abbrev Good : Option Outcome → Type 0
  Good o = (r : Outcome) × (o ≡ some r) × (IsUndone held cnt r ⊎ IsDone held cnt r)

  create_ctl-Good :
      (s : Status)
      → Good (create_ctl (added_disk ∷ gendisk ∷ target_file ∷ dev_memory ∷ name_text ∷ held) cnt s)
  unfolding create_ctl err_del_gendisk err_put_disk err_put_file err_free_dev release resource_id
      dev_destroy destroy_work
  create_ctl-Good (err e) = (_, refl, inl (e, refl))
  create_ctl-Good (ok _) =
      (_, refl, inr (refl, refl, ap (λ n. some (held, n)) (count_back cnt small)))

  create_added-Good :
      (s : Status)
      → Good (create_added a (gendisk ∷ target_file ∷ dev_memory ∷ name_text ∷ held) cnt s)
  unfolding create_added err_put_disk err_put_file err_free_dev release resource_id
  create_added-Good (err e) = (_, refl, inl (e, refl))
  create_added-Good (ok _) = create_ctl-Good a.ctl

  create_disk-Good :
      (s : Status) → Good (create_disk a (target_file ∷ dev_memory ∷ name_text ∷ held) cnt s)
  unfolding create_disk err_put_file err_free_dev release resource_id
  create_disk-Good (err e) = (_, refl, inl (e, refl))
  create_disk-Good (ok _) = create_added-Good a.added

  create_target-Good : (s : Status) → Good (create_target a (dev_memory ∷ name_text ∷ held) cnt s)
  unfolding create_target err_free_dev release resource_id
  create_target-Good (err e) = (_, refl, inl (e, refl))
  create_target-Good (ok _) = create_disk-Good a.disk

  create_memory-Good : (b : Bool) → Good (create_memory a (name_text ∷ held) cnt b)
  unfolding create_memory
  create_memory-Good false = (_, refl, inl (enomem, refl))
  create_memory-Good true = create_target-Good a.target

-- Creation never gives back what it does not hold, whichever of its calls fail: either it fails, and
-- holds what was held before, where the name is still there; or it succeeds, counts the device, and a
-- destruction that has memory for its work gives back all that was taken, with the name, and counts
-- the device off.
pub dev_create-dev_destroy :
    (a : Answers) (held : List Resource) (cnt : ℕ)
    → cnt < 2 ^ 32
    → (r : Outcome) × (dev_create a (name_text ∷ held) cnt ≡ some r)
      × (((e : Errno) × (r ≡ (name_text ∷ held, cnt, err e)))
          ⊎ ((r.2 ≡ ok tt)
              × (r.1 ≡ atomic_inc cnt)
              × (dev_destroy true r.0 r.1 ≡ some (held, cnt))))
unfolding dev_create
dev_create-dev_destroy a held cnt small = create_memory-Good a held cnt small a.memory
