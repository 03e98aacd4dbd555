-- ===== src/Control/Handlers.antt =====
-- The handlers of the `ctl` files: biology-proxy-ctl.c, biology-proxy-dev-ctl.c, biology-gen-ctl.c
-- and biology-gen-worker-ctl.c. What a handler calls is a record of operations on the state.
use biology.Base.{
  ℕ, ◌+◌, ◌-◌, Bool, Option, none, some, List, [], ◌∷◌, ◌++◌, ◌==◌, if◌then◌else◌, ◌>>=◌, drop,
}
use biology.Base.Bytes.{◌-u64◌}
use biology.Base.Memory.{read}
use biology.Base.Errno.{einval, Ret, ok, err, Status}
use biology.Kernel.{Allocator}
use biology.Control.Words.{
  first_word_size, c_string, strncmp_equal, strcmp_equal, Cursor, parse_word,
}

-- The string constants, with their terminator.
abbrev pub create_word : List ℕ
create_word = b'c' ∷ b'r' ∷ b'e' ∷ b'a' ∷ b't' ∷ b'e' ∷ 0 ∷ []

abbrev pub enable_word : List ℕ
enable_word = b'e' ∷ b'n' ∷ b'a' ∷ b'b' ∷ b'l' ∷ b'e' ∷ 0 ∷ []

abbrev pub disable_word : List ℕ
disable_word = b'd' ∷ b'i' ∷ b's' ∷ b'a' ∷ b'b' ∷ b'l' ∷ b'e' ∷ 0 ∷ []

abbrev pub destroy_word : List ℕ
destroy_word = b'd' ∷ b'e' ∷ b's' ∷ b't' ∷ b'r' ∷ b'o' ∷ b'y' ∷ 0 ∷ []

abbrev pub start_word : List ℕ
start_word = b's' ∷ b't' ∷ b'a' ∷ b'r' ∷ b't' ∷ 0 ∷ []

-- A handler's result: a state and the number of bytes taken, or an error.
unfoldable pub taken {ℓ} : {D : Type ℓ} → ℕ → D × Status → D × Ret ℕ
taken cnt (d, err e) = (d, err e)
taken cnt (d, ok _) = (d, ok cnt)

-- The result of the inner handler, with the bytes of the whole command.
unfoldable pub retaken {ℓ} : {D : Type ℓ} → ℕ → D × Ret ℕ → D × Ret ℕ
retaken cnt (d, err e) = (d, err e)
retaken cnt (d, ok _) = (d, ok cnt)

-- `blgy_prxy_dev_enable`, `blgy_prxy_dev_disable` and `blgy_prxy_dev_destroy` of a device; each can be
-- a fault.
pub record DevOps (D : Type 0) : Type 0 where
  pub enable : Bool → List ℕ → D → Option (D × Status)
  pub disable : D → Option D
  pub destroy : D → Option D

module _ {D : Type 0} (O : DevOps D) where
  -- `_dev_ctl_enable`; the allocation of the word is not tested.
  unfoldable pub dev_ctl_enable : Allocator → D → List ℕ → ℕ → Option (D × Ret ℕ)
  unfolding taken
  dev_ctl_enable A dev buf cnt = do
    offset ← first_word_size buf cnt
    if offset == cnt then some (dev, err einval) else (do
      block ← A.kmalloc (offset + 1)
      bytes ← read 0 offset buf
      dump_payload ← c_string (bytes ++ (0 ∷ []))
      dump_dir ← c_string (drop (offset + 1) buf)
      enabled ← O.enable (strcmp_equal (b'1' ∷ []) dump_payload) dump_dir dev
      some (taken cnt enabled))

  -- `dev_ctl_sysfs_entry_ctl_store`. A command is compared up to its first space, so that a prefix
  -- of a command is taken for it.
  unfoldable pub dev_ctl_store : Allocator → D → List ℕ → ℕ → Option (D × Ret ℕ)
  unfolding dev_ctl_enable
  dev_ctl_store A dev buf cnt = do
    offset ← first_word_size buf cnt
    is_enable ← strncmp_equal enable_word buf offset
    is_disable ← strncmp_equal disable_word buf offset
    is_destroy ← strncmp_equal destroy_word buf offset
    let enabled = dev_ctl_enable A dev (drop (offset + 1) buf) (cnt - offset - 1)
    if is_enable
        then if offset == cnt
          then some (dev, err einval)
          else (enabled >>= λ r. some (retaken cnt r))
        else if is_disable
        then (O.disable dev >>= λ d. some (d, ok cnt))
        else if is_destroy
        then (O.disable dev >>= λ d. O.destroy d >>= λ gone. some (gone, ok cnt))
        else some (dev, err einval)

-- `blgy_prxy_dev_create` on the devices of the module.
module _ {D : Type 0} (create : List ℕ → List ℕ → D → D × Status) where
  -- `_ctl_create`; the allocation of the name is not tested.
  unfoldable pub ctl_create : Allocator → D → List ℕ → ℕ → Option (D × Ret ℕ)
  unfolding taken
  ctl_create A devs buf cnt = if cnt == 0 then some (devs, err einval) else (do
    offset ← first_word_size buf cnt
    if offset == cnt then some (devs, err einval) else (do
      block ← A.kmalloc (offset + 1)
      bytes ← read 0 offset buf
      name ← c_string (bytes ++ (0 ∷ []))
      target_path ← c_string (drop (offset + 1) buf)
      some (taken cnt (create name target_path devs))))

  -- `ctl_sysfs_entry_ctl_store`
  unfoldable pub ctl_store : Allocator → D → List ℕ → ℕ → Option (D × Ret ℕ)
  unfolding ctl_create
  ctl_store A devs buf cnt = do
    offset ← first_word_size buf cnt
    is_create ← strncmp_equal create_word buf offset
    let created = ctl_create A devs (drop (offset + 1) buf) (cnt - offset - 1)
    if offset == cnt
        then some (devs, err einval)
        else if is_create
        then (created >>= λ r. some (retaken cnt r))
        else some (devs, err einval)

-- `struct blgy_gen_group_config`. The number of processors is an `int`, held as its bit pattern below
-- 2^32.
pub record GroupConfig : Type 0 where
  pub name : List ℕ
  pub target_path : List ℕ
  pub dump_dir_path : List ℕ
  pub cpu_cnt : ℕ

-- `blgy_gen_group_create` on the groups of the module, and `kstrtoint(text, 10, &n)`, which gives the
-- bit pattern of an `int`, or an error on another text and on a number that is no `int`.
module _ {G : Type 0} (create : GroupConfig → G → G × Status) (kstrtoint : List ℕ → Option ℕ)
    (A : Allocator) where
  -- One `parse_word` of `blgy_gen_sysfs_entry_ctl_store`, and what follows if it succeeds.
  unfoldable pub with_word :
      G → Cursor → (List ℕ → Cursor → Option (G × Ret ℕ)) → Option (G × Ret ℕ)
  with_word groups cursor then_do = do
    parsed ← parse_word A cursor
    elim parsed [ err e ↦ some (groups, err einval) | ok r ↦ then_do (r.0) (r.1) ]

  -- The number of processors, and the creation.
  unfoldable pub start_group : G → ℕ → List ℕ → List ℕ → List ℕ → List ℕ → Option (G × Ret ℕ)
  unfolding taken
  start_group groups cnt name target_path dump_dir_path cpu = elim (kstrtoint cpu) [
    | none ↦ some (groups, err einval)
    | some n ↦ some (
        taken cnt (
          create
            (record {
              name = name;
              target_path = target_path;
              dump_dir_path = dump_dir_path;
              cpu_cnt = n;
            })
            groups))
  ]

  -- `blgy_gen_sysfs_entry_ctl_store`
  unfoldable pub gen_ctl_store : G → List ℕ → ℕ → Option (G × Ret ℕ)
  unfolding with_word start_group
  gen_ctl_store groups buf cnt = do
    offset ← first_word_size buf cnt
    is_start ← strncmp_equal buf start_word offset
    let cursor : Cursor = record { buf = drop (offset + 1) buf; cnt = cnt -u64 (offset + 1) }
    if is_start
        then with_word groups cursor (λ name c1. with_word groups c1 (λ target_path c2.
          with_word groups c2 (λ dump_dir_path c3.
            with_word groups c3
              (λ cpu c4. start_group groups cnt name target_path dump_dir_path cpu))))
        else some (groups, err einval)

-- `blgy_gen_group_sysfs_entry_ctl_store`
unfoldable pub group_ctl_store {ℓ} : {G : Type ℓ} → (G → G) → G → List ℕ → ℕ → Option (G × Ret ℕ)
group_ctl_store stop group buf cnt = do
  command ← c_string buf
  if strcmp_equal command (b's' ∷ b't' ∷ b'o' ∷ b'p' ∷ [])
      then some (stop group, ok cnt)
      else some (group, err einval)
