-- ===== src/Control/Files.antt =====
-- The files of the modules, as biologylib opens them: the paths and the `open` functions of its
-- proxy.c and gen.c.
use biology.Base.{
  ℕ, ◌+◌, Bool, false, Option, none, some, List, [], ◌∷◌, ◌++◌, leb, if◌then◌else◌, length,
}

abbrev pub prxy_root : List ℕ
prxy_root =
    b'/' ∷ b's' ∷ b'y' ∷ b's' ∷ b'/' ∷ b'm' ∷ b'o' ∷ b'd' ∷ b'u' ∷ b'l' ∷ b'e' ∷ b'/' ∷ b'b' ∷ b'i'
    ∷ b'o' ∷ b'l' ∷ b'o' ∷ b'g' ∷ b'y' ∷ b'_' ∷ b'p' ∷ b'r' ∷ b'o' ∷ b'x' ∷ b'y' ∷ []

abbrev pub prxy_module_ctl : List ℕ
prxy_module_ctl =
    b'/' ∷ b's' ∷ b'y' ∷ b's' ∷ b'/' ∷ b'm' ∷ b'o' ∷ b'd' ∷ b'u' ∷ b'l' ∷ b'e' ∷ b'/' ∷ b'b' ∷ b'i'
    ∷ b'o' ∷ b'l' ∷ b'o' ∷ b'g' ∷ b'y' ∷ b'_' ∷ b'p' ∷ b'r' ∷ b'o' ∷ b'x' ∷ b'y' ∷ b'/' ∷ b'm'
    ∷ b'o' ∷ b'd' ∷ b'u' ∷ b'l' ∷ b'e' ∷ b'/' ∷ b'c' ∷ b't' ∷ b'l' ∷ []

abbrev pub gen_root : List ℕ
gen_root =
    b'/' ∷ b's' ∷ b'y' ∷ b's' ∷ b'/' ∷ b'm' ∷ b'o' ∷ b'd' ∷ b'u' ∷ b'l' ∷ b'e' ∷ b'/' ∷ b'b' ∷ b'i'
    ∷ b'o' ∷ b'l' ∷ b'o' ∷ b'g' ∷ b'y' ∷ b'_' ∷ b'g' ∷ b'e' ∷ b'n' ∷ []

abbrev pub gen_module_ctl : List ℕ
gen_module_ctl =
    b'/' ∷ b's' ∷ b'y' ∷ b's' ∷ b'/' ∷ b'm' ∷ b'o' ∷ b'd' ∷ b'u' ∷ b'l' ∷ b'e' ∷ b'/' ∷ b'b' ∷ b'i'
    ∷ b'o' ∷ b'l' ∷ b'o' ∷ b'g' ∷ b'y' ∷ b'_' ∷ b'g' ∷ b'e' ∷ b'n' ∷ b'/' ∷ b'm' ∷ b'o' ∷ b'd'
    ∷ b'u' ∷ b'l' ∷ b'e' ∷ b'/' ∷ b'c' ∷ b't' ∷ b'l' ∷ []

abbrev pub ctl_file : List ℕ
ctl_file = b'/' ∷ b'c' ∷ b't' ∷ b'l' ∷ []

abbrev pub active_file : List ℕ
active_file = b'/' ∷ b'a' ∷ b'c' ∷ b't' ∷ b'i' ∷ b'v' ∷ b'e' ∷ []

abbrev pub traced_file : List ℕ
traced_file = b'/' ∷ b't' ∷ b'r' ∷ b'a' ∷ b'c' ∷ b'e' ∷ b'd' ∷ []

abbrev pub inflight_file : List ℕ
inflight_file = b'/' ∷ b'i' ∷ b'n' ∷ b'f' ∷ b'l' ∷ b'i' ∷ b'g' ∷ b'h' ∷ b't' ∷ []

-- The file of a device or of a worker: "/sys/module/biology_proxy/%s/ctl" and its like.
unfoldable pub file_path : List ℕ → List ℕ → List ℕ → List ℕ
file_path root name file = root ++ ((b'/' ∷ name) ++ file)

-- `malloc(n)` is the number of bytes that its block can hold, or null.
module _ (malloc : ℕ → Option ℕ) where
  -- An `open` function from its test of the path's block on: `sprintf` of a path that is longer than
  -- the block is a fault. `opened` is the result of `fopen`, and `closed` is null.
  unfoldable pub open_in {ℓ} : {A : Type ℓ} → Option ℕ → A → (List ℕ → A) → List ℕ → Option A
  open_in none closed opened path = some closed
  open_in (some usable) closed opened path =
      if leb (length path + 1) usable then some (opened path) else none

  -- `blgy_lib_prxy_open_dev_ctl`, with whether `fopen` of a path for writing succeeds.
  unfoldable pub open_dev_ctl : (List ℕ → Bool) → List ℕ → Option Bool
  unfolding open_in file_path
  open_dev_ctl fopen name = open_in (malloc 4096) false fopen (file_path prxy_root name ctl_file)

  -- `blgy_lib_prxy_open_dev_active`, `blgy_lib_prxy_open_dev_traced` and
  -- `blgy_lib_prxy_open_dev_inflight`, with what `fopen` of a path for reading finds.
  unfoldable pub open_dev_active : (List ℕ → Option (List ℕ)) → List ℕ → Option (Option (List ℕ))
  unfolding open_in file_path
  open_dev_active fopen name =
      open_in (malloc 4096) none fopen (file_path prxy_root name active_file)

  unfoldable pub open_dev_traced : (List ℕ → Option (List ℕ)) → List ℕ → Option (Option (List ℕ))
  unfolding open_in file_path
  open_dev_traced fopen name =
      open_in (malloc 4096) none fopen (file_path prxy_root name traced_file)

  unfoldable pub open_dev_inflight : (List ℕ → Option (List ℕ)) → List ℕ → Option (Option (List ℕ))
  unfolding open_in file_path
  open_dev_inflight fopen name =
      open_in (malloc 4096) none fopen (file_path prxy_root name inflight_file)

  -- `blgy_lib_gen_open_worker_ctl`
  unfoldable pub open_worker_ctl : (List ℕ → Bool) → List ℕ → Option Bool
  unfolding open_in file_path
  open_worker_ctl fopen name = open_in (malloc 4096) false fopen (file_path gen_root name ctl_file)
