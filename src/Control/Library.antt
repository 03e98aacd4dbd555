-- ===== src/Control/Library.antt =====
-- The commands of biologylib: proxy.c and gen.c. `opened` says whether the `ctl` file was opened; a
-- result is the return value and the text that is written, if any.
use biology.Base.{ℕ, Bool, Option, none, some, List, [], ◌∷◌, ◌++◌, length, if◌then◌else◌}
use biology.Base.Decimal.{print_dec}
use biology.Control.Show.{print_int}
use biology.Base.Errno.{enoent, einval, Ret, ok, err, Status}

-- `fprintf` of a text to a control file: its length.
unfoldable pub printed : Bool → List ℕ → Ret ℕ × Option (List ℕ)
printed opened text = if opened then (ok (length text), some text) else (err enoent, none)

-- "create %s %s"
unfoldable pub create_dev_cmd : List ℕ → List ℕ → List ℕ
create_dev_cmd name device =
    b'c' ∷ b'r' ∷ b'e' ∷ b'a' ∷ b't' ∷ b'e' ∷ b' ' ∷ (name ++ (b' ' ∷ device))

-- "enable %d %s"
unfoldable pub dev_enable_cmd : Bool → List ℕ → List ℕ
dev_enable_cmd dump_payload dump =
    b'e'
    ∷ b'n'
    ∷ b'a'
    ∷ b'b'
    ∷ b'l'
    ∷ b'e'
    ∷ b' '
    ∷ (print_dec (if dump_payload then 1 else 0) ++ (b' ' ∷ dump))

-- "disable", "destroy" and "stop"
abbrev pub dev_disable_cmd : List ℕ
dev_disable_cmd = b'd' ∷ b'i' ∷ b's' ∷ b'a' ∷ b'b' ∷ b'l' ∷ b'e' ∷ []

abbrev pub dev_destroy_cmd : List ℕ
dev_destroy_cmd = b'd' ∷ b'e' ∷ b's' ∷ b't' ∷ b'r' ∷ b'o' ∷ b'y' ∷ []

abbrev pub worker_stop_cmd : List ℕ
worker_stop_cmd = b's' ∷ b't' ∷ b'o' ∷ b'p' ∷ []

-- "start %s %s %s %d", with the text of the number.
unfoldable pub start_worker_text : List ℕ → List ℕ → List ℕ → List ℕ → List ℕ
start_worker_text name device dump cpus =
    b's'
    ∷ b't'
    ∷ b'a'
    ∷ b'r'
    ∷ b't'
    ∷ b' '
    ∷ (name ++ (b' ' ∷ (device ++ (b' ' ∷ (dump ++ (b' ' ∷ cpus))))))

-- The same for a number that is not negative.
unfoldable pub start_worker_cmd : List ℕ → List ℕ → List ℕ → ℕ → List ℕ
unfolding start_worker_text
start_worker_cmd name device dump cpucnt = start_worker_text name device dump (print_dec cpucnt)

-- `blgy_lib_prxy_create_dev`
unfoldable pub create_dev : Bool → List ℕ → List ℕ → Ret ℕ × Option (List ℕ)
unfolding printed create_dev_cmd
create_dev opened name device = printed opened (create_dev_cmd name device)

-- `blgy_lib_prxy_dev_enable`, with whether the directory is there and what its creation returns.
-- The result of the print is not returned.
unfoldable pub dev_enable : Bool → Bool → Status → List ℕ → Bool → Status × Option (List ℕ)
unfolding dev_enable_cmd
dev_enable opened dir_exists created dump dump_payload =
    let written = some (dev_enable_cmd dump_payload dump) in
    let made : Status × Option (List ℕ) = elim created [
      | err e ↦ (err e, none)
      | ok _ ↦ (ok tt, written)
    ] in
    if opened then (if dir_exists then (ok tt, written) else made) else (err enoent, none)

-- `blgy_lib_prxy_dev_disable`, `blgy_lib_prxy_dev_destroy` and `blgy_lib_gen_worker_stop`
unfoldable pub dev_disable : Bool → Ret ℕ × Option (List ℕ)
unfolding printed
dev_disable opened = printed opened dev_disable_cmd

unfoldable pub dev_destroy : Bool → Ret ℕ × Option (List ℕ)
unfolding printed
dev_destroy opened = printed opened dev_destroy_cmd

unfoldable pub worker_stop : Bool → Ret ℕ × Option (List ℕ)
unfolding printed
worker_stop opened = printed opened worker_stop_cmd

-- `blgy_lib_gen_start_worker`, with the number as its bit pattern.
unfoldable pub start_worker : Bool → Bool → List ℕ → List ℕ → List ℕ → ℕ → Ret ℕ × Option (List ℕ)
unfolding printed start_worker_text
start_worker opened dir_exists name device dump cpucnt =
    if dir_exists
    then printed opened (start_worker_text name device dump (print_int cpucnt))
    else (err einval, none)
