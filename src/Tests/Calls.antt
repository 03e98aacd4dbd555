-- ===== src/Tests/Calls.antt =====
-- The command line of the tool.
use biology.Base.{
  ℕ, ◌+◌, ◌-◌, ◌*◌, ◌/◌, ◌≤◌, leb, ◌≡◌, refl, true, false, not, ◌||◌, none, some, List, [], ◌∷◌,
  ◌++◌, ltb, if◌then◌else◌, length, All, arith,
}
use biology.Base.Errno.{einval, ok, err, Status}
use biology.Control.Words.{strcmp_equal}
use biology.Control.Files.{prxy_root, prxy_module_ctl, ctl_file, file_path}
use biology.Control.Handlers.{taken, dev_ctl_store, ctl_store}
use biology.Proxy.Device.{Setting, schema_for}
use biology.Proxy.Requests.{Proxy, entry}
use biology.Proxy.Steps.{created}
use biology.Proxy.Tracing.{IsTracing}
use biology.Kernel.{ptr, Requests}
use biology.Cli.Command.{
  string_value, Command, new_string, value_of, arg_parse, with_value, args_parse, command_of,
  command_parse, def_parse,
}
use biology.Cli.Commands.{
  name_word, device_word, dump_word, dump_payload_word, commands, proxy_create_arg_def_device,
  proxy_create_command_def, proxy_enable_command_def, proxy_disable_command_def,
  proxy_disable_arg_def_name,
}
use biology.Cli.Handle.{Host, returns, command_handle}
use biology.Cli.Select.{split_words, def_parse-split_words}
use biology.Cli.Typed.{IsGiven, commands-IsGiven}
use biology.Cli.Given.{arg_parse-fits}
use biology.Cli.Call.{command_handle-missing, command_handle-create}
use biology.Cli.Enable.{device_ops, command_handle-IsTracing}
use biology.Tests.Machine.{
  blank, regrown, machine, machine-IsAllocator, disk, disk-IsVfs, memory, memory-IsPages,
}

-- The usable bytes of a block: sixteen at a time, eight of them for the allocator, 24 at least. A
-- block of 24 holds no more than was asked for.
abbrev pub usable : ℕ → ℕ
usable n = if leb n 24 then 24 else (n + 23) / 16 * 16 - 8

-- A machine on which all files can be opened.
abbrev pub host : Host
host = record {
  malloc = λ n. some (usable n);
  allocator = machine;
  pagesize = 4096;
  fopen_w = λ path. true;
  fopen_r = λ path. some (b'3' ∷ []);
  dir_exists = λ path. true;
  create_dir = λ path. ok tt;
  alive = λ name. true ∷ false ∷ [];
}

pub usable_lem : (n : ℕ) → n ≤ usable n
usable_lem n = ground arith

abbrev pub short_name : List ℕ
short_name = b'd' ∷ b'0' ∷ []

abbrev short_path : List ℕ
short_path = b'/' ∷ b'x' ∷ []

abbrev named : List ℕ → List ℕ → List (List ℕ) → List (List ℕ) × Status
named name path names = (name ∷ names, ok tt)

command_handle-create_example :
    (text : List ℕ) × (command_handle host (
        split_words proxy_create_command_def.name
        ++ (name_word ∷ short_name ∷ device_word ∷ short_path ∷ []))
      ≡ some (returns (ok (length text)) (some (prxy_module_ctl, text))))
    × (ctl_store named machine [] (text ++ (0 ∷ [])) (length text)
        ≡ some (taken (length text) (named short_name short_path [])))
command_handle-create_example =
    command_handle-create host usable (λ n. refl) usable_lem named machine short_name short_path
      (blank 3) [] (unfold strcmp_equal in refl) (omega arith) (omega arith)
      ((omega arith, omega arith), ((omega arith, omega arith), tt))
      (omega arith, (omega arith, tt)) refl refl

command_handle-missing_example :
    All
      (λ def.
        command_handle host (split_words def.name ++ (device_word ∷ short_path ∷ []))
        ≡ some (returns (err einval) none))
      commands
unfolding strcmp_equal
command_handle-missing_example =
    command_handle-missing host usable (λ n. refl) (device_word ∷ short_path ∷ [])
      (refl, (refl, tt))

def_parse-split_words_example :
    All
      (λ def.
        def_parse commands (split_words def.name ++ (name_word ∷ short_name ∷ []))
        ≡ some (def, name_word ∷ short_name ∷ []))
      commands
def_parse-split_words_example = def_parse-split_words (name_word ∷ short_name ∷ [])

-- A block of exactly the size of a text cannot take its terminator.
arg_parse-fits_example :
    arg_parse
      (λ n. some n)
      proxy_create_arg_def_device
      (name_word ∷ short_name ∷ device_word ∷ short_path ∷ [])
    ≡ (if ltb 2 2 then some (ok (string_value short_path)) else none)
unfolding strcmp_equal
arg_parse-fits_example =
    arg_parse-fits (λ n. some n) proxy_create_arg_def_device (name_word ∷ short_name ∷ [])
      short_path [] 2 refl (refl, (refl, tt)) refl

abbrev disabling : Command
disabling = record {
  def = proxy_disable_command_def;
  args = record { def = proxy_disable_arg_def_name; value = string_value short_name } ∷ [];
}

parsed_disabling :
    command_parse (λ n. some (n + 1)) proxy_disable_command_def (name_word ∷ short_name ∷ [])
    ≡ some (ok disabling)
unfolding command_parse command_of args_parse with_value arg_parse value_of new_string strcmp_equal
parsed_disabling = refl

commands-IsGiven_example :
    (disabling.def ≡ proxy_disable_command_def)
    × All (IsGiven disabling.args) proxy_disable_command_def.args
commands-IsGiven_example =
    commands-IsGiven (λ n. some (n + 1)) (name_word ∷ short_name ∷ []) disabling
      proxy_disable_command_def 2 (unfold entry in refl) parsed_disabling

abbrev setting : Setting disk
setting = record { filp_open = λ path. ptr []; cpus = 2; sizeof_dump = 64; wq = true; now = 5 }

abbrev layer_below : Requests
layer_below = record { bio_advance = λ bio n. bio }

abbrev disabled : Proxy disk
disabled = created disk

pub path_size : length (file_path prxy_root short_name ctl_file) ≡ 32
unfolding file_path
path_size = refl

command_handle-IsTracing_example :
    (text : List ℕ) × (t : Proxy disk) × (command_handle host (
        split_words proxy_enable_command_def.name
        ++ (name_word ∷ short_name ∷ dump_word ∷ short_path ∷ dump_payload_word ∷ (b'1' ∷ []) ∷ []))
      ≡ some (returns (ok 0) (some (file_path prxy_root short_name ctl_file, text))))
    × (dev_ctl_store
          (device_ops machine memory setting (λ s. some s))
          machine
          disabled
          (text ++ (0 ∷ []))
          (length text)
        ≡ some (t, ok (length text)))
    × IsTracing disk memory
        (schema_for (
          not (
            strcmp_equal (b'1' ∷ []) (b'0' ∷ [])
            || strcmp_equal (b'1' ∷ []) (b'f' ∷ b'a' ∷ b'l' ∷ b's' ∷ b'e' ∷ []))))
        (λ cpu. [])
        2
        true
        t
command_handle-IsTracing_example =
    command_handle-IsTracing disk machine memory disk-IsVfs machine-IsAllocator memory-IsPages
      (λ f off bytes. refl) (λ old n small. (regrown old n, refl)) (λ n. (blank n, refl))
      layer_below (record { same_segments = λ bio n. refl }) 256 (λ cpu. []) 2 (omega arith) host
      usable (λ n. refl) usable_lem (λ s. some s) setting short_name short_path (b'1' ∷ []) disabled
      (unfold strcmp_equal in refl) (unfold strcmp_equal in refl) (unfold strcmp_equal in refl)
      (omega arith) (omega arith) (omega arith, (omega arith, tt)) (omega (arith, path_size)) refl
      refl refl tt tt refl refl (omega arith) (λ i. refl)
