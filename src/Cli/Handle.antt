-- ===== src/Cli/Handle.antt =====
-- The handlers of the commands: proxy.c and gen.c of biologycli, and `blgy_cli_command_handle`.
use biology.Base.{
  ℕ, Bool, true, false, Option, none, some, List, [], ◌∷◌, ◌^◌, ltb, ◌==◌, if◌then◌else◌, ◌>>=◌,
}
use biology.Base.Errno.{einval, Ret, ok, err, Status}
use biology.Kernel.{Allocator}
use biology.Control.Files.{
  prxy_root, prxy_module_ctl, gen_root, gen_module_ctl, ctl_file, file_path, open_dev_ctl,
  open_dev_active, open_dev_traced, open_dev_inflight, open_worker_ctl,
}
use biology.Control.Library.{
  create_dev, dev_enable, dev_disable, dev_destroy, worker_stop, start_worker,
}
use biology.Control.Show.{dev_count}
use biology.Cli.Command.{
  Value, int_value, string_value, Arg, Handle, proxy_create_handle, proxy_enable_handle,
  proxy_disable_handle, proxy_destroy_handle, proxy_info_handle, gen_create_handle, gen_stop_handle,
  CommandDef, Command, arg_get, def_parse, command_parse,
}
use biology.Cli.Commands.{
  proxy_create_arg_def_name, proxy_create_arg_def_device, proxy_enable_arg_def_name,
  proxy_enable_arg_def_dump, proxy_enable_arg_def_dump_payload, proxy_disable_arg_def_name,
  proxy_destroy_arg_def_name, proxy_info_arg_def_name, gen_start_arg_def_name,
  gen_start_arg_def_device, gen_start_arg_def_dump, gen_start_arg_def_cpus, gen_start_arg_def_wait,
  gen_stop_arg_def_name, commands,
}

-- What the tool finds on its machine: the allocator, as in the parser and as in the library, the
-- size of a page, the files that can be opened for writing and those that can be read, the
-- directories, and for a worker the answers to the question whether it is alive, in turn.
pub record Host : Type 0 where
  pub malloc : ℕ → Option ℕ
  pub allocator : Allocator
  pub pagesize : ℕ
  pub fopen_w : List ℕ → Bool
  pub fopen_r : List ℕ → Option (List ℕ)
  pub dir_exists : List ℕ → Bool
  pub create_dir : List ℕ → Status
  pub alive : List ℕ → List Bool

-- What a command does: it ends with a result, or it still waits when the answers are at their end;
-- with the text that it wrote and the path to which, if any.
pub data Outcome : Type 0 where
  returns : Ret ℕ → Option (List ℕ × List ℕ) → Outcome
  waits : Option (List ℕ × List ℕ) → Outcome

-- A call of the library that writes to a path.
unfoldable pub at_path : List ℕ → Ret ℕ × Option (List ℕ) → Outcome
at_path path (ret, none) = returns ret none
at_path path (ret, some text) = returns ret (some (path, text))

-- The same for a result that is zero or an error.
unfoldable pub status_at_path : List ℕ → Status × Option (List ℕ) → Outcome
unfolding at_path
status_at_path path (err e, text) = at_path path (err e, text)
status_at_path path (ok _, text) = at_path path (ok 0, text)

-- The test of a value of `blgy_cli_command_arg_get`, and what follows it. A handler reads no value
-- of another type than that of its argument.
unfoldable pub with_string : Option Value → (List ℕ → Option Outcome) → Option Outcome
with_string none k = some (returns (err einval) none)
with_string (some (int_value n)) k = none
with_string (some (string_value s)) k = k s

unfoldable pub with_int : Option Value → (ℕ → Option Outcome) → Option Outcome
with_int none k = some (returns (err einval) none)
with_int (some (string_value s)) k = none
with_int (some (int_value n)) k = k n

-- The directory of `gen_create_handle`, whose pointer is not tested: the `stat` of a null pointer
-- fails, so that the library has no directory.
unfoldable pub untested_string : Option Value → (List ℕ → Option Outcome) → Option Outcome
untested_string none k = some (returns (err einval) none)
untested_string (some (int_value n)) k = none
untested_string (some (string_value s)) k = k s

-- A count that `proxy_info_handle` asks for: an error ends it, and so does a count that is negative
-- as an `int`.
unfoldable pub with_count : Ret ℕ → Option Outcome → Option Outcome
with_count (err e) next = some (returns (err e) none)
with_count (ok n) next = if ltb n (2 ^ 31) then next else some (returns (ok n) none)

-- The loop of `gen_create_handle` that waits for a worker.
unfoldable pub wait_loop : List Bool → Ret ℕ → Option (List ℕ × List ℕ) → Outcome
wait_loop [] ret written = waits written
wait_loop (false ∷ answers) ret written = returns ret written
wait_loop (true ∷ answers) ret written = wait_loop answers ret written

-- The end of `gen_create_handle`, from the result of the library on.
unfoldable pub wait_for : Host → List ℕ → ℕ → Outcome → Outcome
unfolding wait_loop
wait_for H name wait (waits written) = waits written
wait_for H name wait (returns (err e) written) = returns (err e) written
wait_for H name wait (returns (ok n) written) =
    if wait == 0 then returns (ok n) written else wait_loop (H.alive name) (ok n) written

module _ (H : Host) where
  unfoldable pub proxy_create : List Arg → Option Outcome
  unfolding with_string at_path
  proxy_create args = with_string (arg_get args proxy_create_arg_def_name) (λ name.
      with_string (arg_get args proxy_create_arg_def_device) (λ device.
        some (at_path prxy_module_ctl (create_dev (H.fopen_w prxy_module_ctl) name device))))

  unfoldable pub proxy_enable : List Arg → Option Outcome
  unfolding with_string with_int status_at_path
  proxy_enable args = with_string (arg_get args proxy_enable_arg_def_name) (λ name.
      with_string (arg_get args proxy_enable_arg_def_dump) (λ dump.
        with_int (arg_get args proxy_enable_arg_def_dump_payload) (λ dump_payload. do
          opened ← open_dev_ctl H.malloc H.fopen_w name
          some (
              status_at_path (file_path prxy_root name ctl_file) (
                dev_enable opened (H.dir_exists dump) (H.create_dir dump) dump
                  (if dump_payload == 0 then false else true))))))

  unfoldable pub proxy_disable : List Arg → Option Outcome
  unfolding with_string at_path
  proxy_disable args = with_string (arg_get args proxy_disable_arg_def_name) (λ name. do
    opened ← open_dev_ctl H.malloc H.fopen_w name
    some (at_path (file_path prxy_root name ctl_file) (dev_disable opened)))

  unfoldable pub proxy_destroy : List Arg → Option Outcome
  unfolding with_string at_path
  proxy_destroy args = with_string (arg_get args proxy_destroy_arg_def_name) (λ name. do
    opened ← open_dev_ctl H.malloc H.fopen_w name
    some (at_path (file_path prxy_root name ctl_file) (dev_destroy opened)))

  unfoldable pub gen_create : List Arg → Option Outcome
  unfolding with_string with_int untested_string at_path wait_for
  gen_create args = with_string (arg_get args gen_start_arg_def_name) (λ name.
      with_string (arg_get args gen_start_arg_def_device) (λ device.
        with_int (arg_get args gen_start_arg_def_cpus) (λ cpus.
          with_int (arg_get args gen_start_arg_def_wait) (λ wait.
            untested_string (arg_get args gen_start_arg_def_dump) (λ dump. some (
              wait_for H name wait (
                at_path gen_module_ctl (
                  start_worker (H.fopen_w gen_module_ctl) (H.dir_exists dump) name device dump
                    cpus))))))))

  unfoldable pub gen_stop : List Arg → Option Outcome
  unfolding with_string at_path
  gen_stop args = with_string (arg_get args gen_stop_arg_def_name) (λ name. do
    opened ← open_worker_ctl H.malloc H.fopen_w name
    some (at_path (file_path gen_root name ctl_file) (worker_stop opened)))

  unfoldable pub proxy_info : List Arg → Option Outcome
  unfolding with_string with_count
  proxy_info args = with_string (arg_get args proxy_info_arg_def_name) (λ name. do
    active_opened ← open_dev_active H.malloc H.fopen_r name
    active ← dev_count H.allocator H.pagesize active_opened
    with_count active (do
      traced_opened ← open_dev_traced H.malloc H.fopen_r name
      traced ← dev_count H.allocator H.pagesize traced_opened
      with_count traced (do
        inflight_opened ← open_dev_inflight H.malloc H.fopen_r name
        inflight ← dev_count H.allocator H.pagesize inflight_opened
        with_count inflight (some (returns (ok 0) none)))))

  -- The call through the pointer of a definition.
  unfoldable pub run_handle : Handle → List Arg → Option Outcome
  unfolding proxy_create proxy_enable proxy_disable proxy_destroy proxy_info gen_create gen_stop
  run_handle proxy_create_handle args = proxy_create args
  run_handle proxy_enable_handle args = proxy_enable args
  run_handle proxy_disable_handle args = proxy_disable args
  run_handle proxy_destroy_handle args = proxy_destroy args
  run_handle proxy_info_handle args = proxy_info args
  run_handle gen_create_handle args = gen_create args
  run_handle gen_stop_handle args = gen_stop args

  -- `blgy_cli_command_handle` from the tests of its two pointers on.
  unfoldable pub handle_parsed : Ret Command → Option Outcome
  unfolding run_handle
  handle_parsed (err e) = some (returns (err einval) none)
  handle_parsed (ok command) = run_handle command.def.handle command.args

  unfoldable pub handle_defined : Option (CommandDef × List (List ℕ)) → Option Outcome
  unfolding handle_parsed
  handle_defined none = some (returns (err einval) none)
  handle_defined (some (def, argv)) = command_parse H.malloc def argv >>= handle_parsed

  -- `blgy_cli_command_handle`
  unfoldable pub command_handle : List (List ℕ) → Option Outcome
  unfolding handle_defined
  command_handle argv = handle_defined (def_parse commands argv)
