-- ===== src/Cli/Disable.antt =====
-- The tool, the handler and the device together: a device that is disabled from the command line.
use biology.Base.{
  ℕ, ◌+◌, ◌^◌, ◌≤◌, ◌<◌, ◌≡◌, refl, Bool, true, Option, some, List, [], ◌∷◌, ◌++◌, le→leb, leb,
  length, arith,
}
use biology.Base.Errno.{ok}
use biology.Kernel.{Allocator, IsAllocator, Vfs, IsVfs, Pages, IsPages, count, Requests, IsRequests}
use biology.Control.Words.{first_word_size, strncmp_equal}
use biology.Control.Files.{prxy_root, ctl_file, file_path, open_in, open_dev_ctl}
use biology.Control.Handlers.{dev_ctl_store}
use biology.Control.Library.{printed, dev_disable, dev_disable_cmd}
use biology.Proxy.Device.{Setting, schema_for}
use biology.Proxy.Logs.{AreFiles}
use biology.Proxy.Requests.{Proxy, disable}
use biology.Proxy.Tracing.{IsTracing}
use biology.Proxy.Session.{disable-AreFiles}
use biology.Cli.Command.{
  string_value, arg_get, arg_parse, args_parse, with_value, command_of, command_parse,
}
use biology.Cli.Commands.{name_word, proxy_disable_command_def, proxy_disable_arg_def_name}
use biology.Cli.Handle.{
  Host, returns, at_path, with_string, proxy_disable, run_handle, command_handle, handle_defined,
  handle_parsed,
}
use biology.Cli.Select.{split_words, def_parse-split_words}
use biology.Cli.Call.{given_string}
use biology.Cli.Enable.{device_ops}

module _ (H : Host) (room : ℕ → ℕ) (granted : (n : ℕ) → H.malloc n ≡ some (room n))
    (as_long : (n : ℕ) → n ≤ room n) where
  command_handle-disable :
      (name : List ℕ)
      → length name < room (length name)
      → length (file_path prxy_root name ctl_file) < room 4096
      → H.fopen_w (file_path prxy_root name ctl_file) ≡ true
      → command_handle H (split_words proxy_disable_command_def.name ++ (name_word ∷ name ∷ []))
        ≡ some (
            returns
              (ok (length dev_disable_cmd))
              (some (file_path prxy_root name ctl_file, dev_disable_cmd)))
  unfolding command_handle handle_defined handle_parsed command_parse command_of args_parse
      with_value run_handle proxy_disable with_string arg_get at_path dev_disable printed
      open_dev_ctl open_in
  command_handle-disable name fits_name short opened =
      let n1 : arg_parse H.malloc proxy_disable_arg_def_name (name_word ∷ name ∷ [])
          ≡ some (ok (string_value name)) =
        given_string H room granted as_long proxy_disable_arg_def_name [] name [] refl tt
          fits_name in
      let room_for : leb (length (file_path prxy_root name ctl_file) + 1) (room 4096) ≡ true =
        le→leb _ _ (omega arith) in
      rw (def_parse-split_words (name_word ∷ name ∷ [])).1.1.0
        (rw (granted 16, n1) (rw (granted 4096, room_for, opened) refl))

module _ (V : Vfs) (A : Allocator) (P : Pages) (L : IsVfs V) (M : IsAllocator A) (I : IsPages P)
    (takes_all : (f : V.File) (off : ℕ) (bytes : List ℕ)
      → (V.iter_write f off bytes).1 ≡ count (length bytes))
    (grows : (old : List ℕ) (n : ℕ)
      → n < 2 ^ 63
      → (block : List ℕ) × (A.krealloc old n ≡ some block))
    (grants : (n : ℕ) → (block : List ℕ) × (A.kmalloc n ≡ some block)) (Q : Requests)
    (X : IsRequests Q) (sizeof_bio : ℕ) (old : ℕ → V.File) (cpus : ℕ) (few_cpus : cpus < 2 ^ 32)
    (H : Host) (room : ℕ → ℕ) (granted : (n : ℕ) → H.malloc n ≡ some (room n))
    (as_long : (n : ℕ) → n ≤ room n) where
  -- "proxy disable name <name>" makes the handler of a tracing device disable it, which runs the queue
  -- to its end and closes a file for each processor: it holds the header, the records of the requests
  -- of that processor in the order in which they were given to the dumps and then queued, and behind
  -- them what was there before. The conditions are: `malloc` gives at least what is asked for, and
  -- for the name a block that holds its terminator as well; the path of the control file fits its
  -- block and can be opened; the kernel's allocator grants what is asked for and the files of the
  -- dumps take all.
  pub command_handle-AreFiles :
      (destroy : Proxy V → Option (Proxy V)) (E : Setting V) (dump_payload : Bool) (name : List ℕ)
      (s : Proxy V)
      → length name < room (length name)
      → length (file_path prxy_root name ctl_file) < room 4096
      → H.fopen_w (file_path prxy_root name ctl_file) ≡ true
      → IsTracing V P (schema_for dump_payload) old cpus true s
      → (text : List ℕ) × (t : Proxy V) × (closed : List (Option V.File)) × (command_handle H
            (split_words proxy_disable_command_def.name ++ (name_word ∷ name ∷ []))
          ≡ some (returns (ok (length text)) (some (file_path prxy_root name ctl_file, text))))
        × (dev_ctl_store (device_ops A P E destroy) A s (text ++ (0 ∷ [])) (length text)
            ≡ some (t, ok (length text)))
        × (disable A P s ≡ some (t, closed))
        × AreFiles V P (schema_for dump_payload) old 0 (s.traced ++ s.queued) closed
        × (length closed ≡ cpus)
        × (t.queued ≡ [])
  unfolding dev_ctl_store strncmp_equal first_word_size
  command_handle-AreFiles destroy E dump_payload name s fits_name short opened h =
      let (t, closed, run, files, sized, q, i) =
        disable-AreFiles V A P L M I takes_all grows Q X sizeof_bio (grants sizeof_bio).0
          (grants sizeof_bio).1 dump_payload old cpus few_cpus s h in
      (
        dev_disable_cmd,
        t,
        closed,
        command_handle-disable H room granted as_long name fits_name short opened,
        rw run refl,
        run,
        files,
        sized,
        q,
      )
