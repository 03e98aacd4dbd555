-- ===== src/Cli/Enable.antt =====
-- The tool, the handler and the device together: a device that is enabled from the command line.
use biology.Base.{
  ℕ, ◌*◌, ◌^◌, ◌≤◌, ◌<◌, ◌≡◌, refl, ◌∙◌, true, false, not, ◌||◌, Option, none, some, List, [], ◌∷◌,
  ◌++◌, ◌>>=◌, length, All,
}
use biology.Base.Errno.{ok}
use biology.Kernel.{
  Allocator, IsAllocator, Vfs, IsVfs, Pages, IsPages, ptr, count, Requests, IsRequests,
}
use biology.Control.Words.{strcmp_equal, IsChar}
use biology.Control.Files.{prxy_root, ctl_file, file_path}
use biology.Control.Handlers.{taken, DevOps, dev_ctl_store}
use biology.Dump.Buffer.{initial_buf_size}
use biology.Dump.Init.{dump_file_path}
use biology.Proxy.Device.{Dev, Setting, dev_enable, schema_for}
use biology.Proxy.Requests.{Proxy, disable}
use biology.Proxy.Tracing.{IsTracing, IsHeld}
use biology.Proxy.Session.{dev_enable-IsTracing}
use biology.Cli.Commands.{name_word, dump_word, dump_payload_word, proxy_enable_command_def}
use biology.Cli.Handle.{Host, returns, command_handle}
use biology.Cli.Select.{split_words}
use biology.Cli.Call.{command_handle-enable}

-- A proxy after its device was enabled: a trace begins.
abbrev pub with_dev : {V : Vfs} → Proxy V → Dev V → Proxy V
with_dev s dev = record s { dev = dev; traced = [] }

-- The operations that the handler calls, on the device as it is modelled; the destruction, which is
-- delayed, is a parameter.
abbrev pub device_ops :
    {V : Vfs}
    → (A : Allocator) (P : Pages) (E : Setting V) → (Proxy V → Option (Proxy V))
    → DevOps (Proxy V)
device_ops A P E destroy = record {
  enable = λ dump_payload dump_dir s.
      dev_enable A E s.dev dump_payload dump_dir >>= λ r. some (with_dev s r.0, r.1);
  disable = λ s. disable A P s >>= λ r. some r.0;
  destroy = destroy;
}

module _ (V : Vfs) (A : Allocator) (P : Pages) (L : IsVfs V) (M : IsAllocator A) (I : IsPages P)
    (takes_all : (f : V.File) (off : ℕ) (bytes : List ℕ)
      → (V.iter_write f off bytes).1 ≡ count (length bytes))
    (grows : (old : List ℕ) (n : ℕ)
      → n < 2 ^ 63
      → (block : List ℕ) × (A.krealloc old n ≡ some block))
    (grants : (n : ℕ) → (block : List ℕ) × (A.kmalloc n ≡ some block)) (Q : Requests)
    (X : IsRequests Q) (sizeof_bio : ℕ) (old : ℕ → V.File) (cpus : ℕ) (few_cpus : cpus < 2 ^ 32)
    (H : Host) (room : ℕ → ℕ) (granted : (n : ℕ) → H.malloc n ≡ some (room n))
    (as_long : (n : ℕ) → n ≤ room n) where
  -- "proxy enable name <name> dump <dump> dump_payload <choice>" makes the handler of a device without
  -- dumps enable it: the device traces into the directory, one dump for each processor, with the
  -- schema that has the payload when the choice is neither "0" nor "false". The conditions are: the
  -- name is neither "dump" nor "dump_payload", the directory is there, has no zeros and no more than 4080 letters, and is not
  -- "dump_payload"; `malloc` gives at least what is asked for and, for these two strings, blocks that
  -- hold their terminators as well; the path of the control file fits its block and can be opened;
  -- the kernel's allocator grants what is asked for, the work queue is there, the files of the dumps
  -- are opened and take all, and the requests in flight and in the queue are whole, of processors of
  -- the machine.
  pub command_handle-IsTracing :
      (destroy : Proxy V → Option (Proxy V)) (E : Setting V) (name dump choice : List ℕ)
      (s : Proxy V)
      → strcmp_equal name dump_word ≡ false
      → strcmp_equal name dump_payload_word ≡ false
      → strcmp_equal dump dump_payload_word ≡ false
      → length name < room (length name)
      → length dump < room (length dump)
      → All IsChar dump
      → length (file_path prxy_root name ctl_file) < room 4096
      → H.fopen_w (file_path prxy_root name ctl_file) ≡ true
      → H.dir_exists dump ≡ true
      → s.dev.dumps ≡ none
      → All (IsHeld cpus) s.inflight
      → All (IsHeld cpus) s.queued
      → E.cpus ≡ cpus
      → E.wq ≡ true
      → length dump ≤ 4080
      → ((i : ℕ) → E.filp_open (dump_file_path dump i) ≡ ptr (old i))
      → let payload = not (
          strcmp_equal choice (b'0' ∷ [])
          || strcmp_equal choice (b'f' ∷ b'a' ∷ b'l' ∷ b's' ∷ b'e' ∷ [])) in
        (text : List ℕ) × (t : Proxy V) × (command_handle H (
            split_words proxy_enable_command_def.name
            ++ (name_word ∷ name ∷ dump_word ∷ dump ∷ dump_payload_word ∷ choice ∷ []))
          ≡ some (returns (ok 0) (some (file_path prxy_root name ctl_file, text))))
        × (dev_ctl_store (device_ops A P E destroy) A s (text ++ (0 ∷ [])) (length text)
            ≡ some (t, ok (length text)))
        × IsTracing V P (schema_for payload) old cpus true t
  unfolding taken
  command_handle-IsTracing destroy E name dump choice s o1 o2 o3 fits_name fits_dump wd short opened
        there off ih qh n wq few_letters opens =
      let payload = not (
        strcmp_equal choice (b'0' ∷ [])
        || strcmp_equal choice (b'f' ∷ b'a' ∷ b'l' ∷ b's' ∷ b'e' ∷ [])) in
      let (text, call, handled) =
        command_handle-enable H room granted as_long (device_ops A P E destroy) A name dump choice
          (grants 2).0 s o1 o2 o3 fits_name fits_dump wd (grants 2).1 short opened there in
      let (dev, run, h) =
        dev_enable-IsTracing V A P L M I takes_all grows Q X sizeof_bio (grants sizeof_bio).0
          (grants sizeof_bio).1 payload old cpus few_cpus s E dump (grants E.sizeof_dump).0
          (grants (E.sizeof_dump * E.cpus)).0 (grants 4096).0 (grants initial_buf_size).0 off ih qh
          n wq few_letters opens (grants E.sizeof_dump).1 (grants (E.sizeof_dump * E.cpus)).1
          (grants 4096).1 (grants initial_buf_size).1 in
      (text, with_dev s dev, call, handled ∙ rw run refl, h)
