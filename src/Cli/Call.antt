-- ===== src/Cli/Call.antt =====
-- The whole command line: what a call of the tool asks of the modules.
use biology.Base.{
  ℕ, ◌+◌, ◌*◌, ◌≤◌, ◌<◌, ◌≡◌, refl, ap, ◌∙◌, Bool, true, false, not, ◌||◌, none, some, List, [],
  ◌∷◌, ◌++◌, leb, le→leb, lt→ltb, ◌==◌, if◌then◌else◌, ◌>>=◌, length, All, arith,
}
use biology.Base.Errno.{einval, ok, err, Status}
use biology.Kernel.{Allocator}
use biology.Control.Words.{strcmp_equal, IsWordChar, IsChar}
use biology.Control.Files.{prxy_root, prxy_module_ctl, ctl_file, file_path, open_in, open_dev_ctl}
use biology.Control.Library.{printed, create_dev_cmd, create_dev, dev_enable_cmd, dev_enable}
use biology.Control.Handlers.{taken, DevOps, dev_ctl_store, ctl_store}
use biology.Control.RoundTrip.{ctl_store-create_dev_cmd, dev_ctl_store-dev_enable_cmd}
use biology.Cli.Command.{
  type_bool, type_string, int_value, string_value, ArgDef, CommandDef, arg_get, new_int, value_of,
  default_of, arg_parse, with_value, args_parse, command_of, command_parse, def_parse,
}
use biology.Cli.Commands.{
  name_word, device_word, dump_word, dump_payload_word, commands, proxy_create_command_def,
  proxy_create_arg_def_name, proxy_create_arg_def_device, proxy_enable_command_def,
  proxy_enable_arg_def_name, proxy_enable_arg_def_dump, proxy_enable_arg_def_dump_payload,
  proxy_disable_command_def, proxy_destroy_command_def, proxy_info_command_def,
  gen_start_command_def, gen_stop_command_def,
}
use biology.Cli.Handle.{
  Host, returns, at_path, status_at_path, with_string, with_int, proxy_create, proxy_enable,
  run_handle, command_handle, handle_defined, handle_parsed,
}
use biology.Cli.Select.{split_words, def_parse-split_words}
use biology.Cli.Given.{IsOther, arg_parse-given, arg_parse-fits, arg_parse-missing}

module _ (H : Host) (room : ℕ → ℕ) (granted : (n : ℕ) → H.malloc n ≡ some (room n)) where
  missing_first :
      (def : CommandDef) (d : ArgDef) (ds : List ArgDef) (argv : List (List ℕ))
      → def.args ≡ d ∷ ds
      → d.required ≡ true
      → All (IsOther d) argv
      → def_parse commands (split_words def.name ++ argv) ≡ some (def, argv)
      → command_handle H (split_words def.name ++ argv) ≡ some (returns (err einval) none)
  unfolding command_handle handle_defined handle_parsed command_parse command_of args_parse
      with_value default_of
  missing_first def d ds argv at required missing selected =
      let first : arg_parse H.malloc d argv ≡ some (err einval) =
        arg_parse-missing H.malloc d argv missing ∙ rw required refl in
      let parsed : args_parse H.malloc def.args argv ≡ some (err einval) =
        ap (λ l. args_parse H.malloc l argv) at ∙ rw (granted 16, first) refl in
      rw selected (rw (granted 16, granted (8 * (length def.args + 1)), parsed) refl)

  -- When no word behind those of a command is "name", the tool returns -EINVAL and writes nothing:
  -- every command of the table needs a name.
  pub command_handle-missing :
      (argv : List (List ℕ))
      → All (λ word. strcmp_equal word name_word ≡ false) argv
      → All
          (λ def.
            command_handle H (split_words def.name ++ argv) ≡ some (returns (err einval) none))
          commands
  command_handle-missing argv h =
      let (s1, (s2, (s3, (s4, (s5, (s6, (s7, end))))))) = def_parse-split_words argv in
      (
        missing_first proxy_create_command_def _ _ argv refl refl h s1,
        (
          missing_first proxy_enable_command_def _ _ argv refl refl h s2,
          (
            missing_first proxy_disable_command_def _ _ argv refl refl h s3,
            (
              missing_first proxy_destroy_command_def _ _ argv refl refl h s4,
              (
                missing_first proxy_info_command_def _ _ argv refl refl h s5,
                (
                  missing_first gen_start_command_def _ _ argv refl refl h s6,
                  (missing_first gen_stop_command_def _ _ argv refl refl h s7, tt),
                ),
              ),
            ),
          ),
        ),
      )

module _ (H : Host) (room : ℕ → ℕ) (granted : (n : ℕ) → H.malloc n ≡ some (room n))
    (as_long : (n : ℕ) → n ≤ room n) where
  -- The value of a string argument that is given.
  pub given_string :
      (def : ArgDef) (before : List (List ℕ)) (text : List ℕ) (argv : List (List ℕ))
      → def.type ≡ type_string
      → All (IsOther def) before
      → length text < room (length text)
      → arg_parse H.malloc def (before ++ (def.name ∷ text ∷ argv)) ≡ some (ok (string_value text))
  given_string def before text argv is_string h fits =
      arg_parse-fits H.malloc def before text argv (room (length text)) is_string h
        (granted (length text))
      ∙ rw (lt→ltb (length text) (room (length text)) fits) refl

  -- The value of a truth value that is given.
  given_bool :
      (def : ArgDef) (before : List (List ℕ)) (text : List ℕ) (argv : List (List ℕ))
      → def.type ≡ type_bool
      → All (IsOther def) before
      → arg_parse H.malloc def (before ++ (def.name ∷ text ∷ argv))
        ≡ some (
            ok (
              int_value (
                if strcmp_equal text (b'0' ∷ [])
                  || strcmp_equal text (b'f' ∷ b'a' ∷ b'l' ∷ b's' ∷ b'e' ∷ [])
                then 0
                else 1)))
  unfolding value_of new_int
  given_bool def before text argv is_bool h =
      arg_parse-given H.malloc def before text argv h
      ∙ rw is_bool (rw (granted 4, le→leb 4 (room 4) (as_long 4)) refl)

  -- "proxy create name <name> device <device>" writes the creation to the control file of the proxy,
  -- whose handler takes it and creates a device with this name and this target: for a name without
  -- spaces and zeros that is not the word "device", a device without zeros, a `malloc` that gives at
  -- least what is asked for and, for these two strings, blocks that hold their terminators as well, a
  -- control file that can be opened, and memory for the name in the kernel.
  pub command_handle-create :
      {D : Type 0} (create : List ℕ → List ℕ → D → D × Status) (A : Allocator)
      (name device block : List ℕ) (devs : D)
      → strcmp_equal name device_word ≡ false
      → length name < room (length name)
      → length device < room (length device)
      → All IsWordChar name
      → All IsChar device
      → A.kmalloc (length name + 1) ≡ some block
      → H.fopen_w prxy_module_ctl ≡ true
      → (text : List ℕ) × (command_handle H (
            split_words proxy_create_command_def.name
            ++ (name_word ∷ name ∷ device_word ∷ device ∷ []))
          ≡ some (returns (ok (length text)) (some (prxy_module_ctl, text))))
        × (ctl_store create A devs (text ++ (0 ∷ [])) (length text)
            ≡ some (taken (length text) (create name device devs)))
  unfolding command_handle handle_defined handle_parsed command_parse command_of args_parse
      with_value run_handle proxy_create with_string arg_get at_path create_dev printed
  command_handle-create create A name device block devs other fits_name fits_device wn wd kernel
        opened =
      let argv : List (List ℕ) = name_word ∷ name ∷ device_word ∷ device ∷ [] in
      let n1 : arg_parse H.malloc proxy_create_arg_def_name argv ≡ some (ok (string_value name)) =
        given_string proxy_create_arg_def_name [] name (device_word ∷ device ∷ []) refl tt
          fits_name in
      let n2 : arg_parse H.malloc proxy_create_arg_def_device argv
          ≡ some (ok (string_value device)) =
        given_string proxy_create_arg_def_device (name_word ∷ name ∷ []) device [] refl
          (unfold strcmp_equal in refl, (other, tt)) fits_device in
      (
        create_dev_cmd name device,
        rw (def_parse-split_words argv).0 (rw (granted 16, granted 24, n1, n2) (rw opened refl)),
        ctl_store-create_dev_cmd create A name device block devs wn wd kernel,
      )

  -- "proxy enable name <name> dump <dump> dump_payload <choice>" for a directory that is there writes
  -- the enabling to the control file of the device, whose handler enables it with this directory, and
  -- with the payload when the choice is neither "0" nor "false": for a name that is neither "dump" nor
  -- "dump_payload", a directory without zeros that is not "dump_payload", a `malloc` that gives at
  -- least what is asked for and, for these two strings, blocks that hold their terminators as well, a
  -- path of the control file that fits its block and can be opened, and memory for the choice in the
  -- kernel.
  pub command_handle-enable :
      {D : Type 0} (O : DevOps D) (A : Allocator) (name dump choice block : List ℕ) (dev : D)
      → strcmp_equal name dump_word ≡ false
      → strcmp_equal name dump_payload_word ≡ false
      → strcmp_equal dump dump_payload_word ≡ false
      → length name < room (length name)
      → length dump < room (length dump)
      → All IsChar dump
      → A.kmalloc 2 ≡ some block
      → length (file_path prxy_root name ctl_file) < room 4096
      → H.fopen_w (file_path prxy_root name ctl_file) ≡ true
      → H.dir_exists dump ≡ true
      → let payload = not (
          strcmp_equal choice (b'0' ∷ [])
          || strcmp_equal choice (b'f' ∷ b'a' ∷ b'l' ∷ b's' ∷ b'e' ∷ [])) in
        (text : List ℕ) × (command_handle H (
            split_words proxy_enable_command_def.name
            ++ (name_word ∷ name ∷ dump_word ∷ dump ∷ dump_payload_word ∷ choice ∷ []))
          ≡ some (returns (ok 0) (some (file_path prxy_root name ctl_file, text))))
        × (dev_ctl_store O A dev (text ++ (0 ∷ [])) (length text)
            ≡ (O.enable payload dump dev >>= λ r. some (taken (length text) r)))
  unfolding command_handle handle_defined handle_parsed command_parse command_of args_parse
      with_value run_handle proxy_enable with_string with_int arg_get at_path status_at_path
      dev_enable open_dev_ctl open_in
  command_handle-enable O A name dump choice block dev o1 o2 o3 fits_name fits_dump wd kernel short
        opened there =
      let argv : List (List ℕ) =
        name_word ∷ name ∷ dump_word ∷ dump ∷ dump_payload_word ∷ choice ∷ [] in
      let no : Bool =
        strcmp_equal choice (b'0' ∷ [])
        || strcmp_equal choice (b'f' ∷ b'a' ∷ b'l' ∷ b's' ∷ b'e' ∷ []) in
      let n1 : arg_parse H.malloc proxy_enable_arg_def_name argv ≡ some (ok (string_value name)) =
        given_string proxy_enable_arg_def_name [] name
          (dump_word ∷ dump ∷ dump_payload_word ∷ choice ∷ []) refl tt fits_name in
      let n2 : arg_parse H.malloc proxy_enable_arg_def_dump argv ≡ some (ok (string_value dump)) =
        given_string proxy_enable_arg_def_dump (name_word ∷ name ∷ []) dump
          (dump_payload_word ∷ choice ∷ []) refl (unfold strcmp_equal in refl, (o1, tt))
          fits_dump in
      let n3 : arg_parse H.malloc proxy_enable_arg_def_dump_payload argv
          ≡ some (ok (int_value (if no then 0 else 1))) =
        given_bool proxy_enable_arg_def_dump_payload (name_word ∷ name ∷ dump_word ∷ dump ∷ [])
          choice [] refl
          (unfold strcmp_equal in refl, (o2, (unfold strcmp_equal in refl, (o3, tt)))) in
      (
        dev_enable_cmd (not no) dump,
        rw (def_parse-split_words argv).1.0 (
            rw (granted 16, granted 32, n1, n2, n3)
              (rw (granted 4096, room_for, opened, there, truth no) refl)),
        dev_ctl_store-dev_enable_cmd O A (not no) dump block dev wd kernel,
      )
    where
      room_for : leb (length (file_path prxy_root name ctl_file) + 1) (room 4096) ≡ true
      room_for = le→leb _ _ (omega arith)

      truth : (b : Bool) → (if (if b then 0 else 1) == 0 then false else true) ≡ not b
      truth true = refl
      truth false = refl
