-- ===== src/Cli/Commands.antt =====
-- The table of commands: the definitions of proxy.c and gen.c of biologycli, and `commands` of
-- command.c.
use biology.Base.{ℕ, true, false, none, some, List, [], ◌∷◌}
use biology.Cli.Command.{
  type_bool, type_int, type_string, int_value, ArgDef, CommandDef, proxy_create_handle,
  proxy_enable_handle, proxy_disable_handle, proxy_destroy_handle, proxy_info_handle,
  gen_create_handle, gen_stop_handle,
}

abbrev pub name_word : List ℕ
name_word = b'n' ∷ b'a' ∷ b'm' ∷ b'e' ∷ []

abbrev pub device_word : List ℕ
device_word = b'd' ∷ b'e' ∷ b'v' ∷ b'i' ∷ b'c' ∷ b'e' ∷ []

abbrev pub dump_word : List ℕ
dump_word = b'd' ∷ b'u' ∷ b'm' ∷ b'p' ∷ []

abbrev pub dump_payload_word : List ℕ
dump_payload_word =
    b'd' ∷ b'u' ∷ b'm' ∷ b'p' ∷ b'_' ∷ b'p' ∷ b'a' ∷ b'y' ∷ b'l' ∷ b'o' ∷ b'a' ∷ b'd' ∷ []

abbrev pub cpus_word : List ℕ
cpus_word = b'c' ∷ b'p' ∷ b'u' ∷ b's' ∷ []

abbrev pub wait_word : List ℕ
wait_word = b'w' ∷ b'a' ∷ b'i' ∷ b't' ∷ []

-- The argument definitions, at addresses of their own.
abbrev pub proxy_create_arg_def_name : ArgDef
proxy_create_arg_def_name = record {
  address = 0;
  type = type_string;
  required = true;
  default_value = none;
  name = name_word;
}

abbrev pub proxy_create_arg_def_device : ArgDef
proxy_create_arg_def_device = record {
  address = 1;
  type = type_string;
  required = true;
  default_value = none;
  name = device_word;
}

abbrev pub proxy_enable_arg_def_name : ArgDef
proxy_enable_arg_def_name = record {
  address = 2;
  type = type_string;
  required = true;
  default_value = none;
  name = name_word;
}

abbrev pub proxy_enable_arg_def_dump : ArgDef
proxy_enable_arg_def_dump = record {
  address = 3;
  type = type_string;
  required = true;
  default_value = none;
  name = dump_word;
}

abbrev pub proxy_enable_arg_def_dump_payload : ArgDef
proxy_enable_arg_def_dump_payload = record {
  address = 4;
  type = type_bool;
  required = false;
  default_value = some (int_value 0);
  name = dump_payload_word;
}

abbrev pub proxy_disable_arg_def_name : ArgDef
proxy_disable_arg_def_name = record {
  address = 5;
  type = type_string;
  required = true;
  default_value = none;
  name = name_word;
}

abbrev pub proxy_destroy_arg_def_name : ArgDef
proxy_destroy_arg_def_name = record {
  address = 6;
  type = type_string;
  required = true;
  default_value = none;
  name = name_word;
}

abbrev pub proxy_info_arg_def_name : ArgDef
proxy_info_arg_def_name = record {
  address = 7;
  type = type_string;
  required = true;
  default_value = none;
  name = name_word;
}

abbrev pub gen_start_arg_def_name : ArgDef
gen_start_arg_def_name = record {
  address = 8;
  type = type_string;
  required = true;
  default_value = none;
  name = name_word;
}

abbrev pub gen_start_arg_def_device : ArgDef
gen_start_arg_def_device = record {
  address = 9;
  type = type_string;
  required = true;
  default_value = none;
  name = device_word;
}

abbrev pub gen_start_arg_def_dump : ArgDef
gen_start_arg_def_dump = record {
  address = 10;
  type = type_string;
  required = true;
  default_value = none;
  name = dump_word;
}

abbrev pub gen_start_arg_def_cpus : ArgDef
gen_start_arg_def_cpus = record {
  address = 11;
  type = type_int;
  required = true;
  default_value = none;
  name = cpus_word;
}

abbrev pub gen_start_arg_def_wait : ArgDef
gen_start_arg_def_wait = record {
  address = 12;
  type = type_bool;
  required = false;
  default_value = some (int_value 1);
  name = wait_word;
}

abbrev pub gen_stop_arg_def_name : ArgDef
gen_stop_arg_def_name = record {
  address = 13;
  type = type_string;
  required = true;
  default_value = none;
  name = name_word;
}

abbrev pub proxy_create_command_def : CommandDef
proxy_create_command_def = record {
  name = b'p' ∷ b'r' ∷ b'o' ∷ b'x' ∷ b'y' ∷ b'_' ∷ b'c' ∷ b'r' ∷ b'e' ∷ b'a' ∷ b't' ∷ b'e' ∷ [];
  args = proxy_create_arg_def_name ∷ proxy_create_arg_def_device ∷ [];
  handle = proxy_create_handle;
}

abbrev pub proxy_enable_command_def : CommandDef
proxy_enable_command_def = record {
  name = b'p' ∷ b'r' ∷ b'o' ∷ b'x' ∷ b'y' ∷ b'_' ∷ b'e' ∷ b'n' ∷ b'a' ∷ b'b' ∷ b'l' ∷ b'e' ∷ [];
  args =
      proxy_enable_arg_def_name ∷ proxy_enable_arg_def_dump ∷ proxy_enable_arg_def_dump_payload
      ∷ [];
  handle = proxy_enable_handle;
}

abbrev pub proxy_disable_command_def : CommandDef
proxy_disable_command_def = record {
  name =
      b'p' ∷ b'r' ∷ b'o' ∷ b'x' ∷ b'y' ∷ b'_' ∷ b'd' ∷ b'i' ∷ b's' ∷ b'a' ∷ b'b' ∷ b'l' ∷ b'e' ∷ [];
  args = proxy_disable_arg_def_name ∷ [];
  handle = proxy_disable_handle;
}

abbrev pub proxy_destroy_command_def : CommandDef
proxy_destroy_command_def = record {
  name =
      b'p' ∷ b'r' ∷ b'o' ∷ b'x' ∷ b'y' ∷ b'_' ∷ b'd' ∷ b'e' ∷ b's' ∷ b't' ∷ b'r' ∷ b'o' ∷ b'y' ∷ [];
  args = proxy_destroy_arg_def_name ∷ [];
  handle = proxy_destroy_handle;
}

abbrev pub proxy_info_command_def : CommandDef
proxy_info_command_def = record {
  name = b'p' ∷ b'r' ∷ b'o' ∷ b'x' ∷ b'y' ∷ b'_' ∷ b'i' ∷ b'n' ∷ b'f' ∷ b'o' ∷ [];
  args = proxy_info_arg_def_name ∷ [];
  handle = proxy_info_handle;
}

abbrev pub gen_start_command_def : CommandDef
gen_start_command_def = record {
  name = b'g' ∷ b'e' ∷ b'n' ∷ b'_' ∷ b's' ∷ b't' ∷ b'a' ∷ b'r' ∷ b't' ∷ [];
  args =
      gen_start_arg_def_name ∷ gen_start_arg_def_device ∷ gen_start_arg_def_dump
      ∷ gen_start_arg_def_cpus ∷ gen_start_arg_def_wait ∷ [];
  handle = gen_create_handle;
}

abbrev pub gen_stop_command_def : CommandDef
gen_stop_command_def = record {
  name = b'g' ∷ b'e' ∷ b'n' ∷ b'_' ∷ b's' ∷ b't' ∷ b'o' ∷ b'p' ∷ [];
  args = gen_stop_arg_def_name ∷ [];
  handle = gen_stop_handle;
}

abbrev pub commands : List CommandDef
commands =
    proxy_create_command_def ∷ proxy_enable_command_def ∷ proxy_disable_command_def
    ∷ proxy_destroy_command_def ∷ proxy_info_command_def ∷ gen_start_command_def
    ∷ gen_stop_command_def ∷ []
