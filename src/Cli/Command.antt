-- ===== src/Cli/Command.antt =====
-- Commands and their arguments: command.h, and the parser of command.c. A word of the command line is
-- a string without its terminator; the words are `argv`, and their number is `argc`.
use biology.Base.{
  ℕ, zero, suc, ◌+◌, ◌*◌, Bool, true, false, ◌&&◌, ◌||◌, Option, none, some, List, [], ◌∷◌, ltb,
  leb, ◌==◌, if◌then◌else◌, ◌>>=◌, length, drop,
}
use biology.Base.Errno.{einval, Ret, ok, err}
use biology.Control.Words.{strcmp_equal}
use biology.Control.Show.{atoi}

-- `enum blgy_cli_command_arg_type`
pub data ArgType : Type 0 where
  type_bool : ArgType
  type_int : ArgType
  type_string : ArgType

-- What a `void *` of an argument points to: an `int` as its bit pattern, or a string.
pub data Value : Type 0 where
  int_value : ℕ → Value
  string_value : List ℕ → Value

-- `struct blgy_cli_command_arg_def`, with its address; the default may be null.
pub record ArgDef : Type 0 where
  pub address : ℕ
  pub type : ArgType
  pub required : Bool
  pub default_value : Option Value
  pub name : List ℕ

-- `struct blgy_cli_command_arg`
pub record Arg : Type 0 where
  pub def : ArgDef
  pub value : Value

-- The functions that a command definition points to.
pub data Handle : Type 0 where
  proxy_create_handle : Handle
  proxy_enable_handle : Handle
  proxy_disable_handle : Handle
  proxy_destroy_handle : Handle
  proxy_info_handle : Handle
  gen_create_handle : Handle
  gen_stop_handle : Handle

-- `struct blgy_cli_command_def`
pub record CommandDef : Type 0 where
  pub name : List ℕ
  pub args : List ArgDef
  pub handle : Handle

-- `struct blgy_cli_command`
pub record Command : Type 0 where
  pub def : CommandDef
  pub args : List Arg

-- `blgy_cli_command_arg_get`
unfoldable pub arg_get : List Arg → ArgDef → Option Value
arg_get [] def = none
arg_get (arg ∷ args) def =
    let rest = arg_get args def in if arg.def.address == def.address then some arg.value else rest

-- `strstr(text, word) != NULL`
unfoldable pub starts_with : List ℕ → List ℕ → Bool
starts_with text [] = true
starts_with [] (c ∷ word) = false
starts_with (d ∷ text) (c ∷ word) = (d == c) && starts_with text word

unfoldable pub contains : List ℕ → List ℕ → Bool
unfolding starts_with
contains [] word = starts_with [] word
contains (d ∷ text) word = starts_with (d ∷ text) word || contains text word

-- The first loop of `blgy_cli_command_def_compare_name`: the words of a name.
unfoldable pub words_cnt : List ℕ → ℕ
words_cnt [] = 1
words_cnt (c ∷ name) = let rest = words_cnt name in if c == b'_' then suc rest else rest

-- Its second loop, on `cnt` words.
unfoldable pub all_contained : List ℕ → ℕ → List (List ℕ) → Bool
unfolding contains
all_contained name zero argv = true
all_contained name (suc cnt) [] = false
all_contained name (suc cnt) (word ∷ argv) = contains name word && all_contained name cnt argv

-- `blgy_cli_command_def_compare_name`
unfoldable pub compare_name : CommandDef → List (List ℕ) → ℕ
unfolding words_cnt all_contained
compare_name def argv =
    let cnt = words_cnt def.name in
    if ltb (length argv) cnt then 0 else if all_contained def.name cnt argv then cnt else 0

-- `blgy_cli_command_def_parse`: the definition, and the words behind its name.
unfoldable pub def_parse : List CommandDef → List (List ℕ) → Option (CommandDef × List (List ℕ))
unfolding compare_name
def_parse [] argv = none
def_parse (def ∷ defs) argv =
    let rest = def_parse defs argv in
    let ret = compare_name def argv in if ret == 0 then rest else some (def, drop ret argv)

-- `malloc(n)` is the number of bytes that its block can hold, or null.
module _ (malloc : ℕ → Option ℕ) where
  -- An `int` in a new block, and a string that is copied with its terminator to a block of its
  -- length; behind the end of a block is a fault.
  unfoldable pub new_int : ℕ → Option Value
  new_int n = do usable ← malloc 4; if leb 4 usable then some (int_value n) else none

  unfoldable pub new_string : List ℕ → Option Value
  new_string s = do
    usable ← malloc (length s)
    if leb (length s + 1) usable then some (string_value s) else none

  -- The first `switch` of `blgy_cli_arg_parse`.
  unfoldable pub value_of : ArgType → List ℕ → Option Value
  unfolding new_int new_string
  value_of type_bool text = new_int (
      if strcmp_equal text (b'0' ∷ []) || strcmp_equal text (b'f' ∷ b'a' ∷ b'l' ∷ b's' ∷ b'e' ∷ [])
      then 0
      else 1)
  value_of type_int text = new_int (atoi text)
  value_of type_string text = new_string text

  -- Its second `switch`. A null default is copied from, which is a fault; so is a default that is
  -- not of the type of the argument, which no definition has.
  unfoldable pub new_default : ArgType → Option Value → Option Value
  unfolding new_int new_string
  new_default type none = none
  new_default type_bool (some (int_value n)) = new_int n
  new_default type_int (some (int_value n)) = new_int n
  new_default type_string (some (string_value s)) = new_string s
  new_default type_bool (some (string_value s)) = none
  new_default type_int (some (string_value s)) = none
  new_default type_string (some (int_value n)) = none

  -- `blgy_cli_arg_parse` from its loop on, when the name was not found.
  unfoldable pub default_of : ArgDef → Option (Ret Value)
  unfolding new_default
  default_of def =
      if def.required
      then some (err einval)
      else (new_default def.type def.default_value >>= λ v. some (ok v))

  -- `blgy_cli_arg_parse`: the last word is no name of an argument.
  unfoldable pub arg_parse : ArgDef → List (List ℕ) → Option (Ret Value)
  unfolding value_of default_of
  arg_parse def [] = default_of def
  arg_parse def (word ∷ []) = default_of def
  arg_parse def (word ∷ text ∷ argv) =
      let rest = arg_parse def (text ∷ argv) in
      if strcmp_equal word def.name then (value_of def.type text >>= λ v. some (ok v)) else rest

  -- What follows the parse of one argument, and of those behind it.
  unfoldable pub with_value : ArgDef → Ret Value → Option (Ret (List Arg)) → Option (Ret (List Arg))
  with_value def (err e) rest = some (err e)
  with_value def (ok v) none = none
  with_value def (ok v) (some (err e)) = some (err e)
  with_value def (ok v) (some (ok args)) = some (ok (record { def = def; value = v } ∷ args))

  -- The loop of `blgy_cli_command_parse`.
  unfoldable pub args_parse : List ArgDef → List (List ℕ) → Option (Ret (List Arg))
  unfolding arg_parse with_value
  args_parse [] argv = some (ok [])
  args_parse (def ∷ defs) argv =
      let rest = args_parse defs argv in
      do block ← malloc 16; value ← arg_parse def argv; with_value def value rest

  -- The end of `blgy_cli_command_parse`.
  unfoldable pub command_of : CommandDef → Ret (List Arg) → Ret Command
  command_of def (err e) = err e
  command_of def (ok args) = ok (record { def = def; args = args })

  -- `blgy_cli_command_parse`, with the sizes of the structures on a 64 bit machine. An error is the
  -- null pointer of the source.
  unfoldable pub command_parse : CommandDef → List (List ℕ) → Option (Ret Command)
  unfolding args_parse command_of
  command_parse def argv = do
    command ← malloc 16
    array ← malloc (8 * (length def.args + 1))
    args ← args_parse def.args argv
    some (command_of def args)
