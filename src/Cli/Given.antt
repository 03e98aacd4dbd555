-- ===== src/Cli/Given.antt =====
-- What an argument of the command line becomes: where its name stands, where there is none, and what
-- the blocks must hold.
use biology.Base.{
  ℕ, ◌≡◌, refl, ◌∙◌, true, false, Option, none, some, List, [], ◌∷◌, ◌++◌, ltb, ==_iff,
  if◌then◌else◌, ◌>>=◌, length, All, arith,
}
use biology.Base.Errno.{ok}
use biology.Control.Words.{strcmp_equal}
use biology.Cli.Command.{
  type_string, string_value, ArgDef, new_string, value_of, default_of, arg_parse,
}

-- The words hold no name of the argument.
abbrev pub IsOther : ArgDef → List ℕ → Type 0
IsOther def word = strcmp_equal word def.name ≡ false

pub strcmp_equal_refl : (s : List ℕ) → strcmp_equal s s ≡ true
unfolding strcmp_equal
strcmp_equal_refl [] = refl
strcmp_equal_refl (c ∷ s) = rw ((==_iff c c).1 refl) (strcmp_equal_refl s)

module _ (malloc : ℕ → Option ℕ) where
  -- The text behind the first word that is the argument's name is its value.
  pub arg_parse-given :
      (def : ArgDef) (before : List (List ℕ)) (text : List ℕ) (argv : List (List ℕ))
      → All (IsOther def) before
      → arg_parse malloc def (before ++ (def.name ∷ text ∷ argv))
        ≡ (value_of malloc def.type text >>= λ v. some (ok v))
  unfolding arg_parse
  arg_parse-given def [] text argv h = rw (strcmp_equal_refl def.name) refl
  arg_parse-given def (word ∷ []) text argv (one, more) =
      rw one (arg_parse-given def [] text argv tt)
  arg_parse-given def (word ∷ next ∷ before) text argv (one, more) =
      rw one (arg_parse-given def (next ∷ before) text argv more)

  -- A string behind the name of its argument is taken when the block that `malloc` gives for as many
  -- bytes as it has letters can hold one byte more; and when the block cannot, its terminator is
  -- written behind the block.
  pub arg_parse-fits :
      (def : ArgDef) (before : List (List ℕ)) (text : List ℕ) (argv : List (List ℕ)) (usable : ℕ)
      → def.type ≡ type_string
      → All (IsOther def) before
      → malloc (length text) ≡ some usable
      → arg_parse malloc def (before ++ (def.name ∷ text ∷ argv))
        ≡ (if ltb (length text) usable then some (ok (string_value text)) else none)
  unfolding value_of new_string
  arg_parse-fits def before text argv usable is_string h room =
      arg_parse-given def before text argv h ∙ rw is_string (rw room (ground arith))

  -- An argument that is not on the command line has its default, if any.
  pub arg_parse-missing :
      (def : ArgDef) (argv : List (List ℕ))
      → All (IsOther def) argv
      → arg_parse malloc def argv ≡ default_of malloc def
  unfolding arg_parse
  arg_parse-missing def [] h = refl
  arg_parse-missing def (word ∷ []) h = refl
  arg_parse-missing def (word ∷ text ∷ argv) (one, more) =
      rw one (arg_parse-missing def (text ∷ argv) more)
