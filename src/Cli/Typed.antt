-- ===== src/Cli/Typed.antt =====
-- The arguments of a command that was parsed: each has a value, of the type of its definition.
use biology.Base.{
  inl, inr, Bool-cases, ℕ, zero, suc, ◌+◌, ◌^◌, ◌*◌, ◌≡◌, refl, ap, subst, ◌∙◌, Bool, true, false,
  not, ◌&&◌, ◌||◌, Option, none, some, List, [], ◌∷◌, ltb, leb, ◌==◌, ==_iff, if◌then◌else◌,
  >>=-eq-some, length, All, arith,
}
use biology.Base.Errno.{Ret, ok, err}
use biology.Control.Show.{is_space, signed_int, atoi}
use biology.Control.Words.{strcmp_equal}
use biology.Dump.Session.{some_injective}
use biology.Proxy.Requests.{entry}
use biology.Gen.Held.{if-split}
use biology.Cli.Command.{
  ArgType, type_bool, type_int, type_string, Value, int_value, string_value, ArgDef, Arg,
  CommandDef, Command, arg_get, new_int, new_string, value_of, new_default, default_of, arg_parse,
  with_value, args_parse, command_of, command_parse,
}
use biology.Cli.Commands.{commands}

-- A value has the type of an argument: a truth value is 0 or 1, and an `int` has 32 bits.
unfoldable pub has_type : ArgType → Value → Bool
has_type type_bool (int_value n) = (n == 0) || (n == 1)
has_type type_int (int_value n) = ltb n (2 ^ 32)
has_type type_string (string_value s) = true
has_type type_bool (string_value s) = false
has_type type_int (string_value s) = false
has_type type_string (int_value n) = false

unfoldable default_has_type : ArgType → Option Value → Bool
default_has_type type none = true
default_has_type type (some v) = has_type type v

-- No two definitions have one address.
unfoldable fresh : ℕ → List ArgDef → Bool
fresh address [] = true
fresh address (def ∷ defs) = not (address == def.address) && fresh address defs

unfoldable distinct : List ArgDef → Bool
distinct [] = true
distinct (def ∷ defs) = fresh def.address defs && distinct defs

signed_int_fits : (text : List ℕ) → ltb (signed_int text) (2 ^ 32) ≡ true
unfolding signed_int
signed_int_fits [] = refl
signed_int_fits (c ∷ text) = ground arith

atoi_fits : (text : List ℕ) → ltb (atoi text) (2 ^ 32) ≡ true
unfolding atoi
atoi_fits [] = refl
atoi_fits (c ∷ text) = elim (Bool-cases (is_space c)) [
  | inl space ↦ rw space (atoi_fits text)
  | inr other ↦ rw other (signed_int_fits (c ∷ text))
]

module _ (malloc : ℕ → Option ℕ) where
  new_int-is : (n : ℕ) (v : Value) → new_int malloc n ≡ some v → int_value n ≡ v
  unfolding new_int
  new_int-is n v e =
      let (usable, e1, e2) = >>=-eq-some (malloc 4) _ e in
      if-split (int_value n ≡ v) (leb 4 usable) (some (int_value n)) none e2
        (λ fits same. some_injective same) (λ small same. absurd (cc same))

  new_string-is : (s : List ℕ) (v : Value) → new_string malloc s ≡ some v → string_value s ≡ v
  unfolding new_string
  new_string-is s v e =
      let (usable, e1, e2) = >>=-eq-some (malloc (length s)) _ e in
      if-split (string_value s ≡ v) (leb (length s + 1) usable) (some (string_value s)) none e2
        (λ fits same. some_injective same) (λ small same. absurd (cc same))

  truth_has_type : (b : Bool) → has_type type_bool (int_value (if b then 0 else 1)) ≡ true
  unfolding has_type
  truth_has_type true = refl
  truth_has_type false = refl

  value_of-typed :
      (type : ArgType) (text : List ℕ) (v : Value)
      → value_of malloc type text ≡ some v
      → has_type type v ≡ true
  unfolding value_of
  value_of-typed type_bool text v e =
      subst (λ k. has_type type_bool k ≡ true) (new_int-is _ v e) (truth_has_type _)
  value_of-typed type_int text v e =
      subst (λ k. has_type type_int k ≡ true) (new_int-is _ v e) (unfold has_type in atoi_fits text)
  value_of-typed type_string text v e =
      subst (λ k. has_type type_string k ≡ true) (new_string-is _ v e) (unfold has_type in refl)

  new_default-typed :
      (type : ArgType) (d : Option Value) (v : Value)
      → default_has_type type d ≡ true
      → new_default malloc type d ≡ some v
      → has_type type v ≡ true
  unfolding new_default default_has_type
  new_default-typed type none v h e = absurd (cc e)
  new_default-typed type_bool (some (int_value n)) v h e =
      subst (λ k. has_type type_bool k ≡ true) (new_int-is n v e) h
  new_default-typed type_int (some (int_value n)) v h e =
      subst (λ k. has_type type_int k ≡ true) (new_int-is n v e) h
  new_default-typed type_string (some (string_value s)) v h e =
      subst (λ k. has_type type_string k ≡ true) (new_string-is s v e) h
  new_default-typed type_bool (some (string_value s)) v h e = absurd (cc e)
  new_default-typed type_int (some (string_value s)) v h e = absurd (cc e)
  new_default-typed type_string (some (int_value n)) v h e = absurd (cc e)

  default_of-typed :
      (def : ArgDef) (v : Value)
      → default_has_type def.type def.default_value ≡ true
      → default_of malloc def ≡ some (ok v)
      → has_type def.type v ≡ true
  unfolding default_of
  default_of-typed def v h e =
      if-split (has_type def.type v ≡ true) def.required _ _ e (λ needed run. absurd (cc run))
        (λ optional run.
          let (w, e1, e2) = >>=-eq-some (new_default malloc def.type def.default_value) _ run in
          let same : w ≡ v = cc e2 in
          subst (λ k. has_type def.type k ≡ true) same
            (new_default-typed def.type def.default_value w h e1))

  arg_parse-typed :
      (def : ArgDef) (argv : List (List ℕ)) (v : Value)
      → default_has_type def.type def.default_value ≡ true
      → arg_parse malloc def argv ≡ some (ok v)
      → has_type def.type v ≡ true
  unfolding arg_parse
  arg_parse-typed def [] v h e = default_of-typed def v h e
  arg_parse-typed def (word ∷ []) v h e = default_of-typed def v h e
  arg_parse-typed def (word ∷ text ∷ argv) v h e =
      if-split (has_type def.type v ≡ true) (strcmp_equal word def.name) _ _ e
        (λ found run.
          let (w, e1, e2) = >>=-eq-some (value_of malloc def.type text) _ run in
          let same : w ≡ v = cc e2 in
          subst (λ k. has_type def.type k ≡ true) same (value_of-typed def.type text w e1))
        (λ other run. arg_parse-typed def (text ∷ argv) v h run)

-- The argument has a value, of its type.
abbrev pub IsGiven : List Arg → ArgDef → Type 0
IsGiven args def = (v : Value) × (arg_get args def ≡ some v) × (has_type def.type v ≡ true)

abbrev HasTypedDefault : ArgDef → Type 0
HasTypedDefault def = default_has_type def.type def.default_value ≡ true

IsGiven-later :
    (arg : Arg) (args : List Arg) (defs : List ArgDef)
    → fresh arg.def.address defs ≡ true
    → All (IsGiven args) defs
    → All (IsGiven (arg ∷ args)) defs
unfolding fresh arg_get
IsGiven-later arg args [] h given = tt
IsGiven-later arg args (def ∷ defs) h ((v, found, typed), more) =
    let other : (arg.def.address == def.address) ≡ false = ground arith in
    let rest : fresh arg.def.address defs ≡ true = ground arith in
    ((v, rw other found, typed), IsGiven-later arg args defs rest more)

module _ (malloc : ℕ → Option ℕ) where
  with_value-ok :
      (def : ArgDef) (value : Ret Value) (rest : Option (Ret (List Arg))) (args : List Arg)
      → with_value malloc def value rest ≡ some (ok args)
      → (v : Value) × (others : List Arg) × (value ≡ ok v)
        × (rest ≡ some (ok others))
        × (record { def = def; value = v } ∷ others ≡ args)
  unfolding with_value
  with_value-ok def (err x) rest args e = absurd (cc e)
  with_value-ok def (ok v) none args e = absurd (cc e)
  with_value-ok def (ok v) (some (err x)) args e = absurd (cc e)
  with_value-ok def (ok v) (some (ok others)) args e = (v, others, refl, refl, cc e)

  args_parse-IsGiven :
      (defs : List ArgDef) (argv : List (List ℕ)) (args : List Arg)
      → distinct defs ≡ true
      → All HasTypedDefault defs
      → args_parse malloc defs argv ≡ some (ok args)
      → All (IsGiven args) defs
  unfolding args_parse distinct
  args_parse-IsGiven [] argv args h typed e = tt
  args_parse-IsGiven (def ∷ defs) argv args h (one, more) e =
      let (block, e1, e2) = >>=-eq-some (malloc 16) _ e in
      let (value, e3, e4) = >>=-eq-some (arg_parse malloc def argv) _ e2 in
      let (v, others, is_ok, rest, same) =
        with_value-ok def value (args_parse malloc defs argv) args e4 in
      let apart : fresh def.address defs ≡ true = ground arith in
      let later : distinct defs ≡ true = ground arith in
      subst (λ a. All (IsGiven a) (def ∷ defs)) same
        (
          (
            v,
            unfold arg_get in rw ((==_iff def.address def.address).1 refl) refl,
            arg_parse-typed malloc def argv v one (e3 ∙ ap some is_ok),
          ),
          IsGiven-later (record { def = def; value = v }) others defs apart
              (args_parse-IsGiven defs argv others later more rest),
        )

  command_parse-IsGiven :
      (def : CommandDef) (argv : List (List ℕ)) (command : Command)
      → distinct def.args ≡ true
      → All HasTypedDefault def.args
      → command_parse malloc def argv ≡ some (ok command)
      → (command.def ≡ def) × All (IsGiven command.args) def.args
  unfolding command_parse command_of
  command_parse-IsGiven def argv command apart typed e =
      let (b1, e1, e2) = >>=-eq-some (malloc 16) _ e in
      let (b2, e3, e4) = >>=-eq-some (malloc (8 * (length def.args + 1))) _ e2 in
      let (args, e5, e6) = >>=-eq-some (args_parse malloc def.args argv) _ e4 in made args e5 e6
    where
      made :
          (args : Ret (List Arg))
          → args_parse malloc def.args argv ≡ some args
          → some (command_of malloc def args) ≡ some (ok command)
          → (command.def ≡ def) × All (IsGiven command.args) def.args
      made (err x) e1 e2 = absurd (cc e2)
      made (ok args) e1 e2 =
          let same : record { def = def; args = args } ≡ command = cc e2 in
          subst (λ c. (c.def ≡ def) × All (IsGiven c.args) def.args) same
            (refl, args_parse-IsGiven def.args argv args apart typed e1)

All-entry :
    {A : Type 0} (P : A → Type 0) (xs : List A) (i : ℕ) (x : A)
    → All P xs
    → entry i xs ≡ some x
    → P x
unfolding entry
All-entry P [] i x h e = absurd (cc e)
All-entry P (y ∷ xs) zero x (one, more) e = subst P (some_injective e) one
All-entry P (y ∷ xs) (suc i) x (one, more) e = All-entry P xs i x more e

abbrev IsReady : CommandDef → Type 0
IsReady def = (distinct def.args ≡ true) × All HasTypedDefault def.args

commands-IsReady : All IsReady commands
unfolding distinct fresh default_has_type has_type
commands-IsReady = (
  (refl, (refl, (refl, tt))),
  (
    (refl, (refl, (refl, (refl, tt)))),
    (
      (refl, (refl, tt)),
      (
        (refl, (refl, tt)),
        (
          (refl, (refl, tt)),
          ((refl, (refl, (refl, (refl, (refl, (refl, tt)))))), ((refl, (refl, tt)), tt)),
        ),
      ),
    ),
  ),
)

-- A command of the table that is parsed has every argument of its definition, each with a value of
-- the type of the argument: a truth value is 0 or 1, an `int` has 32 bits, and the rest are strings.
pub commands-IsGiven :
    (malloc : ℕ → Option ℕ) (argv : List (List ℕ)) (command : Command) (def : CommandDef) (i : ℕ)
    → entry i commands ≡ some def
    → command_parse malloc def argv ≡ some (ok command)
    → (command.def ≡ def) × All (IsGiven command.args) def.args
commands-IsGiven malloc argv command def i at e =
    let (apart, typed) = All-entry IsReady commands i def commands-IsReady at in
    command_parse-IsGiven malloc def argv command apart typed e
