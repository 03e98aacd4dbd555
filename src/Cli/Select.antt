-- ===== src/Cli/Select.antt =====
-- Which command the words of a command line select.
use biology.Base.{
  ℕ, suc, ◌≡◌, refl, ◌∙◌, ◌⊎◌, inl, inr, Bool, true, false, ◌&&◌, some, List, [], ◌∷◌, ◌++◌, ltb,
  ◌==◌, if◌then◌else◌, length, All, arith,
}
use biology.Cli.Command.{
  CommandDef, starts_with, contains, words_cnt, all_contained, compare_name, def_parse,
}
use biology.Cli.Commands.{commands}

-- A name, cut at its underscores.
unfoldable with_letter : ℕ → List (List ℕ) → List (List ℕ)
with_letter c [] = (c ∷ []) ∷ []
with_letter c (word ∷ words) = (c ∷ word) ∷ words

unfoldable pub split_words : List ℕ → List (List ℕ)
unfolding with_letter
split_words [] = [] ∷ []
split_words (c ∷ name) =
    let rest = split_words name in if c == b'_' then [] ∷ rest else with_letter c rest

enough_words : (n : ℕ) → ltb (suc (suc n)) 2 ≡ false
enough_words n = ground arith

-- The words of a command's own name select that command, and what is behind them is left for its
-- arguments: no command of the table hides another.
pub def_parse-split_words :
    (argv : List (List ℕ))
    → All (λ def. def_parse commands (split_words def.name ++ argv) ≡ some (def, argv)) commands
unfolding def_parse compare_name words_cnt all_contained contains starts_with split_words
def_parse-split_words argv =
    let e = enough_words (length argv) in
    (rw e refl, (rw e refl, (rw e refl, (rw e refl, (rw e refl, (rw e refl, (rw e refl, tt)))))))

abbrev HasTwoWords : CommandDef → Type 0
HasTwoWords def = words_cnt def.name ≡ 2

commands-HasTwoWords : All HasTwoWords commands
unfolding words_cnt
commands-HasTwoWords = (refl, (refl, (refl, (refl, (refl, (refl, (refl, tt)))))))

and_swap : (a b : Bool) → (a && (b && true)) ≡ (b && (a && true))
and_swap true true = refl
and_swap true false = refl
and_swap false true = refl
and_swap false false = refl

compare_name-swap :
    (def : CommandDef) (x y : List ℕ) (argv : List (List ℕ))
    → HasTwoWords def
    → compare_name def (x ∷ y ∷ argv) ≡ compare_name def (y ∷ x ∷ argv)
unfolding compare_name all_contained
compare_name-swap def x y argv two =
    rw (two, and_swap (contains def.name x) (contains def.name y)) refl

either_count :
    (a b : Bool) (n : ℕ)
    → ((if a then 0 else if b then n else 0) ≡ 0) ⊎ ((if a then 0 else if b then n else 0) ≡ n)
either_count true b n = inl refl
either_count false true n = inr refl
either_count false false n = inl refl

compare_name-cases :
    (def : CommandDef) (argv : List (List ℕ))
    → (compare_name def argv ≡ 0) ⊎ (compare_name def argv ≡ words_cnt def.name)
unfolding compare_name
compare_name-cases def argv =
    either_count (ltb (length argv) (words_cnt def.name))
      (all_contained def.name (words_cnt def.name) argv) (words_cnt def.name)

parse-swap :
    (defs : List CommandDef) (x y : List ℕ) (argv : List (List ℕ))
    → All HasTwoWords defs
    → def_parse defs (x ∷ y ∷ argv) ≡ def_parse defs (y ∷ x ∷ argv)
unfolding def_parse
parse-swap [] x y argv two = refl
parse-swap (def ∷ defs) x y argv (one, more) =
    let same = compare_name-swap def x y argv one in
    let rest = parse-swap defs x y argv more in
    elim (compare_name-cases def (y ∷ x ∷ argv)) [
      | inl no_match ↦ rw (same ∙ no_match) (rw no_match rest)
      | inr match ↦ rw (same ∙ match ∙ one) (rw (match ∙ one) refl)
    ]

-- The order of the two words of a command does not matter, whatever they are.
def_parse-swap :
    (x y : List ℕ) (argv : List (List ℕ))
    → def_parse commands (x ∷ y ∷ argv) ≡ def_parse commands (y ∷ x ∷ argv)
def_parse-swap x y argv = parse-swap commands x y argv commands-HasTwoWords
