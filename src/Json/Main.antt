-- ===== src/Json/Main.antt =====
-- to-json over a directory: main.c.
use biology.Base.{
  ℕ, ◌+◌, ◌*◌, ◌^◌, ◌<◌, ◌≡◌, refl, sym, ap, ◌∙◌, Bool, true, false, Option, none, some, List, [],
  ◌∷◌, ◌++◌, ◌>>=◌, if◌then◌else◌, length, All, map, append_assoc,
}
use biology.Kernel.{Allocator, Pages, IsPages}
use biology.Serial.Info.{Bio, BioInfo}
use biology.Serial.Decode.{Block}
use biology.Serial.Layout.{IsWhole}
use biology.Serial.Header.{header_bytes}
use biology.Dump.Session.{all_records}
use biology.Proxy.Device.{schema_for}
use biology.Json.Parse.{
  Printed, prints, faulted, unfinished, behind, comma_text, record_text, masked, parse_dump_file,
}
use biology.Json.Prints.{texts, first_after, parse_dump_file-all_records}

-- `json_bio_info_begin` and `json_bio_info_end`
abbrev pub begin_text : List ℕ
begin_text =
    b'{' ∷ 34 ∷ b'r' ∷ b'e' ∷ b'q' ∷ b'u' ∷ b'e' ∷ b's' ∷ b't' ∷ b's' ∷ 34 ∷ b':' ∷ b' ' ∷ b'[' ∷ 10
    ∷ []

abbrev pub end_text : List ℕ
end_text = 10 ∷ b']' ∷ b'}' ∷ []

-- An entry of the directory: its name, and whether it is a regular file.
pub record Entry : Type 0 where
  pub d_name : List ℕ
  pub regular : Bool

-- `build_file_path`; no memory for the path gives null.
unfoldable pub build_file_path : Allocator → List ℕ → List ℕ → Option (List ℕ)
build_file_path A dir_path file_name = do
  block ← A.kmalloc (length dir_path + length file_name + 2)
  some (dir_path ++ (b'/' ∷ file_name))

-- What follows a file, with whether no request has been printed yet.
unfoldable pub and_then : Printed → (Bool → Printed) → Printed
unfolding behind
and_then (prints text first) k = behind text (k first)
and_then faulted k = faulted
and_then unfinished k = unfinished

-- The result of `build_file_path` and the parse of the file; without a path, `main` ends at once.
unfoldable pub parse_at :
    Allocator
    → (List ℕ → Option (List ℕ))
    → BioInfo Block
    → Option (List ℕ)
    → Bool
    → (Bool → Printed)
    → Printed
unfolding and_then
parse_at A file_at info none first k = prints [] first
parse_at A file_at info (some path) first k =
    and_then (parse_dump_file A info (file_at path) first) k

-- The loop of `main` over the entries, and the text behind it. `file_at` is what a path holds.
unfoldable pub main_loop :
    Allocator → (List ℕ → Option (List ℕ)) → BioInfo Block → List ℕ → List Entry → Bool → Printed
unfolding parse_at build_file_path
main_loop A file_at info dir_path [] first = prints end_text first
main_loop A file_at info dir_path (ent ∷ ents) first =
    if ent.regular
    then parse_at A file_at info (build_file_path A dir_path ent.d_name) first
        (λ next. main_loop A file_at info dir_path ents next)
    else main_loop A file_at info dir_path ents first

-- `main` on a directory that is opened; its return value is not modelled.
unfoldable pub main_output :
    Allocator → (List ℕ → Option (List ℕ)) → BioInfo Block → List ℕ → List Entry → Printed
unfolding main_loop
main_output A file_at info dir_path ents =
    behind begin_text (main_loop A file_at info dir_path ents true)

-- An entry of a directory: a dump of the proxy, by its name and its requests, or an entry that is not a
-- regular file, as `.` and `..` are.
pub data Written : Type 0 where
  dump : List ℕ → List (BioInfo Bio) → Written
  other : List ℕ → Written

unfoldable pub entry_of : Written → Entry
entry_of (dump file_name infos) = record { d_name = file_name; regular = true }
entry_of (other name) = record { d_name = name; regular = false }

unfoldable pub all_infos : List Written → List (BioInfo Bio)
all_infos [] = []
all_infos (dump file_name infos ∷ files) = infos ++ all_infos files
all_infos (other name ∷ files) = all_infos files

texts-append :
    (xs ys : List (BioInfo Bio)) (first : Bool)
    → texts (xs ++ ys) first ≡ texts xs first ++ texts ys (first_after xs first)
unfolding texts first_after
texts-append [] ys first = refl
texts-append (x ∷ xs) ys first =
    let front = if first then [] else comma_text in
    let one = record_text (masked x) in
    ap (λ t. front ++ (one ++ t)) (texts-append xs ys false)
    ∙ ap (λ t. front ++ t)
        (sym (append_assoc one (texts xs false) (texts ys (first_after xs false))))
    ∙ sym (append_assoc front (one ++ texts xs false) (texts ys (first_after xs false)))

first_after-append :
    (xs ys : List (BioInfo Bio)) (first : Bool)
    → first_after (xs ++ ys) first ≡ first_after ys (first_after xs first)
unfolding first_after
first_after-append [] ys first = refl
first_after-append (x ∷ xs) ys first = first_after-append xs ys false

module _ (P : Pages) (I : IsPages P) (dump_payload : Bool) (A : Allocator) (to : BioInfo Block)
    (dir_path : List ℕ) (file_at : List ℕ → Option (List ℕ))
    (named : (n : ℕ) → (block : List ℕ) × (A.kmalloc n ≡ some block)) where
  -- A dump holds whole requests, as the proxy writes them; nothing is asked of another entry.
  abbrev IsDump : Written → Type 0
  IsDump (dump file_name infos) =
      (file_at (dir_path ++ (b'/' ∷ file_name))
        ≡ some (
            header_bytes (schema_for dump_payload)
            ++ all_records P (schema_for dump_payload) infos))
      × All IsWhole infos
      × (length (header_bytes (schema_for dump_payload))
            + length (all_records P (schema_for dump_payload) infos)
          < 2 ^ 64)
  IsDump (other name) = Unit

  main_loop-texts :
      (files : List Written) (first : Bool)
      → All IsDump files
      → main_loop A file_at to dir_path (map entry_of files) first
        ≡ prints (texts (all_infos files) first ++ end_text) (first_after (all_infos files) first)
  unfolding main_loop parse_at build_file_path and_then behind all_infos texts first_after entry_of
  main_loop-texts [] first h = refl
  main_loop-texts (other name ∷ files) first (h, more) = main_loop-texts files first more
  main_loop-texts (dump file_name infos ∷ files) first ((at, whole, small), more) =
      let (block, room) = named (length dir_path + length file_name + 2) in
      rw room (
        rw at (
          rw
            (parse_dump_file-all_records P I dump_payload A
              (named (8 * (length (schema_for dump_payload) + 1))).0 to infos first
              (named (8 * (length (schema_for dump_payload) + 1))).1 whole small)
            (rw (main_loop-texts files (first_after infos first) more) (
              rw
                (
                  texts-append infos (all_infos files) first,
                  first_after-append infos (all_infos files) first,
                )
                (ap (λ t. prints t (first_after (all_infos files) (first_after infos first)))
                  (sym (append_assoc (texts infos first) _ end_text)))))))

  -- Over a directory whose regular files are dumps of the proxy, with other entries anywhere between
  -- them, with memory for every block, to-json prints one list: the
  -- requests of all files, file by file in the order of the entries and in the order in which each
  -- was dumped, with a comma between two of them and none before the first or behind the last.
  pub main_output-texts :
      (files : List Written)
      → All IsDump files
      → main_output A file_at to dir_path (map entry_of files)
        ≡ prints
            (begin_text ++ (texts (all_infos files) true ++ end_text))
            (first_after (all_infos files) true)
  unfolding main_output behind
  main_output-texts files h = rw (main_loop-texts files true h) refl
