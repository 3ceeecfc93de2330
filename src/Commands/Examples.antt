-- ===== src/Commands/Examples.antt =====
-- Hard Disk and File IO/q5: small files.
use os_in_parts.Prelude.{
  arith, ℕ, ◌≡◌, ◌≢◌, refl, true, false, none, some, [], ◌∷◌, length, ◌==◌, if◌then◌else◌,
  Bool-cases, inl, inr, subst,
}
use os_in_parts.Prelude.Strings.{Bytes}
use os_in_parts.Prelude.Names.{same_name, strcmp, same_name-true}
use os_in_parts.Commands.Words.{count_words, count_from, before_eof, words, count_words-words}
use os_in_parts.Commands.Copy.{FileSystem, Message, Outcome, copy_loop, copy_file}
use os_in_parts.Commands.Copied.{copy_file_lem}
use os_in_parts.Commands.Move.{
  Tree, Entries, find, ends_in_dots, remaining, move_entries, move_directory,
}
use os_in_parts.Commands.Moved.{IsNamed, HasAll, Keeps, Places, emptied, move_directory_lem}

-- `a bc`, and a word that is behind the byte 255.
abbrev text : Bytes
text = b'a' ∷ b' ' ∷ b' ' ∷ b'b' ∷ b'c' ∷ b'\n' ∷ 255 ∷ b' ' ∷ b'd' ∷ []

text-count : count_words text ≡ 2
unfolding count_words count_from
text-count = refl

count_words-words_example : count_words text ≡ length (words (before_eof text))
count_words-words_example = count_words-words text

-- The file `d/a`, and the directory `e`.
abbrev a_path : Bytes
a_path = b'd' ∷ b'/' ∷ b'a' ∷ []

abbrev e_path : Bytes
e_path = b'e' ∷ []

-- A path that names nothing yet.
abbrev b_path : Bytes
b_path = b'b' ∷ []

abbrev disk : FileSystem
disk = record {
  file = λ p. if same_name p a_path then some 0 else none;
  is_dir = λ p. same_name p e_path;
  can_read = λ p. true;
  can_write = λ p. true;
  contents = λ k. if k == 0 then text else [];
  fresh = 1;
}

into_directory : copy_file disk a_path e_path ≡ Outcome.dangling
unfolding copy_file strcmp
into_directory = refl

left_by : Outcome → Bytes
left_by (Outcome.done message fs) = fs.contents 1
left_by Outcome.dangling = []

copied : left_by (copy_file disk a_path b_path) ≡ text
unfolding left_by copy_file copy_loop strcmp
copied = refl

copy_file_lem_example :
    (j : ℕ) × (fs : FileSystem) × (copy_file disk a_path b_path
      ≡ Outcome.done (Message.copied b_path) fs)
    × (fs.file b_path ≡ some j)
    × (fs.contents j ≡ (if 0 == j then [] else text))
    × ((k : ℕ) → k ≢ j → fs.contents k ≡ disk.contents k)
unfolding strcmp
copy_file_lem_example = copy_file_lem disk a_path b_path 0 refl refl refl refl refl

-- The directory `d` with the file `a`, and the file `b`.
abbrev tree : Entries
tree =
    Entries.entry (b'd' ∷ [])
      (Tree.directory (Entries.entry (b'a' ∷ []) (Tree.file text) Entries.end))
      (Entries.entry (b'b' ∷ []) (Tree.file []) Entries.end)

-- A directory with a name set to a tree: in place of what it stood for, or at the end.
unfoldable put_entry : Bytes → Tree → Entries → Entries
put_entry name tree Entries.end = Entries.entry name tree Entries.end
put_entry name tree (Entries.entry n t entries) =
    let rest = put_entry name tree entries in
    if same_name n name then Entries.entry n tree entries else Entries.entry n t rest

put_entry-Places : Places put_entry
unfolding put_entry find
put_entry-Places n name tree Entries.end = refl
put_entry-Places n name tree (Entries.entry m t entries) = elim (Bool-cases (same_name m name)) [
  | inl same ↦
      let e : m ≡ name = same_name-true m name same in
      rw (same, if◌then◌else◌) (rw e (ground arith))
  | inr other ↦ elim (Bool-cases (same_name name n)) [
    | inl here ↦
        let e : name ≡ n = same_name-true name n here in
        let rest = put_entry-Places n name tree entries in
        let not_m : same_name m n ≡ false = subst (λ x. same_name m x ≡ false) e other in
        ground (arith, rest, not_m, here, other)
    | inr there ↦ ground (arith, put_entry-Places n name tree entries, there, other)
  ]
]

-- A file in place of the directory `d`.
abbrev in_the_way : Entries
in_the_way = Entries.entry (b'd' ∷ []) (Tree.file []) Entries.end

-- The directory stays, with its file, and the file that is behind it moves.
stays :
    (move_directory put_entry a_path tree (some in_the_way)).0
    ≡ some (
        Tree.directory (
          Entries.entry
            (b'd' ∷ [])
            (Tree.directory (Entries.entry (b'a' ∷ []) (Tree.file text) Entries.end))
            Entries.end))
unfolding move_directory move_entries find put_entry remaining ends_in_dots strcmp
stays = refl

-- The directory `.` is left, and is empty.
dot_stays : (move_directory put_entry (b'.' ∷ []) tree none).0 ≡ some (Tree.directory Entries.end)
unfolding move_directory move_entries find put_entry remaining ends_in_dots strcmp
dot_stays = refl

move_directory_lem_example :
    (new : Entries) × (move_directory put_entry a_path tree none ≡ (emptied a_path, new))
    × HasAll tree new
    × Keeps tree Entries.end new
unfolding IsNamed find strcmp
move_directory_lem_example =
    move_directory_lem put_entry put_entry-Places a_path tree none (refl, (refl, tt), (refl, tt))
      (λ entries e. absurd (ground (arith, e)))
