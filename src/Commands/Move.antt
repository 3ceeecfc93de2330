-- ===== src/Commands/Move.antt =====
-- Hard Disk and File IO/q5/move.c: the move of a directory.
-- The source and the target are two directories of one file system, neither inside the other, and the
-- permissions allow the calls. The entries `.` and `..`, which the loop skips, are not in the model,
-- and a path is not longer than its buffer of 1024 bytes. The order of `readdir` is any.
use mathlib.Core.List.{reverse}
use os_in_parts.Prelude.{Bool, ◌||◌, Option, none, some, [], ◌∷◌, ◌==◌, if◌then◌else◌}
use os_in_parts.Prelude.Strings.{Bytes}
use os_in_parts.Prelude.Names.{same_name}

-- A file with its contents, or a directory with its entries in the order of `readdir`.
mutual
  pub data Tree : Type 0 where
    file : Bytes → Tree
    directory : Entries → Tree

  pub data Entries : Type 0 where
    end : Entries
    entry : Bytes → Tree → Entries → Entries

-- What a name stands for in a directory.
unfoldable pub find : Bytes → Entries → Option Tree
find name Entries.end = none
find name (Entries.entry n tree entries) =
    let rest = find name entries in if same_name n name then some tree else rest

-- An entry that stays in the source, if something of it is left.
abbrev pub stay : Bytes → Option Tree → Entries → Entries
stay name none left = left
stay name (some tree) left = Entries.entry name tree left

-- `rmdir`, which removes a directory only if it is empty.
abbrev pub rmdir : Entries → Option Tree
rmdir Entries.end = none
rmdir (Entries.entry name tree entries) = some (Tree.directory (Entries.entry name tree entries))

unfoldable pub drop_slashes : Bytes → Bytes
drop_slashes [] = []
drop_slashes (c ∷ cs) = let rest = drop_slashes cs in if c == b'/' then rest else c ∷ cs

unfoldable pub before_slash : Bytes → Bytes
before_slash [] = []
before_slash (c ∷ cs) = let rest = before_slash cs in if c == b'/' then [] else c ∷ rest

-- Whether the last name of a path is `.` or `..`.
unfoldable pub ends_in_dots : Bytes → Bool
unfolding drop_slashes before_slash
ends_in_dots path =
    let name = before_slash (drop_slashes (reverse path)) in
    same_name name (b'.' ∷ []) || same_name name (b'.' ∷ b'.' ∷ [])

-- `rmdir` of a path, which fails on `.` and `..` whatever the directory has.
abbrev pub rmdir_at : Bytes → Entries → Option Tree
rmdir_at path left = if ends_in_dots path then some (Tree.directory left) else rmdir left

-- What is left of a source whose target is no directory: no file moves, and directories that have no
-- file in them are removed.
unfoldable pub remaining : Entries → Entries
remaining Entries.end = Entries.end
remaining (Entries.entry name (Tree.file contents) entries) =
    Entries.entry name (Tree.file contents) (remaining entries)
remaining (Entries.entry name (Tree.directory inside) entries) =
    stay name (rmdir (remaining inside)) (remaining entries)

abbrev pub at_top : Bytes → Entries × Entries → Option Tree × Entries
at_top src (left, target) = (rmdir_at src left, target)

-- The directory in the target that a directory is moved into: there already, or made by `mkdir`; none
-- if a file has the name.
abbrev pub target_in : Option Tree → Option Entries
target_in none = some Entries.end
target_in (some (Tree.directory entries)) = some entries
target_in (some (Tree.file contents)) = none

-- The entries behind one that was moved.
abbrev pub after_move : Bytes → Option Tree → Entries × Entries → Entries × Entries
after_move name tree (left, target) = (stay name tree left, target)

-- `place` is what the file system makes of a directory in which a name is set to a tree.
module _ (place : Bytes → Tree → Entries → Entries) where
  -- `rename` of a file, which replaces a file, and fails on a directory.
  abbrev pub move_file : Bytes → Bytes → Entries → Option Tree → Option Tree × Entries
  move_file name contents target (some (Tree.directory entries)) =
      (some (Tree.file contents), target)
  move_file name contents target (some (Tree.file old)) =
      (none, place name (Tree.file contents) target)
  move_file name contents target none = (none, place name (Tree.file contents) target)

  -- A directory that has been moved, from what is left of it and what its target has.
  abbrev pub moved_into : Bytes → Entries → Entries × Entries → Option Tree × Entries
  moved_into name target (left, inside) = (rmdir left, place name (Tree.directory inside) target)

  -- The move of a directory into what the target has of its name, by the move of its entries.
  abbrev pub move_below :
      Bytes
      → Entries
      → Option Tree
      → (Entries → Entries × Entries)
      → Option Entries
      → Option Tree × Entries
  move_below name target left move none = (left, target)
  move_below name target left move (some below) = moved_into name target (move below)

  -- The loop of `move_directory`: what is left of the source, and the target.
  unfoldable pub move_entries : Entries → Entries → Entries × Entries
  unfolding find remaining
  move_entries Entries.end target = (Entries.end, target)
  move_entries (Entries.entry name (Tree.file contents) entries) target =
      let (tree, target') = move_file name contents target (find name target) in
      after_move name tree (move_entries entries target')
  move_entries (Entries.entry name (Tree.directory inside) entries) target =
      let (tree, target') =
        move_below name target (rmdir (remaining inside)) (move_entries inside)
          (target_in (find name target)) in
      after_move name tree (move_entries entries target')

  -- `move_directory` at the top, of the directory at the path `src`: the target is a directory, or is
  -- made. The results are what is left of the source, none if it is removed, and the target.
  unfoldable pub move_directory : Bytes → Entries → Option Entries → Option Tree × Entries
  unfolding move_entries ends_in_dots
  move_directory src source none = at_top src (move_entries source Entries.end)
  move_directory src source (some target) = at_top src (move_entries source target)
