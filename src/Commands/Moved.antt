-- ===== src/Commands/Moved.antt =====
-- Hard Disk and File IO/q5/move.c: what a move leaves.
use os_in_parts.Prelude.{
  ◌≡◌, refl, ap, ◌∙◌, subst, arith, false, Option, none, some, inl, inr, if◌then◌else◌, Bool-cases,
}
use os_in_parts.Prelude.Strings.{Bytes}
use os_in_parts.Prelude.Names.{same_name, same_name_refl, same_name-true}
use os_in_parts.Commands.Move.{
  Tree, Entries, find, ends_in_dots, after_move, move_entries, at_top, move_directory,
}

-- Each name stands once in each directory.
unfoldable pub IsNamed : Entries → Type 0
IsNamed Entries.end = Unit
IsNamed (Entries.entry name (Tree.file contents) entries) =
    (find name entries ≡ none) × IsNamed entries
IsNamed (Entries.entry name (Tree.directory inside) entries) =
    (find name entries ≡ none) × IsNamed inside × IsNamed entries

-- The names of the first are not in the second.
abbrev pub Apart : Entries → Entries → Type 0
Apart source target =
    (name : Bytes) (tree : Tree) → find name source ≡ some tree → find name target ≡ none

-- The entries of a target that are not of the source are as they were.
abbrev pub Keeps : (source old new : Entries) → Type 0
Keeps source old new = (n : Bytes) → find n source ≡ none → find n new ≡ find n old

-- The second has each file of the first, with its contents, and each directory, with the same in it, in
-- any order, and nothing else in it.
unfoldable pub HasAll : Entries → Entries → Type 0
HasAll Entries.end new = Unit
HasAll (Entries.entry name (Tree.file contents) entries) new =
    (find name new ≡ some (Tree.file contents)) × HasAll entries new
HasAll (Entries.entry name (Tree.directory inside) entries) new =
    ((inside' : Entries) × (find name new ≡ some (Tree.directory inside'))
      × HasAll inside inside'
      × Keeps inside Entries.end inside')
    × HasAll entries new

-- What is left of a directory that was moved, and the target.
abbrev pub Moves : Entries → Entries → Entries × Entries → Type 0
Moves source target result =
    (new : Entries) × (result ≡ (Entries.end, new)) × HasAll source new × Keeps source target new

-- The target directory, which is made if it is not there.
abbrev pub or_new : Option Entries → Entries
or_new none = Entries.end
or_new (some entries) = entries

-- What is left at the path of a source that has become empty: nothing, unless the path ends in dots.
abbrev pub emptied : Bytes → Option Tree
emptied src = if ends_in_dots src then some (Tree.directory Entries.end) else none

-- A name that is set in a directory is found there, and the others are as they were.
abbrev pub Places : (Bytes → Tree → Entries → Entries) → Type 0
Places place =
    (n name : Bytes) (tree : Tree) (entries : Entries)
    → find n (place name tree entries) ≡ (if same_name name n then some tree else find n entries)

Apart-first :
    (name : Bytes) (tree : Tree) (entries target : Entries)
    → Apart (Entries.entry name tree entries) target
    → find name target ≡ none
unfolding find
Apart-first name tree entries target apart = apart name tree (ground (arith, same_name_refl name))

-- A name that is not among the entries is not the first, and not among those behind it.
find-none :
    (n name : Bytes) (tree : Tree) (entries : Entries)
    → find n (Entries.entry name tree entries) ≡ none
    → (same_name name n ≡ false) × (find n entries ≡ none)
unfolding find
find-none n name tree entries e = ground (arith, e)

module _ (place : Bytes → Tree → Entries → Entries) (places : Places place) where
  -- What is behind a new entry is apart from the target with it.
  Apart-next :
      (name : Bytes) (tree tree' : Tree) (entries target : Entries)
      → find name entries ≡ none
      → Apart (Entries.entry name tree entries) target
      → Apart entries (place name tree' target)
  unfolding find
  Apart-next name tree tree' entries target new apart n t e = elim (Bool-cases (same_name name n)) [
    | inl same ↦
        let missing : find n entries ≡ none =
          subst (λ x. find x entries ≡ none) (same_name-true name n same) new in
        absurd (cc)
    | inr other ↦ places n name tree' target ∙ rw other (apart n t (ground (arith, e, other)))
  ]

  -- The entries behind one that has been moved.
  Keeps-next :
      (name : Bytes) (tree tree' : Tree) (entries target new : Entries)
      → Keeps entries (place name tree' target) new
      → Keeps (Entries.entry name tree entries) target new
  Keeps-next name tree tree' entries target new keeps n e =
      let (other, behind) = find-none n name tree entries e in
      keeps n behind ∙ places n name tree' target ∙ rw other refl

  found :
      (name : Bytes) (tree : Tree) (entries target new : Entries)
      → find name entries ≡ none
      → Keeps entries (place name tree target) new
      → find name new ≡ some tree
  found name tree entries target new once keeps =
      keeps name once ∙ places name name tree target ∙ rw (same_name_refl name) refl

  move_entries-Moves :
      (source target : Entries)
      → IsNamed source
      → Apart source target
      → Moves source target (move_entries place source target)
  unfolding IsNamed move_entries HasAll
  move_entries-Moves Entries.end target v apart = (target, refl, tt, λ n e. refl)
  move_entries-Moves (Entries.entry name (Tree.file contents) entries) target v apart =
      let tree = Tree.file contents in
      let missing = Apart-first name tree entries target apart in
      let (new, e, all, keeps) =
        move_entries-Moves entries (place name tree target) v.1
          (Apart-next name tree tree entries target v.0 apart) in
      (
        new,
        rw missing (ap (after_move name none) e),
        (found name tree entries target new v.0 keeps, all),
        Keeps-next name tree tree entries target new keeps,
      )
  move_entries-Moves (Entries.entry name (Tree.directory inside) entries) target v apart =
      let missing = Apart-first name (Tree.directory inside) entries target apart in
      let (inside', below, all', keeps') =
        move_entries-Moves inside Entries.end v.1 (λ n t e. unfold find in refl) in
      let tree = Tree.directory inside' in
      let (new, e, all, keeps) =
        move_entries-Moves entries (place name tree target) v.2
          (Apart-next name (Tree.directory inside) tree entries target v.0 apart) in
      (
        new,
        rw missing (rw below (ap (after_move name none) e)),
        ((inside', found name tree entries target new v.0 keeps, all', keeps'), all),
        Keeps-next name (Tree.directory inside) tree entries target new keeps,
      )

  -- If a name that is set in a directory is found there with the others as they were, and each name stands once in each directory
  -- of the source, and none of its own names is in the target directory, or there is no target yet,
  -- then `move_directory` moves everything: the source becomes empty, and is removed unless its path
  -- ends in `.` or `..`; the target has what it had, and each file and each directory of the source at
  -- any depth, in whatever order.
  pub move_directory_lem :
      (src : Bytes) (source : Entries) (target : Option Entries)
      → IsNamed source
      → ((entries : Entries) → target ≡ some entries → Apart source entries)
      → (new : Entries) × (move_directory place src source target ≡ (emptied src, new))
        × HasAll source new
        × Keeps source (or_new target) new
  unfolding move_directory
  move_directory_lem src source none v apart =
      let (new, e, all, keeps) =
        move_entries-Moves source Entries.end v (λ n t e. unfold find in refl) in
      (new, ap (at_top src) e, all, keeps)
  move_directory_lem src source (some target) v apart =
      let (new, e, all, keeps) = move_entries-Moves source target v (apart target refl) in
      (new, ap (at_top src) e, all, keeps)
