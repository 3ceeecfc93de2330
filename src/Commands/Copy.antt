-- ===== src/Commands/Copy.antt =====
-- Hard Disk and File IO/q5/copy.c: the copy of a file.
-- A path is a string that names a regular file by its number, a directory, or nothing; two paths can name
-- one file. A write is taken to store all its bytes. In a directory the path that is written would be
-- that of the directory and the name of the source, but it is used after the block that holds it has
-- ended, so that nothing is known of what follows.
use os_in_parts.Prelude.{
  ℕ, zero, suc, ◌+◌, Bool, not, ◌||◌, Option, none, some, [], ◌++◌, length, ◌==◌, if◌then◌else◌,
  update,
}
use os_in_parts.Prelude.Strings.{Bytes, take, drop}
use os_in_parts.Prelude.Names.{same_name}

-- `can_read` says whether what is at a path can be opened for reading, `can_write` whether a file can
-- be opened or created at a path for writing, and `fresh` is the number of the next file that is
-- created.
pub record FileSystem : Type 0 where
  pub file : Bytes → Option ℕ
  pub is_dir : Bytes → Bool
  pub can_read : Bytes → Bool
  pub can_write : Bytes → Bool
  pub contents : ℕ → Bytes
  pub fresh : ℕ

-- What is printed at the end, with the path that was written.
pub data Message : Type 0 where
  open_src : Message
  open_dest : Message
  copied : Bytes → Message

-- A message and the file system that is left, or the use of a path whose block has ended.
pub data Outcome : Type 0 where
  done : Message → FileSystem → Outcome
  dangling : Outcome

abbrev pub buffer_size : ℕ
buffer_size = 1024

-- A directory can be opened, but not read.
abbrev pub open_source : FileSystem → Bytes → Option (Option ℕ)
open_source fs src =
    if not (fs.can_read src)
    then none
    else if fs.is_dir src
    then some none
    else elim (fs.file src) [ none ↦ none | some i ↦ some (some i) ]

abbrev pub opened : FileSystem → Bytes → Option ℕ → ℕ × FileSystem
opened fs path (some i) = (i, record fs { contents = update fs.contents i [] })
opened fs path none = (
  fs.fresh,
  record fs {
    file = λ p. if same_name p path then some fs.fresh else fs.file p;
    contents = update fs.contents fs.fresh [];
    fresh = fs.fresh + 1;
  },
)

-- `open` with O_CREAT and O_TRUNC.
abbrev pub open_target : FileSystem → Bytes → Option (ℕ × FileSystem)
open_target fs path =
    if fs.is_dir path || not (fs.can_write path) then none else some (opened fs path (fs.file path))

-- The loop, from a position in the source on, with at most `fuel` rounds.
unfoldable pub copy_loop : ℕ → ℕ → ℕ → ℕ → FileSystem → FileSystem
copy_loop zero src_fd dest_fd at fs = fs
copy_loop (suc fuel) src_fd dest_fd at fs =
    let chunk = take buffer_size (drop at (fs.contents src_fd)) in
    let rest =
      copy_loop fuel src_fd dest_fd (at + length chunk)
        (record fs { contents = update fs.contents dest_fd (fs.contents dest_fd ++ chunk) }) in
    if length chunk == 0 then fs else rest

abbrev pub copy_opened : Option ℕ → Bytes → ℕ × FileSystem → Outcome
copy_opened none path (dest_fd, fs) = Outcome.done (Message.copied path) fs
copy_opened (some src_fd) path (dest_fd, fs) =
    Outcome.done (Message.copied path)
      (copy_loop (length (fs.contents src_fd) + 1) src_fd dest_fd 0 fs)

-- What follows once the source is open.
abbrev pub copy_to : Option ℕ → FileSystem → Bytes → Outcome
copy_to source fs dest = if fs.is_dir dest then Outcome.dangling else elim (open_target fs dest) [
  | none ↦ Outcome.done Message.open_dest fs
  | some destination ↦ copy_opened source dest destination
]

unfoldable pub copy_file : FileSystem → Bytes → Bytes → Outcome
unfolding copy_loop
copy_file fs src dest = elim (open_source fs src) [
  | none ↦ Outcome.done Message.open_src fs
  | some source ↦ copy_to source fs dest
]
