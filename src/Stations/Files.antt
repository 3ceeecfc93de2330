-- ===== src/Stations/Files.antt =====
-- Hard Disk and File IO/q1.c: `process_file_mmap` and `process_file_fread`.
use os_in_parts.Prelude.{
  ℕ, zero, suc, ◌||◌, Option, none, some, List, [], ◌∷◌, map, length, leb, ◌==◌, if◌then◌else◌,
  and_then,
}
use os_in_parts.Stations.Double.{Double}
use os_in_parts.Prelude.Strings.{Bytes, c_string}
use os_in_parts.Stations.Defs.{max_line, StationData, Line, process_line, sort_stations, line_of}

-- What a run gives: an error message, undefined behaviour, or the lines that it prints.
pub data Outcome (W : Type 0) : Type 0 where
  failed : Outcome W
  fault : Outcome W
  printed : List (Line W) → Outcome W

-- `memchr`: the bytes up to the next newline, or to the end, and those after it.
unfoldable pub next_line : Bytes → Bytes × Bytes
next_line [] = ([], [])
next_line (c ∷ cs) =
    let (line, rest) = next_line cs in if c == b'\n' then ([], cs) else (c ∷ line, rest)

-- `fgets`: at most `n` bytes, with the newline if it is among them, and the rest of the file.
unfoldable pub fgets : ℕ → Bytes → Bytes × Bytes
fgets zero bytes = ([], bytes)
fgets (suc n) [] = ([], [])
fgets (suc n) (c ∷ cs) =
    let (line, rest) = fgets n cs in if c == b'\n' then (c ∷ [], cs) else (c ∷ line, rest)

-- `line[strcspn(line, "\n")] = 0`, and the string that is left.
unfoldable pub cut_newline : Bytes → Bytes
cut_newline [] = []
cut_newline (c ∷ cs) = if c == b'\n' || c == 0 then [] else c ∷ cut_newline cs

module _ {W : Type 0} ⦃d : Double W⦄ where
  -- The loop over the mapped file, with at most `fuel` rounds. A line that is longer than the buffer
  -- is copied past its end.
  unfoldable pub mmap_lines : ℕ → Bytes → List (StationData W) → Option (List (StationData W))
  mmap_lines zero bytes stations = some stations
  mmap_lines (suc fuel) [] stations = some stations
  mmap_lines (suc fuel) (c ∷ cs) stations =
      let (line, rest) = next_line (c ∷ cs) in
      if leb (length line) max_line
      then and_then (process_line (c_string line) stations) (mmap_lines fuel rest)
      else none

  -- The loop over `fgets`, which ends when nothing is left.
  unfoldable pub fread_lines : ℕ → Bytes → List (StationData W) → Option (List (StationData W))
  fread_lines zero bytes stations = some stations
  fread_lines (suc fuel) [] stations = some stations
  fread_lines (suc fuel) (c ∷ cs) stations =
      let (line, rest) = fgets max_line (c ∷ cs) in
      and_then (process_line (cut_newline line) stations) (fread_lines fuel rest)

  -- The report on the stations, or the fault before it.
  abbrev pub report : Option (List (StationData W)) → Outcome W
  report none = Outcome.fault
  report (some stations) = Outcome.printed (map line_of (sort_stations stations))

  -- The argument is the file, or none if it cannot be opened. An empty file cannot be mapped.
  unfoldable pub process_file_mmap : Option Bytes → Outcome W
  process_file_mmap none = Outcome.failed
  process_file_mmap (some []) = Outcome.failed
  process_file_mmap (some (c ∷ cs)) = report (mmap_lines (length (c ∷ cs)) (c ∷ cs) [])

  unfoldable pub process_file_fread : Option Bytes → Outcome W
  process_file_fread none = Outcome.failed
  process_file_fread (some bytes) = report (fread_lines (length bytes) bytes [])
