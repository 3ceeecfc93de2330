-- ===== src/Stations/Examples.antt =====
-- Hard Disk and File IO/q1.c: a file of three lines.
use mathlib.Core.Option.{some-injective}
use os_in_parts.Prelude.{ℕ, ◌≡◌, refl, ap, subst, arith, Option, some, List, [], ◌∷◌, map, All}
use os_in_parts.Prelude.Names.{strcmp}
use os_in_parts.Stations.Double.{degrees}
use os_in_parts.Prelude.Strings.{Bytes, c_string}
use os_in_parts.Stations.Defs.{
  StationData, Line, split_at_semicolon, find_station, find_or_add_station, process_line,
  insert_station, sort_stations,
}
use os_in_parts.Stations.Files.{
  Outcome, next_line, fgets, cut_newline, mmap_lines, fread_lines, process_file_mmap,
  process_file_fread,
}
use os_in_parts.Stations.Names.{lookup}
use os_in_parts.Stations.Sorted.{Ascending}
use os_in_parts.Stations.Lines.{IsShort, lines_of}
use os_in_parts.Stations.Same.{process_file_mmap-process_file_fread}
use os_in_parts.Stations.Known.{is_in}
use os_in_parts.Stations.Tally.{NameFits, LineFits, temperatures}
use os_in_parts.Stations.Report.{columns, summary, process_file_mmap_lem}

-- `b;5`, `a;7`, `b;2`.
abbrev file : Bytes
file = b'b' ∷ b';' ∷ b'5' ∷ b'\n' ∷ b'a' ∷ b';' ∷ b'7' ∷ b'\n' ∷ b'b' ∷ b';' ∷ b'2' ∷ []

abbrev names : List Bytes
names = (b'a' ∷ []) ∷ (b'b' ∷ []) ∷ []

abbrev lines : List (Line ℕ)
lines =
    record { name = b'a' ∷ []; min = 7; mean = 7; max = 7 }
    ∷ record { name = b'b' ∷ []; min = 2; mean = 3; max = 5 }
    ∷ []

file-mmap : process_file_mmap (some file) ≡ Outcome.printed lines
unfolding process_file_mmap mmap_lines next_line process_line find_or_add_station find_station
    split_at_semicolon strcmp c_string sort_stations insert_station
file-mmap = refl

file-fread : process_file_fread (some file) ≡ Outcome.printed lines
unfolding process_file_fread fread_lines fgets cut_newline process_line find_or_add_station
    find_station split_at_semicolon strcmp c_string sort_stations insert_station
file-fread = refl

file-IsShort : All IsShort (lines_of file)
unfolding lines_of
file-IsShort = (omega arith, (omega arith, (omega arith, tt)))

a-NameFits : NameFits names (b'a' ∷ [])
unfolding is_in strcmp
a-NameFits = (omega arith, refl)

b-NameFits : NameFits names (b'b' ∷ [])
unfolding is_in strcmp
b-NameFits = (omega arith, refl)

-- The name that is read is the one that fits.
same-NameFits :
    (name value name' value' : Bytes)
    → NameFits names name
    → ◌≡◌ {A = Option (Bytes × Bytes)} (some (name, value)) (some (name', value'))
    → NameFits names name'
same-NameFits name value name' value' h e =
    subst (NameFits names) (ap (λ p. p.0) (some-injective _ _ e)) h

file-LineFits : All (LineFits names) (lines_of file)
unfolding lines_of split_at_semicolon c_string
file-LineFits = (
  (λ n v. same-NameFits (b'b' ∷ []) (b'5' ∷ []) n v b-NameFits),
  (
    (λ n v. same-NameFits (b'a' ∷ []) (b'7' ∷ []) n v a-NameFits),
    ((λ n v. same-NameFits (b'b' ∷ []) (b'2' ∷ []) n v b-NameFits), tt),
  ),
)

process_file_mmap-process_file_fread_example :
    process_file_mmap {W = ℕ} (some file) ≡ process_file_fread (some file)
process_file_mmap-process_file_fread_example =
    process_file_mmap-process_file_fread (some file) (λ e. cc)
      (λ bytes e. subst (λ b. All IsShort (lines_of b)) (some-injective _ _ e) file-IsShort)

process_file_mmap_lem_example :
    (stations : List (StationData ℕ)) × (process_file_mmap (some file)
      ≡ Outcome.printed (map columns stations))
    × Ascending stations
    × ((name : Bytes) → lookup name stations ≡ summary name (temperatures name (lines_of file)))
process_file_mmap_lem_example =
    process_file_mmap_lem names file (λ e. cc) (omega arith) file-IsShort file-LineFits
