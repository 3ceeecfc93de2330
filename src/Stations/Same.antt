-- ===== src/Stations/Same.antt =====
-- Hard Disk and File IO/q1.c: both ways of reading give the same report.
use os_in_parts.Prelude.{
  ℕ, zero, suc, ◌≤◌, ◌≡◌, ◌≢◌, refl, sym, ap, ◌∙◌, subst, arith, true, Option, none, some, List, [],
  ◌∷◌, length, All, leb, inl, inr, dec_lt, and_then, and_then-cong,
}
use os_in_parts.Stations.Double.{Double}
use os_in_parts.Prelude.Strings.{Bytes, c_string}
use os_in_parts.Stations.Defs.{max_line, StationData, process_line, split_at_semicolon}
use os_in_parts.Stations.Files.{
  next_line, mmap_lines, fread_lines, report, process_file_mmap, process_file_fread,
}
use os_in_parts.Stations.Lines.{
  IsShort, lines_of, lines_of-next_line, next_line-shorter, next_line-fits, fgets_short, fgets_full,
}

-- The first line of a file of short lines, and those that are left.
first_line :
    (c : ℕ) (cs : Bytes)
    → All IsShort (lines_of (c ∷ cs))
    → IsShort (next_line (c ∷ cs)).0 × All IsShort (lines_of (next_line (c ∷ cs)).1)
first_line c cs h = subst (All IsShort) (lines_of-next_line c cs) h

module _ {W : Type 0} ⦃d : Double W⦄ where
  -- The lines of a file, one after the other.
  unfoldable pub tally_lines : List Bytes → List (StationData W) → Option (List (StationData W))
  tally_lines [] stations = some stations
  tally_lines (line ∷ lines) stations =
      and_then (process_line (c_string line) stations) (tally_lines lines)

  -- Enough rounds are as many as the file has bytes.
  pub mmap_lines-tally_lines :
      (fuel : ℕ) (bytes : Bytes) (stations : List (StationData W))
      → length bytes ≤ fuel
      → All IsShort (lines_of bytes)
      → mmap_lines fuel bytes stations ≡ tally_lines (lines_of bytes) stations
  unfolding mmap_lines tally_lines
  mmap_lines-tally_lines zero [] stations h short = unfold lines_of in refl
  mmap_lines-tally_lines zero (c ∷ cs) stations h short = absurd (omega arith)
  mmap_lines-tally_lines (suc fuel) [] stations h short = unfold lines_of in refl
  mmap_lines-tally_lines (suc fuel) (c ∷ cs) stations h short =
      let (fits, short') = first_line c cs short in
      let le : leb (length (next_line (c ∷ cs)).0) max_line ≡ true = ground arith in
      rw (lines_of-next_line c cs, le)
        (and_then-cong _ _ _ (λ stations'.
          mmap_lines-tally_lines fuel (next_line (c ∷ cs)).1 stations'
            (omega (arith, next_line-shorter c cs)) short'))

  -- A newline that `fgets` has left is read as an empty line.
  tally_lines-newline :
      (rest : Bytes) (stations : List (StationData W))
      → tally_lines (lines_of (b'\n' ∷ rest)) stations ≡ tally_lines (lines_of rest) stations
  unfolding tally_lines lines_of process_line split_at_semicolon c_string
  tally_lines-newline rest stations = refl

  pub fread_lines-tally_lines :
      (fuel : ℕ) (bytes : Bytes) (stations : List (StationData W))
      → length bytes ≤ fuel
      → All IsShort (lines_of bytes)
      → fread_lines fuel bytes stations ≡ tally_lines (lines_of bytes) stations
  unfolding fread_lines tally_lines
  fread_lines-tally_lines zero [] stations h short = unfold lines_of in refl
  fread_lines-tally_lines zero (c ∷ cs) stations h short = absurd (omega arith)
  fread_lines-tally_lines (suc fuel) [] stations h short = unfold lines_of in refl
  fread_lines-tally_lines (suc fuel) (c ∷ cs) stations h short =
      let (fits, short') = first_line c cs short in
      let shorter = next_line-shorter c cs in
      rw (lines_of-next_line c cs) (elim (dec_lt (length (next_line (c ∷ cs)).0) max_line) [
        | yes lt ↦
            let (same, rest) = fgets_short max_line (c ∷ cs) lt in
            rw (same, rest)
              (and_then-cong _ _ _ (λ stations'.
                fread_lines-tally_lines fuel (next_line (c ∷ cs)).1 stations' (omega arith) short'))
        | no full ↦
            let (same, rest) = fgets_full max_line (c ∷ cs) (omega arith) in
            rw same (elim rest [
              | inl left ↦ rw left (
                  and_then-cong _ _ _ (λ stations'.
                    fread_lines-tally_lines fuel (b'\n' ∷ (next_line (c ∷ cs)).1) stations'
                      (omega (arith, next_line-fits (c ∷ cs)))
                      (unfold lines_of in (omega arith, short'))
                    ∙ tally_lines-newline (next_line (c ∷ cs)).1 stations'))
              | inr (left, ended) ↦
                  rw (left, ended)
                    (and_then-cong _ _ _ (λ stations'.
                      fread_lines-tally_lines fuel [] stations' (omega arith)
                        (unfold lines_of in tt)))
            ])
      ])

  -- If no line of a file that is not empty has more than 119 bytes, then both ways of reading it give
  -- the same: the same report, or a fault for a name of 99 bytes or more. A file that cannot be opened
  -- is reported as such by both.
  pub process_file_mmap-process_file_fread :
      (file : Option Bytes)
      → file ≢ some []
      → ((bytes : Bytes) → file ≡ some bytes → All IsShort (lines_of bytes))
      → process_file_mmap {W = W} file ≡ process_file_fread file
  unfolding process_file_mmap process_file_fread
  process_file_mmap-process_file_fread none some_byte short = refl
  process_file_mmap-process_file_fread (some []) some_byte short = absurd (some_byte refl)
  process_file_mmap-process_file_fread (some (c ∷ cs)) some_byte short = ap report (
      mmap_lines-tally_lines _ (c ∷ cs) [] (omega arith) (short (c ∷ cs) refl)
      ∙ sym (fread_lines-tally_lines _ (c ∷ cs) [] (omega arith) (short (c ∷ cs) refl)))
