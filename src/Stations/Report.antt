-- ===== src/Stations/Report.antt =====
-- Hard Disk and File IO/q1.c: the report on a file.
use os_in_parts.Prelude.{
  suc, ◌+◌, ◌≤◌, ◌≡◌, ◌≢◌, refl, ap, ◌∙◌, arith, Option, none, some, List, [], ◌∷◌, map, length,
  All, if◌then◌else◌,
}
use os_in_parts.Stations.Double.{Double}
use os_in_parts.Prelude.Strings.{Bytes}
use os_in_parts.Stations.Defs.{
  max_stations, StationData, add_temperature, new_station, sort_stations, Line,
}
use os_in_parts.Stations.Files.{Outcome, report, process_file_mmap}
use os_in_parts.Stations.Names.{lookup, Distinct}
use os_in_parts.Stations.Sorted.{Ascending, sort_stations-lookup, sort_stations-Ascending}
use os_in_parts.Stations.Lines.{IsShort, lines_of}
use os_in_parts.Stations.Same.{mmap_lines-tally_lines}
use os_in_parts.Stations.Tally.{LineFits, temperatures, add_all, extended, tally_lines_lem}

module _ {W : Type 0} ⦃d : Double W⦄ where
  -- The least and the greatest of temperatures, and their sum, each from a start.
  abbrev pub least : W → List W → W
  least m [] = m
  least m (t ∷ ts) = least (if d.less t m then t else m) ts

  abbrev pub greatest : W → List W → W
  greatest m [] = m
  greatest m (t ∷ ts) = greatest (if d.less m t then t else m) ts

  abbrev pub sum_of : W → List W → W
  sum_of s [] = s
  sum_of s (t ∷ ts) = sum_of (d.add s t) ts

  -- What a name with these temperatures should have in the report; none if it has none.
  abbrev pub summary : Bytes → List W → Option (StationData W)
  summary name [] = none
  summary name (t ∷ ts) = some (record {
    name = name;
    min_temp = least d.dbl_max (t ∷ ts);
    max_temp = greatest d.neg_dbl_max (t ∷ ts);
    total_temp = sum_of d.nought (t ∷ ts);
    count = length (t ∷ ts);
  })

  -- The columns of a station: its name, its least temperature, the sum divided by the number, and its
  -- greatest temperature.
  abbrev pub columns : StationData W → Line W
  columns s = record {
    name = s.name;
    min = s.min_temp;
    mean = d.over s.total_temp s.count;
    max = s.max_temp;
  }

  add_all_lem :
      (ts : List W) (s : StationData W)
      → add_all ts s ≡ record {
        name = s.name;
        min_temp = least s.min_temp ts;
        max_temp = greatest s.max_temp ts;
        total_temp = sum_of s.total_temp ts;
        count = s.count + length ts;
      }
  add_all_lem [] s =
      let e : s.count ≡ s.count + 0 = omega arith in ap (λ c. record s { count = c }) e
  add_all_lem (t ∷ ts) s =
      let e : s.count + 1 + length ts ≡ s.count + suc (length ts) = omega arith in
      add_all_lem ts (add_temperature t s) ∙ rw e refl

  extended-summary : (n : Bytes) (ts : List W) → extended n none ts ≡ summary n ts
  extended-summary n [] = refl
  extended-summary n (t ∷ ts) =
      let e : 0 + length (t ∷ ts) ≡ length (t ∷ ts) = omega arith in
      ap some (add_all_lem (t ∷ ts) (new_station n) ∙ rw e refl)

  -- If a file is not empty, no line of it has more than 119 bytes, and the names of its readings have
  -- fewer than 99 bytes and are among 10000 names at most, then it is read without a fault, and the
  -- report has its names in ascending order, and has for each name the number, the least, the
  -- greatest and the sum, in the order of the lines, of the temperatures of that name: no line of the
  -- report for a name that has no reading. A line has the name, the least temperature, the sum divided
  -- by the number, and the greatest temperature.
  pub process_file_mmap_lem :
      (known : List Bytes) (bytes : Bytes)
      → bytes ≢ []
      → length known ≤ max_stations
      → All IsShort (lines_of bytes)
      → All (LineFits known) (lines_of bytes)
      → (stations : List (StationData W)) × (process_file_mmap (some bytes)
          ≡ Outcome.printed (map columns stations))
        × Ascending stations
        × ((name : Bytes)
            → lookup name stations ≡ summary name (temperatures name (lines_of bytes)))
  unfolding process_file_mmap
  process_file_mmap_lem known [] some_byte few short fits = absurd (some_byte refl)
  process_file_mmap_lem known (c ∷ cs) some_byte few short fits =
      let (stations, run, v, seen) =
        tally_lines_lem {W = W} known (lines_of (c ∷ cs)) [] few fits (unfold Distinct in tt)
          (λ n s e. absurd (unfold lookup in cc)) in
      (
        sort_stations stations,
        ap report (mmap_lines-tally_lines _ (c ∷ cs) [] (omega arith) short ∙ run),
        sort_stations-Ascending stations v,
        λ n.
            sort_stations-lookup stations n v
            ∙ seen n
            ∙ (unfold lookup in extended-summary n (temperatures n (lines_of (c ∷ cs)))),
      )
