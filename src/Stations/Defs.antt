-- ===== src/Stations/Defs.antt =====
-- Hard Disk and File IO/q1.c: the temperatures of stations, read from a file in two ways.
-- A file is the list of its bytes. A buffer that is read as a string is what stands in it before its
-- first NUL.
use Prim.Native.Nat.{Ordering}
use os_in_parts.Prelude.{
  ℕ, suc, ◌+◌, Option, none, some, List, [], ◌∷◌, ◌++◌, length, get_elem?, set, ltb, ◌-◌, ◌==◌,
  if◌then◌else◌, and_then,
}
use os_in_parts.Prelude.Strings.{Bytes}
use os_in_parts.Prelude.Names.{strcmp, same_name}
use os_in_parts.Stations.Double.{Double}

abbrev pub max_stations : ℕ
max_stations = 10000

abbrev pub max_name_length : ℕ
max_name_length = 100

-- `line_copy` and `line` have `MAX_NAME_LENGTH + 20` bytes, one of them for the NUL.
abbrev pub max_line : ℕ
max_line = 119

pub record StationData (W : Type 0) : Type 0 where
  pub name : Bytes
  pub min_temp : W
  pub max_temp : W
  pub total_temp : W
  pub count : ℕ

-- A line of the report: name, least, mean and greatest temperature.
pub record Line (W : Type 0) : Type 0 where
  pub name : Bytes
  pub min : W
  pub mean : W
  pub max : W

abbrev pub after_byte : ℕ → Option (Bytes × Bytes) → Option (Bytes × Bytes)
after_byte c none = none
after_byte c (some (name, value)) = some (c ∷ name, value)

-- What is before the first `;` of a string, and what is after it.
unfoldable pub split_at_semicolon : Bytes → Option (Bytes × Bytes)
split_at_semicolon [] = none
split_at_semicolon (c ∷ cs) =
    let rest = after_byte c (split_at_semicolon cs) in if c == b';' then some ([], cs) else rest

abbrev pub next_index : Option ℕ → Option ℕ
next_index none = none
next_index (some i) = some (suc i)

-- The part of the array of stations that is in use is a list.
module _ {W : Type 0} where
  -- The search loop of `find_or_add_station`.
  unfoldable pub find_station : List (StationData W) → Bytes → Option ℕ
  find_station [] name = none
  find_station (s ∷ stations) name =
      let rest = next_index (find_station stations name) in
      if same_name s.name name then some 0 else rest

  -- `qsort` by the names: they are all different, so any sort gives the same.
  unfoldable pub insert_station : StationData W → List (StationData W) → List (StationData W)
  insert_station s [] = s ∷ []
  insert_station s (x ∷ stations) =
      let rest = insert_station s stations in
      elim (strcmp s.name x.name) [ Ordering.gt ↦ x ∷ rest | _ ↦ s ∷ x ∷ stations ]

  unfoldable pub sort_stations : List (StationData W) → List (StationData W)
  sort_stations [] = []
  sort_stations (s ∷ stations) = insert_station s (sort_stations stations)

module _ {W : Type 0} ⦃d : Double W⦄ where
  abbrev pub new_station : Bytes → StationData W
  new_station name = record {
    name = name;
    min_temp = d.dbl_max;
    max_temp = d.neg_dbl_max;
    total_temp = d.nought;
    count = 0;
  }

  -- The stations, and the index of the one that is returned: no index is `NULL`. `strncpy` copies 99
  -- bytes at most, and the last byte of a new name is not set, so a longer name is read past its
  -- end, when the report is printed at the latest: that is the fault.
  unfoldable pub find_or_add_station :
      List (StationData W) → Bytes → Option (List (StationData W) × Option ℕ)
  find_or_add_station stations name = elim (find_station stations name) [
    | some i ↦ some (stations, some i)
    | none ↦
        if ltb (length stations) max_stations
        then (if ltb (length name) (max_name_length - 1)
            then some (stations ++ new_station name ∷ [], some (length stations))
            else none)
        else some (stations, none)
  ]

  -- The four assignments to a station.
  abbrev pub add_temperature : W → StationData W → StationData W
  add_temperature temperature s = record {
    name = s.name;
    min_temp = if d.less temperature s.min_temp then temperature else s.min_temp;
    max_temp = if d.less s.max_temp temperature then temperature else s.max_temp;
    total_temp = d.add s.total_temp temperature;
    count = s.count + 1;
  }

  abbrev pub update_station : W → List (StationData W) × Option ℕ → List (StationData W)
  update_station temperature (stations, none) = stations
  update_station temperature (stations, some i) = elim (get_elem? stations i) [
    | none ↦ stations
    | some s ↦ set stations i (add_temperature temperature s)
  ]

  abbrev pub tally : Bytes → W → List (StationData W) → Option (List (StationData W))
  tally name temperature stations =
      and_then (find_or_add_station stations name)
        (λ found. some (update_station temperature found))

  -- The body of both loops once the line is a string. `none` is a fault.
  unfoldable pub process_line : Bytes → List (StationData W) → Option (List (StationData W))
  process_line line stations = elim (split_at_semicolon line) [
    | none ↦ some stations
    | some (name, value) ↦ tally name (d.atof value) stations
  ]

  abbrev pub line_of : StationData W → Line W
  line_of s = record {
    name = s.name;
    min = s.min_temp;
    mean = d.over s.total_temp s.count;
    max = s.max_temp;
  }
